-- ===== src/AgentNames/Hashing.antt =====
-- The names of dummy agents: independent of the order of the map, and shared by maps whose keys and values read the same when they are written one behind the other.
use azure_pipelines_k8s_agen.Prelude.{
  ℕ, List, [], ◌∷◌, ◌++◌, Option, none, some, ◌≡◌, refl, sym, ◌∙◌, ap,
}
use azure_pipelines_k8s_agen.Text.{Text, codes, text_eq_refl}
use azure_pipelines_k8s_agen.Text.Sort.{sort}
use azure_pipelines_k8s_agen.GoMap.{GoMap, keys, IsMap, lookup, get_or}
use azure_pipelines_k8s_agen.GoMap.Same.{Same, sort-keys-Same}
use azure_pipelines_k8s_agen.AgentNames.{
  write_text, write_entries, hex_digits, fnv_bytes, utf8, compute_map_hash, get_dummy_agent_name,
  dummy_agent_name_prefix, fnv_offset,
}

write_entries-Same :
    (m m' : GoMap Text) (ks : List Text) (h : ℕ)
    → Same m m'
    → write_entries m h ks ≡ write_entries m' h ks
unfolding write_entries
write_entries-Same m m' [] h s = refl
write_entries-Same m m' (k ∷ ks) h s =
    write_entries-Same m m' ks (write_text (write_text h k) (get_or m k [])) s
    ∙ ap
        (λ (o : Option Text).
          write_entries m' (write_text (write_text h k) (elim o [ none ↦ [] | some v ↦ v ])) ks)
        (s k)

-- Maps with one entry to a key that give every key the same value have the same hash, in whatever order they are visited.
pub compute_map_hash-Same :
    (m m' : GoMap Text)
    → IsMap m
    → IsMap m'
    → ((k : Text) → lookup m k ≡ lookup m' k)
    → compute_map_hash m ≡ compute_map_hash m'
unfolding compute_map_hash
compute_map_hash-Same m m' d d' s = ap (hex_digits 16) (
    write_entries-Same m m' (sort (keys m)) fnv_offset s
    ∙ ap (write_entries m' fnv_offset) (sort-keys-Same m m' d d' s))

write_text-append : (s t : Text) (h : ℕ) → write_text h (s ++ t) ≡ write_text (write_text h s) t
unfolding write_text
write_text-append [] t h = refl
write_text-append (c ∷ s) t h = write_text-append s t (fnv_bytes h (utf8 c))

append_assoc : (a b c : Text) → (a ++ b) ++ c ≡ a ++ (b ++ c)
append_assoc [] b c = refl
append_assoc (x ∷ a) b c = ap (λ l. x ∷ l) (append_assoc a b c)

lookup_single : (k v : Text) → lookup ((k, v) ∷ []) k ≡ some v
unfolding lookup
lookup_single k v = rw (text_eq_refl k) refl

write_single :
    (k v : Text) → write_entries ((k, v) ∷ []) fnv_offset (k ∷ []) ≡ write_text fnv_offset (k ++ v)
unfolding write_entries
write_single k v =
    ap
      (λ (o : Option Text).
        write_text (write_text fnv_offset k) (elim o [ none ↦ [] | some w ↦ w ]))
      (lookup_single k v)
    ∙ sym (write_text-append k v fnv_offset)

-- In a map of one entry, moving the beginning of the value to the end of the key leaves the name of
-- the dummy agent as it is.
pub get_dummy_agent_name_collision :
    (k x v : Text)
    → get_dummy_agent_name ((k ++ x, v) ∷ []) ≡ get_dummy_agent_name ((k, x ++ v) ∷ [])
unfolding get_dummy_agent_name compute_map_hash sort
get_dummy_agent_name_collision k x v =
    ap (λ h. dummy_agent_name_prefix ++ (codes "-" ++ hex_digits 16 h))
      (write_single (k ++ x) v
        ∙ ap (write_text fnv_offset) (append_assoc k x v)
        ∙ sym (write_single k (x ++ v)))
