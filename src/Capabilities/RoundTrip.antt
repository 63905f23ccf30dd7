-- ===== src/Capabilities/RoundTrip.antt =====
-- Reading a written capability map back.
use azure_pipelines_k8s_agen.Prelude.{
  Bool, true, ◌&&◌, List, [], ◌∷◌, none, some, if◌then◌else◌, ◌≡◌, refl, sym, ap, ◌∙◌, arith, all,
}
use azure_pipelines_k8s_agen.Text.{Text, codes, text_eq_iff, text_eq_refl, split, cut, join}
use azure_pipelines_k8s_agen.Text.SplitJoin.{lacks, split-join, cut_key, lacks-append}
use azure_pipelines_k8s_agen.Text.Sort.{contains, sort, contains-sort}
use azure_pipelines_k8s_agen.GoMap.{
  GoMap, keys, lookup, insert, get_or, lookup-insert, has_key-lookup, contains-has_key,
}
use azure_pipelines_k8s_agen.Capabilities.{
  pair_text, pair_texts, add_pairs, get_sorted_stringification_of_capabilities_map,
  get_capabilities_map_from_string,
}

-- No key holds `=` or `;`, and no value holds `;`.
abbrev pub encodable : GoMap Text → Bool
encodable [] = true
encodable ((k, v) ∷ m) = lacks b'=' k && lacks b';' k && lacks b';' v && encodable m

key_encodable :
    (m : GoMap Text) (k : Text)
    → encodable m ≡ true
    → contains (keys m) k ≡ true
    → (lacks b'=' k ≡ true) × (lacks b';' k ≡ true) × (lacks b';' (get_or m k []) ≡ true)
unfolding contains lookup
key_encodable [] k h p = cc
key_encodable ((j, v) ∷ m) k h p =
    ground (arith, key_encodable m k, text_eq_iff k j, text_eq_iff j k)

module _ (m : GoMap Text) where
  add_pairs-lookup :
      (acc : GoMap Text) (ks : List Text) (k : Text)
      → all (lacks b'=') ks ≡ true
      → lookup (add_pairs acc (pair_texts m ks)) k
        ≡ (if contains ks k then some (get_or m k []) else lookup acc k)
  unfolding add_pairs contains
  add_pairs-lookup acc [] k h = refl
  add_pairs-lookup acc (j ∷ ks) k h = ground (
    arith,
    cut_key b'=' j (get_or m j []),
    add_pairs-lookup (insert acc j (get_or m j [])) ks k,
    lookup-insert acc j (get_or m j []) k,
    text_eq_iff j k,
    text_eq_iff k j,
  )

  -- The keys of a list all of whose members are keys of the map.
  keys_lack :
      (ks : List Text)
      → encodable m ≡ true
      → ((k : Text) → contains ks k ≡ true → contains (keys m) k ≡ true)
      → (all (lacks b'=') ks ≡ true) × (all (lacks b';') (pair_texts m ks) ≡ true)
  unfolding contains
  keys_lack [] h s = (refl, refl)
  keys_lack (j ∷ ks) h s =
      let (no_eq, no_semi, no_semi') = key_encodable m j h (s j (rw text_eq_refl)) in
      let rest : (all (lacks b'=') ks ≡ true) × (all (lacks b';') (pair_texts m ks) ≡ true) =
        keys_lack ks h (λ k p. s k (ground arith)) in
      let pair : lacks b';' (pair_text j (get_or m j [])) ≡ true =
        lacks-append b';' j (b'=' ∷ get_or m j []) no_semi no_semi' in
      (ground arith, ground arith)

read_pairs :
    (m : GoMap Text) (ks : List Text)
    → all (lacks b';') (pair_texts m ks) ≡ true
    → get_capabilities_map_from_string (join (codes ";") (pair_texts m ks))
      ≡ add_pairs [] (pair_texts m ks)
unfolding get_capabilities_map_from_string
read_pairs m [] h = unfold join split cut add_pairs in refl
read_pairs m (j ∷ ks) h =
    ap (add_pairs []) (split-join b';' (pair_text j (get_or m j [])) (pair_texts m ks) h)

-- `GetCapabilitiesMapFromString` gives back the map that
-- `GetSortedStringificationOfCapabilitiesMap` wrote, if no key holds `=` or `;` and no value `;`.
pub from_string-stringification :
    (m : GoMap Text)
    → encodable m ≡ true
    → (k : Text)
    → lookup (get_capabilities_map_from_string (get_sorted_stringification_of_capabilities_map m)) k
      ≡ lookup m k
unfolding get_sorted_stringification_of_capabilities_map
from_string-stringification m h k =
    let fits : (all (lacks b'=') (sort (keys m)) ≡ true)
        × (all (lacks b';') (pair_texts m (sort (keys m))) ≡ true) =
      keys_lack m (sort (keys m)) h (λ j p. sym (contains-sort (keys m) j) ∙ p) in
    rw (read_pairs m (sort (keys m)) fits.1) (
      ground (
        arith,
        add_pairs-lookup m [] (sort (keys m)) k fits.0,
        contains-sort (keys m) k,
        contains-has_key m k,
        has_key-lookup m k,
        nothing k,
      ))
  where
    nothing : (j : Text) → lookup {V = Text} [] j ≡ none
    nothing j = unfold lookup in refl
