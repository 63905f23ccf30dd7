-- ===== src/Capabilities/Match.antt =====
-- What `IsInexactMatch` decides, whatever the order in which the two maps are visited.
use azure_pipelines_k8s_agen.Prelude.{
  Bool, true, false, ◌&&◌, not, [], ◌∷◌, some, ◌≡◌, ◌↔◌, ◌⊎◌, inl, inr, refl, arith, Bool-cases,
}
use azure_pipelines_k8s_agen.Text.{Text, text_eq, text_eq_iff, text_eq_refl}
use azure_pipelines_k8s_agen.Text.Sort.{contains}
use azure_pipelines_k8s_agen.GoMap.{
  GoMap, IsMap, lookup, has_key, get_or, has_key-lookup, contains-has_key,
}
use azure_pipelines_k8s_agen.Capabilities.{
  InexactMatchStringMap, extra_agent_containers_annotation_key, input_in, in_input,
  is_inexact_match,
}

module _ (m : InexactMatchStringMap) where
  input_in_sound :
      (input : GoMap Text) (k : Text)
      → input_in m input ≡ true
      → has_key input k ≡ true
      → get_or m k [] ≡ get_or input k []
  unfolding input_in has_key lookup
  input_in_sound [] k h p = cc
  input_in_sound ((j, v) ∷ input) k h p =
      ground (arith, input_in_sound input k, text_eq_iff j k, text_eq_iff (get_or m j []) v)

  -- The entries of a part of the map `whole`.
  input_in_complete :
      (whole input : GoMap Text)
      → ((k v : Text) → lookup input k ≡ some v → lookup whole k ≡ some v)
      → IsMap input
      → ((k : Text) → has_key whole k ≡ true → get_or m k [] ≡ get_or whole k [])
      → input_in m input ≡ true
  unfolding input_in has_key lookup contains
  input_in_complete whole [] part d h = refl
  input_in_complete whole ((j, v) ∷ input) part d h = ground (
    arith,
    first,
    text_eq_iff (get_or m j []) v,
    h j,
    has_key-lookup whole j,
    input_in_complete whole input later d.1 h,
  )
    where
      first : lookup whole j ≡ some v
      first = part j v (rw text_eq_refl)

      later : (k w : Text) → lookup input k ≡ some w → lookup whole k ≡ some w
      later k w e =
          part k w
            (ground (arith, text_eq_iff j k, d.0, has_key-lookup input k, contains-has_key input k))

module _ (input : GoMap Text) where
  in_input_sound :
      (m : InexactMatchStringMap) (k : Text)
      → in_input m input ≡ true
      → text_eq k extra_agent_containers_annotation_key ≡ false
      → has_key m k ≡ true
      → get_or m k [] ≡ get_or input k []
  unfolding in_input has_key lookup
  in_input_sound [] k h x p = cc
  in_input_sound ((j, v) ∷ m) k h x p =
      ground (arith, in_input_sound m k, text_eq_iff j k, text_eq_iff (get_or input j []) v)

  in_input_complete :
      (whole m : InexactMatchStringMap)
      → ((k v : Text) → lookup m k ≡ some v → lookup whole k ≡ some v)
      → IsMap m
      → ((k : Text)
          → text_eq k extra_agent_containers_annotation_key ≡ false
          → get_or whole k [] ≡ get_or input k [])
      → in_input m input ≡ true
  unfolding in_input lookup contains
  in_input_complete whole [] part d h = refl
  in_input_complete whole ((j, v) ∷ m) part d h =
      ground (
        arith,
        first,
        text_eq_iff (get_or input j []) v,
        h j,
        in_input_complete whole m later d.1 h,
      )
    where
      first : lookup whole j ≡ some v
      first = part j v (rw text_eq_refl)

      later : (k w : Text) → lookup m k ≡ some w → lookup whole k ≡ some w
      later k w e =
          part k w (ground (arith, text_eq_iff j k, d.0, has_key-lookup m k, contains-has_key m k))

missing_is_empty : (m : GoMap Text) (k : Text) → has_key m k ≡ false → get_or m k [] ≡ []
missing_is_empty m k h = ground (arith, has_key-lookup m k)

-- The key for extra containers, in a map whose input lacks it.
abbrev pub is_extra : GoMap Text → Text → Bool
is_extra input k = text_eq k extra_agent_containers_annotation_key && not (has_key input k)

-- The two maps give the key the same value, a missing key the empty one; the key for extra
-- containers counts only if the input has it.
abbrev pub AgreesAt : InexactMatchStringMap → GoMap Text → Text → Type 0
AgreesAt m input k = (is_extra input k ≡ true) ⊎ (get_or m k [] ≡ get_or input k [])

value_of_agrees :
    (m : InexactMatchStringMap) (input : GoMap Text) (k : Text)
    → AgreesAt m input k
    → is_extra input k ≡ false
    → get_or m k [] ≡ get_or input k []
value_of_agrees m input k (inl x) h = absurd (cc)
value_of_agrees m input k (inr e) h = e

module _ (m : InexactMatchStringMap) (input : GoMap Text) where
  match_sound : is_inexact_match m input ≡ true → (k : Text) → AgreesAt m input k
  unfolding is_inexact_match
  match_sound h k = elim (Bool-cases (is_extra input k)) [
    | inl x ↦ inl x
    | inr x ↦ inr (
        ground (
          arith,
          input_in_sound m input k,
          in_input_sound input m k,
          missing_is_empty m k,
          missing_is_empty input k,
        ))
  ]

  match_complete :
      IsMap m → IsMap input → ((k : Text) → AgreesAt m input k) → is_inexact_match m input ≡ true
  unfolding is_inexact_match
  match_complete d e h = ground (
    arith,
    input_in_complete m input input (λ k v p. p) e
        (λ k p. value_of_agrees m input k (h k) (ground (arith, p))),
    in_input_complete input m m (λ k v p. p) d
        (λ k p. value_of_agrees m input k (h k) (ground (arith, p))),
  )

-- On maps with one entry to a key, `IsInexactMatch` returns true exactly when every key, but the one for extra containers where the
-- input lacks it, has the same value in both maps, a missing key counting as the empty value.
pub is_inexact_match_iff :
    (m : InexactMatchStringMap) (input : GoMap Text)
    → IsMap m
    → IsMap input
    → (is_inexact_match m input ≡ true) ↔ ((k : Text) → AgreesAt m input k)
is_inexact_match_iff m input d e = (match_sound m input, match_complete m input d e)
