-- ===== src/Groups/Counts.antt =====
-- No item is lost: what `GetInexactMatch` holds, in number and under each label.
use azure_pipelines_k8s_agen.Prelude.{
  ℕ, ◌+◌, true, false, List, [], ◌∷◌, if◌then◌else◌, ◌≡◌, ◌↔◌, refl, arith, Bool-cases, inl, inr,
  ◌∙◌, sym, Bool_eq_of_iff, length, length-append,
}
use azure_pipelines_k8s_agen.Text.{Text, text_eq_iff}
use azure_pipelines_k8s_agen.Text.Sort.{contains, Distinct}
use azure_pipelines_k8s_agen.GoMap.{GoMap, keys, IsMap, lookup, insert, contains-insert}
use azure_pipelines_k8s_agen.GoMap.Same.{deep_equal, Same, deep_equal-Same}
use azure_pipelines_k8s_agen.Capabilities.{
  InexactMatchStringMap, get_sorted_stringification_of_map, is_inexact_match,
}
use azure_pipelines_k8s_agen.Capabilities.Match.{AgreesAt, is_inexact_match_iff}
use azure_pipelines_k8s_agen.Groups.{Group, add_member, matches_onto, get_inexact_match, total}
use azure_pipelines_k8s_agen.Groups.Shape.{IsLabel, IsGrouped, AllLabels, labels}

agrees-Same :
    (m m' : InexactMatchStringMap) (input : GoMap Text) (k : Text)
    → lookup m k ≡ lookup m' k
    → AgreesAt m input k
    → AgreesAt m' input k
agrees-Same m m' input k s (inl x) = inl x
agrees-Same m m' input k s (inr e) = inr (ground (arith, s, e))

-- Whether a map matches depends on its values alone.
pub match-Same :
    (m m' : InexactMatchStringMap) (input : GoMap Text)
    → IsMap m
    → IsMap m'
    → IsMap input
    → Same m m'
    → is_inexact_match m input ≡ is_inexact_match m' input
match-Same m m' input d d' e s =
    let here : (is_inexact_match m input ≡ true) ↔ ((k : Text) → AgreesAt m input k) =
      is_inexact_match_iff m input d e in
    let there : (is_inexact_match m' input ≡ true) ↔ ((k : Text) → AgreesAt m' input k) =
      is_inexact_match_iff m' input d' e in
    Bool_eq_of_iff _ _ (λ h. there.1 (λ k. agrees-Same m m' input k (s k) (here.0 h k)))
      (λ h. here.1 (λ k. agrees-Same m' m input k (sym (s k)) (there.0 h k)))

module _ {A : Type 0} where
  total-insert :
      (m : GoMap (List A)) (k : Text) (items : List A)
      → contains (keys m) k ≡ false
      → total (insert m k items) ≡ total m + length items
  unfolding total insert contains
  total-insert [] k items h = omega arith
  total-insert ((j, w) ∷ m) k items h =
      ground (arith, total-insert m k items, text_eq_iff j k, text_eq_iff k j)

module _ {A : Type 0} (capabilities : GoMap Text) where
  -- How many items stand in groups that match.
  unfoldable pub weight : List (Group A) → ℕ
  weight [] = 0
  weight (g ∷ gs) =
      (if is_inexact_match g.label capabilities then length g.members else 0) + weight gs

  -- No label of the groups is a key of the map.
  abbrev Fresh : GoMap (List A) → List Text → Type 0
  Fresh m [] = Unit
  Fresh m (t ∷ ts) = (contains (keys m) t ≡ false) × Fresh m ts

  Fresh-insert :
      (m : GoMap (List A)) (k : Text) (items : List A) (ts : List Text)
      → contains ts k ≡ false
      → Fresh m ts
      → Fresh (insert m k items) ts
  unfolding contains
  Fresh-insert m k items [] h f = tt
  Fresh-insert m k items (t ∷ ts) h f = (
    contains-insert m k items t ∙ ground (arith, text_eq_iff t k, text_eq_iff k t, f.0),
    Fresh-insert m k items ts (ground arith) f.1,
  )

  total-matches_onto :
      (acc : GoMap (List A)) (gs : List (Group A))
      → Distinct (labels gs)
      → Fresh acc (labels gs)
      → total (matches_onto acc gs capabilities) ≡ total acc + weight gs
  unfolding matches_onto weight
  total-matches_onto acc [] d f = omega arith
  total-matches_onto acc (g ∷ gs) d f = elim (Bool-cases (is_inexact_match g.label capabilities)) [
    | inl e ↦ rw e (
        omega (
          arith,
          total-matches_onto (insert acc (get_sorted_stringification_of_map g.label) g.members) gs
              d.1
              (Fresh-insert acc (get_sorted_stringification_of_map g.label) g.members (labels gs)
                d.0 f.1),
          total-insert acc (get_sorted_stringification_of_map g.label) g.members f.0,
        ))
    | inr e ↦ rw e (omega (arith, total-matches_onto acc gs d.1 f.1))
  ]

  -- The number of items that `GetInexactMatch` returns.
  pub total-get_inexact_match :
      (gs : List (Group A)) → IsGrouped gs → total (get_inexact_match gs capabilities) ≡ weight gs
  unfolding get_inexact_match total
  total-get_inexact_match gs g =
      omega (arith, total-matches_onto [] gs g.distinct (nothing (labels gs)))
    where
      nothing : (ts : List Text) → Fresh [] ts
      nothing [] = tt
      nothing (t ∷ ts) = (unfold contains in refl, nothing ts)

  -- Adding an item adds one to the items that match if its label matches.
  pub weight-add_member :
      (gs : List (Group A)) (label : InexactMatchStringMap) (item : A)
      → AllLabels gs
      → IsLabel label
      → IsMap capabilities
      → weight (add_member gs label item)
        ≡ weight gs + (if is_inexact_match label capabilities then 1 else 0)
  unfolding weight add_member
  weight-add_member [] label item a l c = ground arith
  weight-add_member (g ∷ gs) label item a l c = elim (Bool-cases (deep_equal g.label label)) [
    | inl e ↦ rw e (
        ground (
          arith,
          length-append g.members (item ∷ []),
          match-Same g.label label capabilities a.0.is_map l.is_map c
              ((deep_equal-Same g.label label a.0.is_map l.is_map).0 e),
        ))
    | inr e ↦ rw e (omega (arith, weight-add_member gs label item a.1 l c))
  ]
