-- ===== src/Groups/Shape.antt =====
-- The groups have maps for labels, and no two groups have labels that are written the same.
use azure_pipelines_k8s_agen.Prelude.{
  true, ◌||◌, List, [], ◌∷◌, ◌≡◌, ◌↔◌, refl, arith, Bool_eq_of_iff, Bool-cases, inl, inr, ◌∙◌,
}
use azure_pipelines_k8s_agen.Text.{Text, text_eq, text_eq_iff}
use azure_pipelines_k8s_agen.Text.Sort.{contains, Distinct}
use azure_pipelines_k8s_agen.GoMap.{IsMap}
use azure_pipelines_k8s_agen.GoMap.Same.{deep_equal, Same, deep_equal-Same}
use azure_pipelines_k8s_agen.Capabilities.{InexactMatchStringMap, get_sorted_stringification_of_map}
use azure_pipelines_k8s_agen.Capabilities.RoundTrip.{encodable}
use azure_pipelines_k8s_agen.Capabilities.Order.{stringification_iff}
use azure_pipelines_k8s_agen.Groups.{Group, add_member}

-- A label that is a map and that its written form determines.
pub record IsLabel (m : InexactMatchStringMap) : Type 0 where
  pub is_map : IsMap m
  pub is_encodable : encodable m ≡ true

-- Labels are equal for `reflect.DeepEqual` exactly when they are written the same.
pub deep_equal-text_eq :
    (m m' : InexactMatchStringMap)
    → IsLabel m
    → IsLabel m'
    → deep_equal m m'
      ≡ text_eq (get_sorted_stringification_of_map m) (get_sorted_stringification_of_map m')
deep_equal-text_eq m m' l l' =
    let same : (deep_equal m m' ≡ true) ↔ Same m m' = deep_equal-Same m m' l.is_map l'.is_map in
    let written : (get_sorted_stringification_of_map m ≡ get_sorted_stringification_of_map m')
        ↔ Same m m' =
      stringification_iff m m' l.is_map l'.is_map l.is_encodable l'.is_encodable in
    Bool_eq_of_iff _ _ (λ e. (text_eq_iff _ _).1 (written.1 (same.0 e)))
      (λ e. same.1 (written.0 ((text_eq_iff _ _).0 e)))

module _ {A : Type 0} where
  abbrev pub labels : List (Group A) → List Text
  labels [] = []
  labels (g ∷ gs) = get_sorted_stringification_of_map g.label ∷ labels gs

  abbrev pub AllLabels : List (Group A) → Type 0
  AllLabels [] = Unit
  AllLabels (g ∷ gs) = IsLabel g.label × AllLabels gs

  -- One group to a label, as it is written.
  pub record IsGrouped (gs : List (Group A)) : Type 0 where
    pub all_labels : AllLabels gs
    pub distinct : Distinct (labels gs)

  contains-add_member :
      (gs : List (Group A)) (label : InexactMatchStringMap) (item : A) (t : Text)
      → AllLabels gs
      → IsLabel label
      → contains (labels (add_member gs label item)) t
        ≡ (text_eq t (get_sorted_stringification_of_map label) || contains (labels gs) t)
  unfolding add_member contains
  contains-add_member [] label item t a l = refl
  contains-add_member (g ∷ gs) label item t a l = ground (
    arith,
    contains-add_member gs label item t a.1 l,
    deep_equal-text_eq g.label label a.0 l,
    text_eq_iff t (get_sorted_stringification_of_map label),
    text_eq_iff t (get_sorted_stringification_of_map g.label),
    text_eq_iff (get_sorted_stringification_of_map g.label)
        (get_sorted_stringification_of_map label),
  )

  add_member-AllLabels :
      (gs : List (Group A)) (label : InexactMatchStringMap) (item : A)
      → AllLabels gs
      → IsLabel label
      → AllLabels (add_member gs label item)
  unfolding add_member
  add_member-AllLabels [] label item a l = (l, tt)
  add_member-AllLabels (g ∷ gs) label item a l = elim (Bool-cases (deep_equal g.label label)) [
    | inl e ↦ rw e a
    | inr e ↦ rw e (a.0, add_member-AllLabels gs label item a.1 l)
  ]

  add_member-Distinct :
      (gs : List (Group A)) (label : InexactMatchStringMap) (item : A)
      → AllLabels gs
      → IsLabel label
      → Distinct (labels gs)
      → Distinct (labels (add_member gs label item))
  unfolding add_member
  add_member-Distinct [] label item a l d = (unfold contains in refl, tt)
  add_member-Distinct (g ∷ gs) label item a l d = elim (Bool-cases (deep_equal g.label label)) [
    | inl e ↦ rw e d
    | inr e ↦ rw e (
      contains-add_member gs label item (get_sorted_stringification_of_map g.label) a.1 l
          ∙ ground (arith, deep_equal-text_eq g.label label a.0 l, d.0),
      add_member-Distinct gs label item a.1 l d.1,
    )
  ]

  -- Adding an item under a label whose keys hold no `=` or `;` and whose values no `;`, with one entry
  -- to a key, keeps the groups such that all labels are of this kind and no two are written the same.
  pub add_member-IsGrouped :
      (gs : List (Group A)) (label : InexactMatchStringMap) (item : A)
      → IsGrouped gs
      → IsLabel label
      → IsGrouped (add_member gs label item)
  add_member-IsGrouped gs label item g l = record {
    all_labels = add_member-AllLabels gs label item g.all_labels l;
    distinct = add_member-Distinct gs label item g.all_labels l g.distinct;
  }
