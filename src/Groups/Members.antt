-- ===== src/Groups/Members.antt =====
-- Which items stand under which label, after a list of items has been added one by one.
use azure_pipelines_k8s_agen.Prelude.{
  ◌+◌, Bool, true, false, ◌&&◌, List, [], ◌∷◌, ◌++◌, if◌then◌else◌, ◌≡◌, refl, arith, Bool-cases,
  inl, inr, ◌∙◌, sym, length, keep, ap, ◌⊎◌,
}
use mathlib.Core.List.{append_assoc, append-nil}
use azure_pipelines_k8s_agen.Text.{Text, text_eq, text_eq_iff}
use azure_pipelines_k8s_agen.Text.Sort.{contains, Distinct}
use azure_pipelines_k8s_agen.GoMap.{GoMap, IsMap, lookup, insert, get_or, lookup-insert}
use azure_pipelines_k8s_agen.GoMap.Same.{deep_equal, deep_equal-Same}
use azure_pipelines_k8s_agen.Capabilities.{
  InexactMatchStringMap, get_sorted_stringification_of_map, is_inexact_match,
}
use azure_pipelines_k8s_agen.Groups.{Group, add_member, matches_onto, get_inexact_match, total}
use azure_pipelines_k8s_agen.Groups.Shape.{
  IsLabel, IsGrouped, AllLabels, labels, deep_equal-text_eq, add_member-IsGrouped,
}
use azure_pipelines_k8s_agen.Groups.Counts.{
  weight, weight-add_member, total-get_inexact_match, match-Same,
}

module _ {A : Type 0} (label_of : A → InexactMatchStringMap) where
  -- Every item is added under its own label.
  unfoldable pub add_members : List (Group A) → List A → List (Group A)
  add_members gs [] = gs
  add_members gs (item ∷ items) = add_members (add_member gs (label_of item) item) items

  abbrev pub AllLabelled : List A → Type 0
  AllLabelled [] = Unit
  AllLabelled (item ∷ items) = IsLabel (label_of item) × AllLabelled items

  pub add_members-IsGrouped :
      (gs : List (Group A)) (items : List A)
      → IsGrouped gs
      → AllLabelled items
      → IsGrouped (add_members gs items)
  unfolding add_members
  add_members-IsGrouped gs [] g a = g
  add_members-IsGrouped gs (item ∷ items) g a =
      add_members-IsGrouped (add_member gs (label_of item) item) items
        (add_member-IsGrouped gs (label_of item) item g a.0) a.1

  module _ (capabilities : GoMap Text) (c : IsMap capabilities) where
    weight-add_members :
        (gs : List (Group A)) (items : List A)
        → IsGrouped gs
        → AllLabelled items
        → weight capabilities (add_members gs items)
          ≡ weight capabilities gs
            + length (keep (λ item. is_inexact_match (label_of item) capabilities) items)
    unfolding add_members
    weight-add_members gs [] g a = omega arith
    weight-add_members gs (item ∷ items) g a = ground (
      arith,
      weight-add_members (add_member gs (label_of item) item) items
          (add_member-IsGrouped gs (label_of item) item g a.0) a.1,
      weight-add_member capabilities gs (label_of item) item g.all_labels a.0 c,
    )

    -- `GetInexactMatch` returns as many items as were added with a matching label.
    pub total-add_members :
        (items : List A)
        → AllLabelled items
        → total (get_inexact_match (add_members [] items) capabilities)
          ≡ length (keep (λ item. is_inexact_match (label_of item) capabilities) items)
    unfolding weight
    total-add_members items a =
        total-get_inexact_match capabilities (add_members [] items)
          (add_members-IsGrouped [] items nothing a)
        ∙ weight-add_members [] items nothing a
        ∙ omega arith
      where
        nothing : IsGrouped {A = A} []
        nothing = record { all_labels = tt; distinct = tt }

module _ {A : Type 0} where
  -- The members of the group whose label is written so.
  members_of : List (Group A) → Text → List A
  members_of [] t = []
  members_of (g ∷ gs) t =
      if text_eq (get_sorted_stringification_of_map g.label) t then g.members else members_of gs t

  members_of-add_member :
      (gs : List (Group A)) (label : InexactMatchStringMap) (item : A) (t : Text)
      → AllLabels gs
      → IsLabel label
      → members_of (add_member gs label item) t ≡ (
          if text_eq (get_sorted_stringification_of_map label) t
          then members_of gs t ++ item ∷ []
          else members_of gs t)
  unfolding members_of add_member
  members_of-add_member [] label item t a l = ground arith
  members_of-add_member (g ∷ gs) label item t a l = ground (
    arith,
    members_of-add_member gs label item t a.1 l,
    deep_equal-text_eq g.label label a.0 l,
    text_eq_iff (get_sorted_stringification_of_map g.label) t,
    text_eq_iff (get_sorted_stringification_of_map label) t,
    text_eq_iff (get_sorted_stringification_of_map g.label)
        (get_sorted_stringification_of_map label),
  )

  module _ (capabilities : GoMap Text) (c : IsMap capabilities) (l : InexactMatchStringMap)
      (is : IsLabel l) where
    get_or-matches_onto :
        (acc : GoMap (List A)) (gs : List (Group A))
        → AllLabels gs
        → Distinct (labels gs)
        → get_or (matches_onto acc gs capabilities) (get_sorted_stringification_of_map l) [] ≡ (
            if is_inexact_match l capabilities
              && contains (labels gs) (get_sorted_stringification_of_map l)
            then members_of gs (get_sorted_stringification_of_map l)
            else get_or acc (get_sorted_stringification_of_map l) [])
    unfolding members_of contains matches_onto
    get_or-matches_onto acc [] a d = ground arith
    get_or-matches_onto acc (g ∷ gs) a d = elim (Bool-cases (deep_equal g.label l)) [
      | inl e ↦ ground (
        arith,
        e,
        d.0,
        deep_equal-text_eq g.label l a.0 is,
        text_eq_iff (get_sorted_stringification_of_map g.label)
            (get_sorted_stringification_of_map l),
        text_eq_iff (get_sorted_stringification_of_map l)
            (get_sorted_stringification_of_map g.label),
        match-Same g.label l capabilities a.0.is_map is.is_map c
            ((deep_equal-Same g.label l a.0.is_map is.is_map).0 e),
        get_or-matches_onto acc gs a.1 d.1,
        get_or-matches_onto (insert acc (get_sorted_stringification_of_map g.label) g.members) gs
            a.1 d.1,
        lookup-insert acc (get_sorted_stringification_of_map g.label) g.members
            (get_sorted_stringification_of_map l),
      )
      | inr n ↦ ground (
        arith,
        n,
        deep_equal-text_eq g.label l a.0 is,
        text_eq_iff (get_sorted_stringification_of_map g.label)
            (get_sorted_stringification_of_map l),
        text_eq_iff (get_sorted_stringification_of_map l)
            (get_sorted_stringification_of_map g.label),
        get_or-matches_onto acc gs a.1 d.1,
        get_or-matches_onto (insert acc (get_sorted_stringification_of_map g.label) g.members) gs
            a.1 d.1,
        lookup-insert acc (get_sorted_stringification_of_map g.label) g.members
            (get_sorted_stringification_of_map l),
      )
    ]

    no_members :
        (gs : List (Group A)) (t : Text) → contains (labels gs) t ≡ false → members_of gs t ≡ []
    unfolding members_of contains
    no_members [] t h = refl
    no_members (g ∷ gs) t h = ground (
      arith,
      no_members gs t,
      text_eq_iff (get_sorted_stringification_of_map g.label) t,
      text_eq_iff t (get_sorted_stringification_of_map g.label),
    )

    get_or-get_inexact_match :
        (gs : List (Group A))
        → IsGrouped gs
        → get_or (get_inexact_match gs capabilities) (get_sorted_stringification_of_map l) [] ≡ (
            if is_inexact_match l capabilities
            then members_of gs (get_sorted_stringification_of_map l)
            else [])
    unfolding get_inexact_match lookup
    get_or-get_inexact_match gs g = ground (
      arith,
      get_or-matches_onto [] gs g.all_labels g.distinct,
      no_members gs (get_sorted_stringification_of_map l),
    )

module _ {A : Type 0} (label_of : A → InexactMatchStringMap) where
  labelled_so : Text → A → Bool
  labelled_so t item = text_eq (get_sorted_stringification_of_map (label_of item)) t

  members_of-add_members :
      (gs : List (Group A)) (items : List A) (t : Text)
      → IsGrouped gs
      → AllLabelled label_of items
      → members_of (add_members label_of gs items) t ≡ members_of gs t ++ keep (labelled_so t) items
  unfolding add_members labelled_so
  members_of-add_members gs [] t g a = sym (append-nil (members_of gs t))
  members_of-add_members gs (item ∷ items) t g a =
      members_of-add_members (add_member gs (label_of item) item) items t
        (add_member-IsGrouped gs (label_of item) item g a.0) a.1
      ∙ rw (members_of-add_member gs (label_of item) item t g.all_labels a.0)
          (regroup (Bool-cases (text_eq (get_sorted_stringification_of_map (label_of item)) t)))
    where
      regroup :
          ((text_eq (get_sorted_stringification_of_map (label_of item)) t ≡ true)
            ⊎ (text_eq (get_sorted_stringification_of_map (label_of item)) t ≡ false))
          → (if text_eq (get_sorted_stringification_of_map (label_of item)) t
                then members_of gs t ++ item ∷ []
                else members_of gs t)
              ++ keep (labelled_so t) items
            ≡ members_of gs t ++ keep (labelled_so t) (item ∷ items)
      regroup (inl e) = rw e (append_assoc (members_of gs t) (item ∷ []) _)
      regroup (inr e) = rw e

  keep-labelled :
      (l : InexactMatchStringMap) (items : List A)
      → IsLabel l
      → AllLabelled label_of items
      → keep (labelled_so (get_sorted_stringification_of_map l)) items
        ≡ keep (λ item. deep_equal (label_of item) l) items
  unfolding labelled_so
  keep-labelled l [] is a = refl
  keep-labelled l (item ∷ items) is a =
      ground (arith, keep-labelled l items is a.1, deep_equal-text_eq (label_of item) l a.0 is)

  -- Under each label `GetInexactMatch` has exactly the items that were added with that label, in
  -- order, if the label matches, and nothing else.
  pub members_exact :
      (capabilities : GoMap Text) (items : List A) (l : InexactMatchStringMap)
      → IsMap capabilities
      → AllLabelled label_of items
      → IsLabel l
      → get_or
          (get_inexact_match (add_members label_of [] items) capabilities)
          (get_sorted_stringification_of_map l)
          []
        ≡ (if is_inexact_match l capabilities
            then keep (λ item. deep_equal (label_of item) l) items
            else [])
  members_exact capabilities items l c a is =
      get_or-get_inexact_match capabilities c l is (add_members label_of [] items)
        (add_members-IsGrouped label_of [] items nothing a)
      ∙ ap (λ found. if is_inexact_match l capabilities then found else [])
          (members_of-add_members [] items (get_sorted_stringification_of_map l) nothing a
            ∙ (unfold members_of in keep-labelled l items is a))
    where
      nothing : IsGrouped {A = A} []
      nothing = record { all_labels = tt; distinct = tt }
