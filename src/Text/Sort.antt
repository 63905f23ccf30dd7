-- ===== src/Text/Sort.antt =====
-- `sort.Strings`, and that strictly sorted lists with the same members are equal.
use azure_pipelines_k8s_agen.Prelude.{
  Bool, true, false, ◌||◌, List, [], ◌∷◌, ◌≡◌, refl, inl, inr, arith, if◌then◌else◌, Bool-cases,
  ap₂, ◌∙◌,
}
use azure_pipelines_k8s_agen.Text.Base.{
  Text, text_eq, text_lt, text_eq_iff, text_eq_refl, text_lt_irrefl, text_lt_trans, text_lt_total,
}

unfoldable pub contains : List Text → Text → Bool
contains [] x = false
contains (y ∷ ys) x = text_eq x y || contains ys x

unfoldable pub insert_sorted : Text → List Text → List Text
insert_sorted x [] = x ∷ []
insert_sorted x (y ∷ ys) = if text_lt y x then y ∷ insert_sorted x ys else x ∷ y ∷ ys

unfoldable pub sort : List Text → List Text
unfolding insert_sorted
sort [] = []
sort (x ∷ xs) = insert_sorted x (sort xs)

-- No text stands twice.
abbrev pub Distinct : List Text → Type 0
Distinct [] = Unit
Distinct (x ∷ xs) = (contains xs x ≡ false) × Distinct xs

abbrev pub Below : Text → List Text → Type 0
Below x [] = Unit
Below x (y ∷ ys) = (text_lt x y ≡ true) × Below x ys

abbrev pub Increasing : List Text → Type 0
Increasing [] = Unit
Increasing (x ∷ xs) = Below x xs × Increasing xs

contains-insert_sorted :
    (x : Text) (ys : List Text) (k : Text)
    → contains (insert_sorted x ys) k ≡ (text_eq k x || contains ys k)
unfolding contains insert_sorted
contains-insert_sorted x [] k = refl
contains-insert_sorted x (y ∷ ys) k = ground (arith, contains-insert_sorted x ys k)

pub contains-sort : (xs : List Text) (k : Text) → contains (sort xs) k ≡ contains xs k
unfolding sort contains
contains-sort [] k = refl
contains-sort (x ∷ xs) k = ground (arith, contains-insert_sorted x (sort xs) k, contains-sort xs k)

Below-trans : (x y : Text) (ys : List Text) → text_lt x y ≡ true → Below y ys → Below x ys
Below-trans x y [] h b = tt
Below-trans x y (z ∷ ys) h b = (text_lt_trans x y z h b.0, Below-trans x y ys h b.1)

Below-insert_sorted :
    (y x : Text) (ys : List Text) → text_lt y x ≡ true → Below y ys → Below y (insert_sorted x ys)
unfolding insert_sorted
Below-insert_sorted y x [] h b = (h, tt)
Below-insert_sorted y x (z ∷ ys) h b = ground (arith, Below-insert_sorted y x ys)

-- Of two different texts the greater is not the lesser.
lt_of_not_ge : (x y : Text) → text_lt y x ≡ false → text_eq x y ≡ false → text_lt x y ≡ true
lt_of_not_ge x y ge ne = elim (Bool-cases (text_lt x y)) [
  | inl lt ↦ lt
  | inr not_lt ↦ absurd (cc ((text_eq_iff x y).1 (text_lt_total x y not_lt ge), ne))
]

Increasing-insert_sorted :
    (x : Text) (ys : List Text)
    → contains ys x ≡ false
    → Increasing ys
    → Increasing (insert_sorted x ys)
unfolding insert_sorted contains
Increasing-insert_sorted x [] h i = (tt, tt)
Increasing-insert_sorted x (y ∷ ys) h i = elim (Bool-cases (text_lt y x)) [
  | inl lt ↦
      rw lt (Below-insert_sorted y x ys lt i.0, Increasing-insert_sorted x ys (ground arith) i.1)
  | inr ge ↦ rw ge (
      let lt : text_lt x y ≡ true = lt_of_not_ge x y ge (ground arith) in
      ((lt, Below-trans x y ys lt i.0), i))
]

pub Distinct-Increasing : (xs : List Text) → Distinct xs → Increasing (sort xs)
unfolding sort
Distinct-Increasing [] d = tt
Distinct-Increasing (x ∷ xs) d =
    Increasing-insert_sorted x (sort xs) (contains-sort xs x ∙ d.0) (Distinct-Increasing xs d.1)

-- What stands below every element is no element.
Below-not_contained : (x : Text) (ys : List Text) → Below x ys → contains ys x ≡ false
unfolding contains
Below-not_contained x [] b = refl
Below-not_contained x (y ∷ ys) b =
    ground (arith, Below-not_contained x ys b.1, text_eq_iff x y, text_lt_irrefl x)

Below-contained :
    (x y : Text) (ys : List Text) → Below x ys → contains ys y ≡ true → text_lt x y ≡ true
unfolding contains
Below-contained x y [] b m = cc
Below-contained x y (z ∷ ys) b m = ground (arith, Below-contained x y ys, text_eq_iff y z)

heads_equal :
    (x y : Text) (xs ys : List Text)
    → Below x xs
    → Below y ys
    → contains (x ∷ xs) x ≡ contains (y ∷ ys) x
    → contains (x ∷ xs) y ≡ contains (y ∷ ys) y
    → x ≡ y
unfolding contains
heads_equal x y xs ys b c sx sy = ground (
  arith,
  text_eq_refl x,
  text_eq_refl y,
  text_eq_iff x y,
  text_eq_iff y x,
  Below-contained x y xs b,
  Below-contained y x ys c,
  text_lt_trans x y x,
  text_lt_irrefl x,
)

pub Increasing-unique :
    (xs ys : List Text)
    → Increasing xs
    → Increasing ys
    → ((k : Text) → contains xs k ≡ contains ys k)
    → xs ≡ ys
unfolding contains
Increasing-unique [] [] i j s = refl
Increasing-unique [] (y ∷ ys) i j s = ground (arith, s y, text_eq_refl y)
Increasing-unique (x ∷ xs) [] i j s = ground (arith, s x, text_eq_refl x)
Increasing-unique (x ∷ xs) (y ∷ ys) i j s =
    let e : x ≡ y = heads_equal x y xs ys i.0 j.0 (s x) (s y) in
    ap₂ ◌∷◌ e (
      Increasing-unique xs ys i.1 j.1 λ k. ground (
        arith,
        s k,
        text_eq_iff k x,
        text_eq_iff k y,
        Below-not_contained x xs i.0,
        Below-not_contained y ys j.0,
      ))
