-- ===== src/Prelude/Members.antt =====
-- Lists all of whose elements have a property.
use Prim.Native.Nat.{ℕ, zero, suc}
use mathlib.Core.Bool.{Bool}
use mathlib.Core.List.{List, [], ◌∷◌, ◌++◌, Mem, forall_mem-cons, not-mem-nil}
use mathlib.Core.Logic.{inl, inr}
use azure_pipelines_k8s_agen.Prelude.Tests.{Bool-cases}
use azure_pipelines_k8s_agen.Prelude.Lists.{keep, take}

-- Every element has the property.
abbrev pub Every : {A : Type 0} → (A → Type 0) → List A → Type 0
Every P xs = (x : _) → Mem x xs → P x

module _ {A : Type 0} (P : A → Type 0) (prop : (a : A) → IsProp (P a)) where
  pub Every-nil : Every P []
  Every-nil x i = absurd (not-mem-nil i)

  pub Every-cons : (a : A) (xs : List A) → P a → Every P xs → Every P (a ∷ xs)
  Every-cons a xs h hs = (forall_mem-cons prop).1 (h, hs)

  pub Every-uncons : (a : A) (xs : List A) → Every P (a ∷ xs) → P a × Every P xs
  Every-uncons a xs h = (forall_mem-cons prop).0 h

  pub Every-keep : (p : A → Bool) (xs : List A) → Every P xs → Every P (keep p xs)
  Every-keep p [] h = h
  Every-keep p (a ∷ xs) h =
      let (here, rest) = Every-uncons a xs h in
      elim (Bool-cases (p a)) [
        | inl e ↦ rw e (Every-cons a _ here (Every-keep p xs rest))
        | inr e ↦ rw e (Every-keep p xs rest)
      ]

  pub Every-append : (xs ys : List A) → Every P xs → Every P ys → Every P (xs ++ ys)
  Every-append [] ys h k = k
  Every-append (a ∷ xs) ys h k =
      let (here, rest) = Every-uncons a xs h in Every-cons a _ here (Every-append xs ys rest k)

  pub Every-take : (n : ℕ) (xs : List A) → Every P xs → Every P (take n xs)
  Every-take zero xs h = Every-nil
  Every-take (suc n) [] h = h
  Every-take (suc n) (a ∷ xs) h =
      let (here, rest) = Every-uncons a xs h in Every-cons a _ here (Every-take n xs rest)
