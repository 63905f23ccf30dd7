-- ===== src/GoMap/Base.antt =====
-- Maps with string keys as association lists. The order of the list stands for the order in which
-- `range` visits the entries, which Go leaves open.
use azure_pipelines_k8s_agen.Prelude.{
  Bool, true, false, ◌||◌, List, [], ◌∷◌, Option, none, some, ◌≡◌, refl, arith, if◌then◌else◌,
}
use azure_pipelines_k8s_agen.Text.{Text, text_eq, text_eq_iff}
use azure_pipelines_k8s_agen.Text.Sort.{contains, Distinct}

abbrev pub GoMap {ℓ} : Type ℓ → Type ℓ
GoMap V = List (Text × V)

abbrev pub keys {ℓ} : {V : Type ℓ} → GoMap V → List Text
keys [] = []
keys ((k, v) ∷ m) = k ∷ keys m

-- A key has one entry.
abbrev pub IsMap {ℓ} : {V : Type ℓ} → GoMap V → Type 0
IsMap m = Distinct (keys m)

module _ {ℓ} {V : Type ℓ} where
  unfoldable pub lookup : GoMap V → Text → Option V
  lookup [] k = none
  lookup ((j, v) ∷ m) k = if text_eq j k then some v else lookup m k

  -- `m[k] = v`
  unfoldable pub insert : GoMap V → Text → V → GoMap V
  insert [] k v = (k, v) ∷ []
  insert ((j, w) ∷ m) k v = if text_eq j k then (k, v) ∷ m else (j, w) ∷ insert m k v

  -- `delete(m, k)`
  unfoldable pub erase : GoMap V → Text → GoMap V
  erase [] k = []
  erase ((j, w) ∷ m) k = let rest = erase m k in if text_eq j k then rest else (j, w) ∷ rest

  unfoldable pub has_key : GoMap V → Text → Bool
  has_key [] k = false
  has_key ((j, v) ∷ m) k = text_eq j k || has_key m k

  -- `m[k]` with the zero value `d` for a missing key
  abbrev pub get_or : GoMap V → Text → V → V
  get_or m k d = elim (lookup m k) [ none ↦ d | some v ↦ v ]

module _ {ℓ} {V : Type ℓ} where
  pub lookup-insert :
      (m : GoMap V) (k : Text) (v : V) (j : Text)
      → lookup (insert m k v) j ≡ (if text_eq k j then some v else lookup m j)
  unfolding lookup insert
  lookup-insert [] k v j = refl
  lookup-insert ((i, w) ∷ m) k v j =
      ground (arith, text_eq_iff k j, text_eq_iff i k, text_eq_iff i j, lookup-insert m k v j)

  pub lookup-erase :
      (m : GoMap V) (k j : Text) → lookup (erase m k) j ≡ (if text_eq k j then none else lookup m j)
  unfolding lookup erase
  lookup-erase [] k j = ground arith
  lookup-erase ((i, w) ∷ m) k j =
      ground (arith, text_eq_iff k j, text_eq_iff i k, text_eq_iff i j, lookup-erase m k j)

  pub contains-insert :
      (m : GoMap V) (k : Text) (v : V) (j : Text)
      → contains (keys (insert m k v)) j ≡ (text_eq j k || contains (keys m) j)
  unfolding contains insert
  contains-insert [] k v j = refl
  contains-insert ((i, w) ∷ m) k v j =
      ground (arith, text_eq_iff j k, text_eq_iff i k, text_eq_iff j i, contains-insert m k v j)

  pub insert-IsMap : (m : GoMap V) (k : Text) (v : V) → IsMap m → IsMap (insert m k v)
  unfolding contains insert
  insert-IsMap [] k v d = (refl, tt)
  insert-IsMap ((i, w) ∷ m) k v d =
      ground (arith, text_eq_iff i k, contains-insert m k v i, insert-IsMap m k v d.1)

  pub has_key-lookup :
      (m : GoMap V) (k : Text) → has_key m k ≡ (elim (lookup m k) [ none ↦ false | some _ ↦ true ])
  unfolding lookup has_key
  has_key-lookup [] k = refl
  has_key-lookup ((j, v) ∷ m) k = ground (arith, has_key-lookup m k)

  -- A key stays where another value is written, and where another key is deleted.
  pub has_key-insert :
      (m : GoMap V) (k : Text) (v : V) (j : Text)
      → has_key m j ≡ true
      → has_key (insert m k v) j ≡ true
  unfolding has_key insert
  has_key-insert [] k v j h = absurd cc
  has_key-insert ((i, w) ∷ m) k v j h =
      ground (arith, h, text_eq_iff i k, text_eq_iff i j, text_eq_iff k j, has_key-insert m k v j)

  pub has_key-erase :
      (m : GoMap V) (k j : Text)
      → text_eq k j ≡ false
      → has_key m j ≡ true
      → has_key (erase m k) j ≡ true
  unfolding has_key erase
  has_key-erase [] k j e h = absurd cc
  has_key-erase ((i, w) ∷ m) k j e h =
      ground (arith, h, e, text_eq_iff i k, text_eq_iff i j, text_eq_iff k j, has_key-erase m k j e)

  pub contains-has_key : (m : GoMap V) (k : Text) → contains (keys m) k ≡ has_key m k
  unfolding contains has_key
  contains-has_key [] k = refl
  contains-has_key ((j, v) ∷ m) k =
      ground (arith, contains-has_key m k, text_eq_iff j k, text_eq_iff k j)
