-- ===== src/Go.antt =====
-- Go functions that return `(value, error)`: what they return, beside the state that they leave.
pub mod Ensures
use azure_pipelines_k8s_agen.Prelude.{[], ◌∷◌, Option, none, some}
use azure_pipelines_k8s_agen.Text.{Text}
use azure_pipelines_k8s_agen.GoMap.{GoMap}

-- `pvc_exhaustion` is `PvcExhaustionError` of internal/service/structs.go, which the reconciler tells
-- from all other errors; those have their message alone.
pub data GoError : Type 0 where
  pvc_exhaustion : Text → GoError
  message : Text → GoError
  conflict : GoError

-- `panic` is a run-time panic: a nil pointer, an index out of range or a write to a
-- nil map.
pub data Result {ℓ} (A : Type ℓ) : Type ℓ where
  ok : A → Result A
  err : GoError → Result A
  panic : Result A

abbrev pub Go {ℓ} : Type ℓ → Type ℓ → Type ℓ
Go S A = S → Result A × S

module _ {ℓ} {S A : Type ℓ} where
  unfoldable pub return : A → Go S A
  return a s = (ok a, s)

  unfoldable pub fail : GoError → Go S A
  fail e s = (err e, s)

  unfoldable pub crash : Go S A
  crash s = (panic, s)

  unfoldable pub lift : Result A → Go S A
  lift r s = (r, s)

  -- `*p`
  unfoldable pub deref : Option A → Go S A
  deref none s = (panic, s)
  deref (some a) s = (ok a, s)

module _ {S V : Type 0} where
  -- What `m[k] = v` does first, for a map of annotations: where it is nil, it panics.
  unfoldable pub not_nil : GoMap V → Go S (Unit {0})
  not_nil [] s = (panic, s)
  not_nil (_ ∷ _) s = (ok tt, s)

module _ {ℓ} {S A B : Type ℓ} where
  abbrev pub after : Result A → (A → Go S B) → Go S B
  after (ok a) f s = f a s
  after (err e) f s = (err e, s)
  after panic f s = (panic, s)

  infixl 10 ◌>>=◌ ◌>>◌
  -- `if err != nil { return ..., err }` between two calls. Opening it opens the actions above too.
  unfoldable pub ◌>>=◌ : Go S A → (A → Go S B) → Go S B
  unfolding return fail crash lift deref
  ◌>>=◌ m f s = let (r, s') = m s in after r f s'

  abbrev pub ◌>>◌ : Go S A → Go S B → Go S B
  m >> n = m >>= λ _. n

module _ {ℓ} {S A : Type ℓ} where
  abbrev pub caught : Result A → S → Result (Result A) × S
  caught (ok a) s = (ok (ok a), s)
  caught (err e) s = (ok (err e), s)
  caught panic s = (panic, s)

  -- `if x, err := m; err == nil { ... } else { ... }`: the error is a value, a panic still ends it.
  unfoldable pub attempt : Go S A → Go S (Result A)
  attempt m s = let (r, s') = m s in caught r s'

-- The same for functions that touch no state.
abbrev pub and_then {ℓ} : {A B : Type ℓ} → Result A → (A → Result B) → Result B
and_then (ok a) f = f a
and_then (err e) f = err e
and_then panic f = panic
