-- ===== src/Go/Ensures.antt =====
-- Partial correctness of actions on any state: where the action gives a value from a state with the
-- first property, the value and the state that it leaves have the second.
use azure_pipelines_k8s_agen.Prelude.{
  Bool, true, false, [], ◌∷◌, ◌≡◌, refl, sym, subst, arith, if◌then◌else◌,
}
use azure_pipelines_k8s_agen.GoMap.{GoMap}
use azure_pipelines_k8s_agen.Go.{
  Result, ok, err, panic, GoError, Go, return, fail, lift, not_nil, attempt, after, ◌>>=◌,
}

pub record Ensures {S A : Type 0} (P : S → Type 0) (m : Go S A) (Q : A → S → Type 0) : Type 0 where
  pub at : (s : S) → P s → (a : A) → (m s).0 ≡ ok a → Q a (m s).1

module _ {S A : Type 0} (P : S → Type 0) (Q : A → S → Type 0) where
  pub Ensures-return : (a : A) → ((s : S) → P s → Q a s) → Ensures P (return a) Q
  unfolding return
  Ensures-return a h = record {
    at = λ s p b e. let same : a ≡ b = cc in subst (λ x. Q x s) same (h s p);
  }

  pub Ensures-fail : (e : GoError) → Ensures P (fail e) Q
  unfolding fail
  Ensures-fail x = record { at = λ s p b e. absurd cc }

  pub Ensures-lift :
      (r : Result A) → ((s : S) (a : A) → P s → r ≡ ok a → Q a s) → Ensures P (lift r) Q
  unfolding lift
  Ensures-lift r h = record { at = λ s p a e. h s a p e }

  -- The branch that is taken knows the outcome of the test.
  pub Ensures-if :
      (b : Bool) (m m' : Go S A)
      → (b ≡ true → Ensures P m Q)
      → (b ≡ false → Ensures P m' Q)
      → Ensures P (if b then m else m') Q
  Ensures-if true m m' h h' = h refl
  Ensures-if false m m' h h' = h' refl

  pub Ensures-from :
      (m : Go S A) (P' : S → Type 0) → Ensures P m Q → ((s : S) → P' s → P s) → Ensures P' m Q
  Ensures-from m P' h k = record { at = λ s p. h.at s (k s p) }

module _ {S A B : Type 0} (P : S → Type 0) (Q : A → S → Type 0) (R : B → S → Type 0) where
  Ensures-after :
      (r : Result A) (s : S) (f : A → Go S B) (b : B)
      → ((a : A) → r ≡ ok a → Q a s)
      → ((a : A) → Ensures (Q a) (f a) R)
      → (after r f s).0 ≡ ok b
      → R b (after r f s).1
  Ensures-after (ok a) s f b h k e = (k a).at s (h a refl) b e
  Ensures-after (err x) s f b h k e = absurd cc
  Ensures-after panic s f b h k e = absurd cc

  pub Ensures-then :
      (m : Go S A) (f : A → Go S B)
      → Ensures P m Q
      → ((a : A) → Ensures (Q a) (f a) R)
      → Ensures P (m >>= f) R
  unfolding ◌>>=◌
  Ensures-then m f h k = record { at = λ s p b. Ensures-after (m s).0 (m s).1 f b (h.at s p) k }

-- A property of the state that an action leaves, whatever it ends with.
pub record Keeps {S A : Type 0} (P : S → Type 0) (m : Go S A) : Type 0 where
  pub kept : (s : S) → P s → P (m s).1

pub attempt_state : {S A : Type 0} (m : Go S A) (s : S) → (attempt m s).1 ≡ (m s).1
unfolding attempt
attempt_state m s = ground arith

module _ {S A : Type 0} (P : S → Type 0) where
  pub Keeps-return : (a : A) → Keeps P (return {S = S} a)
  unfolding return
  Keeps-return a = record { kept = λ s p. p }

  pub Keeps-fail : (e : GoError) → Keeps P (fail {S = S} {A = A} e)
  unfolding fail
  Keeps-fail e = record { kept = λ s p. p }

  pub Keeps-lift : (r : Result A) → Keeps P (lift {S = S} r)
  unfolding lift
  Keeps-lift r = record { kept = λ s p. p }

  pub Keeps-if : (b : Bool) (m m' : Go S A) → Keeps P m → Keeps P m' → Keeps P (if b then m else m')
  Keeps-if true m m' h h' = h
  Keeps-if false m m' h h' = h'

  pub Keeps-attempt : (m : Go S A) → Keeps P m → Keeps P (attempt m)
  Keeps-attempt m h = record { kept = λ s p. subst P (sym (attempt_state m s)) (h.kept s p) }

  -- What an action keeps holds also where it gives a value.
  pub Ensures-kept : (m : Go S A) → Keeps P m → Ensures P m (λ _. P)
  Ensures-kept m h = record { at = λ s p _ _. h.kept s p }

module _ {S A B : Type 0} (P : S → Type 0) where
  Keeps-after :
      (r : Result A) (s : S) (f : A → Go S B) → P s → ((a : A) → Keeps P (f a)) → P (after r f s).1
  Keeps-after (ok a) s f p k = (k a).kept s p
  Keeps-after (err x) s f p k = p
  Keeps-after panic s f p k = p

  pub Keeps-then :
      (m : Go S A) (f : A → Go S B) → Keeps P m → ((a : A) → Keeps P (f a)) → Keeps P (m >>= f)
  unfolding ◌>>=◌
  Keeps-then m f h k = record { kept = λ s p. Keeps-after (m s).0 (m s).1 f (h.kept s p) k }

-- A write to a map leaves the state alone.
pub Ensures-not_nil : {S V : Type 0} (P : S → Type 0) (m : GoMap V) → Ensures P (not_nil m) (λ _. P)
unfolding not_nil
Ensures-not_nil P [] = record { at = λ s p a e. absurd cc }
Ensures-not_nil P (x ∷ m) = record { at = λ s p a e. p }
