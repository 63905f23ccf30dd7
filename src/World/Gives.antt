-- ===== src/World/Gives.antt =====
-- What holds of the value of an action, by its parts.
use azure_pipelines_k8s_agen.Prelude.{
  ℕ, Option, none, some, arith, Bool, true, false, ◌≡◌, refl, subst, if◌then◌else◌,
}
use azure_pipelines_k8s_agen.Go.{deref, Result, ok, err, panic, return, crash, after, ◌>>=◌}
use azure_pipelines_k8s_agen.World.{Call, Log, Memory}
use azure_pipelines_k8s_agen.World.Costs.{Costs, Costs-after}
use azure_pipelines_k8s_agen.World.Monad.{M, call}

-- Whatever value the action gives, the predicate holds of it.
pub record Gives {A : Type 0} (P : A → Type 0) (m : M A) : Type 0 where
  pub value : (s : Memory) (a : A) → (m s).0 ≡ ok a → P a

module _ {A : Type 0} (P : A → Type 0) where
  pub Gives-return : (a : A) → P a → Gives P (return a)
  unfolding return
  Gives-return a h = record { value = λ s b p. let e : a ≡ b = cc in subst P e h }

  pub Gives-crash : Gives P crash
  unfolding crash
  Gives-crash = record { value = λ s b p. absurd cc }

  pub Gives-call :
      (c : Call) (f : Log → Result A)
      → ((log : Log) (a : A) → f log ≡ ok a → P a)
      → Gives P (call c f)
  unfolding call
  Gives-call c f h = record { value = λ s a. h s.log a }

  pub Gives-if :
      (b : Bool) (m m' : M A)
      → (b ≡ true → Gives P m)
      → (b ≡ false → Gives P m')
      → Gives P (if b then m else m')
  Gives-if true m m' h h' = h refl
  Gives-if false m m' h h' = h' refl

pub Gives-any : {A : Type 0} (m : M A) → Gives (λ _. Unit {0}) m
Gives-any m = record { value = λ _ _ _. tt }

module _ {A B : Type 0} (Q : A → Type 0) (P : B → Type 0) where
  Gives-after :
      (r : Result A) (f : A → M B) (s : Memory) (b : B)
      → ((a : A) → r ≡ ok a → Gives P (f a))
      → (after r f s).0 ≡ ok b
      → P b
  Gives-after (ok a) f s b h p = (h a refl).value s b p
  Gives-after (err e) f s b h p = absurd cc
  Gives-after panic f s b h p = absurd cc

  pub Gives-then :
      (m : M A) (f : A → M B) → Gives Q m → ((a : A) → Q a → Gives P (f a)) → Gives P (m >>= f)
  unfolding ◌>>=◌
  Gives-then m f h k = record {
    value = λ s b. Gives-after (m s).0 f (m s).1 b (λ a p. k a (h.value s a p));
  }

-- What is known of the value of the first part, which is free, bounds the cost of the second.
pub Costs-given :
    {A B : Type 0} {price : Call → ℕ} (P : A → Type 0) (k : ℕ) (m : M A) (f : A → M B)
    → Costs price 0 m
    → Gives P m
    → ((a : A) → P a → Costs price k (f a))
    → Costs price k (m >>= f)
unfolding ◌>>=◌
Costs-given P k m f c g d = record {
  at =
      λ s. omega (arith, c.at s, (Costs-after k (m s).0 f (λ a e. d a (g.value s a e))).at (m s).1);
}

pub Gives-deref : {A : Type 0} (o : Option A) → Gives (λ a. o ≡ some a) (deref o)
unfolding deref
Gives-deref none = record { value = λ s a e. absurd cc }
Gives-deref (some b) = record { value = λ s a e. cc }
