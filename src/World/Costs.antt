-- ===== src/World/Costs.antt =====
-- What the calls of an action cost, for a price on each call: one rule for each way to build an
-- action that costs no more than a given sum.
use azure_pipelines_k8s_agen.Prelude.{
  refl, ℕ, zero, suc, ◌+◌, ◌≤◌, Bool, true, false, [], ◌∷◌, Option, none, some, ◌≡◌, arith,
  if◌then◌else◌,
}
use azure_pipelines_k8s_agen.Go.{
  Result, ok, err, panic, GoError, return, fail, crash, lift, deref, attempt, ◌>>=◌, after,
}
use azure_pipelines_k8s_agen.World.{Call, Log, Env, Memory}
use azure_pipelines_k8s_agen.World.Prices.{is_plain}
use azure_pipelines_k8s_agen.World.Monad.{
  M, call, generate_random_string, random_chars, read_memory, write_memory,
}

-- What a price on calls makes of a log.
abbrev pub spent : (Call → ℕ) → Log → ℕ
spent price [] = 0
spent price (c ∷ log) = price c + spent price log

-- The action costs this much at most, whatever it returns, and takes nothing off the log.
pub record Costs {A : Type 0} (price : Call → ℕ) (n : ℕ) (m : M A) : Type 0 where
  pub at :
      (s : Memory)
      → (spent price s.log ≤ spent price (m s).1.log)
        × (spent price (m s).1.log ≤ spent price s.log + n)

module _ {A : Type 0} {price : Call → ℕ} where
  pub Costs-return : (a : A) → Costs price 0 (return a)
  unfolding return
  Costs-return a = record { at = λ s. omega arith }

  pub Costs-fail : (e : GoError) → Costs price 0 (fail {A = A} e)
  unfolding fail
  Costs-fail e = record { at = λ s. omega arith }

  pub Costs-crash : Costs price 0 (crash {A = A})
  unfolding crash
  Costs-crash = record { at = λ s. omega arith }

  pub Costs-lift : (r : Result A) → Costs price 0 (lift r)
  unfolding lift
  Costs-lift r = record { at = λ s. omega arith }

  pub Costs-deref : (o : Option A) → Costs price 0 (deref o)
  unfolding deref
  Costs-deref none = record { at = λ s. omega arith }
  Costs-deref (some a) = record { at = λ s. omega arith }

  pub Costs-call : (c : Call) (f : Log → Result A) → Costs price (price c) (call c f)
  unfolding call
  Costs-call c f = record { at = λ s. omega arith }

  pub Costs-free_call : (c : Call) (f : Log → Result A) → price c ≡ 0 → Costs price 0 (call c f)
  unfolding call
  Costs-free_call c f h = record { at = λ s. omega arith }

  pub Costs-more : (n k : ℕ) (m : M A) → Costs price n m → n ≤ k → Costs price k m
  Costs-more n k m c h = record { at = λ s. omega (arith, c.at s) }

  pub Costs-if :
      (b : Bool) (n : ℕ) (m m' : M A)
      → Costs price n m
      → Costs price n m'
      → Costs price n (if b then m else m')
  Costs-if true n m m' c c' = c
  Costs-if false n m m' c c' = c'

  pub Costs-attempt : (n : ℕ) (m : M A) → Costs price n m → Costs price n (attempt m)
  unfolding attempt
  Costs-attempt n m c = record { at = λ s. ground (arith, c.at s) }

module _ {price : Call → ℕ} where
  pub Costs-read_memory : Costs price 0 read_memory
  unfolding read_memory
  Costs-read_memory = record { at = λ s. omega arith }

  -- An assignment leaves the log alone.
  pub Costs-write_memory :
      (f : Memory → Memory) → ((s : Memory) → (f s).log ≡ s.log) → Costs price 0 (write_memory f)
  unfolding write_memory
  Costs-write_memory f h = record { at = λ s. rw (h s) (omega arith, omega arith) }

module _ {A B : Type 0} {price : Call → ℕ} where
  pub Costs-after :
      (n : ℕ) (r : Result A) (f : A → M B)
      → ((a : A) → r ≡ ok a → Costs price n (f a))
      → Costs price n (after r f)
  Costs-after n (ok a) f c = c a refl
  Costs-after n (err e) f c = record { at = λ s. omega arith }
  Costs-after n panic f c = record { at = λ s. omega arith }

  pub Costs-bind :
      (n k : ℕ) (m : M A) (f : A → M B)
      → Costs price n m
      → ((a : A) → Costs price k (f a))
      → Costs price (n + k) (m >>= f)
  unfolding ◌>>=◌
  Costs-bind n k m f c d = record {
    at = λ s. omega (arith, c.at s, (Costs-after k (m s).0 f (λ a _. d a)).at (m s).1);
  }

  -- Where the first part is free.
  pub Costs-then :
      (k : ℕ) (m : M A) (f : A → M B)
      → Costs price 0 m
      → ((a : A) → Costs price k (f a))
      → Costs price k (m >>= f)
  Costs-then k m f c d = record { at = λ s. omega (arith, (Costs-bind 0 k m f c d).at s) }

pub ruleset free_rules = (
  Costs-then, Costs-return, Costs-fail, Costs-crash, Costs-lift, Costs-deref, Costs-free_call,
  Costs-if, Costs-attempt,
)

module _ (env : Env) (price : Call → ℕ) (free : (n : ℕ) → price (Call.intn n) ≡ 0) where
  random_chars-Costs : (n : ℕ) → Costs price 0 (random_chars env n)
  unfolding random_chars
  random_chars-Costs zero = Costs-return _
  random_chars-Costs (suc n) = Costs-then 0 _ _ (search (free_rules, free)) λ i.
      Costs-then 0 _ _ (search free_rules)
        λ c. Costs-then 0 _ _ (random_chars-Costs n) λ r. search (free_rules)

  pub generate_random_string-Costs : Costs price 0 (generate_random_string env)
  unfolding generate_random_string
  generate_random_string-Costs = random_chars-Costs 5

-- A price under which all is free but the creation and the deletion of pods.
abbrev pub IsQuiet : (Call → ℕ) → Type 0
IsQuiet price = (c : Call) → is_plain c ≡ true → price c ≡ 0
