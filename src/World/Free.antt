-- ===== src/World/Free.antt =====
-- Terms under which nothing is spent: what an action that keeps to them costs, for a price on the calls
-- that create or delete pods.
use azure_pipelines_k8s_agen.Prelude.{ℕ, ◌≡◌, refl, arith}
use azure_pipelines_k8s_agen.Text.{Text}
use azure_pipelines_k8s_agen.World.{Env, Call}
use azure_pipelines_k8s_agen.World.Monad.{M}
use azure_pipelines_k8s_agen.World.Costs.{Costs, spent, IsQuiet}
use azure_pipelines_k8s_agen.World.Safe.{Terms, Safe}
use azure_pipelines_k8s_agen.World.Orderly.{IsOrderly, ListsSound}
use azure_pipelines_k8s_agen.World.Allowed.{allowed-IsOrderly, allowed-ListsSound}

module _ (price : Call → ℕ) (q : IsQuiet price) where
  -- Anything may happen, but so much has been spent.
  abbrev pub spending : ℕ → Terms
  spending n = record {
    panics = Unit;
    panics_prop = hlevel;
    errors = λ e. Unit;
    messages = λ why. tt;
    sound = λ pod. Unit;
    sound_prop = λ pod. hlevel;
    annotated = λ pod m h k. tt;
    written = λ pod h e. tt;
    contained = λ pod h e. tt;
    invariant = λ log. spent price log ≡ n;
    grows = λ c log e h. omega (arith, h, q c e);
  }

  pub spending-IsOrderly : (env : Env) (n : ℕ) → IsOrderly (spending n) env
  spending-IsOrderly env n = allowed-IsOrderly (spending n) tt (λ e. tt) env (λ log m h x i y j. tt)

  pub spending-ListsSound :
      (env : Env) (namespace owner : Text) (n : ℕ) → ListsSound (spending n) env namespace owner
  spending-ListsSound env namespace owner n =
      allowed-ListsSound (spending n) tt (λ e. tt) env namespace owner
        (λ log phase pods e pod i. tt)

  -- An action that keeps to the terms, whatever has been spent before, is free.
  pub Costs-Safe :
      {A : Type 0} (Q : ℕ → A → Type 0) (m : M A)
      → ((n : ℕ) → Safe (spending n) (Q n) m)
      → Costs price 0 m
  Costs-Safe Q m h = record { at = λ s. omega (arith, (h (spent price s.log)).keeps s refl) }
