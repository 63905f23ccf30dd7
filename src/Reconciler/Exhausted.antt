-- ===== src/Reconciler/Exhausted.antt =====
-- A reconciliation that runs out of claims does not end in that error.
use azure_pipelines_k8s_agen.Prelude.{◌≢◌, subst}
use azure_pipelines_k8s_agen.Text.{Text}
use azure_pipelines_k8s_agen.Go.{GoError, err, pvc_exhaustion, message, conflict}
use azure_pipelines_k8s_agen.World.{Env, Memory}
use azure_pipelines_k8s_agen.World.Safe.{Terms, Holds, Anything}
use azure_pipelines_k8s_agen.World.Orderly.{IsOrderly, ListsSound}
use azure_pipelines_k8s_agen.Reconciler.{reconcile}
use azure_pipelines_k8s_agen.Reconciler.Safety.{FoundComplete, reconcile-Holds}

-- Any error but the exhaustion of claims.
abbrev pub IsOther : GoError → Type 0
IsOther (message why) = Unit
IsOther (pvc_exhaustion name) = ⊥
IsOther conflict = Unit

-- Anything may happen, but no error is the exhaustion of claims.
abbrev pub no_exhaustion : Terms
no_exhaustion = record {
  panics = Unit;
  panics_prop = hlevel;
  errors = IsOther;
  messages = λ why. tt;
  sound = λ pod. Unit;
  sound_prop = λ pod. hlevel;
  annotated = λ pod m h k. tt;
  written = λ pod h e. tt;
  contained = λ pod h e. tt;
  invariant = λ log. Unit;
  grows = λ c log e h. tt;
}

module _ (env : Env) (o : IsOrderly no_exhaustion env) (namespace name : Text)
    (l : ListsSound no_exhaustion env namespace name) where
  -- Where no answer of the world is the error that claims are exhausted, a reconciliation does not
  -- end in that error, whatever claims it runs out of: each entry swallows it.
  pub reconcile_hides_exhaustion :
      (s : Memory)
      → FoundComplete no_exhaustion (env.get_agent s.log namespace name)
      → (volume : Text) → (reconcile env namespace name s).0 ≢ err (pvc_exhaustion volume)
  reconcile_hides_exhaustion s h volume e =
      subst (Holds no_exhaustion Anything) e
        (reconcile-Holds env o namespace name l (λ pod log h. h) (λ pod log h k. k) s h)
