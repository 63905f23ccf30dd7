-- ===== src/Reconciler/Deletions.antt =====
-- The pods that a reconciliation deletes.
use mathlib.Core.List.{Mem}
use azure_pipelines_k8s_agen.Prelude.{Bool, true, List, [], ◌∷◌, Option, ◌≡◌}
use azure_pipelines_k8s_agen.Text.{Text}
use azure_pipelines_k8s_agen.GoMap.{GoMap}
use azure_pipelines_k8s_agen.Go.{ok}
use azure_pipelines_k8s_agen.Kube.{Pod}
use azure_pipelines_k8s_agen.World.{Env, Log, Memory, Call}
use azure_pipelines_k8s_agen.World.Prices.{is_plain}
use azure_pipelines_k8s_agen.World.Safe.{Terms}
use azure_pipelines_k8s_agen.World.Allowed.{allowed-IsOrderly, allowed-ListsSound}
use azure_pipelines_k8s_agen.Reconciler.{reconcile}
use azure_pipelines_k8s_agen.Reconciler.Safety.{allowed-FoundComplete, reconcile_keeps}

-- Each deletion in the log is of a pod whose namespace and name the test accepts.
abbrev pub DeletesOnly : (Text → Text → Bool) → Log → Type 0
DeletesOnly own [] = Unit
DeletesOnly own (Call.delete_pod pod ∷ log) =
    (own pod.namespace pod.name ≡ true) × DeletesOnly own log
DeletesOnly own (_ ∷ log) = DeletesOnly own log

pub plain_deletes :
    (own : Text → Text → Bool) (c : Call) (log : Log)
    → is_plain c ≡ true
    → DeletesOnly own log
    → DeletesOnly own (c ∷ log)
plain_deletes own (Call.delete_pod pod) log e h = absurd cc
plain_deletes own _ log e h = h

-- Any panic and any error, and the pods that the test on namespace and name accepts.
abbrev pub accepted : (Text → Text → Bool) → Terms
accepted own = record {
  panics = Unit;
  panics_prop = hlevel;
  errors = λ e. Unit;
  messages = λ why. tt;
  sound = λ pod. own pod.namespace pod.name ≡ true;
  sound_prop = λ pod. hlevel;
  annotated = λ pod m h k. h;
  written = λ pod h e. tt;
  contained = λ pod h e. tt;
  invariant = DeletesOnly own;
  grows = plain_deletes own;
}

-- A loop over a map of pods visits entries of the map only.
abbrev pub RangesWithin : Env → Type 0
RangesWithin env =
    (log : Log) (m : GoMap (List Pod)) (x : Text × List Pod)
    → Mem x (env.range_pods log m)
    → Mem x m

module _ (env : Env) (namespace name : Text) (own : Text → Text → Bool)
    (listed : (log : Log) (phase : Option Text) (pods : List Pod)
      → env.list_pods log namespace name phase ≡ ok pods
      → (pod : Pod) → Mem pod pods
      → own pod.namespace pod.name ≡ true) where
  -- If a loop over a map visits its entries only, a reconciliation deletes only pods that the cluster
  -- has listed as pods of its resource: whatever test accepts the namespace and the name of each
  -- such pod accepts those of each pod that is deleted, whatever else the world answers, whatever the
  -- resource leaves out and however the reconciliation ends.
  pub reconcile_deletes_own :
      RangesWithin env
      → (s : Memory) → DeletesOnly own s.log
      → DeletesOnly own (reconcile env namespace name s).1.log
  reconcile_deletes_own w s clean =
      reconcile_keeps env
        (allowed-IsOrderly (accepted own) tt (λ e. tt) env (λ log m h x i. h x (w log m x i)))
        namespace name (allowed-ListsSound (accepted own) tt (λ e. tt) env namespace name listed)
        (λ pod log h. h) (λ pod log h k. (h, k)) s
        (allowed-FoundComplete (accepted own) tt (λ e. tt) _) clean
