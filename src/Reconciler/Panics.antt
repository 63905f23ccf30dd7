-- ===== src/Reconciler/Panics.antt =====
-- A reconciliation does not panic, in a world that gives it no cause to.
use azure_pipelines_k8s_agen.Prelude.{[], ◌≡◌, ◌≢◌, true, ap}
use azure_pipelines_k8s_agen.Text.{Text}
use azure_pipelines_k8s_agen.GoMap.{GoMap, has_key}
use azure_pipelines_k8s_agen.Go.{panic}
use azure_pipelines_k8s_agen.World.{Env, Memory}
use azure_pipelines_k8s_agen.World.Safe.{is_created, Terms, Holds-panics, Anything}
use azure_pipelines_k8s_agen.World.Orderly.{IsOrderly, ListsSound}
use azure_pipelines_k8s_agen.Reconciler.{reconcile}
use azure_pipelines_k8s_agen.Reconciler.Safety.{FoundComplete, reconcile-Holds}

pub nil_not_created : (m : GoMap Text) → m ≡ [] → ¬ (is_created m ≡ true)
unfolding has_key
nil_not_created m e h = absurd (cc (ap is_created e, h))

-- No panic at all but any error; and each agent pod, which has an annotation, has a container.
abbrev pub no_panics : Terms
no_panics = record {
  panics = ⊥;
  panics_prop = hlevel;
  errors = λ e. Unit;
  messages = λ why. tt;
  sound = λ pod. (pod.spec.containers ≢ []) × (is_created pod.annotations ≡ true);
  sound_prop = λ pod. hlevel;
  annotated = λ pod m (h, a) k. (h, k a);
  written = λ pod (h, a) e. nil_not_created pod.annotations e a;
  contained = λ pod (h, a) e. h e;
  invariant = λ log. Unit;
  grows = λ c log e h. h;
}

module _ (env : Env) (o : IsOrderly no_panics env) (namespace name : Text)
    (l : ListsSound no_panics env namespace name) where
  -- In a world whose answers are no panics and whose random numbers are in range, where an update of
  -- a pod that has annotations answers with one that has some, and where the agent pods of the resource
  -- have a container and the ended ones a start time, a reconciliation never panics if the resource
  -- that it reads, if any, gives the counts and durations that it needs, its cache volumes have names
  -- and its templates have a container: whatever the state of the controller, it ends in a value or an
  -- error.
  pub reconcile_never_panics :
      (s : Memory)
      → FoundComplete no_panics (env.get_agent s.log namespace name)
      → (reconcile env namespace name s).0 ≢ panic
  reconcile_never_panics s h =
      Holds-panics no_panics Anything _
        (reconcile-Holds env o namespace name l (λ pod log h. h) (λ pod log h k. k) s h)
