-- ===== src/AgentPods.antt =====
-- internal/controller/autoscaledagent_controller.go: listing agent pods, deleting the terminated
-- ones, and terminating pods whose agent container has ended.
pub mod Order
pub mod Safety
pub mod Surplus
use azure_pipelines_k8s_agen.Prelude.{
  ℕ, ◌+◌, ◌-◌, Bool, true, false, List, [], ◌∷◌, ◌++◌, Option, none, some, length, take, keep, leb,
  ltb, if◌then◌else◌,
}
use azure_pipelines_k8s_agen.Text.{Text, codes}
use azure_pipelines_k8s_agen.GoMap.{has_key}
use azure_pipelines_k8s_agen.Go.{return, crash, lift, ◌>>=◌, ◌>>◌}
use azure_pipelines_k8s_agen.Kube.{Pod}
use azure_pipelines_k8s_agen.World.{Env}
use azure_pipelines_k8s_agen.World.Monad.{M, list_pods, delete_pod}
use azure_pipelines_k8s_agen.RunningPods.{capabilities_annotation_name}

-- The pod was created by the controller.
abbrev pub is_agent_pod : Pod → Bool
is_agent_pod pod = has_key pod.annotations capabilities_annotation_name

module _ (env : Env) where
  unfoldable pub get_pods_with_phases : Text → Text → List Text → M (List Pod)
  get_pods_with_phases namespace owner [] = return []
  get_pods_with_phases namespace owner (phase ∷ phases) = do
    items ← list_pods env namespace owner (some phase)
    others ← get_pods_with_phases namespace owner phases
    return (keep is_agent_pod items ++ others)

-- `Status.StartTime.Time`, where the pointer is not nil
abbrev pub start_of : Pod → ℕ
start_of pod = elim pod.start_time [ none ↦ 0 | some t ↦ t ]

unfoldable pub insert_by_start : Pod → List Pod → List Pod
insert_by_start pod [] = pod ∷ []
insert_by_start pod (p ∷ pods) =
    if ltb (start_of p) (start_of pod) then p ∷ insert_by_start pod pods else pod ∷ p ∷ pods

-- `sort.Slice` by start time, as one of the orders that it may give to pods of one start time
unfoldable pub sort_by_start : List Pod → List Pod
unfolding insert_by_start
sort_by_start [] = []
sort_by_start (pod ∷ pods) = insert_by_start pod (sort_by_start pods)

unfoldable pub all_started : List Pod → Bool
all_started [] = true
all_started (pod ∷ pods) = elim pod.start_time [ none ↦ false | some _ ↦ all_started pods ]

-- A single pod is never compared; of two or more each is, and a nil start time then panics.
unfoldable pub can_compare : List Pod → Bool
unfolding all_started
can_compare pods = if leb (length pods) 1 then true else all_started pods

module _ (env : Env) where
  delete_pods : List Pod → M (Unit {0})
  delete_pods [] = return tt
  delete_pods (pod ∷ pods) = do delete_pod env pod; delete_pods pods

  -- The body of `deleteTerminatedAgentPods` after the terminated pods have been listed.
  unfoldable pub delete_oldest : ℕ → List Pod → M (Unit {0})
  unfolding can_compare delete_pods
  delete_oldest max_pods_to_keep terminated_pods =
      if ltb max_pods_to_keep (length terminated_pods)
      then (if can_compare terminated_pods
          then delete_pods
              (take (length terminated_pods - max_pods_to_keep) (sort_by_start terminated_pods))
          else crash)
      else return tt

  unfoldable pub delete_terminated_agent_pods : Text → Text → ℕ → M (Unit {0})
  unfolding delete_oldest
  delete_terminated_agent_pods namespace owner max_pods_to_keep = do
    terminated_pods ←
        get_pods_with_phases env namespace owner (codes "Succeeded" ∷ codes "Failed" ∷ [])
    delete_oldest max_pods_to_keep terminated_pods
