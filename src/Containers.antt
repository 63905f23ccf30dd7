-- ===== src/Containers.antt =====
-- internal/service/utils.go and the controller: the containers of a pod in its spec and in its
-- status, and `terminateFinishedAgentPods`.
pub mod Indices
pub mod Images
pub mod Broken
pub mod Safety
use azure_pipelines_k8s_agen.Prelude.{
  ℕ, zero, suc, ◌+◌, Bool, true, false, ◌&&◌, not, List, [], ◌∷◌, ◌++◌, Option, none, some, length,
  get_elem?, ◌==◌, ltb, if◌then◌else◌,
}
use azure_pipelines_k8s_agen.Text.{Text, codes, text_eq}
use azure_pipelines_k8s_agen.GoMap.{has_key, insert}
use azure_pipelines_k8s_agen.Go.{
  Result, ok, err, panic, GoError, message, not_nil, return, lift, ◌>>=◌, ◌>>◌,
}
use azure_pipelines_k8s_agen.Kube.{Pod, PodSpec, Container, ContainerStatus}
use azure_pipelines_k8s_agen.World.{Env}
use azure_pipelines_k8s_agen.World.Monad.{M, update_pod}
use azure_pipelines_k8s_agen.RunningPods.{pod_termination_in_progress_annotation_key}
use azure_pipelines_k8s_agen.AgentPods.{get_pods_with_phases}

abbrev pub non_existent_container_image_suffix : Text
non_existent_container_image_suffix = codes "does-not-exist-for-sure"

-- `Status.ContainerStatuses`, where nil has no elements
abbrev pub statuses : Pod → List ContainerStatus
statuses pod = elim pod.container_statuses [ none ↦ [] | some l ↦ l ]

-- The first index of the name in a list, counted from the number.
pub status_index_from : ℕ → Text → List ContainerStatus → Option ℕ
status_index_from i name [] = none
status_index_from i name (c ∷ cs) =
    let later = status_index_from (suc i) name cs in if text_eq c.name name then some i else later

pub spec_index_from : ℕ → Text → List Container → Option ℕ
spec_index_from i name [] = none
spec_index_from i name (c ∷ cs) =
    let later = spec_index_from (suc i) name cs in if text_eq c.name name then some i else later

found_or : Text → Option ℕ → Result ℕ
found_or why none = err (message why)
found_or why (some i) = ok i

unfoldable pub get_container_status_index : Pod → ℕ → Result ℕ
unfolding status_index_from found_or
get_container_status_index pod container_index_in_spec =
    elim (get_elem? pod.spec.containers container_index_in_spec) [
      | none ↦ panic
      | some c ↦
          found_or
            (codes
                "GetContainerStatusIndex(): no container found in pod that has the expected name "
              ++ c.name)
            (status_index_from 0 c.name (statuses pod))
    ]

-- An index outside the statuses panics, in the loop or else in the error message.
unfoldable pub get_container_spec_index : Pod → ℕ → Result ℕ
unfolding spec_index_from found_or
get_container_spec_index pod container_status_index =
    elim (get_elem? (statuses pod) container_status_index) [
      | none ↦ panic
      | some c ↦
          found_or
            (codes "GetContainerSpecIndex(): none of the containers in the spec have the name "
              ++ (c.name ++ codes " (should never happen!!)"))
            (spec_index_from 0 c.name pod.spec.containers)
    ]

-- The indices of the running containers other than the agent's, counted from the number.
unfoldable pub indices_to_terminate : ℕ → ℕ → List ContainerStatus → List ℕ
indices_to_terminate agent i [] = []
indices_to_terminate agent i (c ∷ cs) =
    let rest = indices_to_terminate agent (suc i) cs in
    if not (i == agent) && c.running then i ∷ rest else rest

-- `Spec.Containers[i].Image = image`
unfoldable pub set_image : List Container → ℕ → Text → List Container
set_image [] i image = []
set_image (c ∷ cs) zero image = record c { image = image } ∷ cs
set_image (c ∷ cs) (suc i) image = c ∷ set_image cs i image

abbrev pub with_image : Pod → ℕ → Text → Pod
with_image pod i image = record pod {
  spec = record (pod.spec) { containers = set_image pod.spec.containers i image };
}

abbrev image_at : List ContainerStatus → ℕ → Text
image_at l i = elim (get_elem? l i) [ none ↦ [] | some c ↦ c.image ]

break_at : Pod → ℕ → Result ℕ → Result Pod
break_at pod status_index (ok spec_index) = ok (
    with_image pod spec_index
      (image_at (statuses pod) status_index ++ non_existent_container_image_suffix))
break_at pod status_index (err e) = err e
break_at pod status_index panic = panic

break_next : (Pod → Result Pod) → Result Pod → Result Pod
break_next rest (ok pod) = rest pod
break_next rest (err e) = err e
break_next rest panic = panic

-- The loop that gives each of these containers an image that does not exist.
unfoldable pub break_images : Pod → List ℕ → Result Pod
unfolding break_at break_next
break_images pod [] = ok pod
break_images pod (i ∷ is) =
    break_next (λ pod'. break_images pod' is) (break_at pod i (get_container_spec_index pod i))

abbrev status_terminated : List ContainerStatus → ℕ → Result Bool
status_terminated l i = elim (get_elem? l i) [ none ↦ panic | some c ↦ ok c.terminated ]

module _ (env : Env) where
  -- Breaks the images, updates the pod, and then sets the annotation by a second update.
  mark_terminating : Pod → List ℕ → M (Unit {0})
  mark_terminating pod indices = do
    broken ← lift (break_images pod indices)
    updated ← update_pod env broken
    not_nil updated.annotations
    update_pod env (record updated {
      annotations =
          insert updated.annotations pod_termination_in_progress_annotation_key (codes "1");
    })
    return tt

  terminate_containers : Pod → List ℕ → M (Unit {0})
  unfolding mark_terminating
  terminate_containers pod [] = return tt
  terminate_containers pod (i ∷ is) =
      if has_key pod.annotations pod_termination_in_progress_annotation_key
      then return tt
      else mark_terminating pod (i ∷ is)

  -- The body of the loop, for one running pod.
  unfoldable pub terminate_finished_pod : Pod → M (Unit {0})
  unfolding terminate_containers
  terminate_finished_pod pod =
      if ltb 1 (length pod.spec.containers)
      then (do
        agent ← lift (get_container_status_index pod 0)
        terminated ← lift (status_terminated (statuses pod) agent)
        if terminated
            then terminate_containers pod (indices_to_terminate agent 0 (statuses pod))
            else return tt)
      else return tt

  terminate_finished_pods : List Pod → M (Unit {0})
  unfolding terminate_finished_pod
  terminate_finished_pods [] = return tt
  terminate_finished_pods (pod ∷ pods) = do terminate_finished_pod pod; terminate_finished_pods pods

  unfoldable pub terminate_finished_agent_pods : Text → Text → M (Unit {0})
  unfolding terminate_finished_pods
  terminate_finished_agent_pods namespace owner = do
    running_pods ← get_pods_with_phases env namespace owner (codes "Running" ∷ [])
    terminate_finished_pods running_pods
