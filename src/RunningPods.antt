-- ===== src/RunningPods.antt =====
-- internal/service/structs.go and utils.go: the agent pods that run, grouped by capabilities.
pub mod Exact
use azure_pipelines_k8s_agen.Prelude.{
  ℕ, ◌+◌, Bool, true, false, ◌%◌, ◌^◌, List, [], ◌∷◌, ◌++◌, Option, none, some, if◌then◌else◌,
  length,
}
use azure_pipelines_k8s_agen.Text.{Text, codes}
use azure_pipelines_k8s_agen.GoMap.{GoMap, has_key, get_or}
use azure_pipelines_k8s_agen.Capabilities.{InexactMatchStringMap, get_capabilities_map_from_string}
use azure_pipelines_k8s_agen.Kube.{Pod}
use azure_pipelines_k8s_agen.Groups.{Group, add_member, total}

abbrev pub capabilities_annotation_name : Text
capabilities_annotation_name = codes "AzurePipelinesCapabilities"

abbrev pub pod_termination_in_progress_annotation_key : Text
pod_termination_in_progress_annotation_key = codes "TerminationInProgress"

-- The pod is not being terminated, neither by an annotation nor by a deletion.
unfoldable pub is_kept : Pod → Bool
is_kept p =
    if has_key p.annotations pod_termination_in_progress_annotation_key
    then false
    else elim p.deletion_timestamp [ none ↦ true | some _ ↦ false ]

unfoldable pub get_filtered_running_pods : List Pod → List Pod
unfolding is_kept
get_filtered_running_pods [] = []
get_filtered_running_pods (p ∷ pods) =
    let rest = get_filtered_running_pods pods in if is_kept p then p ∷ rest else rest

abbrev pub RunningPodsWrapper : Type 0
RunningPodsWrapper = List (Group Pod)

-- `podCapabilitiesMap`; a missing annotation reads as the empty string.
unfoldable pub capabilities_of : Pod → InexactMatchStringMap
capabilities_of pod =
    get_capabilities_map_from_string (get_or pod.annotations capabilities_annotation_name [])

-- The loop of `NewRunningPodsWrapper`.
unfoldable pub add_pods : RunningPodsWrapper → List Pod → RunningPodsWrapper
add_pods rpw [] = rpw
add_pods rpw (pod ∷ pods) = add_pods (add_member rpw (capabilities_of pod) pod) pods

unfoldable pub new_running_pods_wrapper : List Pod → RunningPodsWrapper
unfolding add_pods
new_running_pods_wrapper running_pods = add_pods [] running_pods

-- `int32(n)`. A count of 2^31 or more, which Go would read as negative, keeps its residue here.
abbrev pub int32 : ℕ → ℕ
int32 n = n % 2 ^ 32

abbrev pod_names : List Pod → List Text
pod_names [] = []
pod_names (pod ∷ pods) = pod.name ∷ pod_names pods

abbrev all_names : GoMap (List Pod) → List Text
all_names [] = []
all_names ((k, pods) ∷ m) = pod_names pods ++ all_names m

unfoldable pub get_pod_count_and_names : GoMap (List Pod) → ℕ × List Text
get_pod_count_and_names running_pods = (int32 (total running_pods), all_names running_pods)
