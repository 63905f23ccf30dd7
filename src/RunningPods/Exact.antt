-- ===== src/RunningPods/Exact.antt =====
-- No running pod is lost when the pods are grouped and matched.
use azure_pipelines_k8s_agen.Prelude.{
  ◌<◌, ◌^◌, List, [], ◌∷◌, if◌then◌else◌, ◌≡◌, refl, arith, length, keep, length-keep,
}
use azure_pipelines_k8s_agen.Text.{Text}
use azure_pipelines_k8s_agen.GoMap.{GoMap, IsMap, get_or}
use azure_pipelines_k8s_agen.GoMap.Same.{deep_equal}
use azure_pipelines_k8s_agen.Kube.{Pod}
use azure_pipelines_k8s_agen.Capabilities.{
  InexactMatchStringMap, is_inexact_match, get_sorted_stringification_of_map,
}
use azure_pipelines_k8s_agen.Capabilities.Normal.{from_string-IsMap, from_string-encodable}
use azure_pipelines_k8s_agen.Groups.{get_inexact_match, add_member, total}
use azure_pipelines_k8s_agen.Groups.Members.{
  add_members, AllLabelled, members_exact, total-add_members,
}
use azure_pipelines_k8s_agen.Groups.Shape.{IsLabel}
use azure_pipelines_k8s_agen.RunningPods.{
  RunningPodsWrapper, capabilities_annotation_name, is_kept, get_filtered_running_pods,
  capabilities_of, add_pods, new_running_pods_wrapper, get_pod_count_and_names,
}

pub capabilities_of-IsLabel : (pod : Pod) → IsLabel (capabilities_of pod)
unfolding capabilities_of
capabilities_of-IsLabel pod =
    let s : Text = get_or pod.annotations capabilities_annotation_name [] in
    record { is_map = from_string-IsMap s; is_encodable = from_string-encodable s }

all_pods_labelled : (pods : List Pod) → AllLabelled capabilities_of pods
all_pods_labelled [] = tt
all_pods_labelled (pod ∷ pods) = (capabilities_of-IsLabel pod, all_pods_labelled pods)

add_pods-members :
    (rpw : RunningPodsWrapper) (pods : List Pod)
    → add_pods rpw pods ≡ add_members capabilities_of rpw pods
unfolding add_pods add_members
add_pods-members rpw [] = refl
add_pods-members rpw (pod ∷ pods) = add_pods-members (add_member rpw (capabilities_of pod) pod) pods

filtered_eq_keep : (pods : List Pod) → get_filtered_running_pods pods ≡ keep is_kept pods
unfolding get_filtered_running_pods
filtered_eq_keep [] = refl
filtered_eq_keep (pod ∷ pods) = ground (arith, filtered_eq_keep pods)

-- Of fewer than 2^31 pods, for capabilities with one entry to a key, the count that `GetPodCountAndNames` returns is the number of pods that
-- are not terminating and whose capabilities match.
pub pod_count_exact :
    (pods : List Pod) (capabilities : GoMap Text)
    → IsMap capabilities
    → length pods < 2 ^ 31
    → (get_pod_count_and_names (
        get_inexact_match
          (new_running_pods_wrapper (get_filtered_running_pods pods))
          capabilities)).0
      ≡ length
          (keep (λ pod. is_inexact_match (capabilities_of pod) capabilities) (keep is_kept pods))
unfolding get_pod_count_and_names new_running_pods_wrapper
pod_count_exact pods capabilities c h =
    let count : total
          (get_inexact_match (add_members capabilities_of [] (keep is_kept pods)) capabilities)
        ≡ length (
            keep (λ pod. is_inexact_match (capabilities_of pod) capabilities) (keep is_kept pods)) =
      total-add_members capabilities_of capabilities c (keep is_kept pods)
        (all_pods_labelled (keep is_kept pods)) in
    rw (filtered_eq_keep pods, add_pods-members [] (keep is_kept pods), count)
      (omega (
        arith,
        length-keep (λ pod. is_inexact_match (capabilities_of pod) capabilities)
            (keep is_kept pods),
        length-keep is_kept pods,
      ))

-- Under the written form of a capability map whose keys hold no `=` or `;` and whose values no `;`,
-- with one entry to a key there and in the capabilities asked for, stand exactly the kept pods with those capabilities,
-- in order, if the map matches, and nothing if it does not.
pub pods_under_capabilities :
    (pods : List Pod) (capabilities : GoMap Text) (label : InexactMatchStringMap)
    → IsMap capabilities
    → IsLabel label
    → get_or
        (get_inexact_match (new_running_pods_wrapper (get_filtered_running_pods pods)) capabilities)
        (get_sorted_stringification_of_map label)
        []
      ≡ (if is_inexact_match label capabilities
          then keep (λ pod. deep_equal (capabilities_of pod) label) (keep is_kept pods)
          else [])
unfolding new_running_pods_wrapper
pods_under_capabilities pods capabilities label c l =
    rw (filtered_eq_keep pods, add_pods-members [] (keep is_kept pods))
      (members_exact capabilities_of capabilities (keep is_kept pods) label c
        (all_pods_labelled (keep is_kept pods)) l)
