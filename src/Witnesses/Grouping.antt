-- ===== src/Witnesses/Grouping.antt =====
-- Examples on capability maps, jobs and pods.
use azure_pipelines_k8s_agen.Prelude.{
  ℕ, true, List, [], ◌∷◌, none, some, ◌≡◌, refl, arith, ◌↔◌, length, keep,
}
use azure_pipelines_k8s_agen.Text.{Text, codes, text_eq, starts_with, split, trim_space}
use azure_pipelines_k8s_agen.Text.Sort.{contains}
use azure_pipelines_k8s_agen.GoMap.{GoMap, IsMap, lookup, insert}
use azure_pipelines_k8s_agen.Capabilities.{
  is_inexact_match, get_sorted_stringification_of_capabilities_map,
  get_capabilities_map_from_string,
}
use azure_pipelines_k8s_agen.Capabilities.Match.{is_inexact_match_iff, AgreesAt}
use azure_pipelines_k8s_agen.Capabilities.Order.{stringification_iff}
use azure_pipelines_k8s_agen.Capabilities.RoundTrip.{from_string-stringification}
use azure_pipelines_k8s_agen.Groups.{add_member, get_inexact_match}
use azure_pipelines_k8s_agen.Groups.Shape.{IsLabel, IsGrouped, add_member-IsGrouped}
use azure_pipelines_k8s_agen.PendingJobs.{
  add_open_requests, get_job_count, AzurePipelinesApiJobRequest, demands_as_map, is_open,
}
use azure_pipelines_k8s_agen.PendingJobs.Exact.{job_count_exact}
use azure_pipelines_k8s_agen.RunningPods.{
  get_pod_count_and_names, new_running_pods_wrapper, get_filtered_running_pods, capabilities_of,
  is_kept,
}
use azure_pipelines_k8s_agen.RunningPods.Exact.{pod_count_exact}
use azure_pipelines_k8s_agen.Kube.{Pod}
use azure_pipelines_k8s_agen.Witnesses.{java, pod, job_request}

abbrev two_entries : GoMap Text
two_entries = (codes "os", codes "linux") ∷ java

abbrev two_reversed : GoMap Text
two_reversed = (codes "java", codes "17") ∷ (codes "os", codes "linux") ∷ []

abbrev requests : List AzurePipelinesApiJobRequest
requests =
    job_request 1 none (codes "java -equals 17" ∷ codes "Agent.Version -gtVersion 2" ∷ [])
    ∷ job_request 2 (some (codes "succeeded")) (codes "java -equals 17" ∷ [])
    ∷ job_request 3 none (codes "docker" ∷ [])
    ∷ []

abbrev pods : List Pod
pods = pod (codes "a") (codes "java=17") 1 ∷ pod (codes "b") (codes "docker=1") 2 ∷ []

java-IsMap : IsMap java
unfolding contains
java-IsMap = (refl, tt)

two_entries-IsMap : IsMap two_entries
unfolding contains text_eq
two_entries-IsMap = (refl, (refl, tt))

two_reversed-IsMap : IsMap two_reversed
unfolding contains text_eq
two_reversed-IsMap = (refl, (refl, tt))

java-IsLabel : IsLabel java
java-IsLabel = record { is_map = java-IsMap; is_encodable = refl }

is_inexact_match_iff_example :
    (is_inexact_match two_entries two_reversed ≡ true)
    ↔ ((k : Text) → AgreesAt two_entries two_reversed k)
is_inexact_match_iff_example =
    is_inexact_match_iff two_entries two_reversed two_entries-IsMap two_reversed-IsMap

stringification_iff_example :
    (get_sorted_stringification_of_capabilities_map two_entries
      ≡ get_sorted_stringification_of_capabilities_map two_reversed)
    ↔ ((k : Text) → lookup two_entries k ≡ lookup two_reversed k)
stringification_iff_example =
    stringification_iff two_entries two_reversed two_entries-IsMap two_reversed-IsMap refl refl

from_string-stringification_example :
    lookup
      (get_capabilities_map_from_string
        (get_sorted_stringification_of_capabilities_map two_entries))
      (codes "os")
    ≡ lookup two_entries (codes "os")
from_string-stringification_example = from_string-stringification two_entries refl (codes "os")

add_member-IsGrouped_example : IsGrouped (add_member {A = ℕ} [] java 3)
unfolding add_member
add_member-IsGrouped_example =
    add_member-IsGrouped [] java 3 (record { all_labels = tt; distinct = tt }) java-IsLabel

job_count_exact_example :
    get_job_count (get_inexact_match (add_open_requests [] requests) java)
    ≡ length (keep (λ r. is_inexact_match (demands_as_map r.demands) java) (keep is_open requests))
unfolding demands_as_map starts_with split insert trim_space
job_count_exact_example = job_count_exact requests java java-IsMap refl

pod_count_exact_example :
    (get_pod_count_and_names
      (get_inexact_match (new_running_pods_wrapper (get_filtered_running_pods pods)) java)).0
    ≡ length (keep (λ pod. is_inexact_match (capabilities_of pod) java) (keep is_kept pods))
pod_count_exact_example = pod_count_exact pods java java-IsMap (omega arith)
