-- ===== src/Witnesses/Settling.antt =====
-- An example on two rounds over one entry.
use mathlib.Core.List.Perm
use azure_pipelines_k8s_agen.Prelude.{List, [], ◌∷◌, ◌++◌, none, ◌≡◌, refl, sym, subst, arith}
use azure_pipelines_k8s_agen.Text.{codes, text_eq, split, cut, trim_space, starts_with, join}
use azure_pipelines_k8s_agen.Text.Sort.{sort, contains}
use azure_pipelines_k8s_agen.GoMap.{lookup, insert, has_key}
use azure_pipelines_k8s_agen.GoMap.Same.{deep_equal}
use azure_pipelines_k8s_agen.Capabilities.{
  is_inexact_match, get_capabilities_map_from_string,
  get_sorted_stringification_of_capabilities_map,
}
use azure_pipelines_k8s_agen.Groups.{get_inexact_match, add_member}
use azure_pipelines_k8s_agen.PendingJobs.{
  AzurePipelinesApiJobRequest, add_open_requests, add_job_request, demands_as_map,
}
use azure_pipelines_k8s_agen.Kube.{Pod, literal}
use azure_pipelines_k8s_agen.RunningPods.{
  new_running_pods_wrapper, get_filtered_running_pods, is_kept, capabilities_of,
}
use azure_pipelines_k8s_agen.World.Costs.{spent}
use azure_pipelines_k8s_agen.Reconciler.{scale, agents_with_caps_to_create}
use azure_pipelines_k8s_agen.Reconciler.Scaling.{creation}
use azure_pipelines_k8s_agen.Reconciler.Settled.{scale_settles, Created, none_created, one_created}
use azure_pipelines_k8s_agen.Reconciler.Answered.{matching, matching_jobs}
use azure_pipelines_k8s_agen.AgentCreation.{agent_env, copy_map, env_vars, extra_containers}
use azure_pipelines_k8s_agen.AgentCreation.Prepared.{IsAgentPod}
use azure_pipelines_k8s_agen.Witnesses.{
  world, start, java, pod, entry, custom_resource, job_request, container, pod_spec,
}

abbrev requests : List AzurePipelinesApiJobRequest
requests =
    job_request 1 none (codes "java -equals 17" ∷ [])
    ∷ job_request 2 none (codes "java -equals 17" ∷ [])
    ∷ []

abbrev first : List Pod
first = pod (codes "a") (codes "java=17") 1 ∷ []

-- As `createAgent` makes it, once it has started.
abbrev new_agent : Pod
new_agent = record (pod (codes "cr-b") (codes "java=17") 2) {
  spec = record pod_spec {
    containers =
        record (container (codes "agent")) {
          env =
              agent_env (codes "cr-b") custom_resource
              ++ record { name = codes "java"; value = literal (codes "17") } ∷ [];
        }
        ∷ container (codes "side")
        ∷ [];
  };
}

abbrev created : List Pod
created = new_agent ∷ []

one_wanted :
    agents_with_caps_to_create (matching java first) (matching_jobs world entry requests)
    ≡ codes "java=17" ∷ []
unfolding agents_with_caps_to_create get_inexact_match new_running_pods_wrapper
    get_filtered_running_pods is_kept has_key add_open_requests add_job_request add_member
    is_inexact_match text_eq lookup demands_as_map split cut insert trim_space starts_with
    deep_equal capabilities_of get_capabilities_map_from_string join sort
    get_sorted_stringification_of_capabilities_map
one_wanted = refl

new_agent-IsAgentPod :
    IsAgentPod world
      (codes "ns")
      (codes "cr")
      custom_resource
      entry
      (get_capabilities_map_from_string (codes "java=17"))
      new_agent
unfolding text_eq lookup split cut insert get_capabilities_map_from_string join sort copy_map
    agent_env get_sorted_stringification_of_capabilities_map env_vars extra_containers contains
new_agent-IsAgentPod = record {
  annotation = refl;
  restart_policy = refl;
  deletion_timestamp = refl;
  labels = refl;
  containers = ([], container (codes "agent"), container (codes "side") ∷ [], [], refl, refl, refl);
}

agent_created :
    Created world (codes "ns") (codes "cr") custom_resource entry (codes "java=17" ∷ []) created
unfolding is_kept has_key text_eq
agent_created = one_created (codes "java=17") new_agent refl new_agent-IsAgentPod none_created

scale_settles_example :
    spent creation
      (scale world
        (codes "ns")
        (codes "cr")
        custom_resource
        (add_open_requests [] requests)
        entry
        (new_running_pods_wrapper (get_filtered_running_pods (first ++ created)))
        start).1.log
    ≡ spent creation start.log
unfolding split cut trim_space starts_with insert demands_as_map text_eq contains
scale_settles_example =
    scale_settles world (codes "ns") (codes "cr") custom_resource entry requests first created 0 2
      start.log start (refl, tt) refl refl refl (λ log m. Perm.refl m)
      (subst
        (λ wanted. Created world (codes "ns") (codes "cr") custom_resource entry wanted created)
        (sym one_wanted) agent_created)
      (omega arith)
