-- ===== src/Witnesses/Scaling.antt =====
-- Examples on the scaling of one entry, and on reconciliations that stop early.
use azure_pipelines_k8s_agen.Prelude.{
  ◌+◌, ◌-◌, ◌≤◌, min, max, [], ◌∷◌, none, some, ◌≡◌, refl, sym, subst, arith, ltb, if◌then◌else◌,
}
use azure_pipelines_k8s_agen.Text.{codes, text_eq, split, cut, trim_space, starts_with, join}
use azure_pipelines_k8s_agen.Text.Sort.{sort}
use azure_pipelines_k8s_agen.GoMap.Same.{deep_equal}
use azure_pipelines_k8s_agen.GoMap.{lookup, insert}
use azure_pipelines_k8s_agen.Capabilities.{
  is_inexact_match, get_capabilities_map_from_string,
  get_sorted_stringification_of_capabilities_map,
}
use azure_pipelines_k8s_agen.Go.{ok, ◌>>=◌}
use azure_pipelines_k8s_agen.World.{Env}
use azure_pipelines_k8s_agen.World.Monad.{call, generate_random_string}
use azure_pipelines_k8s_agen.World.Costs.{spent}
use azure_pipelines_k8s_agen.Groups.{get_inexact_match, total, add_member}
use azure_pipelines_k8s_agen.PendingJobs.{
  PendingJobsWrapper, add_open_requests, get_job_count, add_job_request, demands_as_map,
}
use azure_pipelines_k8s_agen.RunningPods.{
  RunningPodsWrapper, new_running_pods_wrapper, get_pod_count_and_names, capabilities_of,
}
use azure_pipelines_k8s_agen.PvcAssignment.{assign_or_create_pvcs, assign_containers}
use azure_pipelines_k8s_agen.AgentCreation.{create_agent}
use azure_pipelines_k8s_agen.Reconciler.{scale, reconcile, agents_with_caps_to_create}
use azure_pipelines_k8s_agen.Reconciler.Scaling.{creation, deletion}
use azure_pipelines_k8s_agen.Reconciler.Limits.{scale_within_limits}
use azure_pipelines_k8s_agen.Reconciler.Demand.{scale_meets_demand, AllCreate, missing}
use azure_pipelines_k8s_agen.Reconciler.Totals.{reconcile_within_limits, ceilings}
use azure_pipelines_k8s_agen.Witnesses.{
  world, start, java, pod, entry, custom_resource, job_request,
}

abbrev pods : RunningPodsWrapper
pods = new_running_pods_wrapper (pod (codes "a") (codes "java=17") 1 ∷ [])

abbrev jobs : PendingJobsWrapper
jobs = add_open_requests [] (
    job_request 1 none (codes "java -equals 17" ∷ [])
    ∷ job_request 2 none (codes "java -equals 17" ∷ [])
    ∷ [])

scale_within_limits_example :
    (spent creation
        (scale world (codes "ns") (codes "cr") custom_resource jobs entry pods start).1.log
      ≤ spent creation start.log
        + (if ltb
              (min 2 (max (get_job_count (get_inexact_match jobs java)) 0))
              (get_pod_count_and_names (get_inexact_match pods java)).0
            then 0
            else 2 - (get_pod_count_and_names (get_inexact_match pods java)).0))
    × (spent deletion
          (scale world (codes "ns") (codes "cr") custom_resource jobs entry pods start).1.log
        ≤ spent deletion start.log
          + (if ltb
                (min 2 (max (get_job_count (get_inexact_match jobs java)) 0))
                (get_pod_count_and_names (get_inexact_match pods java)).0
              then 1
              else 0))
scale_within_limits_example =
    scale_within_limits world (codes "ns") (codes "cr") custom_resource entry jobs pods 0 2 start
      refl refl (omega arith)

one_pod : (get_pod_count_and_names (get_inexact_match pods java)).0 ≡ 1
unfolding get_pod_count_and_names total get_inexact_match new_running_pods_wrapper add_member
    is_inexact_match text_eq lookup capabilities_of get_capabilities_map_from_string split cut
    insert
one_pod = refl

two_jobs : get_job_count (get_inexact_match jobs java) ≡ 2
unfolding total get_inexact_match add_open_requests add_job_request add_member is_inexact_match
    text_eq lookup demands_as_map split cut insert trim_space starts_with deep_equal
two_jobs = refl

one_wanted :
    agents_with_caps_to_create (get_inexact_match pods java) (get_inexact_match jobs java)
    ≡ codes "java=17" ∷ []
unfolding agents_with_caps_to_create total get_inexact_match new_running_pods_wrapper
    add_open_requests add_job_request add_member is_inexact_match text_eq lookup demands_as_map
    split cut insert trim_space starts_with deep_equal capabilities_of
    get_capabilities_map_from_string get_sorted_stringification_of_capabilities_map join sort
one_wanted = refl

all_create : AllCreate world (codes "ns") (codes "cr") custom_resource entry (codes "java=17" ∷ [])
unfolding create_agent generate_random_string ◌>>=◌ call assign_or_create_pvcs assign_containers
    lookup text_eq get_capabilities_map_from_string split cut insert
all_create = (λ s. (codes "cr-aaaaa", refl), tt)

scale_meets_demand_example :
    ((scale world (codes "ns") (codes "cr") custom_resource jobs entry pods start).0 ≡ ok pods)
    × (spent creation
          (scale world (codes "ns") (codes "cr") custom_resource jobs entry pods start).1.log
        ≡ spent creation start.log
          + min
              (2 - (get_pod_count_and_names (get_inexact_match pods java)).0)
              (missing (get_inexact_match pods java) (get_inexact_match jobs java)))
scale_meets_demand_example =
    scale_meets_demand world (codes "ns") (codes "cr") custom_resource entry jobs pods 0 2 start
      refl refl (omega (arith, one_pod, two_jobs)) (omega arith)
      (subst (AllCreate world (codes "ns") (codes "cr") custom_resource entry) (sym one_wanted)
        all_create)

-- The world with the resource in it.
abbrev found_world : Env
found_world = record world { get_agent = λ _ _ _. some (ok custom_resource) }

reconcile_within_limits_example :
    spent creation (reconcile found_world (codes "ns") (codes "cr") start).1.log
    ≤ spent creation start.log + ceilings custom_resource.spec.pods_with_capabilities
reconcile_within_limits_example =
    reconcile_within_limits found_world (codes "ns") (codes "cr") custom_resource start refl
