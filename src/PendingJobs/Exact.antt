-- ===== src/PendingJobs/Exact.antt =====
-- `GetPendingJobs` and `GetInexactMatch` keep every open job, under its demands.
use azure_pipelines_k8s_agen.Prelude.{
  Bool, true, List, [], ◌∷◌, map, if◌then◌else◌, ◌≡◌, refl, ◌∙◌, arith, length, keep, all,
  Bool-cases, inl, inr, ap, subst, sym,
}
use azure_pipelines_k8s_agen.Text.{Text, codes, starts_with, split, trim_space}
use azure_pipelines_k8s_agen.GoMap.{GoMap, IsMap, get_or, insert-IsMap}
use azure_pipelines_k8s_agen.GoMap.Same.{deep_equal}
use azure_pipelines_k8s_agen.Capabilities.{
  InexactMatchStringMap, is_inexact_match, get_sorted_stringification_of_map,
}
use azure_pipelines_k8s_agen.Capabilities.RoundTrip.{encodable}
use azure_pipelines_k8s_agen.Groups.{get_inexact_match}
use azure_pipelines_k8s_agen.Groups.Shape.{IsLabel, IsGrouped}
use azure_pipelines_k8s_agen.Groups.Members.{
  add_members, add_members-IsGrouped, AllLabelled, members_exact, total-add_members,
}
use azure_pipelines_k8s_agen.PendingJobs.{
  AzurePipelinesApiJobRequest, PendingJob, PendingJobsWrapper, add_split, add_demand, add_demands,
  demands_as_map, pending_job, add_job_request, is_open, add_open_requests, get_job_count,
}

add_split-IsMap :
    (m : InexactMatchStringMap) (demand : Text) (pieces : List Text)
    → IsMap m
    → IsMap (add_split m demand pieces)
unfolding add_split
add_split-IsMap m demand (_ ∷ []) d = insert-IsMap m (trim_space demand) (codes "1") d
add_split-IsMap m demand (name ∷ value ∷ []) d =
    insert-IsMap m (trim_space name) (trim_space value) d
add_split-IsMap m demand _ d = d

add_demand-IsMap :
    (m : InexactMatchStringMap) (demand : Text) → IsMap m → IsMap (add_demand m demand)
unfolding add_demand
add_demand-IsMap m demand d =
    elim (Bool-cases (starts_with (codes "Agent.Version -gtVersion") demand)) [
      | inl e ↦ rw e d
      | inr e ↦ rw e (add_split-IsMap m demand (split (codes " -equals ") demand) d)
    ]

add_demands-IsMap :
    (m : InexactMatchStringMap) (demands : List Text) → IsMap m → IsMap (add_demands m demands)
unfolding add_demands
add_demands-IsMap m [] d = d
add_demands-IsMap m (demand ∷ rest) d =
    add_demands-IsMap (add_demand m demand) rest (add_demand-IsMap m demand d)

pub demands_as_map-IsMap : (demands : List Text) → IsMap (demands_as_map demands)
unfolding demands_as_map
demands_as_map-IsMap demands = add_demands-IsMap [] demands tt

-- The jobs that are grouped.
abbrev pub open_jobs : List AzurePipelinesApiJobRequest → List PendingJob
open_jobs requests = map pending_job (keep is_open requests)

abbrev demands_of : PendingJob → InexactMatchStringMap
demands_of job = job.demands

add_open_requests-members :
    (pjw : PendingJobsWrapper) (requests : List AzurePipelinesApiJobRequest)
    → add_open_requests pjw requests ≡ add_members demands_of pjw (open_jobs requests)
unfolding add_open_requests add_members add_job_request
add_open_requests-members pjw [] = refl
add_open_requests-members pjw (r ∷ requests) = ground (
  arith,
  add_open_requests-members pjw requests,
  add_open_requests-members (add_job_request pjw r) requests,
)

-- The demands of every open request hold no `=` or `;` in a key and no `;` in a value.
abbrev pub demands_encodable : List AzurePipelinesApiJobRequest → Bool
demands_encodable requests = all (λ r. encodable (demands_as_map r.demands)) (keep is_open requests)

AllLabelled-map :
    (requests : List AzurePipelinesApiJobRequest)
    → all (λ (r : AzurePipelinesApiJobRequest). encodable (demands_as_map r.demands)) requests
      ≡ true
    → AllLabelled demands_of (map pending_job requests)
unfolding pending_job
AllLabelled-map [] h = tt
AllLabelled-map (r ∷ requests) h = (
  record { is_map = demands_as_map-IsMap r.demands; is_encodable = ground arith },
  AllLabelled-map requests (ground arith),
)

count-map :
    (capabilities : GoMap Text) (requests : List AzurePipelinesApiJobRequest)
    → length (
        keep
          (λ (job : PendingJob). is_inexact_match job.demands capabilities)
          (map pending_job requests))
      ≡ length (
          keep
            (λ (r : AzurePipelinesApiJobRequest).
              is_inexact_match (demands_as_map r.demands) capabilities)
            requests)
unfolding pending_job
count-map capabilities [] = refl
count-map capabilities (r ∷ requests) = ground (arith, count-map capabilities requests)

pub add_open_requests-IsGrouped :
    (requests : List AzurePipelinesApiJobRequest)
    → demands_encodable requests ≡ true
    → IsGrouped (add_open_requests [] requests)
add_open_requests-IsGrouped requests h =
    subst IsGrouped (sym (add_open_requests-members [] requests)) (
      add_members-IsGrouped demands_of [] (open_jobs requests)
        (record { all_labels = tt; distinct = tt }) (AllLabelled-map (keep is_open requests) h))

-- If no key of a demand holds `=` or `;` and no value `;`, and the capabilities are a map with one
-- entry to a key, the jobs that `GetInexactMatch` returns are as many as the requests that are not completed and whose demands match the capabilities.
pub job_count_exact :
    (requests : List AzurePipelinesApiJobRequest) (capabilities : GoMap Text)
    → IsMap capabilities
    → demands_encodable requests ≡ true
    → get_job_count (get_inexact_match (add_open_requests [] requests) capabilities)
      ≡ length (
          keep
            (λ r. is_inexact_match (demands_as_map r.demands) capabilities)
            (keep is_open requests))
job_count_exact requests capabilities c h =
    ap (λ pjw. get_job_count (get_inexact_match pjw capabilities))
      (add_open_requests-members [] requests)
    ∙ total-add_members demands_of capabilities c (open_jobs requests)
        (AllLabelled-map (keep is_open requests) h)
    ∙ count-map capabilities (keep is_open requests)

-- If no key of a demand holds `=` or `;` and no value `;`, neither of a request nor of the demand map
-- asked for, then under a demand map that matches the capabilities stand exactly the open jobs with
-- those demands, in the order of the response, and under one that does not match stands nothing.
pub jobs_under_demands :
    (requests : List AzurePipelinesApiJobRequest) (capabilities : GoMap Text)
    (demands : InexactMatchStringMap)
    → IsMap capabilities
    → IsLabel demands
    → demands_encodable requests ≡ true
    → get_or
        (get_inexact_match (add_open_requests [] requests) capabilities)
        (get_sorted_stringification_of_map demands)
        []
      ≡ (if is_inexact_match demands capabilities
          then keep (λ job. deep_equal job.demands demands) (open_jobs requests)
          else [])
jobs_under_demands requests capabilities demands c l h =
    rw (add_open_requests-members [] requests) (
      members_exact demands_of capabilities (open_jobs requests) demands c
        (AllLabelled-map (keep is_open requests) h) l)
