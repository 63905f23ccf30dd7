-- ===== src/PendingJobs.antt =====
-- internal/service/structs.go and utils.go: the pending jobs that the Azure DevOps API reports.
pub mod Exact
use azure_pipelines_k8s_agen.Prelude.{
  ℕ, Bool, true, false, List, [], ◌∷◌, Option, none, some, if◌then◌else◌,
}
use azure_pipelines_k8s_agen.Text.{Text, codes, starts_with, split, trim_space}
use azure_pipelines_k8s_agen.GoMap.{GoMap, insert}
use azure_pipelines_k8s_agen.Capabilities.{InexactMatchStringMap}
use azure_pipelines_k8s_agen.Groups.{Group, add_member, total}

-- The fields that the controller and the fake agent read. A time is a number of nanoseconds, 0 for
-- the zero time.
pub record AzurePipelinesApiJobRequest : Type 0 where
  pub request_id : ℕ
  pub queue_time : ℕ
  pub assign_time : ℕ
  pub result : Option Text
  pub demands : List Text
  pub job_id : Text
  pub scope_id : Text
  pub host_id : Text
  pub plan_id : Text
  pub pool_id : ℕ

pub record PendingJob : Type 0 where
  pub request_id : ℕ
  pub queue_time : ℕ
  pub assign_time : ℕ
  pub demands : InexactMatchStringMap

abbrev pub PendingJobsWrapper : Type 0
PendingJobsWrapper = List (Group PendingJob)

-- The two lengths of `splitStr` that set a demand.
add_split : InexactMatchStringMap → Text → List Text → InexactMatchStringMap
add_split m demand (_ ∷ []) = insert m (trim_space demand) (codes "1")
add_split m demand (name ∷ value ∷ []) = insert m (trim_space name) (trim_space value)
add_split m demand _ = m

add_demand : InexactMatchStringMap → Text → InexactMatchStringMap
unfolding add_split
add_demand m demand =
    if starts_with (codes "Agent.Version -gtVersion") demand
    then m
    else add_split m demand (split (codes " -equals ") demand)

add_demands : InexactMatchStringMap → List Text → InexactMatchStringMap
unfolding add_demand
add_demands m [] = m
add_demands m (demand ∷ rest) = add_demands (add_demand m demand) rest

-- `demandsAsMap`
unfoldable pub demands_as_map : List Text → InexactMatchStringMap
unfolding add_demands
demands_as_map demands = add_demands [] demands

unfoldable pub pending_job : AzurePipelinesApiJobRequest → PendingJob
pending_job r = record {
  request_id = r.request_id;
  queue_time = r.queue_time;
  assign_time = r.assign_time;
  demands = demands_as_map r.demands;
}

unfoldable pub add_job_request :
    PendingJobsWrapper → AzurePipelinesApiJobRequest → PendingJobsWrapper
unfolding pending_job
add_job_request pjw r = add_member pjw (demands_as_map r.demands) (pending_job r)

-- The job has not been completed.
abbrev pub is_open : AzurePipelinesApiJobRequest → Bool
is_open r = elim r.result [ none ↦ true | some _ ↦ false ]

-- The loop of `GetPendingJobs` over the requests of the response.
unfoldable pub add_open_requests :
    PendingJobsWrapper → List AzurePipelinesApiJobRequest → PendingJobsWrapper
add_open_requests pjw [] = pjw
add_open_requests pjw (r ∷ requests) =
    add_open_requests (if is_open r then add_job_request pjw r else pjw) requests

abbrev pub get_job_count : GoMap (List PendingJob) → ℕ
get_job_count pending_jobs = total pending_jobs
