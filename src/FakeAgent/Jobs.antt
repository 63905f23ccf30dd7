-- ===== src/FakeAgent/Jobs.antt =====
-- fake_agent/utils/fake_agent_utils.go: jobs as the agent reads them, and those that it may take.
pub mod Order
pub mod Served
use azure_pipelines_k8s_agen.Prelude.{
  ℕ, Bool, true, false, ◌&&◌, List, [], ◌∷◌, Option, none, some, keep, ◌==◌, ltb_ℤ, ℤ, pos,
  if◌then◌else◌,
}
use azure_pipelines_k8s_agen.Text.{Text, codes, text_eq, cut}
use azure_pipelines_k8s_agen.GoMap.{GoMap, insert, get_or, lookup}
use azure_pipelines_k8s_agen.PendingJobs.{AzurePipelinesApiJobRequest}
use azure_pipelines_k8s_agen.FakePlatform.{JobState, pending, in_progress, finished}
use azure_pipelines_k8s_agen.FakeAgent.Integers.{parse_int}

-- `fake_platform_server.Job`, whose numbers the agent reads from texts, so that they may be negative.
pub record SeenJob : Type 0 where
  pub id : ℤ
  pub pool_id : ℕ
  pub state : JobState
  pub duration : ℤ
  pub start_delay : ℤ
  pub finish_delay : ℤ
  pub demands : List Text

-- The conversion in `GetPendingJobs`.
unfoldable pub seen_job : ℕ → AzurePipelinesApiJobRequest → SeenJob
seen_job pool_id r = record {
  id = parse_int r.job_id;
  pool_id = pool_id;
  state = if r.assign_time == 0 then pending else in_progress;
  duration = parse_int r.scope_id;
  start_delay = parse_int r.host_id;
  finish_delay = parse_int r.plan_id;
  demands = r.demands;
}

unfoldable pub seen_jobs : ℕ → List AzurePipelinesApiJobRequest → List SeenJob
unfolding seen_job
seen_jobs pool_id [] = []
seen_jobs pool_id (r ∷ rs) = seen_job pool_id r ∷ seen_jobs pool_id rs

-- `getCapabilitiesMapFromEnv`
abbrev add_variable : GoMap Text → Option (Text × Text) → GoMap Text
add_variable m none = m
add_variable m (some (key, value)) = insert m key value

unfoldable pub add_variables : GoMap Text → List Text → GoMap Text
add_variables m [] = m
add_variables m (env ∷ envs) = add_variables (add_variable m (cut (codes "=") env)) envs

unfoldable pub capabilities_map_from_env : List Text → GoMap Text
unfolding add_variables
capabilities_map_from_env environ = add_variables [] environ

-- A demand without a value is passed over, and a missing variable reads as the empty text.
abbrev pub satisfies : GoMap Text → Option (Text × Text) → Bool
satisfies m none = true
satisfies m (some (key, value)) = text_eq (get_or m key []) value

unfoldable pub satisfy_all : GoMap Text → List Text → Bool
satisfy_all m [] = true
satisfy_all m (demand ∷ demands) =
    satisfies m (cut (codes " -equals ") demand) && satisfy_all m demands

unfoldable pub does_fake_agent_capabilities_satisfy_demands : List Text → List Text → Bool
unfolding satisfy_all capabilities_map_from_env
does_fake_agent_capabilities_satisfy_demands environ demands =
    satisfy_all (capabilities_map_from_env environ) demands

abbrev pub is_pending : JobState → Bool
is_pending pending = true
is_pending in_progress = false
is_pending finished = false

abbrev pub is_eligible : List Text → SeenJob → Bool
is_eligible environ job =
    is_pending job.state && does_fake_agent_capabilities_satisfy_demands environ job.demands

unfoldable pub insert_by_delay : SeenJob → List SeenJob → List SeenJob
insert_by_delay job [] = job ∷ []
insert_by_delay job (j ∷ jobs) =
    if ltb_ℤ j.start_delay job.start_delay then j ∷ insert_by_delay job jobs else job ∷ j ∷ jobs

-- `sort.Slice` by start delay
unfoldable pub sort_by_delay : List SeenJob → List SeenJob
unfolding insert_by_delay
sort_by_delay [] = []
sort_by_delay (job ∷ jobs) = insert_by_delay job (sort_by_delay jobs)

unfoldable pub get_eligible_jobs_sorted_by_start_delay : List Text → List SeenJob → List SeenJob
unfolding sort_by_delay does_fake_agent_capabilities_satisfy_demands
get_eligible_jobs_sorted_by_start_delay environ jobs =
    sort_by_delay (keep (is_eligible environ) jobs)
