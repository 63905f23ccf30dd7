-- ===== src/FakePlatform.antt =====
-- fake_platform_server/server.go and structs.go: the server that stands in for Azure DevOps in the
-- end-to-end tests. A handler changes the data under a mutex, so it is one step on the state. The
-- calls of the tests take no mutex; they are one step each as well, so that a call that runs while a
-- handler does is not modelled. The JSON of a successful answer is left as the data that it encodes.
pub mod Handlers
pub mod Steps
pub mod Lifecycle
use azure_pipelines_k8s_agen.Prelude.{
  ℕ, ◌+◌, Bool, true, false, List, [], ◌∷◌, ◌++◌, Option, none, some, ◌==◌, if◌then◌else◌,
}
use azure_pipelines_k8s_agen.Text.{Text, codes, text_eq}
use azure_pipelines_k8s_agen.Text.Sort.{sort}
use azure_pipelines_k8s_agen.GoMap.{GoMap}

pub data JobState : Type 0 where
  pending : JobState
  in_progress : JobState
  finished : JobState

pub data RequestType : Type 0 where
  list_job : RequestType
  list_agent : RequestType
  create_agent : RequestType
  replace_agent : RequestType
  delete_agent : RequestType
  get_pool_id : RequestType
  assign_job : RequestType
  finish_job : RequestType

pub record Job : Type 0 where
  pub id : ℕ
  pub pool_id : ℕ
  pub state : JobState
  pub duration : ℕ
  pub start_delay : ℕ
  pub finish_delay : ℕ
  pub demands : List Text

pub record Request : Type 0 where
  pub type : RequestType
  pub agent_name : Text
  pub agent_capabilities : GoMap Text
  pub pool_id : ℕ
  pub job_id : ℕ

pub record Agent : Type 0 where
  pub name : Text
  pub id : ℕ
  pub capabilities : GoMap Text
  pub status : Text
  pub created_on : ℕ

-- `FakeAzurePipelinesPlatformServer`, without the HTTP server itself.
pub record Server : Type 0 where
  pub jobs : List Job
  pub agents : List Agent
  pub requests : List Request
  pub pool_id : ℕ
  pub pool_name : Text

-- `NewFakeAzurePipelinesPlatformServer`, and what `Reset` leaves.
abbrev pub new_server : Server
new_server = record { jobs = []; agents = []; requests = []; pool_id = 0; pool_name = [] }

unfoldable pub get_job : List Job → ℕ → Option Job
get_job [] job_id = none
get_job (j ∷ jobs) job_id = if j.id == job_id then some j else get_job jobs job_id

unfoldable pub save_job : List Job → Job → List Job
save_job [] job = job ∷ []
save_job (j ∷ jobs) job = if job.id == j.id then job ∷ jobs else j ∷ save_job jobs job

unfoldable pub remove_job : List Job → ℕ → Option (List Job)
remove_job [] job_id = none
remove_job (j ∷ jobs) job_id =
    let rest = remove_job jobs job_id in
    if j.id == job_id then some jobs else elim rest [ none ↦ none | some jobs' ↦ some (j ∷ jobs') ]

-- The strings of the demands, in the order of `range`.
demand_texts : GoMap Text → List Text
demand_texts [] = []
demand_texts ((k, v) ∷ m) = (k ++ (codes " -equals " ++ v)) ∷ demand_texts m

-- What the tests call: each returns an error, or `none` for nil.
pub record Outcome : Type 0 where
  pub error : Option Text
  pub server : Server

unfoldable pub create_pool : Server → ℕ → Text → Server
create_pool s pool_id pool_name = record s { pool_id = pool_id; pool_name = pool_name }

abbrev new_job : ℕ → ℕ → ℕ → ℕ → ℕ → GoMap Text → Job
new_job job_id pool_id duration start_delay finish_delay demands = record {
  id = job_id;
  pool_id = pool_id;
  state = pending;
  duration = duration;
  start_delay = start_delay;
  finish_delay = finish_delay;
  demands = sort (demand_texts demands);
}

unfoldable pub add_job : Server → ℕ → ℕ → ℕ → ℕ → ℕ → GoMap Text → Outcome
unfolding demand_texts
add_job s job_id pool_id duration start_delay finish_delay demands = elim (get_job s.jobs job_id) [
  | some _ ↦ record { error = some (codes "JobId already in use"); server = s }
  | none ↦
      if s.pool_id == pool_id
      then record {
        error = none;
        server = record s {
          jobs = save_job s.jobs (new_job job_id pool_id duration start_delay finish_delay demands);
        };
      }
      else record { error = some (codes "PoolId does not match"); server = s }
]

-- What the loop of `CancelJob` ends with, by the jobs that are left if it finds the job.
abbrev pub cancelled : Server → Option (List Job) → Outcome
cancelled s (some jobs) = record { error = none; server = record s { jobs = jobs } }
cancelled s none = record { error = some (codes "JobId not found"); server = s }

unfoldable pub cancel_job : Server → ℕ → Outcome
cancel_job s job_id = cancelled s (remove_job s.jobs job_id)

unfoldable pub reset : Server → Server
reset s = new_server
