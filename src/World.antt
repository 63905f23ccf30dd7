-- ===== src/World.antt =====
-- What the controller talks to, as a parameter: the Kubernetes API, the Azure DevOps API over HTTP,
-- the clock, the random numbers and the order in which `range` visits a map. Each answer may depend
-- on all the calls so far, so nothing is assumed of it. Beside it the package variables of
-- internal/service/utils.go.
pub mod Monad
pub mod Costs
pub mod Gives
pub mod Prices
pub mod Safe
pub mod Orderly
pub mod Allowed
pub mod Exhausting
pub mod Free
pub mod Steps
use azure_pipelines_k8s_agen.Prelude.{ℕ, Bool, List, [], ◌∷◌, Option}
use azure_pipelines_k8s_agen.Text.{Text}
use azure_pipelines_k8s_agen.GoMap.{GoMap}
use azure_pipelines_k8s_agen.Go.{Result}
use azure_pipelines_k8s_agen.Kube.{
  Pod, PersistentVolumeClaim, AutoScaledAgent, AutoScaledAgentSpec, Quantity,
}
use azure_pipelines_k8s_agen.PendingJobs.{AzurePipelinesApiJobRequest, PendingJob}

pub record HttpRequest : Type 0 where
  pub method : Text
  pub url : Text
  pub password : Text
  pub body : Text

-- `body` is what `io.ReadAll` returns.
pub record HttpResponse : Type 0 where
  pub status_code : ℕ
  pub body : Result Text

pub record AzurePipelinesAgent : Type 0 where
  pub created_on : ℕ
  pub name : Text
  pub id : ℕ
  pub status : Text

pub record AzurePipelinesRegisterAgentRequest : Type 0 where
  pub name : Text
  pub version : Text
  pub os_description : Text
  pub enabled : Bool
  pub status : Text
  pub provisioning_state : Text
  pub system_capabilities : GoMap Text

-- A call to the world outside.
pub data Call : Type 0 where
  get_agent : Text → Text → Call
  get_secret : Text → Text → Call
  list_pods : Text → Text → Option Text → Call
  list_pvcs : Text → Text → Call
  create_pod : Pod → Call
  update_pod : Pod → Call
  delete_pod : Pod → Call
  create_pvc : PersistentVolumeClaim → Call
  update_pvc : PersistentVolumeClaim → Call
  new_executor : Text → Text → Text → Call
  stream : Text → Text → Text → Call
  http : HttpRequest → Call
  now : Call
  intn : ℕ → Call
  range : Call

-- The calls made, the latest first.
abbrev pub Log : Type 0
Log = List Call

pub record Env : Type 0 where
  -- `none` is the error that `client.IgnoreNotFound` drops
  pub get_agent : Log → Text → Text → Option (Result AutoScaledAgent)
  pub get_secret : Log → Text → Text → Result (GoMap Text)
  pub list_pods : Log → Text → Text → Option Text → Result (List Pod)
  pub list_pvcs : Log → Text → Text → Result (List PersistentVolumeClaim)
  -- an update or a creation fills the object in from the answer; for a created pod nothing reads it
  pub create_pod : Log → Pod → Result (Unit {0})
  pub update_pod : Log → Pod → Result Pod
  pub delete_pod : Log → Pod → Result (Unit {0})
  pub create_pvc : Log → PersistentVolumeClaim → Result PersistentVolumeClaim
  pub update_pvc : Log → PersistentVolumeClaim → Result PersistentVolumeClaim
  pub new_executor : Log → Text → Text → Text → Result (Unit {0})
  pub stream : Log → Text → Text → Text → Result Text
  pub http : Log → HttpRequest → Result HttpResponse
  pub now : Log → ℕ
  pub intn : Log → ℕ → ℕ
  pub range_strings : Log → GoMap Text → GoMap Text
  pub range_times : Log → GoMap ℕ → GoMap ℕ
  pub range_pods : Log → GoMap (List Pod) → GoMap (List Pod)
  pub range_jobs : Log → GoMap (List PendingJob) → GoMap (List PendingJob)
  -- `gob` writes a map in the order in which `range` visits it
  pub encode_spec : Log → AutoScaledAgentSpec → Result Text
  -- pure functions of the libraries
  -- `SetControllerReference` sets the owner of the object
  pub set_pod_controller : AutoScaledAgent → Pod → Result (Option Text)
  pub set_pvc_controller : AutoScaledAgent → PersistentVolumeClaim → Result (Option Text)
  pub parse_quantity : Text → Result Quantity
  pub parse_time : Text → Result ℕ
  pub format_time : ℕ → Text
  pub new_request : Text → Text → Result (Unit {0})
  pub decode_pools : Text → Result (List ℕ)
  pub decode_agents : Text → Result (List AzurePipelinesAgent)
  pub decode_job_requests : Text → Result (List AzurePipelinesApiJobRequest)
  pub encode_register_request : AzurePipelinesRegisterAgentRequest → Result Text
  -- `json.Marshal` of the map in `PrintPendingJobsIfChanged`, which writes the keys in order
  pub encode_dump : GoMap (List (GoMap Text)) → Text
  pub sha256_hex : Text → Text

pub record Memory : Type 0 where
  pub log : Log
  pub dummy_agent_names : GoMap (List Text)
  pub cached_custom_resource_hash : GoMap Text
  pub last_dead_dummy_agent_deletion : ℕ
  pub cached_azp_pool_ids : GoMap ℕ
  pub cached_pending_jobs_dump : GoMap Text
  pub disappeared_pods : GoMap ℕ
