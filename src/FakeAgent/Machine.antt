-- ===== src/FakeAgent/Machine.antt =====
-- What the fake agent has around it, as a parameter: its environment variables, HTTP, the file
-- system, processes and the clock. Closing what has been opened is left out.
use azure_pipelines_k8s_agen.Prelude.{ℕ, List, ◌∷◌, Option, ℤ}
use azure_pipelines_k8s_agen.Text.{Text}
use azure_pipelines_k8s_agen.GoMap.{GoMap}
use azure_pipelines_k8s_agen.Go.{Result, Go, ok}
use azure_pipelines_k8s_agen.World.{HttpResponse, AzurePipelinesRegisterAgentRequest}
use azure_pipelines_k8s_agen.PendingJobs.{AzurePipelinesApiJobRequest}

pub record AgentHttpRequest : Type 0 where
  pub method : Text
  pub url : Text
  pub header : GoMap Text
  pub body : Text

-- A process is its number; `none` is the empty `os.Process`.
pub data Event : Type 0 where
  sent : AgentHttpRequest → Event
  file_stat : Text → Event
  file_open : Text → Event
  file_create : Text → Event
  file_copy : Text → Text → Event
  file_sync : Text → Event
  file_mode : Text → Event
  file_chmod : Text → ℕ → Event
  process_start : Text → Event
  process_kill : Option ℕ → Event
  clock_read : Event
  slept : ℤ → Event

-- The events, the latest first.
abbrev pub Events : Type 0
Events = List Event

pub record Machine : Type 0 where
  pub getenv : Text → Text
  -- `os.Environ()`
  pub environ : List Text
  pub http : Events → AgentHttpRequest → Result HttpResponse
  pub stat : Events → Text → Result (Unit {0})
  pub open_file : Events → Text → Result (Unit {0})
  pub create_file : Events → Text → Result (Unit {0})
  pub copy_file : Events → Text → Text → Result (Unit {0})
  pub sync_file : Events → Text → Result (Unit {0})
  pub file_mode : Events → Text → Result ℕ
  pub chmod : Events → Text → ℕ → Result (Unit {0})
  pub start_process : Events → Text → Result ℕ
  pub kill : Events → Option ℕ → Result (Unit {0})
  pub now : Events → ℕ
  -- pure functions of the libraries
  pub new_request : Text → Text → Result (Unit {0})
  pub decode_pools : Text → Result (List ℕ)
  pub decode_agent_id : Text → Result ℕ
  pub decode_job_requests : Text → Result (List AzurePipelinesApiJobRequest)
  pub encode_register_request : AzurePipelinesRegisterAgentRequest → Result Text
  pub encode_capabilities : GoMap Text → Result Text

abbrev pub Action : Type 0 → Type 0
Action A = Go Events A

-- Note the event, and return the answer that the machine gives after those before it.
unfoldable pub occur : {A : Type 0} → Event → (Events → Result A) → Action A
occur e answer events = (answer events, e ∷ events)

module _ (machine : Machine) where
  -- `time.Now()`
  abbrev pub time_now : Action ℕ
  time_now = occur Event.clock_read (λ events. ok (machine.now events))

-- `time.Sleep(d)`
abbrev pub sleep : ℤ → Action (Unit {0})
sleep d = occur (Event.slept d) (λ _. ok tt)
