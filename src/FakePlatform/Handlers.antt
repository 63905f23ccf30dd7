-- ===== src/FakePlatform/Handlers.antt =====
-- The HTTP handlers of fake_platform_server/server.go.
use azure_pipelines_k8s_agen.Prelude.{
  ℕ, ◌+◌, List, [], ◌∷◌, ◌++◌, Option, none, some, ◌==◌, if◌then◌else◌, length, ◌⊎◌, inl, inr,
}
use azure_pipelines_k8s_agen.Text.{Text, codes, text_eq, trim_space}
use azure_pipelines_k8s_agen.GoMap.{GoMap}
use azure_pipelines_k8s_agen.World.{AzurePipelinesAgent, AzurePipelinesRegisterAgentRequest}
use azure_pipelines_k8s_agen.PendingJobs.{AzurePipelinesApiJobRequest}
use azure_pipelines_k8s_agen.AzureDevOps.{decimal}
use azure_pipelines_k8s_agen.FakePlatform.{
  JobState, pending, in_progress, finished, RequestType, Job, Request, Agent, Server, get_job,
  save_job,
}

-- What an answer holds, before it is encoded as JSON.
pub data Body : Type 0 where
  no_body : Body
  error_body : Text → Body
  conflict_body : Text → ℕ → Body
  id_body : ℕ → Body
  agents_body : List AzurePipelinesAgent → Body
  jobs_body : List AzurePipelinesApiJobRequest → Body
  pools_body : List ℕ → Body

pub record Answer : Type 0 where
  pub status : ℕ
  pub body : Body
  pub server : Server

abbrev refuse : Server → ℕ → Text → Answer
refuse s status why = record { status = status; body = error_body why; server = s }

-- The request is added to the list of requests.
abbrev pub log_request : Server → Request → Server
log_request s r = record s { requests = s.requests ++ r ∷ [] }

abbrev request_for : RequestType → Text → GoMap Text → ℕ → ℕ → Request
request_for t name capabilities pool job = record {
  type = t;
  agent_name = name;
  agent_capabilities = capabilities;
  pool_id = pool;
  job_id = job;
}

unfoldable pub agent_named : Text → List Agent → Option Agent
agent_named name [] = none
agent_named name (a ∷ agents) = if text_eq a.name name then some a else agent_named name agents

unfoldable pub agent_with_id : ℕ → List Agent → Option Agent
agent_with_id id [] = none
agent_with_id id (a ∷ agents) = if a.id == id then some a else agent_with_id id agents

unfoldable pub remove_agent : ℕ → List Agent → List Agent
remove_agent id [] = []
remove_agent id (a ∷ agents) = if a.id == id then agents else a ∷ remove_agent id agents

listed_agents : List Agent → List AzurePipelinesAgent
listed_agents [] = []
listed_agents (a ∷ agents) =
    record { created_on = a.created_on; name = a.name; id = a.id; status = a.status }
    ∷ listed_agents agents

listed_job : ℕ → Job → List AzurePipelinesApiJobRequest
listed_job assign_time j =
    record {
      request_id = j.id;
      queue_time = 0;
      assign_time = assign_time;
      result = none;
      demands = j.demands;
      job_id = decimal j.id;
      scope_id = decimal j.duration;
      host_id = decimal j.start_delay;
      plan_id = decimal j.finish_delay;
      pool_id = j.pool_id;
    }
    ∷ []

-- The body of the loop of `listJobs`; `now` is the reading of the clock at the job.
unfoldable pub list_job_at : (Job → ℕ) → Job → JobState → List AzurePipelinesApiJobRequest
unfolding listed_job
list_job_at now j pending = listed_job 0 j
list_job_at now j in_progress = listed_job (now j) j
list_job_at now j finished = []

unfoldable pub listed_jobs : (Job → ℕ) → List Job → List AzurePipelinesApiJobRequest
unfolding list_job_at
listed_jobs now [] = []
listed_jobs now (j ∷ jobs) = list_job_at now j j.state ++ listed_jobs now jobs

-- `atoi` is `strconv.Atoi` on the digits that the router lets through, which fails where they are
-- too many. A capability header that is no JSON map, and a body that cannot be read or decoded,
-- come as errors with their texts.
module _ (atoi : Text → Option ℕ) where
  -- `verifyPoolId`, and what follows where it succeeds.
  abbrev with_pool_id : Server → Text → (ℕ → Answer) → Answer
  with_pool_id s pool_text next = elim (atoi pool_text) [
    | none ↦ refuse s 400 (codes "invalid pool id format, must be a valid integer: " ++ pool_text)
    | some pool ↦
        if s.pool_id == pool
        then next pool
        else refuse s 404 (codes "pool with id " ++ (decimal pool ++ codes " not found"))
  ]

  abbrev not_found : Server → ℕ → Answer
  not_found s job_id = refuse s 404 (codes "job with id " ++ (decimal job_id ++ codes " not found"))

  abbrev with_job_id : Server → Text → (ℕ → Answer) → Answer
  with_job_id s job_text next = elim (atoi job_text) [
    | none ↦ refuse s 400 (codes "invalid job id format, must be a valid integer: " ++ job_text)
    | some job_id ↦ next job_id
  ]

  -- What follows once the job has been found pending.
  assign_pending : Server → Job → ℕ → Text → (Text ⊎ GoMap Text) → Answer
  assign_pending s job job_id agent_name (inl why) =
      refuse s 400 (codes "failed to unmarshal agent capabilities: " ++ why)
  assign_pending s job job_id agent_name (inr capabilities) =
      elim (agent_named agent_name s.agents) [
        | none ↦ refuse s 404 (codes "agent with name " ++ (agent_name ++ codes " not found"))
        | some _ ↦ record {
          status = 200;
          body = no_body;
          server =
              log_request (record s { jobs = save_job s.jobs (record job { state = in_progress }) })
                (request_for RequestType.assign_job agent_name capabilities job.pool_id job_id);
        }
      ]

  assign_found : Server → Job → JobState → ℕ → Text → (Text ⊎ GoMap Text) → Answer
  unfolding assign_pending
  assign_found s job pending job_id agent_name header =
      assign_pending s job job_id agent_name header
  assign_found s job _ job_id agent_name header =
      refuse s 409 (codes "job with id " ++ (decimal job_id ++ codes " is not in state Pending"))

  unfoldable pub assign_job : Server → Text → Text → (Text ⊎ GoMap Text) → Answer
  unfolding assign_found
  assign_job s job_text agent_name header = with_job_id s job_text λ job_id.
      elim (get_job s.jobs job_id) [
        | none ↦ not_found s job_id
        | some job ↦ assign_found s job job.state job_id agent_name header
      ]

  unfoldable pub finish_job : Server → Text → Text → Answer
  finish_job s job_text agent_name = with_job_id s job_text λ job_id. elim (get_job s.jobs job_id) [
    | none ↦ not_found s job_id
    | some job ↦ record {
      status = 200;
      body = no_body;
      server =
          log_request (record s { jobs = save_job s.jobs (record job { state = finished }) })
            (request_for RequestType.finish_job agent_name [] job.pool_id job_id);
    }
  ]

  -- The update of the capabilities of an agent that exists is made on a copy, so it has no effect.
  add_registered : Server → ℕ → ℕ → AzurePipelinesRegisterAgentRequest → Answer
  add_registered s now pool r = elim (agent_named r.name s.agents) [
    | some a ↦ record {
      status = 409;
      body = conflict_body (codes "agent with name " ++ (r.name ++ codes " already exists")) a.id;
      server =
          log_request s (request_for RequestType.replace_agent r.name r.system_capabilities pool 0);
    }
    | none ↦ record {
      status = 200;
      body = id_body (length s.agents + 1);
      server =
          log_request
            (record s {
              agents =
                  s.agents
                  ++ record {
                    name = r.name;
                    id = length s.agents + 1;
                    capabilities = r.system_capabilities;
                    status = codes "offline";
                    created_on = now;
                  }
                    ∷ [];
            })
            (request_for RequestType.create_agent r.name r.system_capabilities pool 0);
    }
  ]

  -- The body as it was read and decoded: an error of either, with its status and text, or a request.
  add_decoded : Server → ℕ → ℕ → ((ℕ × Text) ⊎ AzurePipelinesRegisterAgentRequest) → Answer
  unfolding add_registered
  add_decoded s now pool (inl (status, why)) = refuse s status why
  add_decoded s now pool (inr r) = add_registered s now pool r

  unfoldable pub add_agent :
      Server → ℕ → Text → ((ℕ × Text) ⊎ AzurePipelinesRegisterAgentRequest) → Answer
  unfolding add_decoded
  add_agent s now pool_text body = with_pool_id s pool_text λ pool. add_decoded s now pool body

  unfoldable pub list_agents : Server → Text → Answer
  unfolding listed_agents
  list_agents s pool_text = with_pool_id s pool_text λ pool. record {
    status = 200;
    body = agents_body (listed_agents s.agents);
    server = log_request s (request_for RequestType.list_agent [] [] pool 0);
  }

  -- The agent is removed also where its name is empty, and the answer is then 404.
  delete_with_id : Server → ℕ → ℕ → Answer
  delete_with_id s pool agent_id = elim (agent_with_id agent_id s.agents) [
    | none ↦ refuse s 404 (codes "agent with id " ++ (decimal agent_id ++ codes " not found"))
    | some a ↦
        let s' : Server = record s { agents = remove_agent agent_id s.agents } in
        if text_eq a.name []
        then refuse s' 404 (codes "agent with id " ++ (decimal agent_id ++ codes " not found"))
        else record {
          status = 200;
          body = no_body;
          server = log_request s' (request_for RequestType.delete_agent a.name [] pool 0);
        }
  ]

  unfoldable pub delete_agent : Server → Text → Text → Answer
  unfolding delete_with_id
  delete_agent s pool_text agent_text = with_pool_id s pool_text λ pool. elim (atoi agent_text) [
    | none ↦ refuse s 400 (codes "invalid agent id format, must be a valid integer: " ++ agent_text)
    | some agent_id ↦ delete_with_id s pool agent_id
  ]

  unfoldable pub list_jobs : Server → (Job → ℕ) → Text → Answer
  list_jobs s now pool_text = with_pool_id s pool_text λ pool. record {
    status = 200;
    body = jobs_body (listed_jobs now s.jobs);
    server = log_request s (request_for RequestType.list_job [] [] pool 0);
  }

-- The parameter of the query is the empty text where it is missing.
unfoldable pub list_pools : Server → Text → Answer
list_pools s query =
    if text_eq (trim_space query) []
    then refuse s 400 (codes "query parameter poolName is missing")
    else record {
      status = 200;
      body = pools_body (if text_eq s.pool_name (trim_space query) then s.pool_id ∷ [] else []);
      server = log_request s (request_for RequestType.get_pool_id [] [] 0 0);
    }
