-- ===== src/FakePlatform/Steps.antt =====
-- The server as a state machine: one step for each call of the tests and each handler.
pub mod Sound
pub mod Jobs
pub mod Agents
use azure_pipelines_k8s_agen.Prelude.{ℕ, List, Option, ◌⊎◌}
use azure_pipelines_k8s_agen.Text.{Text}
use azure_pipelines_k8s_agen.GoMap.{GoMap}
use azure_pipelines_k8s_agen.World.{AzurePipelinesRegisterAgentRequest}
use azure_pipelines_k8s_agen.FakePlatform.{
  Server, Job, new_server, create_pool, add_job, cancel_job, reset,
}
use azure_pipelines_k8s_agen.FakePlatform.Handlers.{
  assign_job, finish_job, add_agent, list_agents, delete_agent, list_jobs, list_pools,
}

pub data Step (atoi : Text → Option ℕ) : Server → Server → Type 0 where
  pool_created : {s : Server} (id : ℕ) (name : Text) → Step atoi s (create_pool s id name)
  job_added :
      {s : Server} (id pool duration start_delay finish_delay : ℕ) (demands : GoMap Text)
      → Step atoi s (add_job s id pool duration start_delay finish_delay demands).server
  job_cancelled : {s : Server} (id : ℕ) → Step atoi s (cancel_job s id).server
  was_reset : {s : Server} → Step atoi s (reset s)
  job_assigned :
      {s : Server} (job agent : Text) (header : Text ⊎ GoMap Text)
      → Step atoi s (assign_job atoi s job agent header).server
  job_finished : {s : Server} (job agent : Text) → Step atoi s (finish_job atoi s job agent).server
  agent_added :
      {s : Server} (now : ℕ) (pool : Text) (body : (ℕ × Text) ⊎ AzurePipelinesRegisterAgentRequest)
      → Step atoi s (add_agent atoi s now pool body).server
  agents_listed : {s : Server} (pool : Text) → Step atoi s (list_agents atoi s pool).server
  agent_deleted :
      {s : Server} (pool agent : Text) → Step atoi s (delete_agent atoi s pool agent).server
  jobs_listed :
      {s : Server} (now : Job → ℕ) (pool : Text) → Step atoi s (list_jobs atoi s now pool).server
  pools_listed : {s : Server} (query : Text) → Step atoi s (list_pools s query).server

pub data Reach (atoi : Text → Option ℕ) : Server → Type 0 where
  at_start : Reach atoi new_server
  after_step : {s t : Server} → Reach atoi s → Step atoi s t → Reach atoi t
