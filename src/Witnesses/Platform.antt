-- ===== src/Witnesses/Platform.antt =====
-- Examples on the fake platform server.
use azure_pipelines_k8s_agen.Prelude.{ℕ, true, [], ◌∷◌, Option, some, ◌≡◌, refl, inr}
use azure_pipelines_k8s_agen.Text.{Text, codes, text_eq}
use azure_pipelines_k8s_agen.World.{AzurePipelinesRegisterAgentRequest}
use azure_pipelines_k8s_agen.FakePlatform.{
  Server, Job, pending, Agent, new_server, create_pool, add_job,
}
use azure_pipelines_k8s_agen.FakePlatform.Handlers.{agent_named, agent_with_id, id_body, add_agent}
use azure_pipelines_k8s_agen.FakePlatform.Steps.{pool_created, job_added, at_start, after_step}
use azure_pipelines_k8s_agen.FakePlatform.Steps.Sound.{IsSound, Reach-IsSound}
use azure_pipelines_k8s_agen.FakePlatform.Steps.Agents.{add_agent_id_taken}
use azure_pipelines_k8s_agen.Witnesses.{java}

-- Every text is the number 7.
abbrev seven : Text → Option ℕ
seven _ = some 7

abbrev job : Job
job = record {
  id = 7;
  pool_id = 7;
  state = pending;
  duration = 1;
  start_delay = 0;
  finish_delay = 0;
  demands = [];
}

abbrev worker : Agent
worker = record {
  name = codes "a";
  id = 1;
  capabilities = java;
  status = codes "offline";
  created_on = 0;
}

abbrev server : Server
server = record {
  jobs = job ∷ [];
  agents = worker ∷ [];
  requests = [];
  pool_id = 7;
  pool_name = codes "pool";
}

abbrev registration : AzurePipelinesRegisterAgentRequest
registration = record {
  name = codes "a";
  version = [];
  os_description = [];
  enabled = true;
  status = codes "offline";
  provisioning_state = [];
  system_capabilities = [];
}

Reach-IsSound_example :
    IsSound (add_job (create_pool new_server 7 (codes "pool")) 7 7 1 0 0 java).server
Reach-IsSound_example =
    Reach-IsSound seven
      (after_step (after_step at_start (pool_created 7 (codes "pool"))) (job_added 7 7 1 0 0 java))

-- The first of two agents has been deleted.
abbrev after_deletion : Server
after_deletion = record server { agents = record worker { id = 2; name = codes "b" } ∷ [] }

add_agent_id_taken_example :
    ((add_agent seven after_deletion 5 (codes "7") (inr registration)).body ≡ id_body 2)
    × (agent_with_id 2
          (add_agent seven after_deletion 5 (codes "7") (inr registration)).server.agents
        ≡ some (record worker { id = 2; name = codes "b" }))
unfolding agent_named agent_with_id text_eq
add_agent_id_taken_example =
    add_agent_id_taken seven after_deletion 5 (codes "7") registration
      (record worker { id = 2; name = codes "b" }) refl refl refl
