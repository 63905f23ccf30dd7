-- ===== src/FakePlatform/Steps/Agents.antt =====
-- The identifiers of agents, which are not unique once an agent has been deleted.
use azure_pipelines_k8s_agen.Prelude.{
  ℕ, ◌+◌, List, [], ◌∷◌, ◌++◌, Option, none, some, ◌≡◌, arith, ==_iff, length, inr,
}
use azure_pipelines_k8s_agen.Text.{Text}
use azure_pipelines_k8s_agen.World.{AzurePipelinesRegisterAgentRequest}
use azure_pipelines_k8s_agen.FakePlatform.{Server, Agent}
use azure_pipelines_k8s_agen.FakePlatform.Handlers.{id_body, agent_named, agent_with_id, add_agent}

agent_with_id-append :
    (id : ℕ) (agents : List Agent) (a b : Agent)
    → agent_with_id id agents ≡ some a
    → agent_with_id id (agents ++ b ∷ []) ≡ some a
unfolding agent_with_id
agent_with_id-append id [] a b e = cc
agent_with_id-append id (c ∷ agents) a b e = grind (arith, agent_with_id-append id agents a b, e)

module _ (atoi : Text → Option ℕ) (s : Server) where
  -- Where an agent has the identifier that is one more than the number of agents, as one has after a
  -- deletion of another, a new agent in the right pool with an unused name is given that identifier
  -- too, and the identifier goes on to mean the earlier agent.
  pub add_agent_id_taken :
      (now : ℕ) (pool : Text) (r : AzurePipelinesRegisterAgentRequest) (a : Agent)
      → atoi pool ≡ some s.pool_id
      → agent_named r.name s.agents ≡ none
      → agent_with_id (length s.agents + 1) s.agents ≡ some a
      → ((add_agent atoi s now pool (inr r)).body ≡ id_body (length s.agents + 1))
        × (agent_with_id (length s.agents + 1) (add_agent atoi s now pool (inr r)).server.agents
            ≡ some a)
  unfolding add_agent
  add_agent_id_taken now pool r a p fresh taken = (
    grind (arith, p, fresh, ==_iff s.pool_id s.pool_id),
    grind (
      arith,
      p,
      fresh,
      taken,
      ==_iff s.pool_id s.pool_id,
      agent_with_id-append (length s.agents + 1) s.agents a,
    ),
  )
