-- ===== src/AgentCollection/Safety.antt =====
-- The collection of agents keeps to the terms where the resource gives the interval and the two ages.
use azure_pipelines_k8s_agen.Prelude.{ℕ, List, [], ◌∷◌, Option}
use azure_pipelines_k8s_agen.Text.{Text}
use azure_pipelines_k8s_agen.Kube.{AutoScaledAgentSpec}
use azure_pipelines_k8s_agen.World.{Env, AzurePipelinesAgent}
use azure_pipelines_k8s_agen.World.Safe.{
  Given-panics, Terms, Given, Anything, Safe, Safe-return, Safe-lift, Safe-deref, Safe-either,
  Safe-then, Safe-read_memory, Safe-write_memory, Safe-now,
}
use azure_pipelines_k8s_agen.World.Orderly.{IsOrderly}
use azure_pipelines_k8s_agen.AzureDevOps.Safety.{request_body-Safe, delete_agent-Safe}
use azure_pipelines_k8s_agen.AgentCollection.{
  delete_if_old, collect_agent, collect_agents, collect, delete_dead_dummy_agents,
}

-- The three durations that the collection reads.
pub record HasAges (t : Terms) (spec : AutoScaledAgentSpec) : Type 0 where
  pub interval : Given t spec.dummy_agent_garbage_collection_interval
  pub dummy_age : Given t spec.dummy_agent_deletion_min_age
  pub normal_age : Given t spec.normal_offline_agent_deletion_min_age

pub allowed-HasAges : (t : Terms) → t.panics → (spec : AutoScaledAgentSpec) → HasAges t spec
allowed-HasAges t p spec = record {
  interval = Given-panics t spec.dummy_agent_garbage_collection_interval p;
  dummy_age = Given-panics t spec.dummy_agent_deletion_min_age p;
  normal_age = Given-panics t spec.normal_offline_agent_deletion_min_age p;
}

module _ {t : Terms} (env : Env) (o : IsOrderly t env) (pool_id : ℕ) (azure_pat : Text)
    (spec : AutoScaledAgentSpec) (ages : HasAges t spec) where
  delete_if_old-Safe :
      (prefix : Text) (min_age : Option ℕ) (agent : AzurePipelinesAgent)
      → Given t min_age
      → Safe t Anything (delete_if_old env pool_id azure_pat spec prefix min_age agent)
  unfolding delete_if_old
  delete_if_old-Safe prefix min_age agent h =
      Safe-either Anything _ _ _
        (Safe-then Anything _ _ (Safe-now env) λ t. Safe-then Anything _ _ (Safe-deref _ h) λ age.
          Safe-either Anything _ _ _ (delete_agent-Safe env o _ _ _ _) (Safe-return Anything _ tt))
        (Safe-return Anything _ tt)

  collect_agents-Safe :
      (cr_name : Text) (kept : List Text) (agents : List AzurePipelinesAgent)
      → Safe t Anything (collect_agents env pool_id azure_pat spec cr_name kept agents)
  unfolding collect_agents collect_agent
  collect_agents-Safe cr_name kept [] = Safe-return Anything _ tt
  collect_agents-Safe cr_name kept (agent ∷ agents) =
      Safe-then Anything _ _
        (Safe-either Anything _ _ _ (Safe-return Anything _ tt) (
          Safe-then Anything _ _ (delete_if_old-Safe _ _ agent ages.dummy_age)
            λ _. delete_if_old-Safe _ _ agent ages.normal_age))
        λ _. collect_agents-Safe cr_name kept agents

  pub delete_dead_dummy_agents-Safe :
      (cr_name : Text) (kept : List Text)
      → Safe t Anything (delete_dead_dummy_agents env pool_id azure_pat spec cr_name kept)
  unfolding delete_dead_dummy_agents collect
  delete_dead_dummy_agents-Safe cr_name kept = Safe-then Anything _ _ (Safe-now env) λ t.
      Safe-then Anything _ _ (Safe-deref _ ages.interval) λ interval.
        Safe-then Anything _ _ Safe-read_memory λ m.
          Safe-either Anything _ _ _ (Safe-return Anything _ tt) (
            Safe-then Anything _ _ (request_body-Safe env o _ _ _ _) λ body.
              Safe-then Anything _ _ (Safe-lift Anything _ (o.decode_agents body)) λ agents.
                Safe-then Anything _ _ (collect_agents-Safe cr_name kept agents)
                  λ _. Safe-then Anything _ _ (Safe-now env) λ t. Safe-write_memory _ (λ s c. c))
