-- ===== src/AgentCollection.antt =====
-- `DeleteDeadDummyAgents` of internal/service/utils.go: the agents that are deleted from the pool.
pub mod Kept
pub mod Safety
use azure_pipelines_k8s_agen.Prelude.{
  ℕ, ◌+◌, Bool, true, false, ◌||◌, not, List, [], ◌∷◌, Option, ltb, if◌then◌else◌,
}
use azure_pipelines_k8s_agen.Text.{Text, codes, text_eq, starts_with}
use azure_pipelines_k8s_agen.Text.Sort.{contains}
use azure_pipelines_k8s_agen.Go.{return, lift, deref, ◌>>=◌, ◌>>◌}
use azure_pipelines_k8s_agen.Kube.{AutoScaledAgentSpec}
use azure_pipelines_k8s_agen.World.{Env, Memory, AzurePipelinesAgent}
use azure_pipelines_k8s_agen.World.Monad.{M, now, read_memory, write_memory}
use azure_pipelines_k8s_agen.AgentNames.{dummy_agent_name_prefix}
use azure_pipelines_k8s_agen.AzureDevOps.{
  pool_url, agents_path, with_response, request_body, delete_agent,
}

module _ (env : Env) (pool_id : ℕ) (azure_pat : Text) (spec : AutoScaledAgentSpec) where
  -- One of the two branches: agents with the prefix that were created at least so long ago.
  unfoldable pub delete_if_old : Text → Option ℕ → AzurePipelinesAgent → M (Unit {0})
  delete_if_old prefix min_age agent =
      if starts_with prefix agent.name
      then (do
        t ← now env
        age ← deref min_age
        if ltb (agent.created_on + age) t
            then delete_agent env spec.organization_url pool_id azure_pat agent.id
            else return tt)
      else return tt

  abbrev pub is_skipped : List Text → AzurePipelinesAgent → Bool
  is_skipped dummy_agents_to_keep agent =
      contains dummy_agents_to_keep agent.name || not (text_eq agent.status (codes "offline"))

  -- The body of the loop, for one agent.
  unfoldable pub collect_agent : Text → List Text → AzurePipelinesAgent → M (Unit {0})
  unfolding delete_if_old
  collect_agent cr_name dummy_agents_to_keep agent =
      if is_skipped dummy_agents_to_keep agent then return tt else (do
        delete_if_old dummy_agent_name_prefix spec.dummy_agent_deletion_min_age agent
        delete_if_old cr_name spec.normal_offline_agent_deletion_min_age agent)

  unfoldable pub collect_agents : Text → List Text → List AzurePipelinesAgent → M (Unit {0})
  collect_agents cr_name dummy_agents_to_keep [] = return tt
  collect_agents cr_name dummy_agents_to_keep (agent ∷ agents) = do
    collect_agent cr_name dummy_agents_to_keep agent
    collect_agents cr_name dummy_agents_to_keep agents

  collect : Text → List Text → M (Unit {0})
  unfolding collect_agents
  collect cr_name dummy_agents_to_keep = do
    body ←
        request_body env with_response (codes "GET")
          (pool_url spec.organization_url pool_id agents_path) azure_pat
    agents ← lift (env.decode_agents body)
    collect_agents cr_name dummy_agents_to_keep agents
    t ← now env
    write_memory (λ s. record s { last_dead_dummy_agent_deletion = t })

  unfoldable pub delete_dead_dummy_agents : Text → List Text → M (Unit {0})
  unfolding collect
  delete_dead_dummy_agents cr_name dummy_agents_to_keep = do
    t ← now env
    interval ← deref spec.dummy_agent_garbage_collection_interval
    m ← read_memory
    if ltb t (m.last_dead_dummy_agent_deletion + interval)
        then return tt
        else collect cr_name dummy_agents_to_keep
