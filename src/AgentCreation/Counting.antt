-- ===== src/AgentCreation/Counting.antt =====
-- How many pods `createAgents` creates.
use azure_pipelines_k8s_agen.Prelude.{ℕ, zero, suc, ◌+◌, ◌*◌, ◌≡◌, arith}
use azure_pipelines_k8s_agen.Text.{Text}
use azure_pipelines_k8s_agen.GoMap.{GoMap}
use azure_pipelines_k8s_agen.Kube.{AutoScaledAgent, PodsWithCapabilities, Pod}
use azure_pipelines_k8s_agen.World.{Env, Call}
use azure_pipelines_k8s_agen.World.Costs.{
  Costs, Costs-then, Costs-bind, Costs-return, Costs-call, Costs-more, IsQuiet,
}
use azure_pipelines_k8s_agen.World.Safe.{Anything}
use azure_pipelines_k8s_agen.World.Allowed.{
  allowed-IsNamed, HasOne-allowed, allowed-IsCompleteEntry,
}
use azure_pipelines_k8s_agen.World.Free.{spending, spending-IsOrderly, Costs-Safe}
use azure_pipelines_k8s_agen.AgentCreation.Safety.{prepare_agent-Safe}
use azure_pipelines_k8s_agen.AgentCreation.{prepare_agent, create_agent, create_agents}

module _ (env : Env) (namespace owner : Text) (agent : AutoScaledAgent) (p : PodsWithCapabilities)
    (price : Call → ℕ) (q : IsQuiet price) where
  pub prepare_agent-Costs :
      (capabilities : GoMap Text)
      → Costs price 0 (prepare_agent env namespace owner agent p capabilities)
  prepare_agent-Costs capabilities =
      Costs-Safe price q (λ _. Anything) _
        λ n.
          prepare_agent-Safe env (spending-IsOrderly price q env n) namespace owner agent p
            (λ e _. allowed-IsCompleteEntry (spending price q n) tt e)
            (HasOne-allowed (spending price q n) tt _)
            (λ v _. allowed-IsNamed (spending price q n) tt v.name) (λ name. tt) capabilities

  module _ (n : ℕ) (one : (pod : Pod) → price (Call.create_pod pod) ≡ n) where
    create_agent-Costs :
        (capabilities : GoMap Text)
        → Costs price n (create_agent env namespace owner agent p capabilities)
    unfolding create_agent
    create_agent-Costs capabilities = Costs-then n _ _ (prepare_agent-Costs capabilities) λ pod.
        Costs-more (n + 0) n _
          (Costs-bind n 0 _ _ (Costs-more _ n _ (Costs-call _ _) (omega (arith, one pod)))
            λ _. Costs-return _)
          (omega arith)

    -- `createAgents` costs as much as the creation of so many pods.
    pub create_agents-Costs :
        (count : ℕ) (capabilities : GoMap Text)
        → Costs price (count * n) (create_agents env namespace owner agent p count capabilities)
    unfolding create_agents
    create_agents-Costs zero capabilities = Costs-more 0 (0 * n) _ (Costs-return tt) (omega arith)
    create_agents-Costs (suc count) capabilities =
        Costs-more (n + count * n) (suc count * n) _
          (Costs-bind n (count * n) _ _ (create_agent-Costs capabilities)
            λ _. create_agents-Costs count capabilities)
          (grind arith)
