-- ===== src/AgentCollection/Kept.antt =====
-- Which agents of the pool are never deleted.
use azure_pipelines_k8s_agen.Prelude.{
  ℕ, Bool, true, false, ◌&&◌, ◌||◌, not, List, [], ◌∷◌, ◌++◌, Option, ◌≡◌, refl, keep, Bool-cases,
  inl, inr, arith, Every, Every-uncons,
}
use azure_pipelines_k8s_agen.Text.{Text, codes, starts_with}
use azure_pipelines_k8s_agen.Go.{ok, ◌>>=◌}
use azure_pipelines_k8s_agen.Kube.{AutoScaledAgentSpec}
use azure_pipelines_k8s_agen.World.{Env, Call, Memory, AzurePipelinesAgent}
use azure_pipelines_k8s_agen.World.Steps.{after_same}
use azure_pipelines_k8s_agen.World.Costs.{
  Costs, spent, Costs-return, Costs-fail, Costs-lift, Costs-deref, Costs-then, Costs-if,
  Costs-free_call,
}
use azure_pipelines_k8s_agen.AgentNames.{dummy_agent_name_prefix}
use azure_pipelines_k8s_agen.AzureDevOps.{pool_url, decimal, request_body, delete_agent}
use azure_pipelines_k8s_agen.AgentCollection.{
  delete_if_old, is_skipped, collect_agent, collect_agents,
}

module _ (env : Env) (pool_id : ℕ) (azure_pat : Text) (spec : AutoScaledAgentSpec) where
  -- The request that deletes the agent.
  abbrev pub deletion_of : AzurePipelinesAgent → Call
  deletion_of agent = Call.http (record {
    method = codes "DELETE";
    url =
        pool_url spec.organization_url pool_id
          (codes "/agents/" ++ (decimal agent.id ++ codes "?api-version=7.0"));
    password = azure_pat;
    body = [];
  })

  module _ (cr_name : Text) (keep_names : List Text) where
    -- The agent is to be kept, is not offline, or has a name that begins neither as a dummy agent's
    -- does nor with the name of the resource.
    abbrev pub is_safe : AzurePipelinesAgent → Bool
    is_safe agent =
        is_skipped env pool_id azure_pat spec keep_names agent
        || (not (starts_with dummy_agent_name_prefix agent.name)
            && not (starts_with cr_name agent.name))

    -- The deletion of an agent that is not safe is free.
    abbrev pub DeletesFree : (Call → ℕ) → AzurePipelinesAgent → Type 0
    DeletesFree price agent = is_safe agent ≡ false → price (deletion_of agent) ≡ 0

    collect_agent_safe :
        (agent : AzurePipelinesAgent) (s : Memory)
        → is_safe agent ≡ true
        → collect_agent env pool_id azure_pat spec cr_name keep_names agent s ≡ (ok tt, s)
    unfolding collect_agent delete_if_old ◌>>=◌
    collect_agent_safe agent s h =
        elim (Bool-cases (is_skipped env pool_id azure_pat spec keep_names agent)) [
          | inl e ↦ rw e refl
          | inr e ↦
              let other : starts_with dummy_agent_name_prefix agent.name ≡ false =
                ground (arith, h, e) in
              let foreign : starts_with cr_name agent.name ≡ false = ground (arith, h, e) in
              rw (e, other, foreign) refl
        ]

    module _ (price : Call → ℕ) (now_free : price Call.now ≡ 0) where
      delete_if_old-Costs :
          (prefix : Text) (min_age : Option ℕ) (agent : AzurePipelinesAgent)
          → price (deletion_of agent) ≡ 0
          → Costs price 0 (delete_if_old env pool_id azure_pat spec prefix min_age agent)
      unfolding delete_if_old delete_agent request_body
      delete_if_old-Costs prefix min_age agent free =
          Costs-if _ 0 _ _
            (Costs-then 0 _ _ (Costs-free_call _ _ now_free) λ t.
              Costs-then 0 _ _ (Costs-deref min_age) λ age.
                Costs-if _ 0 _ _
                  (Costs-then 0 _ _
                    (Costs-then 0 _ _
                      (Costs-then 0 _ _ (Costs-lift _) λ _. Costs-free_call _ _ free)
                      λ response.
                        Costs-then 0 _ _ (Costs-lift _)
                          λ body. Costs-if _ 0 _ _ (Costs-return body) (Costs-fail _))
                    λ _. Costs-return tt)
                  (Costs-return tt))
            (Costs-return tt)

      collect_agent-Costs :
          (agent : AzurePipelinesAgent)
          → price (deletion_of agent) ≡ 0
          → Costs price 0 (collect_agent env pool_id azure_pat spec cr_name keep_names agent)
      unfolding collect_agent
      collect_agent-Costs agent free = Costs-if _ 0 _ _ (Costs-return tt) (
          Costs-then 0 _ _ (delete_if_old-Costs dummy_agent_name_prefix _ agent free)
            λ _. delete_if_old-Costs cr_name _ agent free)

      collect_agents-Costs :
          (agents : List AzurePipelinesAgent)
          → Every (DeletesFree price) agents
          → Costs price 0 (collect_agents env pool_id azure_pat spec cr_name keep_names agents)
      unfolding collect_agents
      collect_agents-Costs [] free = Costs-return tt
      collect_agents-Costs (agent ∷ agents) free =
          let (here, rest) = Every-uncons (DeletesFree price) (λ a. hlevel) agent agents free in
          Costs-then 0 _ _
            (elim (Bool-cases (is_safe agent)) [
              | inl safe ↦ record {
                at = λ s. rw (collect_agent_safe agent s safe) (omega arith, omega arith);
              }
              | inr lost ↦ collect_agent-Costs agent (here lost)
            ])
            λ _. collect_agents-Costs agents rest

    collect_agents-keep :
        (agents : List AzurePipelinesAgent) (s : Memory)
        → collect_agents env pool_id azure_pat spec cr_name keep_names agents s
          ≡ collect_agents env pool_id azure_pat spec cr_name keep_names
              (keep (λ agent. not (is_safe agent)) agents)
              s
    unfolding collect_agents ◌>>=◌
    collect_agents-keep [] s = refl
    collect_agents-keep (agent ∷ agents) s = elim (Bool-cases (is_safe agent)) [
      | inl safe ↦ rw (safe, collect_agent_safe agent s safe) (collect_agents-keep agents s)
      | inr lost ↦
          let r = collect_agent env pool_id azure_pat spec cr_name keep_names agent s in
          rw lost (after_same r.0 _ _ r.1 (collect_agents-keep agents))
    ]

    -- An agent that is to be kept, is not offline, or has a name that begins neither with the prefix
    -- of dummy agents nor with the name of the resource, is left alone, whatever other agents are
    -- listed with it: the list is handled as it would be without such agents, and every call that is
    -- made is a reading of the clock or the request that deletes one of the other agents of the list:
    -- at any price under which those are free, nothing is spent.
    pub collect_agents_safe :
        (agents : List AzurePipelinesAgent) (s : Memory) (price : Call → ℕ)
        → price Call.now ≡ 0
        → Every (DeletesFree price) agents
        → (collect_agents env pool_id azure_pat spec cr_name keep_names agents s
            ≡ collect_agents env pool_id azure_pat spec cr_name keep_names
                (keep (λ agent. not (is_safe agent)) agents)
                s)
          × (spent price
                (collect_agents env pool_id azure_pat spec cr_name keep_names agents s).1.log
              ≡ spent price s.log)
    collect_agents_safe agents s price now_free free = (
      collect_agents-keep agents s,
      omega (arith, (collect_agents-Costs price now_free agents free).at s),
    )
