-- ===== src/Reconciler/Rounds.antt =====
-- What a whole reconciliation costs: what the deletion of terminated pods does, and the scaling.
use azure_pipelines_k8s_agen.Prelude.{ℕ, ◌+◌, ◌≤◌, List, [], ◌∷◌, some, ◌≡◌, refl, arith}
use azure_pipelines_k8s_agen.Text.{Text, codes}
use azure_pipelines_k8s_agen.Go.{ok, ◌>>=◌}
use azure_pipelines_k8s_agen.Kube.{AutoScaledAgent, AutoScaledAgentSpec}
use azure_pipelines_k8s_agen.World.{Env, Call, Memory}
use azure_pipelines_k8s_agen.World.Monad.{M, call}
use azure_pipelines_k8s_agen.World.Costs.{
  Costs, spent, IsQuiet, Costs-return, Costs-deref, Costs-then, Costs-bind, Costs-more,
}
use azure_pipelines_k8s_agen.World.Gives.{Costs-given, Gives-deref}
use azure_pipelines_k8s_agen.World.Safe.{Terms, Safe}
use azure_pipelines_k8s_agen.World.Orderly.{IsOrderly, ListsSound}
use azure_pipelines_k8s_agen.World.Free.{
  spending, spending-IsOrderly, spending-ListsSound, Costs-Safe,
}
use azure_pipelines_k8s_agen.PendingJobs.{PendingJobsWrapper}
use azure_pipelines_k8s_agen.PendingJobsDump.{print_pending_jobs_if_changed}
use azure_pipelines_k8s_agen.RunningPods.{RunningPodsWrapper}
use azure_pipelines_k8s_agen.AgentPods.{get_pods_with_phases, delete_terminated_agent_pods}
use azure_pipelines_k8s_agen.Containers.{terminate_finished_agent_pods}
use azure_pipelines_k8s_agen.Containers.Safety.{terminate_finished_agent_pods-Safe}
use azure_pipelines_k8s_agen.PvcRelease.{delete_promised_annotation_from_pvcs}
use azure_pipelines_k8s_agen.PvcRelease.Safety.{delete_promised_annotation_from_pvcs-Safe}
use azure_pipelines_k8s_agen.AzureDevOps.{
  get_pool_id_from_name, create_or_update_dummy_agents, get_pending_jobs,
}
use azure_pipelines_k8s_agen.AzureDevOps.Safety.{
  get_pool_id_from_name-Safe, create_or_update_dummy_agents-Safe, get_pending_jobs-Safe,
}
use azure_pipelines_k8s_agen.AgentCollection.{delete_dead_dummy_agents}
use azure_pipelines_k8s_agen.AgentCollection.Safety.{allowed-HasAges, delete_dead_dummy_agents-Safe}
use azure_pipelines_k8s_agen.Reconciler.{
  scale_all, get_azure_pat, reconcile_agent, found_agent, reconcile,
}
use azure_pipelines_k8s_agen.Reconciler.Safety.{get_azure_pat-Safe, print-Safe, running_pods-Safe}

module _ (env : Env) (namespace name : Text) (price : Call → ℕ) (q : IsQuiet price) where
  -- The terms under which nothing more is spent, and a world that keeps to them.
  abbrev before : ℕ → Terms
  before n = spending price q n

  free :
      {A : Type 0} (Q : ℕ → A → Type 0) (m : M A)
      → ((n : ℕ) → Safe (before n) (Q n) m)
      → Costs price 0 m
  free = Costs-Safe price q

  orderly : (n : ℕ) → IsOrderly (before n) env
  orderly n = spending-IsOrderly price q env n

  lists : (n : ℕ) → ListsSound (before n) env namespace name
  lists n = spending-ListsSound price q env namespace name n

  module _ (spec : AutoScaledAgentSpec) where
    finish-Costs : Costs price 0 (terminate_finished_agent_pods env namespace name)
    finish-Costs =
        free _ _ λ n. terminate_finished_agent_pods-Safe env (orderly n) namespace name (lists n)

    release-Costs : Costs price 0 (delete_promised_annotation_from_pvcs env namespace name)
    release-Costs =
        free _ _
          λ n. delete_promised_annotation_from_pvcs-Safe env (orderly n) namespace name (lists n)

    pat-Costs : Costs price 0 (get_azure_pat env namespace name spec)
    pat-Costs = free _ _ λ n. get_azure_pat-Safe env (orderly n) namespace name (lists n) spec

    pool-Costs : (pat : Text) → Costs price 0 (get_pool_id_from_name env pat spec)
    pool-Costs pat = free _ _ λ n. get_pool_id_from_name-Safe env (orderly n) pat spec

    names-Costs :
        (pool : ℕ) (pat cr_name : Text)
        → Costs price 0 (create_or_update_dummy_agents env pool pat cr_name spec)
    names-Costs pool pat cr_name =
        free _ _ λ n. create_or_update_dummy_agents-Safe env (orderly n) pool pat cr_name spec

    collect-Costs :
        (pool : ℕ) (pat cr_name : Text) (kept : List Text)
        → Costs price 0 (delete_dead_dummy_agents env pool pat spec cr_name kept)
    collect-Costs pool pat cr_name kept = free _ _ λ n.
        delete_dead_dummy_agents-Safe env (orderly n) pool pat spec
          (allowed-HasAges (before n) tt spec) cr_name kept

    jobs-Costs : (pool : ℕ) (pat : Text) → Costs price 0 (get_pending_jobs env pool pat spec)
    jobs-Costs pool pat = free _ _ λ n. get_pending_jobs-Safe env (orderly n) pool pat spec

    print-Costs :
        (cr_name : Text) (pending_jobs : PendingJobsWrapper)
        → Costs price 0 (print_pending_jobs_if_changed env cr_name pending_jobs)
    print-Costs cr_name jobs =
        free _ _ λ n. print-Safe env (orderly n) namespace name (lists n) cr_name jobs

    running-Costs :
        Costs price 0
          (get_pods_with_phases env namespace name (codes "Running" ∷ codes "Pending" ∷ []))
    running-Costs = free _ _ λ n. running_pods-Safe env (orderly n) namespace name (lists n)

  module _ (agent : AutoScaledAgent) (a b : ℕ)
      (deletes : (keep : ℕ)
        → agent.spec.max_terminated_pods_to_keep ≡ some keep
        → Costs price a (delete_terminated_agent_pods env namespace name keep))
      (scales : (jobs : PendingJobsWrapper) (running_pods : RunningPodsWrapper)
        → Costs price b (
            scale_all env namespace name agent jobs agent.spec.pods_with_capabilities
              running_pods)) where
    reconcile_agent-Costs : Costs price (a + b) (reconcile_agent env namespace name agent)
    unfolding reconcile_agent
    reconcile_agent-Costs =
        Costs-given (λ keep. agent.spec.max_terminated_pods_to_keep ≡ some keep) (a + b) _ _
          (Costs-deref _) (Gives-deref _)
          λ keep given. Costs-bind a b _ _ (deletes keep given) λ _.
            Costs-then _ _ _ (finish-Costs agent.spec) λ _.
              Costs-then _ _ _ (release-Costs agent.spec) λ _.
                Costs-then _ _ _ (pat-Costs agent.spec) λ pat.
                  Costs-then _ _ _ (pool-Costs agent.spec pat) λ pool.
                    Costs-then _ _ _ (names-Costs agent.spec pool pat agent.name) λ names.
                      Costs-then _ _ _ (collect-Costs agent.spec pool pat agent.name names) λ _.
                        Costs-then _ _ _ (jobs-Costs agent.spec pool pat) λ jobs.
                          Costs-then _ _ _ (print-Costs agent.spec agent.name jobs) λ _.
                            Costs-then _ _ _ (running-Costs agent.spec) λ pods.
                              Costs-more (b + 0) b _
                                (Costs-bind b 0 _ _ (scales jobs _) λ _. Costs-return _)
                                (omega arith)

    -- The deletion of terminated pods spends so much at most, and the scaling so much; a
    -- reconciliation that finds the resource spends no more.
    pub reconcile-spent :
        (s : Memory)
        → env.get_agent s.log namespace name ≡ some (ok agent)
        → spent price (reconcile env namespace name s).1.log ≤ spent price s.log + (a + b)
    unfolding reconcile found_agent call ◌>>=◌
    reconcile-spent s e = rw e (
        omega (
          arith,
          q (Call.get_agent namespace name) refl,
          reconcile_agent-Costs.at (record s { log = Call.get_agent namespace name ∷ s.log }),
        ))
