-- ===== src/Reconciler/Surplus.antt =====
-- How many pods a whole reconciliation deletes.
use azure_pipelines_k8s_agen.Prelude.{ℕ, ◌+◌, ◌-◌, ◌≤◌, List, [], ◌∷◌, some, ◌≡◌, arith, length}
use azure_pipelines_k8s_agen.Text.{Text, codes}
use azure_pipelines_k8s_agen.Go.{ok}
use azure_pipelines_k8s_agen.Kube.{PodsWithCapabilities, AutoScaledAgent}
use azure_pipelines_k8s_agen.World.{Env, Memory}
use azure_pipelines_k8s_agen.World.Prices.{deletion, plain_deletes_none}
use azure_pipelines_k8s_agen.World.Costs.{
  Costs, spent, Costs-return, Costs-deref, Costs-then, Costs-bind, Costs-more,
}
use azure_pipelines_k8s_agen.PendingJobs.{PendingJobsWrapper}
use azure_pipelines_k8s_agen.RunningPods.{RunningPodsWrapper}
use azure_pipelines_k8s_agen.AgentPods.Surplus.{ListsAtMost, delete_terminated_agent_pods-deletions}
use azure_pipelines_k8s_agen.Reconciler.{scale, scale_all, reconcile}
use azure_pipelines_k8s_agen.Reconciler.Limits.{deletions-Costs}
use azure_pipelines_k8s_agen.Reconciler.Rounds.{reconcile-spent}

module _ (env : Env) (namespace name : Text) where
  module _ (agent : AutoScaledAgent) where
    scale_all-deletions :
        (jobs : PendingJobsWrapper) (ps : List PodsWithCapabilities) (rpw : RunningPodsWrapper)
        → Costs deletion (length ps) (scale_all env namespace name agent jobs ps rpw)
    unfolding scale_all scale
    scale_all-deletions jobs [] rpw = Costs-return tt
    scale_all-deletions jobs (p ∷ ps) rpw =
        Costs-more (1 + length ps) _ _
          (Costs-bind 1 (length ps) _ _
            (Costs-then 1 _ _ (Costs-deref _) λ mx. Costs-then 1 _ _ (Costs-deref _) λ mn.
              Costs-more _ 1 _ (deletions-Costs env namespace name agent p mn mx _ _ rpw _ _)
                (ground arith))
            λ rpw'. scale_all-deletions jobs ps rpw')
          (omega arith)

    -- A reconciliation of a resource that keeps a number of terminated pods, where the listings of
    -- its succeeded and of its failed pods have at most so many each, deletes no more pods than those
    -- in excess of that number, and one more for each entry.
    pub reconcile_deletes_surplus :
        (n m kept : ℕ) (s : Memory)
        → ListsAtMost env namespace name n (codes "Succeeded")
        → ListsAtMost env namespace name m (codes "Failed")
        → agent.spec.max_terminated_pods_to_keep ≡ some kept
        → env.get_agent s.log namespace name ≡ some (ok agent)
        → spent deletion (reconcile env namespace name s).1.log
          ≤ spent deletion s.log + ((n + m - kept) + length agent.spec.pods_with_capabilities)
    reconcile_deletes_surplus n m kept s succeeded failed h e =
        reconcile-spent env namespace name deletion plain_deletes_none agent (n + m - kept) _
          (λ keep g.
            Costs-more (n + m - keep) (n + m - kept) _
              (delete_terminated_agent_pods-deletions env namespace name n m succeeded failed keep)
              (let same : keep ≡ kept = cc in omega (arith, same)))
          (λ jobs. scale_all-deletions jobs agent.spec.pods_with_capabilities) s e
