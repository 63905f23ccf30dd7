-- ===== src/Reconciler/Totals.antt =====
-- What a whole reconciliation creates and what one pass over the entries deletes.
use azure_pipelines_k8s_agen.Prelude.{
  ℕ, ◌+◌, ◌≤◌, max, List, [], ◌∷◌, Option, none, some, ◌≡◌, refl, arith, inl, inr,
}
use azure_pipelines_k8s_agen.Text.{Text}
use azure_pipelines_k8s_agen.Go.{ok}
use azure_pipelines_k8s_agen.Kube.{PodsWithCapabilities, AutoScaledAgent}
use azure_pipelines_k8s_agen.World.{Env, Memory}
use azure_pipelines_k8s_agen.World.Prices.{creation}
use azure_pipelines_k8s_agen.World.Prices.{plain_creates_none}
use azure_pipelines_k8s_agen.World.Free.{spending-IsOrderly, spending-ListsSound, Costs-Safe}
use azure_pipelines_k8s_agen.Reconciler.Rounds.{reconcile-spent}
use azure_pipelines_k8s_agen.World.Costs.{Costs, spent, Costs-return, Costs-bind}
use azure_pipelines_k8s_agen.Groups.{get_inexact_match}
use azure_pipelines_k8s_agen.PendingJobs.{PendingJobsWrapper, get_job_count}
use azure_pipelines_k8s_agen.RunningPods.{RunningPodsWrapper, get_pod_count_and_names}
use azure_pipelines_k8s_agen.AgentPods.Safety.{delete_terminated_agent_pods-Safe}
use azure_pipelines_k8s_agen.Reconciler.{scale, scale_all, reconcile}
use azure_pipelines_k8s_agen.Reconciler.Limits.{scale_eq, creations-Costs}
use azure_pipelines_k8s_agen.Reconciler.Faults.{missing_count_panics}

-- The greater of the two counts of an entry; nothing where one is missing.
abbrev pub ceiling : PodsWithCapabilities → ℕ
ceiling p = elim p.max_count [
  | none ↦ 0
  | some mx ↦ elim p.min_count [ none ↦ 0 | some mn ↦ max mn mx ]
]

abbrev pub ceilings : List PodsWithCapabilities → ℕ
ceilings [] = 0
ceilings (p ∷ ps) = ceiling p + ceilings ps

module _ (env : Env) (namespace owner : Text) (agent : AutoScaledAgent) where
  module _ (pending_jobs : PendingJobsWrapper) where
    scale-Costs :
        (p : PodsWithCapabilities) (rpw : RunningPodsWrapper)
        → Costs creation (ceiling p) (scale env namespace owner agent pending_jobs p rpw)
    scale-Costs p rpw = record { at = λ s. of s p.max_count p.min_count refl refl }
      where
        of :
            (s : Memory) (o o' : Option ℕ)
            → p.max_count ≡ o
            → p.min_count ≡ o'
            → (spent creation s.log
                ≤ spent creation (scale env namespace owner agent pending_jobs p rpw s).1.log)
              × (spent creation (scale env namespace owner agent pending_jobs p rpw s).1.log
                  ≤ spent creation s.log
                    + (elim o [ none ↦ 0 | some mx ↦ elim o' [ none ↦ 0 | some mn ↦ max mn mx ] ]))
        of s none o' e e' =
            rw (missing_count_panics env namespace owner agent p pending_jobs rpw s (inr e))
              (omega arith, omega arith)
        of s (some mx) none e e' =
            rw (missing_count_panics env namespace owner agent p pending_jobs rpw s (inl e'))
              (omega arith, omega arith)
        of s (some mx) (some mn) e e' =
            rw (scale_eq env namespace owner agent p pending_jobs rpw mn mx s e' e) (
              ground (
                arith,
                (creations-Costs env namespace owner agent p mn mx
                      (get_pod_count_and_names (get_inexact_match rpw p.capabilities)).0
                      (get_job_count (get_inexact_match pending_jobs p.capabilities)) rpw
                      (get_inexact_match rpw p.capabilities)
                      (get_inexact_match pending_jobs p.capabilities)).at
                    s,
              ))

    scale_all-Costs :
        (ps : List PodsWithCapabilities) (rpw : RunningPodsWrapper)
        → Costs creation (ceilings ps) (scale_all env namespace owner agent pending_jobs ps rpw)
    unfolding scale_all
    scale_all-Costs [] rpw = Costs-return tt
    scale_all-Costs (p ∷ ps) rpw =
        Costs-bind (ceiling p) (ceilings ps) _ _ (scale-Costs p rpw) λ rpw'. scale_all-Costs ps rpw'

module _ (env : Env) (namespace name : Text) where
  -- A whole reconciliation of a resource creates at most as many pods as the sum over its entries of
  -- the greater of the minimum and the maximum, whatever the world answers and however it ends.
  pub reconcile_within_limits :
      (agent : AutoScaledAgent) (s : Memory)
      → env.get_agent s.log namespace name ≡ some (ok agent)
      → spent creation (reconcile env namespace name s).1.log
        ≤ spent creation s.log + ceilings agent.spec.pods_with_capabilities
  reconcile_within_limits agent s e = omega (
    arith,
    reconcile-spent env namespace name creation plain_creates_none agent 0 _
        (λ keep _. Costs-Safe creation plain_creates_none _ _ λ n.
          delete_terminated_agent_pods-Safe env
            (spending-IsOrderly creation plain_creates_none env n) (λ pod log h k. omega (arith, k))
            namespace name keep
            (spending-ListsSound creation plain_creates_none env namespace name n))
        (λ jobs. scale_all-Costs env namespace name agent jobs agent.spec.pods_with_capabilities) s
        e,
  )
