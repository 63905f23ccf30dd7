-- ===== src/Reconciler/Scaling.antt =====
-- How many pods the scaling of one entry creates and deletes.
pub mod Safety
use azure_pipelines_k8s_agen.Prelude.{ℕ, zero, suc, ◌+◌, ◌*◌, List, [], ◌∷◌, ◌≡◌, refl, arith}
use azure_pipelines_k8s_agen.Text.{Text}
use azure_pipelines_k8s_agen.GoMap.{GoMap}
use azure_pipelines_k8s_agen.Go.{Result, ok, err, panic, message, pvc_exhaustion, conflict}
use azure_pipelines_k8s_agen.Kube.{Pod, PodsWithCapabilities, AutoScaledAgent}
use azure_pipelines_k8s_agen.World.{Env, Call}
pub use azure_pipelines_k8s_agen.World.Prices.{creation, deletion}
use azure_pipelines_k8s_agen.World.Costs.{
  Costs, Costs-bind, Costs-return, Costs-fail, Costs-lift, Costs-more, Costs-attempt, IsQuiet,
}
use azure_pipelines_k8s_agen.AgentCreation.Counting.{create_agents-Costs}
use azure_pipelines_k8s_agen.Reconciler.{after_creation, create_or_swallow, create_for_jobs}

module _ (env : Env) (namespace owner : Text) (agent : AutoScaledAgent)
    (p : PodsWithCapabilities) where
  module _ (price : Call → ℕ) (q : IsQuiet price) (n : ℕ)
      (one : (pod : Pod) → price (Call.create_pod pod) ≡ n) where
    after_creation-Costs :
        (r : Result (Unit {0})) → Costs price 0 (after_creation env namespace owner agent r)
    unfolding after_creation
    after_creation-Costs (ok u) = Costs-return tt
    after_creation-Costs (err (message why)) = Costs-fail _
    after_creation-Costs (err (pvc_exhaustion name)) = Costs-return tt
    after_creation-Costs (err conflict) = Costs-fail _
    after_creation-Costs panic = Costs-lift _

    pub create_or_swallow-Costs :
        (count : ℕ) (capabilities : GoMap Text)
        → Costs price (count * n) (create_or_swallow env namespace owner agent p count capabilities)
    unfolding create_or_swallow
    create_or_swallow-Costs count capabilities =
        Costs-more (count * n + 0) (count * n) _
          (Costs-bind (count * n) 0 _ _
            (Costs-attempt (count * n) _
              (create_agents-Costs env namespace owner agent p price q n one count capabilities))
            after_creation-Costs)
          (omega arith)

    pub create_for_jobs-Costs :
        (allowed : ℕ) (wanted : List Text)
        → Costs price (allowed * n) (create_for_jobs env namespace owner agent p allowed wanted)
    unfolding create_for_jobs
    create_for_jobs-Costs allowed [] = Costs-more 0 _ _ (Costs-return tt) (omega arith)
    create_for_jobs-Costs zero (w ∷ wanted) = Costs-more 0 _ _ (Costs-return tt) (omega arith)
    create_for_jobs-Costs (suc allowed) (w ∷ wanted) =
        Costs-more (1 * n + allowed * n) (suc allowed * n) _
          (Costs-bind (1 * n) (allowed * n) _ _ (create_or_swallow-Costs 1 _)
            λ _. create_for_jobs-Costs allowed wanted)
          (grind arith)
