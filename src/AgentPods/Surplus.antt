-- ===== src/AgentPods/Surplus.antt =====
-- How many terminated pods are deleted.
use azure_pipelines_k8s_agen.Prelude.{
  ℕ, ◌+◌, ◌-◌, ◌≤◌, List, [], ◌∷◌, some, ◌≡◌, refl, ap, arith, length, length-append, length-keep,
  length-take, take, keep,
}
use azure_pipelines_k8s_agen.Text.{Text, codes}
use azure_pipelines_k8s_agen.Go.{ok}
use azure_pipelines_k8s_agen.Kube.{Pod}
use azure_pipelines_k8s_agen.World.{Env, Log}
use azure_pipelines_k8s_agen.World.Prices.{deletion, plain_deletes_none}
use azure_pipelines_k8s_agen.World.Costs.{
  Costs, Costs-return, Costs-crash, Costs-call, Costs-if, Costs-bind, Costs-more,
}
use azure_pipelines_k8s_agen.World.Gives.{Gives, Costs-given, Gives-then, Gives-call, Gives-return}
use azure_pipelines_k8s_agen.World.Free.{spending, spending-ListsSound, Costs-Safe}
use azure_pipelines_k8s_agen.World.Orderly.{IsEnded, IsEnded-prop}
use azure_pipelines_k8s_agen.AgentPods.Safety.{get_pods_with_phases-Safe}
use azure_pipelines_k8s_agen.AgentPods.{
  is_agent_pod, get_pods_with_phases, delete_pods, delete_oldest, sort_by_start,
  delete_terminated_agent_pods,
}

module _ (env : Env) where
  delete_pods-deletions : (pods : List Pod) → Costs deletion (length pods) (delete_pods env pods)
  unfolding delete_pods
  delete_pods-deletions [] = Costs-return tt
  delete_pods-deletions (pod ∷ pods) =
      Costs-more (1 + length pods) _ _
        (Costs-bind 1 (length pods) _ _ (Costs-call _ _) λ _. delete_pods-deletions pods)
        (omega arith)

  delete_oldest-deletions :
      (n : ℕ) (pods : List Pod) → Costs deletion (length pods - n) (delete_oldest env n pods)
  unfolding delete_oldest
  delete_oldest-deletions n pods =
      Costs-if _ (length pods - n) _ _
        (Costs-if _ (length pods - n) _ _
          (Costs-more _ (length pods - n) _
            (delete_pods-deletions (take (length pods - n) (sort_by_start pods)))
            (omega (arith, length-take (length pods - n) (sort_by_start pods))))
          (Costs-more 0 (length pods - n) _ Costs-crash (omega arith)))
        (Costs-more 0 (length pods - n) _ (Costs-return tt) (omega arith))

  module _ (namespace owner : Text) where
    -- A listing of the pods of the resource in the phase has at most so many.
    abbrev pub ListsAtMost : ℕ → Text → Type 0
    ListsAtMost n phase =
        (log : Log) (pods : List Pod)
        → env.list_pods log namespace owner (some phase) ≡ ok pods
        → length pods ≤ n

    module _ (n m : ℕ) (succeeded : ListsAtMost n (codes "Succeeded"))
        (failed : ListsAtMost m (codes "Failed")) where
      terminated-Gives :
          Gives
            (λ pods. length pods ≤ n + m)
            (get_pods_with_phases env namespace owner (codes "Succeeded" ∷ codes "Failed" ∷ []))
      unfolding get_pods_with_phases
      terminated-Gives =
          Gives-then (λ pods. length pods ≤ n) _ _ _
            (Gives-call _ _ _ (λ log pods e. succeeded log pods e))
            λ items h.
              Gives-then (λ pods. length pods ≤ m) _ _ _
                (Gives-then (λ pods. length pods ≤ m) _ _ _
                  (Gives-call _ _ _ (λ log pods e. failed log pods e))
                  λ items k.
                    Gives-then (λ pods. pods ≡ []) _ _ _ (Gives-return _ _ refl)
                      λ others e. Gives-return _ _ (
                        omega (
                          arith,
                          k,
                          length-append (keep is_agent_pod items) others,
                          length-keep is_agent_pod items,
                          ap length e,
                        )))
                λ others k. Gives-return _ _ (
                  omega (
                    arith,
                    h,
                    k,
                    length-append (keep is_agent_pod items) others,
                    length-keep is_agent_pod items,
                  ))

      terminated-free :
          Costs deletion 0
            (get_pods_with_phases env namespace owner (codes "Succeeded" ∷ codes "Failed" ∷ []))
      terminated-free = Costs-Safe deletion plain_deletes_none _ _ λ k.
          let t = spending deletion plain_deletes_none k in
          let l = spending-ListsSound deletion plain_deletes_none env namespace owner k in
          get_pods_with_phases-Safe t env (IsEnded t) (IsEnded-prop t) namespace owner _
            (l.succeeded, (l.failed, tt))

      -- Those in excess of what is kept, at most.
      pub delete_terminated_agent_pods-deletions :
          (kept : ℕ)
          → Costs deletion (n + m - kept) (delete_terminated_agent_pods env namespace owner kept)
      unfolding delete_terminated_agent_pods
      delete_terminated_agent_pods-deletions kept =
          Costs-given (λ pods. length pods ≤ n + m) _ _ _ terminated-free terminated-Gives
            λ pods h.
              Costs-more _ (n + m - kept) _ (delete_oldest-deletions kept pods) (omega (arith, h))
