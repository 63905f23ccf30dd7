-- ===== src/PvcAssignment/OnlyVolumes.antt =====
-- Giving claims to a pod changes only its volumes.
use azure_pipelines_k8s_agen.Prelude.{List, [], ◌∷◌, ◌≡◌, ap}
use azure_pipelines_k8s_agen.Text.{Text}
use azure_pipelines_k8s_agen.Go.{ok, return, ◌>>=◌}
use azure_pipelines_k8s_agen.Kube.{Pod, ReusableCacheVolume, AutoScaledAgent}
use azure_pipelines_k8s_agen.World.{Env, Memory}
use azure_pipelines_k8s_agen.World.Monad.{M, list_pvcs}
use azure_pipelines_k8s_agen.World.Steps.{bind_inv}
use azure_pipelines_k8s_agen.PvcAssignment.{
  Assigned, assign_containers, assign_listed, assign_or_create_pvcs, sort_by_name,
}

pub return_inv : {A : Type 0} (a b : A) (s s' : Memory) → return a s ≡ (ok b, s') → a ≡ b
unfolding return
return_inv a b s s' e = cc

-- The pod, but for its volumes.
abbrev pub but_volumes : Pod → Pod
but_volumes pod = record pod { spec = record (pod.spec) { volumes = [] } }

module _ (env : Env) (namespace owner : Text) (agent : AutoScaledAgent) where
  pub assign_only_volumes :
      (pod b : Pod) (s s' : Memory)
      → assign_or_create_pvcs env namespace owner agent pod s ≡ (ok b, s')
      → but_volumes pod ≡ but_volumes b
  unfolding assign_or_create_pvcs assign_listed
  assign_only_volumes pod b s s' e = of agent.spec.reusable_cache_volumes e
    where
      listed :
          (a : Assigned) (t : Memory)
          → assign_listed env agent pod a t ≡ (ok b, s')
          → but_volumes pod ≡ but_volumes b
      listed a t e =
          let (c, u, _, r) =
            bind_inv (assign_containers env agent pod.name a pod.spec.containers) _ t s' b e in
          ap but_volumes
            (return_inv (record pod { spec = record (pod.spec) { volumes = c.volumes } }) b u s' r)

      of :
          (volumes : List ReusableCacheVolume)
          → (elim volumes as (λ _. M Pod) [
            | [] ↦ return pod
            | _ ∷ _ ↦ (do
              items ← list_pvcs env namespace owner
              assign_listed env agent pod
                  (record { pvcs = sort_by_name items; volumes = pod.spec.volumes }))
          ])
              s
            ≡ (ok b, s')
          → but_volumes pod ≡ but_volumes b
      of [] e = ap but_volumes (return_inv pod b s s' e)
      of (v ∷ vs) e =
          let (items, t, _, r) = bind_inv (list_pvcs env namespace owner) _ s s' b e in
          listed (record { pvcs = sort_by_name items; volumes = pod.spec.volumes }) t r
