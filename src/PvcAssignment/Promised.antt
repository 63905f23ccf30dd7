-- ===== src/PvcAssignment/Promised.antt =====
-- Which claims the assignment promises, and by how many updates.
use azure_pipelines_k8s_agen.Prelude.{ℕ, ◌+◌, List, [], ◌∷◌, Option, none, some, ◌≡◌, refl, arith}
use azure_pipelines_k8s_agen.Text.{Text}
use azure_pipelines_k8s_agen.Go.{ok, return, ◌>>=◌}
use azure_pipelines_k8s_agen.Go.Ensures.{
  Ensures, Ensures-return, Ensures-not_nil, Ensures-fail, Ensures-lift, Ensures-if, Ensures-then,
}
use azure_pipelines_k8s_agen.Kube.{
  Container, VolumeMount, ReusableCacheVolume, PersistentVolumeClaim, AutoScaledAgent,
}
use azure_pipelines_k8s_agen.World.{Env, Memory, Call}
use azure_pipelines_k8s_agen.World.Monad.{M, call, update_pvc}
use azure_pipelines_k8s_agen.World.Costs.{
  spent, Costs, free_rules, Costs-then, generate_random_string-Costs,
}
use azure_pipelines_k8s_agen.CacheVolumes.{get_matching_cache_volume, get_unpromised_pvc}
use azure_pipelines_k8s_agen.PvcAssignment.{
  Assigned, new_pvc, promise, claim_new, claim_available, assign_mount, assign_mounts,
  assign_containers,
}
use azure_pipelines_k8s_agen.PvcAssignment.Promises.{
  Promises, Promises-refl, Promises-trans, promise_first-Promises,
}

-- What a new claim costs.
module _ (env : Env) (agent : AutoScaledAgent) (pod_name : Text) (price : Call → ℕ) where
  new_pvc-Costs :
      ((n : ℕ) → price (Call.intn n) ≡ 0)
      → ((pvc : PersistentVolumeClaim) → price (Call.create_pvc pvc) ≡ 0)
      → (volume : ReusableCacheVolume) → Costs price 0 (new_pvc env agent pod_name volume)
  unfolding new_pvc
  new_pvc-Costs free_intn free_create_pvc volume =
      Costs-then 0 _ _ (search (generate_random_string-Costs env price free_intn)) λ suffix.
        Costs-then 0 _ _ (search free_rules) λ quantity.
          Costs-then 0 _ _ (search free_rules) λ pvc. search (free_rules, free_create_pvc)

-- The price under which an update of a claim costs the weight of what is sent, and all else is free.
abbrev pub updates : (PersistentVolumeClaim → ℕ) → Call → ℕ
updates weight (Call.update_pvc pvc) = weight pvc
updates weight _ = 0

-- What the log has of updates of claims.
abbrev HasUpdates : (PersistentVolumeClaim → ℕ) → ℕ → Memory → Type 0
HasUpdates weight k s = spent (updates weight) s.log ≡ k

Ensures-free :
    {A : Type 0} (weight : PersistentVolumeClaim → ℕ) (m : M A) (k : ℕ)
    → Costs (updates weight) 0 m
    → Ensures (HasUpdates weight k) m (λ _. HasUpdates weight k)
Ensures-free weight m k c = record { at = λ s same a e. omega (arith, same, c.at s) }

update_pvc-HasUpdates :
    (env : Env) (weight : PersistentVolumeClaim → ℕ) (pvc : PersistentVolumeClaim) (k : ℕ)
    → Ensures (HasUpdates weight k) (update_pvc env pvc) (λ _. HasUpdates weight (weight pvc + k))
unfolding call
update_pvc-HasUpdates env weight pvc k = record { at = λ s same a e. omega (arith, same) }

-- What a part of the assignment does from these claims, with the updates that have been made before.
abbrev AfterPromises :
    (PersistentVolumeClaim → ℕ) → Text → List PersistentVolumeClaim → ℕ → Assigned → Memory → Type 0
AfterPromises weight pod_name pvcs k b s =
    (n : ℕ) × Promises weight pod_name pvcs b.pvcs n × (spent (updates weight) s.log ≡ n + k)

module _ (env : Env) (agent : AutoScaledAgent) (weight : PersistentVolumeClaim → ℕ)
    (pod_name : Text) where
  claim_available-Ensures :
      (a : Assigned) (mount : VolumeMount) (available : PersistentVolumeClaim) (k : ℕ)
      → get_unpromised_pvc a.pvcs mount.name ≡ some available
      → Ensures
          (HasUpdates weight k)
          (claim_available env agent pod_name a mount available)
          (AfterPromises weight pod_name a.pvcs k)
  unfolding claim_available
  claim_available-Ensures a mount available k e =
      Ensures-then _ (λ _. HasUpdates weight k) _ _ _ (Ensures-not_nil _ available.annotations)
        λ _.
          Ensures-then _ (λ _. HasUpdates weight (weight (promise pod_name available) + k)) _ _ _
            (update_pvc-HasUpdates env weight (promise pod_name available) k)
            λ claim. Ensures-return _ _ _ λ s same. (
              weight (promise pod_name available),
              promise_first-Promises weight pod_name a.pvcs mount.name available e,
              omega (arith, same),
            )

  claim_new-Ensures :
      (a : Assigned) (mount : VolumeMount) (volume : ReusableCacheVolume) (k : ℕ)
      → Ensures
          (HasUpdates weight k)
          (claim_new env agent pod_name a mount volume)
          (AfterPromises weight pod_name a.pvcs k)
  unfolding claim_new
  claim_new-Ensures a mount volume k =
      Ensures-then _ (λ _. HasUpdates weight k) _ _ _ (Ensures-lift _ _ _ (λ s full same e. same))
        λ full.
          Ensures-if _ _ full _ _ (λ _. Ensures-fail _ _ _)
            (λ _.
              Ensures-then _ _ _ _ _
                (Ensures-free weight _ k (
                  new_pvc-Costs env agent pod_name (updates weight) (λ n. refl) (λ pvc. refl)
                    volume))
                λ created.
                  Ensures-return _ _ _
                    λ s same. (0, Promises-refl weight pod_name a.pvcs, omega (arith, same)))

  assign_mount-Ensures :
      (a : Assigned) (mount : VolumeMount) (k : ℕ)
      → Ensures
          (HasUpdates weight k)
          (assign_mount env agent pod_name a mount)
          (AfterPromises weight pod_name a.pvcs k)
  unfolding assign_mount
  assign_mount-Ensures a mount k =
      of (get_matching_cache_volume mount.name agent.spec.reusable_cache_volumes)
        (get_unpromised_pvc a.pvcs mount.name) refl
    where
      of :
          (o : Option ReusableCacheVolume) (found : Option PersistentVolumeClaim)
          → get_unpromised_pvc a.pvcs mount.name ≡ found
          → Ensures
              (HasUpdates weight k)
              (elim o as (λ _. M Assigned) [
                | none ↦ return a
                | some volume ↦ elim found as (λ _. M Assigned) [
                  | some available ↦ claim_available env agent pod_name a mount available
                  | none ↦ claim_new env agent pod_name a mount volume
                ]
              ])
              (AfterPromises weight pod_name a.pvcs k)
      of none found e =
          Ensures-return _ _ _
            λ s same. (0, Promises-refl weight pod_name a.pvcs, omega (arith, same))
      of (some volume) (some available) e = claim_available-Ensures a mount available k e
      of (some volume) none e = claim_new-Ensures a mount volume k

  -- Two parts of the assignment, one after the other.
  in_turn :
      (a : Assigned) (k : ℕ) (m : M Assigned) (f : Assigned → M Assigned)
      → Ensures (HasUpdates weight k) m (AfterPromises weight pod_name a.pvcs k)
      → ((b : Assigned) (k' : ℕ)
          → Ensures (HasUpdates weight k') (f b) (AfterPromises weight pod_name b.pvcs k'))
      → Ensures (HasUpdates weight k) (m >>= f) (AfterPromises weight pod_name a.pvcs k)
  in_turn a k m f h h' = Ensures-then _ _ _ m f h λ b. record {
    at = λ s (n, p, same) c e.
        let (n', p', same') = (h' b (n + k)).at s same c e in
        (n + n', Promises-trans weight pod_name p p', omega (arith, same'));
  }

  assign_mounts-Ensures :
      (mounts : List VolumeMount) (a : Assigned) (k : ℕ)
      → Ensures
          (HasUpdates weight k)
          (assign_mounts env agent pod_name a mounts)
          (AfterPromises weight pod_name a.pvcs k)
  unfolding assign_mounts
  assign_mounts-Ensures [] a k =
      Ensures-return _ _ _ λ s same. (0, Promises-refl weight pod_name a.pvcs, omega (arith, same))
  assign_mounts-Ensures (mount ∷ mounts) a k =
      in_turn a k _ _ (assign_mount-Ensures a mount k) (assign_mounts-Ensures mounts)

  assign_containers-Ensures :
      (cs : List Container) (a : Assigned) (k : ℕ)
      → Ensures
          (HasUpdates weight k)
          (assign_containers env agent pod_name a cs)
          (AfterPromises weight pod_name a.pvcs k)
  unfolding assign_containers
  assign_containers-Ensures [] a k =
      Ensures-return _ _ _ λ s same. (0, Promises-refl weight pod_name a.pvcs, omega (arith, same))
  assign_containers-Ensures (c ∷ cs) a k =
      in_turn a k _ _ (assign_mounts-Ensures c.volume_mounts a k) (assign_containers-Ensures cs)

  -- Where the assignment succeeds, the listed claims are as before but for those that have been
  -- promised to the pod, which were promised to no pod before; and whatever weight each claim is given,
  -- the updates of claims that have been sent together weigh as much as those claims do with the
  -- promise, so that each of them, and nothing else, has been sent once as it now stands.
  pub assign_containers-Promises :
      (cs : List Container) (a b : Assigned) (s : Memory)
      → (assign_containers env agent pod_name a cs s).0 ≡ ok b
      → (n : ℕ) × Promises weight pod_name a.pvcs b.pvcs n
        × (spent (updates weight) (assign_containers env agent pod_name a cs s).1.log
            ≡ n + spent (updates weight) s.log)
  assign_containers-Promises cs a b s e =
      (assign_containers-Ensures cs a (spent (updates weight) s.log)).at s refl b e
