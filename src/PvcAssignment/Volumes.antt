-- ===== src/PvcAssignment/Volumes.antt =====
-- The volumes that a pod gets for its mounts of cache volumes.
use azure_pipelines_k8s_agen.Prelude.{
  Bool, true, false, List, [], ◌∷◌, ◌++◌, Option, none, some, ◌≡◌, refl, sym, ◌∙◌, ap,
  if◌then◌else◌,
}
use azure_pipelines_k8s_agen.Text.{Text}
use azure_pipelines_k8s_agen.Go.{
  not_nil, Result, ok, err, panic, pvc_exhaustion, return, fail, lift, ◌>>=◌,
}
use azure_pipelines_k8s_agen.Kube.{
  Container, Volume, VolumeMount, ReusableCacheVolume, PersistentVolumeClaim, AutoScaledAgent,
}
use azure_pipelines_k8s_agen.World.{Env, Memory}
use azure_pipelines_k8s_agen.World.Monad.{M, update_pvc}
use azure_pipelines_k8s_agen.World.Steps.{bind_inv}
use azure_pipelines_k8s_agen.CacheVolumes.{
  get_matching_cache_volume, get_unpromised_pvc, is_pvc_limit_exceeded,
}
use azure_pipelines_k8s_agen.PvcAssignment.{
  Assigned, use_claim, promise, promise_first, new_pvc, claim_new, claim_available, assign_mount,
  assign_mounts, assign_containers,
}

abbrev pub volume_names : List Volume → List Text
volume_names [] = []
volume_names (v ∷ volumes) = v.name ∷ volume_names volumes

module _ (volumes : List ReusableCacheVolume) where
  -- The name of the mount, if it is one of a cache volume.
  abbrev pub cache_mount : VolumeMount → List Text
  cache_mount mount = elim (get_matching_cache_volume mount.name volumes) [
    | none ↦ []
    | some _ ↦ mount.name ∷ []
  ]

  abbrev pub cache_mounts : List VolumeMount → List Text
  cache_mounts [] = []
  cache_mounts (mount ∷ mounts) = cache_mount mount ++ cache_mounts mounts

  -- The mounts of cache volumes of all containers, in order.
  abbrev pub all_cache_mounts : List Container → List Text
  all_cache_mounts [] = []
  all_cache_mounts (c ∷ cs) = cache_mounts c.volume_mounts ++ all_cache_mounts cs

append_assoc : (a b c : List Text) → (a ++ b) ++ c ≡ a ++ (b ++ c)
append_assoc [] b c = refl
append_assoc (x ∷ a) b c = ap (λ l. x ∷ l) (append_assoc a b c)

append_nil : (a : List Text) → a ++ [] ≡ a
append_nil [] = refl
append_nil (x ∷ a) = ap (λ l. x ∷ l) (append_nil a)

volume_names-append :
    (a : List Volume) (v : Volume) → volume_names (a ++ v ∷ []) ≡ volume_names a ++ v.name ∷ []
volume_names-append [] v = refl
volume_names-append (w ∷ a) v = ap (λ l. w.name ∷ l) (volume_names-append a v)

abbrev names_of : Result Assigned → List Text
names_of (ok a) = volume_names a.volumes
names_of (err e) = []
names_of panic = []

returned :
    (a b : Assigned) (s s' : Memory)
    → return a s ≡ (ok b, s')
    → volume_names b.volumes ≡ volume_names a.volumes
unfolding return
returned a b s s' e = ap (λ (x : Result Assigned × Memory). names_of x.0) (sym e)

module _ (env : Env) (agent : AutoScaledAgent) (pod_name : Text) where
  claim_available-volumes :
      (a b : Assigned) (mount : VolumeMount) (available : PersistentVolumeClaim) (s s' : Memory)
      → claim_available env agent pod_name a mount available s ≡ (ok b, s')
      → volume_names b.volumes ≡ volume_names a.volumes ++ mount.name ∷ []
  unfolding claim_available
  claim_available-volumes a b mount available s s' e =
      let (_, s1, _, r1) = bind_inv (not_nil available.annotations) _ s s' b e in
      let (updated, t, _, r) =
        bind_inv (update_pvc env (promise pod_name available))
          (λ updated. return (use_claim a (promise_first a.pvcs mount.name pod_name) mount updated))
          s1 s' b r1 in
      returned (use_claim a (promise_first a.pvcs mount.name pod_name) mount updated) b t s' r
      ∙ volume_names-append a.volumes
          (record { name = mount.name; claim_name = updated.name; read_only = false })

  create_and_use :
      (a b : Assigned) (mount : VolumeMount) (volume : ReusableCacheVolume) (full : Bool)
      (s s' : Memory)
      → (if full
            then fail (pvc_exhaustion volume.name)
            else (new_pvc env agent pod_name volume >>= λ created.
                return (use_claim a a.pvcs mount created)))
          s
        ≡ (ok b, s')
      → volume_names b.volumes ≡ volume_names a.volumes ++ mount.name ∷ []
  unfolding fail
  create_and_use a b mount volume true s s' e = cc
  create_and_use a b mount volume false s s' e =
      let (created, t, _, r) =
        bind_inv (new_pvc env agent pod_name volume)
          (λ created. return (use_claim a a.pvcs mount created)) s s' b e in
      returned (use_claim a a.pvcs mount created) b t s' r
      ∙ volume_names-append a.volumes
          (record { name = mount.name; claim_name = created.name; read_only = false })

  claim_new-volumes :
      (a b : Assigned) (mount : VolumeMount) (volume : ReusableCacheVolume) (s s' : Memory)
      → claim_new env agent pod_name a mount volume s ≡ (ok b, s')
      → volume_names b.volumes ≡ volume_names a.volumes ++ mount.name ∷ []
  unfolding claim_new
  claim_new-volumes a b mount volume s s' e =
      let (full, t, _, r) =
        bind_inv (lift (is_pvc_limit_exceeded agent volume.name a.pvcs))
          (λ full.
            if full
            then fail (pvc_exhaustion volume.name)
            else (new_pvc env agent pod_name volume >>= λ created.
                return (use_claim a a.pvcs mount created)))
          s s' b e in
      create_and_use a b mount volume full t s' r

  assign_mount-volumes :
      (a b : Assigned) (mount : VolumeMount) (s s' : Memory)
      → assign_mount env agent pod_name a mount s ≡ (ok b, s')
      → volume_names b.volumes
        ≡ volume_names a.volumes ++ cache_mount agent.spec.reusable_cache_volumes mount
  unfolding assign_mount
  assign_mount-volumes a b mount s s' e =
      of (get_matching_cache_volume mount.name agent.spec.reusable_cache_volumes)
        (get_unpromised_pvc a.pvcs mount.name) e
    where
      of :
          (o : Option ReusableCacheVolume) (found : Option PersistentVolumeClaim)
          → (elim o as (λ _. M Assigned) [
            | none ↦ return a
            | some volume ↦ elim found as (λ _. M Assigned) [
              | some available ↦ claim_available env agent pod_name a mount available
              | none ↦ claim_new env agent pod_name a mount volume
            ]
          ])
              s
            ≡ (ok b, s')
          → volume_names b.volumes
            ≡ volume_names a.volumes ++ elim o [ none ↦ [] | some _ ↦ mount.name ∷ [] ]
      of none found e = returned a b s s' e ∙ sym (append_nil (volume_names a.volumes))
      of (some volume) (some available) e = claim_available-volumes a b mount available s s' e
      of (some volume) none e = claim_new-volumes a b mount volume s s' e

  assign_mounts-volumes :
      (mounts : List VolumeMount) (a b : Assigned) (s s' : Memory)
      → assign_mounts env agent pod_name a mounts s ≡ (ok b, s')
      → volume_names b.volumes
        ≡ volume_names a.volumes ++ cache_mounts agent.spec.reusable_cache_volumes mounts
  unfolding assign_mounts
  assign_mounts-volumes [] a b s s' e =
      returned a b s s' e ∙ sym (append_nil (volume_names a.volumes))
  assign_mounts-volumes (mount ∷ mounts) a b s s' e =
      let (c, t, first, r) =
        bind_inv (assign_mount env agent pod_name a mount)
          (λ c. assign_mounts env agent pod_name c mounts) s s' b e in
      assign_mounts-volumes mounts c b t s' r
      ∙ ap (λ l. l ++ cache_mounts agent.spec.reusable_cache_volumes mounts)
          (assign_mount-volumes a c mount s t first)
      ∙ append_assoc (volume_names a.volumes) (cache_mount agent.spec.reusable_cache_volumes mount)
          (cache_mounts agent.spec.reusable_cache_volumes mounts)

  -- Where the assignment succeeds, each mount of a cache volume in each container has added one
  -- volume of its name, in order, also where an earlier mount has the same name; no other is added.
  pub assign_containers-volumes :
      (cs : List Container) (a b : Assigned) (s s' : Memory)
      → assign_containers env agent pod_name a cs s ≡ (ok b, s')
      → volume_names b.volumes
        ≡ volume_names a.volumes ++ all_cache_mounts agent.spec.reusable_cache_volumes cs
  unfolding assign_containers
  assign_containers-volumes [] a b s s' e =
      returned a b s s' e ∙ sym (append_nil (volume_names a.volumes))
  assign_containers-volumes (k ∷ cs) a b s s' e =
      let (c, t, first, r) =
        bind_inv (assign_mounts env agent pod_name a k.volume_mounts)
          (λ c. assign_containers env agent pod_name c cs) s s' b e in
      assign_containers-volumes cs c b t s' r
      ∙ ap (λ l. l ++ all_cache_mounts agent.spec.reusable_cache_volumes cs)
          (assign_mounts-volumes k.volume_mounts a c s t first)
      ∙ append_assoc (volume_names a.volumes)
          (cache_mounts agent.spec.reusable_cache_volumes k.volume_mounts)
          (all_cache_mounts agent.spec.reusable_cache_volumes cs)
