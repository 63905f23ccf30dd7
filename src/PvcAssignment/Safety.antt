-- ===== src/PvcAssignment/Safety.antt =====
-- Giving claims to a pod keeps to the terms where each entry gives its maximum and each cache volume
-- has a name.
use azure_pipelines_k8s_agen.Prelude.{
  refl, Bool, true, false, List, [], ◌∷◌, Option, none, some, Every, Every-uncons, ◌≡◌, ap, subst,
  if◌then◌else◌,
}
use azure_pipelines_k8s_agen.Text.{Text, text_eq, text_eq_iff}
use azure_pipelines_k8s_agen.GoMap.{GoMap, get_or, lookup}
use azure_pipelines_k8s_agen.Go.{return, ◌>>=◌}
use azure_pipelines_k8s_agen.Kube.{
  VolumeMount, Container, ReusableCacheVolume, PersistentVolumeClaim, AutoScaledAgent, Pod,
}
use azure_pipelines_k8s_agen.World.{Env}
use azure_pipelines_k8s_agen.World.Monad.{list_pvcs}
use azure_pipelines_k8s_agen.World.Safe.{
  AllowsExhaustion, CanWrite, Safe-not_nil, Terms, Anything, Safe, Safe-return, Safe-fail,
  Safe-lift, Safe-call, Safe-either, Safe-then,
}
use azure_pipelines_k8s_agen.World.Orderly.{
  IsOrderly, IsCompleteEntry, IsNamed, IsNamed-prop, IsNamedVolume, generate_random_string-Safe,
}
use azure_pipelines_k8s_agen.CacheVolumes.{
  get_matching_cache_volume, get_unpromised_pvc, is_available,
  reusable_cache_volume_name_annotation_key,
}
use azure_pipelines_k8s_agen.CacheVolumes.Safety.{is_pvc_limit_exceeded-Holds}
use azure_pipelines_k8s_agen.PvcAssignment.{
  Assigned, new_pvc, claim_new, claim_available, assign_mount, assign_mounts, assign_containers,
  assign_listed, assign_or_create_pvcs, sort_by_name,
}

module _ (t : Terms) where
  -- A mount of a cache volume has its name.
  mount-IsNamed :
      (volumes : List ReusableCacheVolume) (name : Text) (volume : ReusableCacheVolume)
      → get_matching_cache_volume name volumes ≡ some volume
      → Every (IsNamedVolume t) volumes
      → IsNamed t name
  unfolding get_matching_cache_volume
  mount-IsNamed [] name volume e h = absurd cc
  mount-IsNamed (v ∷ vs) name volume e h =
      let (here, rest) = Every-uncons (IsNamedVolume t) (λ v. IsNamed-prop t v.name) v vs h in
      of (text_eq v.name name) refl e here (λ e'. mount-IsNamed vs name volume e' rest)
    where
      of :
          (b : Bool)
          → text_eq v.name name ≡ b
          → (if b then some v else get_matching_cache_volume name vs) ≡ some volume
          → IsNamedVolume t v
          → (get_matching_cache_volume name vs ≡ some volume → IsNamed t name)
          → IsNamed t name
      of true same e here rest = subst (IsNamed t) ((text_eq_iff v.name name).0 same) here
      of false other e here rest = rest e

  -- A claim that is available for it has the annotation with the name.
  is_available-CanWrite :
      (name : Text) (pvc : PersistentVolumeClaim)
      → is_available name pvc ≡ true
      → IsNamed t name
      → CanWrite t pvc.annotations
  unfolding lookup text_eq
  is_available-CanWrite name pvc e h = of pvc.annotations name refl e h
    where
      of :
          (m : GoMap Text) (name : Text)
          → pvc.annotations ≡ m
          → is_available name pvc ≡ true
          → IsNamed t name
          → CanWrite t m
      of [] [] same e h = h
      of [] (c ∷ name) same e h = absurd (
          cc (
            ap (λ m. text_eq (get_or m reusable_cache_volume_name_annotation_key []) (c ∷ name))
                same,
            e,
          ))
      of (x ∷ m) name same e h = tt

  available_written :
      (pvcs : List PersistentVolumeClaim) (name : Text) (available : PersistentVolumeClaim)
      → get_unpromised_pvc pvcs name ≡ some available
      → IsNamed t name
      → CanWrite t available.annotations
  unfolding get_unpromised_pvc
  available_written [] name available e h = absurd cc
  available_written (pvc ∷ pvcs) name available e h =
      of (is_available name pvc) refl e (λ e'. available_written pvcs name available e' h)
    where
      of :
          (b : Bool)
          → is_available name pvc ≡ b
          → (if b then some pvc else get_unpromised_pvc pvcs name) ≡ some available
          → (get_unpromised_pvc pvcs name ≡ some available → CanWrite t available.annotations)
          → CanWrite t available.annotations
      of true at e rest =
          let same : pvc ≡ available = cc in
          subst (λ (c : PersistentVolumeClaim). CanWrite t c.annotations) same
            (is_available-CanWrite name pvc at h)
      of false at e rest = rest e

module _ {t : Terms} (env : Env) (o : IsOrderly t env) (agent : AutoScaledAgent)
    (complete : Every (IsCompleteEntry t) agent.spec.pods_with_capabilities)
    (named : Every (IsNamedVolume t) agent.spec.reusable_cache_volumes)
    (exhausts : AllowsExhaustion t) where
  module _ (pod_name : Text) where
    new_pvc-Safe :
        (volume : ReusableCacheVolume) → Safe t Anything (new_pvc env agent pod_name volume)
    unfolding new_pvc
    new_pvc-Safe volume = Safe-then Anything _ _ (generate_random_string-Safe env o) λ suffix.
        Safe-then Anything _ _ (Safe-lift Anything _ (o.parse_quantity _)) λ quantity.
          Safe-then Anything _ _ (Safe-lift Anything _ (o.set_pvc_controller agent _))
            λ controller. Safe-call Anything _ _ (λ log. o.create_pvc log _) refl

    claim_new-Safe :
        (a : Assigned) (mount : VolumeMount) (volume : ReusableCacheVolume)
        → Safe t Anything (claim_new env agent pod_name a mount volume)
    unfolding claim_new
    claim_new-Safe a mount volume =
        Safe-then Anything _ _
          (Safe-lift Anything _ (is_pvc_limit_exceeded-Holds t agent volume.name a.pvcs complete))
          λ full.
            Safe-either Anything _ _ _ (Safe-fail Anything _ (exhausts volume.name))
              (Safe-then Anything _ _ (new_pvc-Safe volume) λ created. Safe-return Anything _ tt)

    claim_available-Safe :
        (a : Assigned) (mount : VolumeMount) (available : PersistentVolumeClaim)
        → CanWrite t available.annotations
        → Safe t Anything (claim_available env agent pod_name a mount available)
    unfolding claim_available
    claim_available-Safe a mount available h =
        Safe-then Anything _ _ (Safe-not_nil available.annotations h) λ _.
          Safe-then Anything _ _ (Safe-call Anything _ _ (λ log. o.update_pvc log _) refl)
            λ updated. Safe-return Anything _ tt

    assign_mount-Safe :
        (a : Assigned) (mount : VolumeMount)
        → Safe t Anything (assign_mount env agent pod_name a mount)
    unfolding assign_mount
    assign_mount-Safe a mount =
        cases (get_matching_cache_volume mount.name agent.spec.reusable_cache_volumes)
          (get_unpromised_pvc a.pvcs mount.name) refl refl
      where
        cases :
            (v : Option ReusableCacheVolume) (c : Option PersistentVolumeClaim)
            → get_matching_cache_volume mount.name agent.spec.reusable_cache_volumes ≡ v
            → get_unpromised_pvc a.pvcs mount.name ≡ c
            → Safe t Anything (elim v [
              | none ↦ return a
              | some volume ↦ elim c [
                | some available ↦ claim_available env agent pod_name a mount available
                | none ↦ claim_new env agent pod_name a mount volume
              ]
            ])
        cases none c e e' = Safe-return Anything a tt
        cases (some volume) none e e' = claim_new-Safe a mount volume
        cases (some volume) (some available) e e' = claim_available-Safe a mount available (
            available_written t a.pvcs mount.name available e'
              (mount-IsNamed t agent.spec.reusable_cache_volumes mount.name volume e named))

    assign_mounts-Safe :
        (a : Assigned) (mounts : List VolumeMount)
        → Safe t Anything (assign_mounts env agent pod_name a mounts)
    unfolding assign_mounts
    assign_mounts-Safe a [] = Safe-return Anything a tt
    assign_mounts-Safe a (mount ∷ mounts) =
        Safe-then Anything _ _ (assign_mount-Safe a mount) λ b. assign_mounts-Safe b mounts

    assign_containers-Safe :
        (a : Assigned) (cs : List Container)
        → Safe t Anything (assign_containers env agent pod_name a cs)
    unfolding assign_containers
    assign_containers-Safe a [] = Safe-return Anything a tt
    assign_containers-Safe a (c ∷ cs) =
        Safe-then Anything _ _ (assign_mounts-Safe a c.volume_mounts)
          λ b. assign_containers-Safe b cs

  assign_listed-Safe : (pod : Pod) (a : Assigned) → Safe t Anything (assign_listed env agent pod a)
  unfolding assign_listed
  assign_listed-Safe pod a =
      Safe-then Anything _ _ (assign_containers-Safe pod.name a _) λ b. Safe-return Anything _ tt

  pub assign_or_create_pvcs-Safe :
      (namespace owner : Text) (pod : Pod)
      → Safe t Anything (assign_or_create_pvcs env namespace owner agent pod)
  unfolding assign_or_create_pvcs
  assign_or_create_pvcs-Safe namespace owner pod = cases agent.spec.reusable_cache_volumes
    where
      cases :
          (volumes : List ReusableCacheVolume)
          → Safe t Anything (elim volumes [
            | [] ↦ return pod
            | _ ∷ _ ↦ do
              items ← list_pvcs env namespace owner
              assign_listed env agent pod
                  (record { pvcs = sort_by_name items; volumes = pod.spec.volumes })
          ])
      cases [] = Safe-return Anything pod tt
      cases (v ∷ vs) =
          Safe-then Anything _ _
            (Safe-call Anything _ _ (λ log. o.list_pvcs log namespace owner) refl)
            λ items. assign_listed-Safe pod _
