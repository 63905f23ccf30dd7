-- ===== src/PvcAssignment.antt =====
-- The controller's `assignOrCreatePvcs`: every mount of a cache volume gets a claim.
pub mod Volumes
pub mod Promises
pub mod Promised
pub mod OnlyVolumes
pub mod Safety
use azure_pipelines_k8s_agen.Prelude.{
  ℕ, Bool, true, false, List, [], ◌∷◌, ◌++◌, Option, none, some, if◌then◌else◌,
}
use azure_pipelines_k8s_agen.Text.{Text, codes, text_eq, text_lt}
use azure_pipelines_k8s_agen.GoMap.{insert}
use azure_pipelines_k8s_agen.Go.{pvc_exhaustion, not_nil, return, fail, lift, ◌>>=◌, ◌>>◌}
use azure_pipelines_k8s_agen.Kube.{
  Container, VolumeMount, Volume, ReusableCacheVolume, PersistentVolumeClaim, AutoScaledAgent, Pod,
  PodSpec,
}
use azure_pipelines_k8s_agen.World.{Env}
use azure_pipelines_k8s_agen.World.Monad.{
  M, update_pvc, create_pvc, list_pvcs, generate_random_string,
}
use azure_pipelines_k8s_agen.CacheVolumes.{
  reusable_cache_volume_name_annotation_key, reusable_cache_volume_promised_annotation_key,
  get_matching_cache_volume, get_unpromised_pvc, is_available, is_pvc_limit_exceeded,
}

unfoldable pub insert_by_name :
    PersistentVolumeClaim → List PersistentVolumeClaim → List PersistentVolumeClaim
insert_by_name pvc [] = pvc ∷ []
insert_by_name pvc (p ∷ pvcs) =
    if text_lt p.name pvc.name then p ∷ insert_by_name pvc pvcs else pvc ∷ p ∷ pvcs

-- `sort.Slice` by name
unfoldable pub sort_by_name : List PersistentVolumeClaim → List PersistentVolumeClaim
unfolding insert_by_name
sort_by_name [] = []
sort_by_name (pvc ∷ pvcs) = insert_by_name pvc (sort_by_name pvcs)

abbrev pub promise : Text → PersistentVolumeClaim → PersistentVolumeClaim
promise pod_name pvc = record pvc {
  annotations = insert pvc.annotations reusable_cache_volume_promised_annotation_key pod_name;
}

-- The claims after the one that `GetUnpromisedPvc` found has been promised: its annotations are the
-- map of the listed claim.
unfoldable pub promise_first : List PersistentVolumeClaim → Text → Text → List PersistentVolumeClaim
promise_first [] volume_name pod_name = []
promise_first (pvc ∷ pvcs) volume_name pod_name =
    if is_available volume_name pvc
    then promise pod_name pvc ∷ pvcs
    else pvc ∷ promise_first pvcs volume_name pod_name

-- The claims as the loop has left them, and the volumes of the pod.
pub record Assigned : Type 0 where
  pub pvcs : List PersistentVolumeClaim
  pub volumes : List Volume

abbrev use_claim :
    Assigned → List PersistentVolumeClaim → VolumeMount → PersistentVolumeClaim → Assigned
use_claim a pvcs mount claim = record {
  pvcs = pvcs;
  volumes =
      a.volumes ++ record { name = mount.name; claim_name = claim.name; read_only = false } ∷ [];
}

module _ (env : Env) (agent : AutoScaledAgent) (pod_name : Text) where
  pub new_pvc : ReusableCacheVolume → M PersistentVolumeClaim
  new_pvc volume = do
    suffix ← generate_random_string env
    quantity ← lift (env.parse_quantity volume.requested_storage)
    let pvc : PersistentVolumeClaim = record {
      name = agent.name ++ (codes "-" ++ suffix);
      namespace = agent.namespace;
      annotations =
          (reusable_cache_volume_promised_annotation_key, pod_name)
          ∷ (reusable_cache_volume_name_annotation_key, volume.name)
          ∷ [];
      owner = none;
      access_mode = codes "ReadWriteOnce";
      storage = quantity;
      storage_class_name = volume.storage_class_name;
      volume_mode = codes "Filesystem";
    }
    controller ← lift (env.set_pvc_controller agent pvc)
    create_pvc env (record pvc { owner = controller })

  claim_new : Assigned → VolumeMount → ReusableCacheVolume → M Assigned
  unfolding new_pvc
  claim_new a mount volume = do
    full ← lift (is_pvc_limit_exceeded agent volume.name a.pvcs)
    if full
        then fail (pvc_exhaustion volume.name)
        else (do created ← new_pvc volume; return (use_claim a a.pvcs mount created))

  claim_available : Assigned → VolumeMount → PersistentVolumeClaim → M Assigned
  claim_available a mount available = do
    not_nil available.annotations
    updated ← update_pvc env (promise pod_name available)
    return (use_claim a (promise_first a.pvcs mount.name pod_name) mount updated)

  unfoldable pub assign_mount : Assigned → VolumeMount → M Assigned
  unfolding claim_new claim_available
  assign_mount a mount =
      elim (get_matching_cache_volume mount.name agent.spec.reusable_cache_volumes) [
        | none ↦ return a
        | some volume ↦ elim (get_unpromised_pvc a.pvcs mount.name) [
          | some available ↦ claim_available a mount available
          | none ↦ claim_new a mount volume
        ]
      ]

  unfoldable pub assign_mounts : Assigned → List VolumeMount → M Assigned
  assign_mounts a [] = return a
  assign_mounts a (mount ∷ mounts) = do b ← assign_mount a mount; assign_mounts b mounts

  unfoldable pub assign_containers : Assigned → List Container → M Assigned
  unfolding assign_mounts
  assign_containers a [] = return a
  assign_containers a (c ∷ cs) = do b ← assign_mounts a c.volume_mounts; assign_containers b cs

module _ (env : Env) where
  assign_listed : AutoScaledAgent → Pod → Assigned → M Pod
  assign_listed agent pod a = do
    b ← assign_containers env agent pod.name a pod.spec.containers
    return (record pod { spec = record (pod.spec) { volumes = b.volumes } })

  -- The pod comes back with the volumes that have been added.
  unfoldable pub assign_or_create_pvcs : Text → Text → AutoScaledAgent → Pod → M Pod
  unfolding assign_listed
  assign_or_create_pvcs namespace owner agent pod = elim agent.spec.reusable_cache_volumes [
    | [] ↦ return pod
    | _ ∷ _ ↦ do
      items ← list_pvcs env namespace owner
      assign_listed agent pod (record { pvcs = sort_by_name items; volumes = pod.spec.volumes })
  ]
