-- ===== src/CacheVolumes.antt =====
-- internal/service/utils.go and the controller: persistent volume claims that agent pods reuse as
-- caches, and the promise of a claim to a pod.
pub mod Limits
pub mod Safety
use azure_pipelines_k8s_agen.Prelude.{
  ℕ, suc, ◌+◌, Bool, true, false, ◌&&◌, List, [], ◌∷◌, ◌++◌, Option, none, some, leb, if◌then◌else◌,
}
use azure_pipelines_k8s_agen.Text.{Text, codes, text_eq}
use azure_pipelines_k8s_agen.GoMap.{GoMap, lookup, insert, has_key, get_or}
use azure_pipelines_k8s_agen.Go.{Result, ok, err, panic}
use azure_pipelines_k8s_agen.Kube.{
  Container, VolumeMount, ReusableCacheVolume, PersistentVolumeClaim, PodsWithCapabilities,
  AutoScaledAgent,
}

abbrev pub reusable_cache_volume_name_annotation_key : Text
reusable_cache_volume_name_annotation_key = codes "ReusableCacheVolumeName"

abbrev pub reusable_cache_volume_promised_annotation_key : Text
reusable_cache_volume_promised_annotation_key = codes "PromisedForPod"

unfoldable pub get_matching_cache_volume :
    Text → List ReusableCacheVolume → Option ReusableCacheVolume
get_matching_cache_volume volume_name [] = none
get_matching_cache_volume volume_name (v ∷ vs) =
    if text_eq v.name volume_name then some v else get_matching_cache_volume volume_name vs

-- The value of the annotation that names the volume, empty if it is missing.
abbrev pub volume_of : PersistentVolumeClaim → Text
volume_of pvc = get_or pvc.annotations reusable_cache_volume_name_annotation_key []

abbrev pub is_promised : PersistentVolumeClaim → Bool
is_promised pvc = has_key pvc.annotations reusable_cache_volume_promised_annotation_key

abbrev pub is_available : Text → PersistentVolumeClaim → Bool
is_available volume_name pvc =
    if text_eq (volume_of pvc) volume_name then (if is_promised pvc then false else true) else false

unfoldable pub get_unpromised_pvc : List PersistentVolumeClaim → Text → Option PersistentVolumeClaim
get_unpromised_pvc [] volume_name = none
get_unpromised_pvc (pvc ∷ pvcs) volume_name =
    if is_available volume_name pvc then some pvc else get_unpromised_pvc pvcs volume_name

-- The set of the cache volumes that these mounts use, as a map to `true`.
mark_mounts : List ReusableCacheVolume → GoMap Bool → List VolumeMount → GoMap Bool
mark_mounts volumes used [] = used
mark_mounts volumes used (mount ∷ mounts) =
    mark_mounts volumes
      (elim (get_matching_cache_volume mount.name volumes) [
        | none ↦ used
        | some v ↦ insert used v.name true
      ])
      mounts

mark_containers : List ReusableCacheVolume → GoMap Bool → List Container → GoMap Bool
unfolding mark_mounts
mark_containers volumes used [] = used
mark_containers volumes used (c ∷ cs) =
    mark_containers volumes (mark_mounts volumes used c.volume_mounts) cs

-- `*podsWithCapabilities.MaxCount`, which has been read before without a panic.
add_counts : ℕ → GoMap ℕ → GoMap Bool → GoMap ℕ
add_counts max_count counts [] = counts
add_counts max_count counts ((name, _) ∷ used) =
    add_counts max_count
      (elim (lookup counts name) [
        | some count ↦ insert counts name (count + max_count)
        | none ↦ insert counts name max_count
      ])
      used

add_pod_counts : Option ℕ → GoMap ℕ → GoMap Bool → Result (GoMap ℕ)
unfolding add_counts
add_pod_counts max_count counts [] = ok counts
add_pod_counts none counts (u ∷ used) = panic
add_pod_counts (some max_count) counts (u ∷ used) = ok (add_counts max_count counts (u ∷ used))

then_counts : (GoMap ℕ → Result (GoMap ℕ)) → Result (GoMap ℕ) → Result (GoMap ℕ)
then_counts rest (ok counts) = rest counts
then_counts rest (err e) = err e
then_counts rest panic = panic

unfoldable pub max_counts_onto :
    List ReusableCacheVolume → GoMap ℕ → List PodsWithCapabilities → Result (GoMap ℕ)
unfolding add_pod_counts mark_containers then_counts
max_counts_onto volumes counts [] = ok counts
max_counts_onto volumes counts (p ∷ ps) =
    then_counts (λ counts'. max_counts_onto volumes counts' ps)
      (add_pod_counts p.max_count counts
        (mark_containers volumes [] p.pod_template_spec.containers))

unfoldable pub compute_pvc_max_counts_per_reusable_cache_volume : AutoScaledAgent → Result (GoMap ℕ)
unfolding max_counts_onto
compute_pvc_max_counts_per_reusable_cache_volume agent =
    max_counts_onto agent.spec.reusable_cache_volumes [] agent.spec.pods_with_capabilities

-- `matchingPvcCount`
unfoldable pub count_pvcs : Text → List PersistentVolumeClaim → ℕ
count_pvcs cache_volume_name [] = 0
count_pvcs cache_volume_name (pvc ∷ pvcs) =
    (if text_eq (volume_of pvc) cache_volume_name then 1 else 0) + count_pvcs cache_volume_name pvcs

exceeded : Text → List PersistentVolumeClaim → Result (GoMap ℕ) → Result Bool
exceeded cache_volume_name pvcs (ok counts) =
    ok (leb (get_or counts cache_volume_name 0) (count_pvcs cache_volume_name pvcs))
exceeded cache_volume_name pvcs (err e) = err e
exceeded cache_volume_name pvcs panic = panic

unfoldable pub is_pvc_limit_exceeded :
    AutoScaledAgent → Text → List PersistentVolumeClaim → Result Bool
unfolding exceeded count_pvcs
is_pvc_limit_exceeded agent cache_volume_name pvcs =
    exceeded cache_volume_name pvcs (compute_pvc_max_counts_per_reusable_cache_volume agent)
