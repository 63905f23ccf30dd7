-- ===== src/PvcRelease.antt =====
-- `HasPodPermanentlyDisappeared` of internal/service/utils.go and the controller's
-- `deletePromisedAnnotationFromPvcs`.
pub mod Promises
pub mod Grace
pub mod Safety
use azure_pipelines_k8s_agen.Prelude.{
  ℕ, ◌+◌, ◌*◌, ◌^◌, Bool, true, false, ◌&&◌, ◌||◌, List, [], ◌∷◌, Option, none, some, ltb,
  if◌then◌else◌,
}
use azure_pipelines_k8s_agen.Text.{Text, codes, text_eq}
use azure_pipelines_k8s_agen.GoMap.{GoMap, lookup, insert, erase, has_key, get_or}
use azure_pipelines_k8s_agen.Go.{return, lift, ◌>>=◌, ◌>>◌}
use azure_pipelines_k8s_agen.Kube.{Pod, PersistentVolumeClaim}
use azure_pipelines_k8s_agen.World.{Env, Memory}
use azure_pipelines_k8s_agen.World.Monad.{
  M, now, range_times, update_pvc, list_pvcs, list_pods, read_memory, write_memory,
}
use azure_pipelines_k8s_agen.CacheVolumes.{reusable_cache_volume_promised_annotation_key}

-- `time.Second`, in nanoseconds
abbrev pub second : ℕ
second = 10 ^ 9

unfoldable pub find_pod : Text → List Pod → Option Pod
find_pod pod_name [] = none
find_pod pod_name (p ∷ pods) = if text_eq p.name pod_name then some p else find_pod pod_name pods

-- The pod has the phase Succeeded or Failed.
abbrev pub has_ended : Pod → Bool
has_ended pod = text_eq pod.phase (codes "Succeeded") || text_eq pod.phase (codes "Failed")

module _ (env : Env) where
  note_disappeared : Text → M (Unit {0})
  note_disappeared pod_name = do
    m ← read_memory
    if has_key m.disappeared_pods pod_name then return tt else (do
      t ← now env
      write_memory (λ s. record s { disappeared_pods = insert s.disappeared_pods pod_name t }))

  -- The garbage collection over the entries, each against a reading of the clock.
  collect_disappeared : GoMap ℕ → M (Unit {0})
  collect_disappeared [] = return tt
  collect_disappeared ((pod_name, t) ∷ entries) = do
    t' ← now env
    if ltb (t + 60 * second) t'
        then write_memory (λ s. record s { disappeared_pods = erase s.disappeared_pods pod_name })
        else return tt
    collect_disappeared entries

  collect_all : GoMap ℕ → M (Unit {0})
  unfolding collect_disappeared
  collect_all disappeared = do entries ← range_times env disappeared; collect_disappeared entries

  unfoldable pub has_pod_permanently_disappeared : Text → M Bool
  unfolding note_disappeared collect_all
  has_pod_permanently_disappeared pod_name = do
    note_disappeared pod_name
    m ← read_memory
    t ← now env
    collect_all m.disappeared_pods
    return (ltb (get_or m.disappeared_pods pod_name 0 + 5 * second) t)

  pod_is_gone : Text → Option Pod → M Bool
  unfolding has_pod_permanently_disappeared
  pod_is_gone pod_name none = has_pod_permanently_disappeared pod_name
  pod_is_gone pod_name (some pod) = return (has_ended pod)

  release : PersistentVolumeClaim → Bool → M (Unit {0})
  release pvc false = return tt
  release pvc true = do
    update_pvc env (record pvc {
      annotations = erase pvc.annotations reusable_cache_volume_promised_annotation_key;
    })
    return tt

  -- The body of the loop over the claims, for one claim.
  unfoldable pub release_pvc : List Pod → PersistentVolumeClaim → M (Unit {0})
  unfolding pod_is_gone release find_pod
  release_pvc pods pvc =
      elim (lookup pvc.annotations reusable_cache_volume_promised_annotation_key) [
        | none ↦ return tt
        | some promised_pod_name ↦ do
          gone ← pod_is_gone promised_pod_name (find_pod promised_pod_name pods)
          release pvc gone
      ]

  unfoldable pub release_pvcs : List Pod → List PersistentVolumeClaim → M (Unit {0})
  release_pvcs pods [] = return tt
  release_pvcs pods (pvc ∷ pvcs) = do release_pvc pods pvc; release_pvcs pods pvcs

  unfoldable pub delete_promised_annotation_from_pvcs : Text → Text → M (Unit {0})
  unfolding release_pvcs
  delete_promised_annotation_from_pvcs namespace owner = do
    pvcs ← list_pvcs env namespace owner
    pods ← list_pods env namespace owner none
    release_pvcs pods pvcs
