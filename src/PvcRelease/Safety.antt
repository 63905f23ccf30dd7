-- ===== src/PvcRelease/Safety.antt =====
-- Releasing claims keeps to the terms.
use azure_pipelines_k8s_agen.Prelude.{
  refl, ℕ, Bool, true, false, List, [], ◌∷◌, Option, none, some, Every, keep,
}
use azure_pipelines_k8s_agen.Text.{Text}
use azure_pipelines_k8s_agen.Go.{return, ◌>>=◌}
use azure_pipelines_k8s_agen.Kube.{Pod, PersistentVolumeClaim}
use azure_pipelines_k8s_agen.World.{Env}
use azure_pipelines_k8s_agen.AgentPods.{is_agent_pod}
use azure_pipelines_k8s_agen.World.Safe.{
  Terms, Anything, Safe, Safe-return, Safe-call, Safe-either, Safe-bind, Safe-then, Safe-now,
  Safe-read_memory, Safe-write_memory,
}
use azure_pipelines_k8s_agen.World.Orderly.{IsOrderly, ListsSound}
use azure_pipelines_k8s_agen.GoMap.{GoMap, lookup}
use azure_pipelines_k8s_agen.CacheVolumes.{reusable_cache_volume_promised_annotation_key}
use azure_pipelines_k8s_agen.PvcRelease.{
  note_disappeared, collect_disappeared, collect_all, has_pod_permanently_disappeared, pod_is_gone,
  release, release_pvc, release_pvcs, find_pod, delete_promised_annotation_from_pvcs,
}

module _ {t : Terms} (env : Env) (o : IsOrderly t env) where
  note_disappeared-Safe : (pod_name : Text) → Safe t Anything (note_disappeared env pod_name)
  unfolding note_disappeared
  note_disappeared-Safe pod_name = Safe-then Anything _ _ Safe-read_memory λ m.
      Safe-either Anything _ _ _ (Safe-return Anything _ tt)
        (Safe-then Anything _ _ (Safe-now env) λ t. Safe-write_memory _ (λ s c. c))

  collect_disappeared-Safe : (entries : GoMap ℕ) → Safe t Anything (collect_disappeared env entries)
  unfolding collect_disappeared
  collect_disappeared-Safe [] = Safe-return Anything _ tt
  collect_disappeared-Safe ((pod_name, t) ∷ entries) = Safe-then Anything _ _ (Safe-now env) λ t'.
      Safe-then Anything _ _
        (Safe-either Anything _ _ _ (Safe-write_memory _ (λ s c. c)) (Safe-return Anything _ tt))
        λ _. collect_disappeared-Safe entries

  pod_is_gone-Safe :
      (pod_name : Text) (found : Option Pod) → Safe t Anything (pod_is_gone env pod_name found)
  unfolding pod_is_gone has_pod_permanently_disappeared collect_all
  pod_is_gone-Safe pod_name none = Safe-then Anything _ _ (note_disappeared-Safe pod_name) λ _.
      Safe-then Anything _ _ Safe-read_memory λ m. Safe-then Anything _ _ (Safe-now env) λ t.
        Safe-then Anything _ _
          (Safe-then Anything _ _ (Safe-call Anything _ _ (λ log. tt) refl)
            λ entries. collect_disappeared-Safe entries)
          λ _. Safe-return Anything _ tt
  pod_is_gone-Safe pod_name (some pod) = Safe-return Anything _ tt

  release-Safe :
      (pvc : PersistentVolumeClaim) (gone : Bool) → Safe t Anything (release env pvc gone)
  unfolding release
  release-Safe pvc false = Safe-return Anything _ tt
  release-Safe pvc true =
      Safe-then Anything _ _ (Safe-call Anything _ _ (λ log. o.update_pvc log _) refl)
        λ _. Safe-return Anything _ tt

  release_pvc-Safe :
      (pods : List Pod) (pvc : PersistentVolumeClaim) → Safe t Anything (release_pvc env pods pvc)
  unfolding release_pvc
  release_pvc-Safe pods pvc =
      of (lookup pvc.annotations reusable_cache_volume_promised_annotation_key)
    where
      of :
          (promised : Option Text)
          → Safe t Anything (elim promised [
            | none ↦ return tt
            | some name ↦ pod_is_gone env name (find_pod name pods) >>= λ gone. release env pvc gone
          ])
      of none = Safe-return Anything _ tt
      of (some name) =
          Safe-then Anything _ _ (pod_is_gone-Safe name _) λ gone. release-Safe pvc gone

  release_pvcs-Safe :
      (pods : List Pod) (pvcs : List PersistentVolumeClaim)
      → Safe t Anything (release_pvcs env pods pvcs)
  unfolding release_pvcs
  release_pvcs-Safe pods [] = Safe-return Anything _ tt
  release_pvcs-Safe pods (pvc ∷ pvcs) =
      Safe-then Anything _ _ (release_pvc-Safe pods pvc) λ _. release_pvcs-Safe pods pvcs

  pub delete_promised_annotation_from_pvcs-Safe :
      (namespace owner : Text)
      → ListsSound t env namespace owner
      → Safe t Anything (delete_promised_annotation_from_pvcs env namespace owner)
  unfolding delete_promised_annotation_from_pvcs
  delete_promised_annotation_from_pvcs-Safe namespace owner l =
      Safe-then Anything _ _ (Safe-call Anything _ _ (λ log. o.list_pvcs log namespace owner) refl)
        λ pvcs.
          Safe-bind (λ pods. Every t.sound (keep is_agent_pod pods)) Anything _ _
            (Safe-call _ _ _ (λ log. l.listed log none) refl) λ pods _. release_pvcs-Safe pods pvcs
