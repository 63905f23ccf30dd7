-- ===== src/PvcRelease/Promises.antt =====
-- When a promise is kept: the claims of pods that still run are left alone, whatever stands beside
-- them in the list.
use azure_pipelines_k8s_agen.Prelude.{
  ℕ, Bool, true, false, not, List, [], ◌∷◌, Option, none, some, ◌≡◌, refl, keep, arith, Bool-cases,
  inl, inr, Every, Every-uncons,
}
use azure_pipelines_k8s_agen.Text.{Text}
use azure_pipelines_k8s_agen.GoMap.{GoMap, lookup, erase}
use azure_pipelines_k8s_agen.Go.{ok, return, ◌>>=◌}
use azure_pipelines_k8s_agen.Kube.{Pod, PersistentVolumeClaim}
use azure_pipelines_k8s_agen.World.{Env, Call, Memory}
use azure_pipelines_k8s_agen.World.Monad.{M}
use azure_pipelines_k8s_agen.World.Steps.{after_same}
use azure_pipelines_k8s_agen.World.Costs.{
  Costs, spent, Costs-return, Costs-then, Costs-if, Costs-free_call, Costs-read_memory,
  Costs-write_memory,
}
use azure_pipelines_k8s_agen.CacheVolumes.{reusable_cache_volume_promised_annotation_key}
use azure_pipelines_k8s_agen.PvcRelease.{
  find_pod, has_ended, note_disappeared, collect_disappeared, collect_all,
  has_pod_permanently_disappeared, pod_is_gone, release, release_pvc, release_pvcs,
}

-- The claim is promised to no pod, or to one of the list that has not ended.
abbrev pub is_held : List Pod → PersistentVolumeClaim → Bool
is_held pods pvc = elim (lookup pvc.annotations reusable_cache_volume_promised_annotation_key) [
  | none ↦ true
  | some name ↦ elim (find_pod name pods) [ none ↦ false | some pod ↦ not (has_ended pod) ]
]

abbrev pub unpromised : PersistentVolumeClaim → PersistentVolumeClaim
unpromised pvc = record pvc {
  annotations = erase pvc.annotations reusable_cache_volume_promised_annotation_key;
}

module _ (env : Env) (price : Call → ℕ) (now_free : price Call.now ≡ 0)
    (range_free : price Call.range ≡ 0) where
  note_disappeared-Costs : (pod_name : Text) → Costs price 0 (note_disappeared env pod_name)
  unfolding note_disappeared
  note_disappeared-Costs pod_name = Costs-then 0 _ _ Costs-read_memory λ m.
      Costs-if _ 0 _ _ (Costs-return tt)
        (Costs-then 0 _ _ (Costs-free_call _ _ now_free) λ t. Costs-write_memory _ λ s. refl)

  collect_disappeared-Costs : (entries : GoMap ℕ) → Costs price 0 (collect_disappeared env entries)
  unfolding collect_disappeared
  collect_disappeared-Costs [] = Costs-return tt
  collect_disappeared-Costs ((pod_name, t) ∷ entries) =
      Costs-then 0 _ _ (Costs-free_call _ _ now_free) λ t'.
        Costs-then 0 _ _ (Costs-if _ 0 _ _ (Costs-write_memory _ λ s. refl) (Costs-return tt))
          λ _. collect_disappeared-Costs entries

  -- Whether a pod is gone is found out with readings of the clock only.
  pod_is_gone-Costs :
      (pod_name : Text) (found : Option Pod) → Costs price 0 (pod_is_gone env pod_name found)
  unfolding pod_is_gone has_pod_permanently_disappeared collect_all
  pod_is_gone-Costs pod_name (some pod) = Costs-return _
  pod_is_gone-Costs pod_name none = Costs-then 0 _ _ (note_disappeared-Costs pod_name) λ _.
      Costs-then 0 _ _ Costs-read_memory λ m. Costs-then 0 _ _ (Costs-free_call _ _ now_free) λ t.
        Costs-then 0 _ _
          (Costs-then 0 _ _ (Costs-free_call _ _ range_free)
            λ entries. collect_disappeared-Costs entries)
          λ _. Costs-return _

  release-Costs :
      (pvc : PersistentVolumeClaim) (gone : Bool)
      → price (Call.update_pvc (unpromised pvc)) ≡ 0
      → Costs price 0 (release env pvc gone)
  unfolding release
  release-Costs pvc false h = Costs-return tt
  release-Costs pvc true h = Costs-then 0 _ _ (Costs-free_call _ _ h) λ _. Costs-return tt

-- A claim that is not held can lose its promise for free.
abbrev pub LosesFree : List Pod → (Call → ℕ) → PersistentVolumeClaim → Type 0
LosesFree pods price pvc = is_held pods pvc ≡ false → price (Call.update_pvc (unpromised pvc)) ≡ 0

module _ (env : Env) (pods : List Pod) where
  release_pvc_held :
      (pvc : PersistentVolumeClaim) (s : Memory)
      → is_held pods pvc ≡ true
      → release_pvc env pods pvc s ≡ (ok tt, s)
  unfolding release_pvc ◌>>=◌ pod_is_gone release
  release_pvc_held pvc s h =
      of (lookup pvc.annotations reusable_cache_volume_promised_annotation_key) h
    where
      found :
          (name : Text) (o : Option Pod)
          → (elim o [ none ↦ false | some pod ↦ not (has_ended pod) ]) ≡ true
          → (pod_is_gone env name o >>= λ gone. release env pvc gone) s ≡ (ok tt, s)
      found name none h = absurd cc
      found name (some pod) h =
          let running : has_ended pod ≡ false = ground arith in rw running refl

      of :
          (o : Option Text)
          → (elim o [
            | none ↦ true
            | some name ↦ elim (find_pod name pods) [
              | none ↦ false
              | some pod ↦ not (has_ended pod)
            ]
          ])
            ≡ true
          → (elim o as (λ _. M (Unit {0})) [
            | none ↦ λ s. (ok tt, s)
            | some name ↦ pod_is_gone env name (find_pod name pods) >>= λ gone. release env pvc gone
          ])
              s
            ≡ (ok tt, s)
      of none h = refl
      of (some name) h = found name (find_pod name pods) h

  release_pvc-Costs :
      (price : Call → ℕ) (now_free : price Call.now ≡ 0) (range_free : price Call.range ≡ 0)
      (pvc : PersistentVolumeClaim)
      → price (Call.update_pvc (unpromised pvc)) ≡ 0
      → Costs price 0 (release_pvc env pods pvc)
  unfolding release_pvc return
  release_pvc-Costs price now_free range_free pvc h =
      of (lookup pvc.annotations reusable_cache_volume_promised_annotation_key)
    where
      of :
          (o : Option Text)
          → Costs price 0 (elim o as (λ _. M (Unit {0})) [
            | none ↦ λ s. (ok tt, s)
            | some name ↦ pod_is_gone env name (find_pod name pods) >>= λ gone. release env pvc gone
          ])
      of none = Costs-return tt
      of (some name) =
          Costs-then 0 _ _ (pod_is_gone-Costs env price now_free range_free name _)
            λ gone. release-Costs env price now_free range_free pvc gone h

  release_pvcs-keep :
      (pvcs : List PersistentVolumeClaim) (s : Memory)
      → release_pvcs env pods pvcs s
        ≡ release_pvcs env pods (keep (λ pvc. not (is_held pods pvc)) pvcs) s
  unfolding release_pvcs ◌>>=◌
  release_pvcs-keep [] s = refl
  release_pvcs-keep (pvc ∷ pvcs) s = elim (Bool-cases (is_held pods pvc)) [
    | inl held ↦ rw (held, release_pvc_held pvc s held) (release_pvcs-keep pvcs s)
    | inr lost ↦ rw lost (
        after_same (release_pvc env pods pvc s).0 _ _ (release_pvc env pods pvc s).1
          (release_pvcs-keep pvcs))
  ]

  release_pvcs-Costs :
      (price : Call → ℕ) (pvcs : List PersistentVolumeClaim)
      → price Call.now ≡ 0
      → price Call.range ≡ 0
      → Every (LosesFree pods price) pvcs
      → Costs price 0 (release_pvcs env pods pvcs)
  unfolding release_pvcs
  release_pvcs-Costs price [] now_free range_free free = Costs-return tt
  release_pvcs-Costs price (pvc ∷ pvcs) now_free range_free free =
      let (here, rest) = Every-uncons (LosesFree pods price) (λ c. hlevel) pvc pvcs free in
      Costs-then 0 _ _
        (elim (Bool-cases (is_held pods pvc)) [
          | inl held ↦ record {
            at = λ s. rw (release_pvc_held pvc s held) (omega arith, omega arith);
          }
          | inr lost ↦ release_pvc-Costs price now_free range_free pvc (here lost)
        ])
        λ _. release_pvcs-Costs price pvcs now_free range_free rest

  -- A claim that is promised to nobody, or to a listed pod that has not ended, is left as it is: a
  -- list of claims is handled as it would be without those, and every call that is made is a reading
  -- of the clock, the order of a loop over a map, or takes the promise, and nothing else, off one of the other claims of the list:
  -- at any price under which those are free, nothing is spent.
  pub release_pvcs_held :
      (pvcs : List PersistentVolumeClaim) (s : Memory) (price : Call → ℕ)
      → price Call.now ≡ 0
      → price Call.range ≡ 0
      → Every (LosesFree pods price) pvcs
      → (release_pvcs env pods pvcs s
          ≡ release_pvcs env pods (keep (λ pvc. not (is_held pods pvc)) pvcs) s)
        × (spent price (release_pvcs env pods pvcs s).1.log ≡ spent price s.log)
  release_pvcs_held pvcs s price now_free range_free free = (
    release_pvcs-keep pvcs s,
    omega (arith, (release_pvcs-Costs price pvcs now_free range_free free).at s),
  )
