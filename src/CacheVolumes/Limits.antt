-- ===== src/CacheVolumes/Limits.antt =====
-- The limit on the claims of a cache volume, as the sum that it stands for.
use azure_pipelines_k8s_agen.Prelude.{
  ℕ, ◌+◌, Bool, true, false, ◌||◌, List, [], ◌∷◌, Option, none, some, ◌≡◌, refl, sym, ◌∙◌, ap,
  arith, leb, if◌then◌else◌, any, Bool-cases, inl, inr,
}
use azure_pipelines_k8s_agen.Text.{Text, text_eq, text_eq_iff}
use azure_pipelines_k8s_agen.Text.Sort.{contains}
use azure_pipelines_k8s_agen.GoMap.{
  GoMap, keys, IsMap, lookup, insert, has_key, get_or, lookup-insert, has_key-lookup, insert-IsMap,
  contains-has_key,
}
use azure_pipelines_k8s_agen.Go.{ok}
use azure_pipelines_k8s_agen.Kube.{
  Container, VolumeMount, ReusableCacheVolume, PersistentVolumeClaim, PodsWithCapabilities,
  AutoScaledAgent,
}
use azure_pipelines_k8s_agen.CacheVolumes.{
  get_matching_cache_volume, mark_mounts, mark_containers, add_counts, add_pod_counts,
  max_counts_onto, then_counts, count_pvcs, is_pvc_limit_exceeded,
  compute_pvc_max_counts_per_reusable_cache_volume, exceeded,
}

module _ (volumes : List ReusableCacheVolume) (name : Text) where
  -- The mount is one of the cache volume with this name.
  abbrev pub mounts_volume : VolumeMount → Bool
  mounts_volume mount = elim (get_matching_cache_volume mount.name volumes) [
    | none ↦ false
    | some v ↦ text_eq v.name name
  ]

  abbrev pub uses_volume : List Container → Bool
  uses_volume cs = any (λ c. any mounts_volume c.volume_mounts) cs

  has_key-insert :
      (used : GoMap Bool) (k : Text)
      → has_key (insert used k true) name ≡ (text_eq k name || has_key used name)
  has_key-insert used k = ground (
    arith,
    has_key-lookup (insert used k true) name,
    lookup-insert used k true name,
    has_key-lookup used name,
  )

  or_assoc : (a b c : Bool) → ((a || b) || c) ≡ (b || (a || c))
  or_assoc true true c = refl
  or_assoc true false c = refl
  or_assoc false b c = refl

  mark_mounts_lem :
      (used : GoMap Bool) (mounts : List VolumeMount)
      → IsMap used
      → IsMap (mark_mounts volumes used mounts)
        × (has_key (mark_mounts volumes used mounts) name
            ≡ (has_key used name || any mounts_volume mounts))
  unfolding mark_mounts
  mark_mounts_lem used [] d = (d, ground arith)
  mark_mounts_lem used (mount ∷ mounts) d =
      of (λ used' d'. mark_mounts_lem used' mounts d')
        (get_matching_cache_volume mount.name volumes)
    where
      of :
          ((used' : GoMap Bool)
            → IsMap used'
            → IsMap (mark_mounts volumes used' mounts)
              × (has_key (mark_mounts volumes used' mounts) name
                  ≡ (has_key used' name || any mounts_volume mounts)))
          → (o : Option ReusableCacheVolume)
          → IsMap (
              mark_mounts volumes
                (elim o [ none ↦ used | some v ↦ insert used v.name true ])
                mounts)
            × (has_key
                  (mark_mounts volumes
                    (elim o [ none ↦ used | some v ↦ insert used v.name true ])
                    mounts)
                  name
                ≡ (has_key used name
                    || (elim o [ none ↦ false | some v ↦ text_eq v.name name ]
                        || any mounts_volume mounts)))
      of rest none = rest used d
      of rest (some v) =
          let (d', e) = rest (insert used v.name true) (insert-IsMap used v.name true d) in
          (
            d',
            e
                ∙ ap (λ b. b || any mounts_volume mounts) (has_key-insert used v.name)
                ∙ or_assoc (text_eq v.name name) (has_key used name) (any mounts_volume mounts),
          )

  mark_containers_lem :
      (used : GoMap Bool) (cs : List Container)
      → IsMap used
      → IsMap (mark_containers volumes used cs)
        × (has_key (mark_containers volumes used cs) name ≡ (has_key used name || uses_volume cs))
  unfolding mark_containers
  mark_containers_lem used [] d = (d, ground arith)
  mark_containers_lem used (c ∷ cs) d =
      let (d', e) = mark_mounts_lem used c.volume_mounts d in
      let (d'', e') = mark_containers_lem (mark_mounts volumes used c.volume_mounts) cs d' in
      (d'', e' ∙ ap (λ b. b || uses_volume cs) e ∙ ground arith)

  added :
      (max_count : ℕ) (counts : GoMap ℕ) (k : Text) (o : Option ℕ)
      → lookup counts k ≡ o
      → get_or
          (elim o [
            | some count ↦ insert counts k (count + max_count)
            | none ↦ insert counts k max_count
          ])
          name
          0
        ≡ get_or counts name 0 + (if text_eq k name then max_count else 0)
  added max_count counts k none e = elim (Bool-cases (text_eq k name)) [
    | inl t ↦
        let at : lookup counts name ≡ none =
          ap (lookup counts) (sym ((text_eq_iff k name).0 t)) ∙ e in
        ground (arith, lookup-insert counts k max_count name, t, at)
    | inr f ↦ ground (arith, lookup-insert counts k max_count name, f)
  ]
  added max_count counts k (some count) e = elim (Bool-cases (text_eq k name)) [
    | inl t ↦
        let at : lookup counts name ≡ some count =
          ap (lookup counts) (sym ((text_eq_iff k name).0 t)) ∙ e in
        ground (arith, lookup-insert counts k (count + max_count) name, t, at)
    | inr f ↦ ground (arith, lookup-insert counts k (count + max_count) name, f)
  ]

  -- A key of a map stands in no later entry.
  no_other :
      (k : Text) (used : GoMap Bool)
      → contains (keys used) k ≡ false
      → text_eq k name ≡ true
      → has_key used name ≡ false
  no_other k used d t =
      ap (has_key used) (sym ((text_eq_iff k name).0 t)) ∙ sym (contains-has_key used k) ∙ d

  -- Each name of the set adds the maximum once.
  add_counts_lem :
      (max_count : ℕ) (counts : GoMap ℕ) (used : GoMap Bool)
      → IsMap used
      → get_or (add_counts max_count counts used) name 0
        ≡ get_or counts name 0 + (if has_key used name then max_count else 0)
  unfolding add_counts has_key
  add_counts_lem max_count counts [] d = ground arith
  add_counts_lem max_count counts ((k, b) ∷ used) d =
      add_counts_lem max_count
        (elim (lookup counts k) [
          | some count ↦ insert counts k (count + max_count)
          | none ↦ insert counts k max_count
        ])
        used d.1
      ∙ ground (arith, added max_count counts k (lookup counts k) refl, no_other k used d.0)

-- The sum of the maxima of the entries that mount the volume.
abbrev pub max_pvc_count : List ReusableCacheVolume → Text → List PodsWithCapabilities → ℕ
max_pvc_count volumes name [] = 0
max_pvc_count volumes name (p ∷ ps) =
    (if uses_volume volumes name p.pod_template_spec.containers
      then elim p.max_count [ none ↦ 0 | some n ↦ n ]
      else 0)
    + max_pvc_count volumes name ps

-- Every entry has its maximum.
abbrev pub AllCounted : List PodsWithCapabilities → Type 0
AllCounted [] = Unit
AllCounted (p ∷ ps) = ((n : ℕ) × (p.max_count ≡ some n)) × AllCounted ps

module _ (volumes : List ReusableCacheVolume) (name : Text) where
  counted :
      (o : Option ℕ) (n : ℕ) (counts : GoMap ℕ) (used : GoMap Bool)
      → o ≡ some n
      → add_pod_counts o counts used ≡ ok (add_counts n counts used)
  unfolding add_pod_counts
  counted none n counts used e = cc
  counted (some m) n counts [] e = refl
  counted (some m) n counts (u ∷ used) e =
      ap (λ k. ok (add_counts k counts (u ∷ used))) (ap (λ o. elim o [ none ↦ m | some k ↦ k ]) e)

  max_counts_lem :
      (counts : GoMap ℕ) (ps : List PodsWithCapabilities)
      → AllCounted ps
      → (r : GoMap ℕ) × (max_counts_onto volumes counts ps ≡ ok r)
        × (get_or r name 0 ≡ get_or counts name 0 + max_pvc_count volumes name ps)
  unfolding max_counts_onto then_counts has_key
  max_counts_lem counts [] h = (counts, refl, omega arith)
  max_counts_lem counts (p ∷ ps) ((n, e), h) =
      let used = mark_containers volumes [] p.pod_template_spec.containers in
      let (is_map, uses) = mark_containers_lem volumes name [] p.pod_template_spec.containers tt in
      let more = add_counts_lem volumes name n counts used is_map in
      let (r, eq, val) = max_counts_lem (add_counts n counts used) ps h in
      (
        r,
        ap (then_counts (λ counts'. max_counts_onto volumes counts' ps))
              (counted p.max_count n counts used e)
            ∙ eq,
        val ∙ ground (arith, more, uses, e),
      )

-- Where every entry has its maximum, a cache volume is at its limit exactly when the claims that are
-- annotated with its name are at least the sum of the maxima of the entries that mount it, each
-- entry counted once however many of its containers do.
pub is_pvc_limit_exceeded_lem :
    (agent : AutoScaledAgent) (name : Text) (pvcs : List PersistentVolumeClaim)
    → AllCounted agent.spec.pods_with_capabilities
    → is_pvc_limit_exceeded agent name pvcs
      ≡ ok (
          leb
            (max_pvc_count agent.spec.reusable_cache_volumes name agent.spec.pods_with_capabilities)
            (count_pvcs name pvcs))
unfolding is_pvc_limit_exceeded compute_pvc_max_counts_per_reusable_cache_volume exceeded lookup
is_pvc_limit_exceeded_lem agent name pvcs h =
    let (r, eq, val) =
      max_counts_lem agent.spec.reusable_cache_volumes name [] agent.spec.pods_with_capabilities
        h in
    ap (exceeded name pvcs) eq ∙ ap (λ n. ok (leb n (count_pvcs name pvcs))) (val ∙ omega arith)
