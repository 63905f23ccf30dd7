-- ===== src/CacheVolumes/Safety.antt =====
-- Counting what the entries may use of each volume keeps to the terms where each gives its maximum.
use azure_pipelines_k8s_agen.Prelude.{
  ℕ, Bool, List, [], ◌∷◌, Option, none, some, Every, Every-uncons,
}
use azure_pipelines_k8s_agen.Text.{Text}
use azure_pipelines_k8s_agen.GoMap.{GoMap}
use azure_pipelines_k8s_agen.Go.{Result, ok, err, panic}
use azure_pipelines_k8s_agen.Kube.{
  ReusableCacheVolume, PersistentVolumeClaim, PodsWithCapabilities, AutoScaledAgent,
}
use azure_pipelines_k8s_agen.World.Safe.{Terms, Given, Holds, Anything}
use azure_pipelines_k8s_agen.World.Orderly.{IsCompleteEntry, IsCompleteEntry-prop}
use azure_pipelines_k8s_agen.CacheVolumes.{
  add_pod_counts, then_counts, max_counts_onto, compute_pvc_max_counts_per_reusable_cache_volume,
  exceeded, is_pvc_limit_exceeded,
}

module _ (t : Terms) where
  add_pod_counts-Holds :
      (max_count : Option ℕ) (counts : GoMap ℕ) (used : GoMap Bool)
      → Given t max_count
      → Holds t Anything (add_pod_counts max_count counts used)
  unfolding add_pod_counts
  add_pod_counts-Holds mx counts [] h = tt
  add_pod_counts-Holds none counts (u ∷ used) h = h
  add_pod_counts-Holds (some mx) counts (u ∷ used) h = tt

  then_counts-Holds :
      (rest : GoMap ℕ → Result (GoMap ℕ)) (r : Result (GoMap ℕ))
      → Holds t Anything r
      → ((counts : GoMap ℕ) → Holds t Anything (rest counts))
      → Holds t Anything (then_counts rest r)
  unfolding then_counts
  then_counts-Holds rest (ok counts) h k = k counts
  then_counts-Holds rest (err e) h k = h
  then_counts-Holds rest panic h k = h

  max_counts_onto-Holds :
      (volumes : List ReusableCacheVolume) (counts : GoMap ℕ) (ps : List PodsWithCapabilities)
      → Every (IsCompleteEntry t) ps
      → Holds t Anything (max_counts_onto volumes counts ps)
  unfolding max_counts_onto
  max_counts_onto-Holds volumes counts [] h = tt
  max_counts_onto-Holds volumes counts (p ∷ ps) h =
      let (here, rest) = Every-uncons (IsCompleteEntry t) (IsCompleteEntry-prop t) p ps h in
      then_counts-Holds _ _
        (add_pod_counts-Holds p.max_count counts _ (let (_, mx, _) = here in mx))
        λ counts'. max_counts_onto-Holds volumes counts' ps rest

  exceeded-Holds :
      (name : Text) (pvcs : List PersistentVolumeClaim) (r : Result (GoMap ℕ))
      → Holds t Anything r
      → Holds t Anything (exceeded name pvcs r)
  unfolding exceeded
  exceeded-Holds name pvcs (ok counts) h = tt
  exceeded-Holds name pvcs (err e) h = h
  exceeded-Holds name pvcs panic h = h

  pub is_pvc_limit_exceeded-Holds :
      (agent : AutoScaledAgent) (name : Text) (pvcs : List PersistentVolumeClaim)
      → Every (IsCompleteEntry t) agent.spec.pods_with_capabilities
      → Holds t Anything (is_pvc_limit_exceeded agent name pvcs)
  unfolding is_pvc_limit_exceeded compute_pvc_max_counts_per_reusable_cache_volume
  is_pvc_limit_exceeded-Holds agent name pvcs h =
      exceeded-Holds name pvcs _ (max_counts_onto-Holds _ _ agent.spec.pods_with_capabilities h)
