-- ===== src/Reconciler/Limits.antt =====
-- The scaling of one entry stays within its maximum and deletes one pod at most.
use azure_pipelines_k8s_agen.Prelude.{
  ℕ, ◌+◌, ◌-◌, ◌*◌, ◌≤◌, min, max, List, Option, none, some, ◌≡◌, refl, ◌∙◌, arith, ltb,
  if◌then◌else◌, Bool-cases, inl, inr,
}
use azure_pipelines_k8s_agen.Text.{Text}
use azure_pipelines_k8s_agen.GoMap.{GoMap}
use azure_pipelines_k8s_agen.Go.{return, ◌>>=◌}
use azure_pipelines_k8s_agen.Kube.{Pod, PodsWithCapabilities, AutoScaledAgent}
use azure_pipelines_k8s_agen.World.{Env, Call, Memory}
use azure_pipelines_k8s_agen.World.Costs.{
  Costs, spent, Costs-free_call, Costs-then, Costs-bind, Costs-return, Costs-call, Costs-more,
  Costs-if, IsQuiet,
}
use azure_pipelines_k8s_agen.World.Prices.{plain_creates_none, plain_deletes_none}
use azure_pipelines_k8s_agen.World.Steps.{bind_deref}
use azure_pipelines_k8s_agen.Groups.{get_inexact_match}
use azure_pipelines_k8s_agen.PendingJobs.{PendingJob, PendingJobsWrapper, get_job_count}
use azure_pipelines_k8s_agen.RunningPods.{RunningPodsWrapper, get_pod_count_and_names}
use azure_pipelines_k8s_agen.World.Free.{spending, spending-IsOrderly, Costs-Safe}
use azure_pipelines_k8s_agen.IdlePods.{get_terminateable_pod}
use azure_pipelines_k8s_agen.IdlePods.Safety.{SeesMap, get_terminateable_pod-Safe}
use azure_pipelines_k8s_agen.Reconciler.{
  create_or_swallow, delete_found, scale_down, scale_up_for_jobs, scale_by_counts, scale,
}
use azure_pipelines_k8s_agen.Reconciler.Scaling.{
  creation, deletion, create_or_swallow-Costs, create_for_jobs-Costs,
}

module _ (env : Env) (namespace owner : Text) (agent : AutoScaledAgent) where
  module _ (price : Call → ℕ) (q : IsQuiet price) (n : ℕ)
      (one : (pod : Pod) → price (Call.delete_pod pod) ≡ n) where
    get_terminateable_pod-Costs :
        (pods : GoMap (List Pod)) (period : ℕ)
        → Costs price 0 (get_terminateable_pod env pods period)
    get_terminateable_pod-Costs pods period =
        Costs-Safe price q (λ n. SeesMap (spending price q n)) _
          λ n.
            get_terminateable_pod-Safe env (spending-IsOrderly price q env n) pods period
              (λ x i y j. tt)

    delete_found-Costs : (o : Option Pod) → Costs price n (delete_found env namespace owner agent o)
    unfolding delete_found
    delete_found-Costs none = Costs-more 0 n _ (Costs-return tt) (omega arith)
    delete_found-Costs (some pod) = Costs-more _ n _ (Costs-call _ _) (omega (arith, one pod))

    pub scale_down-Costs :
        (running_pods : RunningPodsWrapper) (matching_pods : GoMap (List Pod))
        → Costs price n (scale_down env namespace owner agent running_pods matching_pods)
    unfolding scale_down
    scale_down-Costs running_pods matching_pods =
        Costs-then n _ _ (get_terminateable_pod-Costs matching_pods _) λ scan.
          Costs-more (n + 0) n _
            (Costs-bind n 0 _ _ (delete_found-Costs scan.found) λ _. Costs-return _) (omega arith)

  module _ (p : PodsWithCapabilities) (price : Call → ℕ) (q : IsQuiet price) (n : ℕ)
      (one : (pod : Pod) → price (Call.create_pod pod) ≡ n) where
    up_for_min-Costs :
        (count : ℕ) (running_pods : RunningPodsWrapper)
        → Costs price (count * n) (
            create_or_swallow env namespace owner agent p count p.capabilities >>= λ _.
            return running_pods)
    up_for_min-Costs count running_pods =
        Costs-more (count * n + 0) (count * n) _
          (Costs-bind (count * n) 0 _ _
            (create_or_swallow-Costs env namespace owner agent p price q n one count p.capabilities)
            λ _. Costs-return running_pods)
          (omega arith)

    up_for_jobs-Costs :
        (allowed : ℕ) (running_pods : RunningPodsWrapper) (pods : GoMap (List Pod))
        (jobs : GoMap (List PendingJob))
        → Costs price (allowed * n) (
            scale_up_for_jobs env namespace owner agent p allowed pods jobs >>= λ _.
            return running_pods)
    unfolding scale_up_for_jobs
    up_for_jobs-Costs allowed running_pods pods jobs =
        Costs-more (allowed * n + 0) (allowed * n) _
          (Costs-bind (allowed * n) 0 _ _
            (Costs-then (allowed * n) _ _ (Costs-free_call _ _ (q Call.range refl))
              λ ordered. create_for_jobs-Costs env namespace owner agent p price q n one allowed _)
            λ _. Costs-return running_pods)
          (omega arith)

  -- What a round may spend on creations and on deletions.
  abbrev pub create_budget : ℕ → ℕ → ℕ → ℕ → ℕ
  create_budget min_count max_count pods jobs =
      if ltb (min max_count (max jobs min_count)) pods
      then 0
      else if ltb pods min_count
      then min_count - pods
      else max_count - pods

  abbrev pub delete_budget : ℕ → ℕ → ℕ → ℕ → ℕ
  delete_budget min_count max_count pods jobs =
      if ltb (min max_count (max jobs min_count)) pods then 1 else 0

  module _ (p : PodsWithCapabilities) (mn mx pods jobs : ℕ) (rpw : RunningPodsWrapper)
      (matching_pods : GoMap (List Pod)) (matching_jobs : GoMap (List PendingJob)) where
    pub creations-Costs : Costs creation (create_budget mn mx pods jobs) (
        scale_by_counts env namespace owner agent p mn mx pods jobs rpw matching_pods matching_jobs)
    unfolding scale_by_counts
    creations-Costs = elim (Bool-cases (ltb (min mx (max jobs mn)) pods)) [
      | inl many ↦
          rw many (scale_down-Costs creation plain_creates_none 0 (λ _. refl) rpw matching_pods)
      | inr few ↦ rw few (elim (Bool-cases (ltb pods mn)) [
        | inl low ↦ rw low (
            Costs-more ((mn - pods) * 1) (mn - pods) _
              (up_for_min-Costs p creation plain_creates_none 1 (λ _. refl) (mn - pods) rpw)
              (omega arith))
        | inr high ↦ rw high (
            Costs-if (ltb pods mx) (mx - pods) _ _
              (Costs-more ((mx - pods) * 1) (mx - pods) _
                (up_for_jobs-Costs p creation plain_creates_none 1 (λ _. refl) (mx - pods) rpw
                  matching_pods matching_jobs)
                (omega arith))
              (Costs-more 0 (mx - pods) _ (Costs-return rpw) (omega arith)))
      ])
    ]

    pub deletions-Costs : Costs deletion (delete_budget mn mx pods jobs) (
        scale_by_counts env namespace owner agent p mn mx pods jobs rpw matching_pods matching_jobs)
    unfolding scale_by_counts
    deletions-Costs = elim (Bool-cases (ltb (min mx (max jobs mn)) pods)) [
      | inl many ↦
          rw many (scale_down-Costs deletion plain_deletes_none 1 (λ _. refl) rpw matching_pods)
      | inr few ↦ rw few (
          Costs-if (ltb pods mn) 0 _ _
            (Costs-more ((mn - pods) * 0) 0 _
              (up_for_min-Costs p deletion plain_deletes_none 0 (λ _. refl) (mn - pods) rpw)
              (omega arith))
            (Costs-if (ltb pods mx) 0 _ _
              (Costs-more ((mx - pods) * 0) 0 _
                (up_for_jobs-Costs p deletion plain_deletes_none 0 (λ _. refl) (mx - pods) rpw
                  matching_pods matching_jobs)
                (omega arith))
              (Costs-return rpw)))
    ]

  -- The body of the loop once the two counts have been read.
  pub scale_eq :
      (p : PodsWithCapabilities) (pending_jobs : PendingJobsWrapper) (rpw : RunningPodsWrapper)
      (mn mx : ℕ) (s : Memory)
      → p.min_count ≡ some mn
      → p.max_count ≡ some mx
      → scale env namespace owner agent pending_jobs p rpw s
        ≡ scale_by_counts env namespace owner agent p mn mx
            (get_pod_count_and_names (get_inexact_match rpw p.capabilities)).0
            (get_job_count (get_inexact_match pending_jobs p.capabilities))
            rpw
            (get_inexact_match rpw p.capabilities)
            (get_inexact_match pending_jobs p.capabilities)
            s
  unfolding scale
  scale_eq p pending_jobs rpw mn mx s e e' =
      bind_deref p.max_count mx _ s e' ∙ bind_deref p.min_count mn _ s e

  -- With the two counts given, and the minimum no more than the maximum, a round creates at most as
  -- many pods as the matching pods are short of the maximum, and deletes at most one, and only
  -- where the pods exceed the lesser of the maximum and the greater of jobs and minimum; in that case
  -- it creates none.
  pub scale_within_limits :
      (p : PodsWithCapabilities) (pending_jobs : PendingJobsWrapper) (rpw : RunningPodsWrapper)
      (mn mx : ℕ) (s : Memory)
      → p.min_count ≡ some mn
      → p.max_count ≡ some mx
      → mn ≤ mx
      → (spent creation (scale env namespace owner agent pending_jobs p rpw s).1.log
          ≤ spent creation s.log
            + (if ltb
                  (min mx (max (get_job_count (get_inexact_match pending_jobs p.capabilities)) mn))
                  (get_pod_count_and_names (get_inexact_match rpw p.capabilities)).0
                then 0
                else mx - (get_pod_count_and_names (get_inexact_match rpw p.capabilities)).0))
        × (spent deletion (scale env namespace owner agent pending_jobs p rpw s).1.log
            ≤ spent deletion s.log
              + (if ltb
                    (min mx
                      (max (get_job_count (get_inexact_match pending_jobs p.capabilities)) mn))
                    (get_pod_count_and_names (get_inexact_match rpw p.capabilities)).0
                  then 1
                  else 0))
  scale_within_limits p pending_jobs rpw mn mx s e e' le =
      rw (scale_eq p pending_jobs rpw mn mx s e e') (
        ground (
          arith,
          (creations-Costs p mn mx
                (get_pod_count_and_names (get_inexact_match rpw p.capabilities)).0
                (get_job_count (get_inexact_match pending_jobs p.capabilities)) rpw
                (get_inexact_match rpw p.capabilities)
                (get_inexact_match pending_jobs p.capabilities)).at
              s,
        ),
        ((deletions-Costs p mn mx (get_pod_count_and_names (get_inexact_match rpw p.capabilities)).0
              (get_job_count (get_inexact_match pending_jobs p.capabilities)) rpw
              (get_inexact_match rpw p.capabilities)
              (get_inexact_match pending_jobs p.capabilities)).at
            s).1,
      )
