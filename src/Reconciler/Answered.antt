-- ===== src/Reconciler/Answered.antt =====
-- Pods that answer what a round wanted leave nothing to want.
use mathlib.Core.List.{Perm, not-mem-nil, forall_mem-cons}
use mathlib.Core.List.Perm
use azure_pipelines_k8s_agen.Prelude.{
  Every, ℕ, zero, suc, ◌-◌, ◌≤◌, true, List, [], ◌∷◌, ◌++◌, ◌≡◌, arith, length, replicate,
}
use azure_pipelines_k8s_agen.Text.{Text}
use azure_pipelines_k8s_agen.GoMap.{GoMap, IsMap, get_or}
use azure_pipelines_k8s_agen.Kube.{Pod, PodsWithCapabilities}
use azure_pipelines_k8s_agen.World.{Env, Log}
use azure_pipelines_k8s_agen.PendingJobs.Exact.{demands_encodable, add_open_requests-IsGrouped}
use azure_pipelines_k8s_agen.Groups.{get_inexact_match}
use azure_pipelines_k8s_agen.PendingJobs.{
  AzurePipelinesApiJobRequest, PendingJob, add_open_requests,
}
use azure_pipelines_k8s_agen.RunningPods.{new_running_pods_wrapper, get_filtered_running_pods}
use azure_pipelines_k8s_agen.Reconciler.{agents_with_caps_to_create}
use azure_pipelines_k8s_agen.Reconciler.Supply.{
  occurrences, Answers, under, length-under-append, under-Answers, occurrences-replicate,
  occurrences-append, AllDemands, uncons-AllDemands, matches_onto-AllDemands, IsMet, IsMet-prop,
  met-nothing_wanted, IsNormal, IsNormal-prop,
}

-- What `GetInexactMatch` finds of these pods.
abbrev pub matching : GoMap Text → List Pod → GoMap (List Pod)
matching capabilities pods =
    get_inexact_match (new_running_pods_wrapper (get_filtered_running_pods pods)) capabilities

module _ (capabilities : GoMap Text) (c : IsMap capabilities) (pods created : List Pod) where
  answered-IsMet :
      (m : GoMap (List PendingJob))
      → AllDemands capabilities c m
      → ((d : Text)
          → occurrences d (agents_with_caps_to_create (matching capabilities pods) m)
            ≤ length (under d created))
      → Every (IsMet (matching capabilities (pods ++ created))) m
  unfolding agents_with_caps_to_create
  answered-IsMet [] a h = λ x n. absurd (not-mem-nil n)
  answered-IsMet ((d, jobs) ∷ m) a h =
      let ((normal, counted), rest) = uncons-AllDemands capabilities c m d jobs a in
      let n : ℕ = length jobs - length (get_or (matching capabilities pods) d []) in
      let later : List Text = agents_with_caps_to_create (matching capabilities pods) m in
      (forall_mem-cons (IsMet-prop (matching capabilities (pods ++ created)))).1 (
        omega (
          arith,
          counted pods,
          counted (pods ++ created),
          length-under-append d pods created,
          h d,
          occurrences-replicate d n later,
        ),
        answered-IsMet m rest λ e. omega (arith, h e, occurrences-append e (replicate n d) later),
      )

-- `range` visits each entry of a map once.
abbrev pub RangesOver : Env → Type 0
RangesOver env = (log : Log) (m : GoMap (List PendingJob)) → Perm (env.range_jobs log m) m

module _ (env : Env) (p : PodsWithCapabilities) (requests : List AzurePipelinesApiJobRequest) where
  abbrev pub matching_jobs : GoMap (List PendingJob)
  matching_jobs = get_inexact_match (add_open_requests [] requests) p.capabilities

  all_demands :
      (c : IsMap p.capabilities)
      → demands_encodable requests ≡ true
      → AllDemands p.capabilities c matching_jobs
  unfolding get_inexact_match
  all_demands c h =
      matches_onto-AllDemands p.capabilities c (add_open_requests [] requests) []
        (add_open_requests-IsGrouped requests h).all_labels (λ x n. absurd (not-mem-nil n))

  pub nothing_wanted :
      (pods created : List Pod) (log log' : Log)
      → IsMap p.capabilities
      → demands_encodable requests ≡ true
      → RangesOver env
      → Answers
          (agents_with_caps_to_create
            (matching p.capabilities pods)
            (env.range_jobs log matching_jobs))
          created
      → agents_with_caps_to_create
          (matching p.capabilities (pods ++ created))
          (env.range_jobs log' matching_jobs)
        ≡ []
  unfolding get_inexact_match
  nothing_wanted pods created log log' c h ranges answers =
      met-nothing_wanted (matching p.capabilities (pods ++ created))
        (env.range_jobs log' matching_jobs)
        λ x n. met x (
          (Perm.mem_iff (ranges log matching_jobs)).1
            ((Perm.mem_iff (ranges log' matching_jobs)).0 n))
    where
      met :
          Every
            (IsMet (matching p.capabilities (pods ++ created)))
            (env.range_jobs log matching_jobs)
      met =
          answered-IsMet p.capabilities c pods created (env.range_jobs log matching_jobs)
            (λ x n. all_demands c h x ((Perm.mem_iff (ranges log matching_jobs)).0 n))
            (λ d. omega (arith, under-Answers d _ created answers))

  replicate-Every :
      (P : Text → Type 0) (prop : (d : Text) → IsProp (P d)) (n : ℕ) (d : Text) (ws : List Text)
      → P d
      → Every P ws
      → Every P (replicate n d ++ ws)
  replicate-Every P prop zero d ws h hs = hs
  replicate-Every P prop (suc n) d ws h hs =
      (forall_mem-cons prop).1 (h, replicate-Every P prop n d ws h hs)

  wanted_from :
      (pods : GoMap (List Pod)) (c : IsMap p.capabilities) (m : GoMap (List PendingJob))
      → AllDemands p.capabilities c m
      → Every IsNormal (agents_with_caps_to_create pods m)
  unfolding agents_with_caps_to_create
  wanted_from pods c [] a = λ x n. absurd (not-mem-nil n)
  wanted_from pods c ((d, jobs) ∷ m) a =
      let ((normal, counted), rest) = uncons-AllDemands p.capabilities c m d jobs a in
      replicate-Every IsNormal IsNormal-prop (length jobs - length (get_or pods d [])) d _ normal
        (wanted_from pods c m rest)

  pub wanted-IsNormal :
      (pods : GoMap (List Pod)) (log : Log)
      → IsMap p.capabilities
      → demands_encodable requests ≡ true
      → RangesOver env
      → Every IsNormal (agents_with_caps_to_create pods (env.range_jobs log matching_jobs))
  wanted-IsNormal pods log c h ranges =
      wanted_from pods c (env.range_jobs log matching_jobs)
        λ x n. all_demands c h x ((Perm.mem_iff (ranges log matching_jobs)).0 n)
