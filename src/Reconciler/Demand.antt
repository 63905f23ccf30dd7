-- ===== src/Reconciler/Demand.antt =====
-- Where every creation succeeds, a round creates exactly the agents that the jobs lack, up to the
-- maximum.
use azure_pipelines_k8s_agen.Prelude.{
  ℕ, zero, suc, ◌+◌, ◌-◌, ◌≤◌, min, max, List, [], ◌∷◌, some, ◌≡◌, refl, sym, ◌∙◌, ap, subst, arith,
  length, length-append, length-replicate, replicate,
}
use azure_pipelines_k8s_agen.Text.{Text}
use azure_pipelines_k8s_agen.GoMap.{GoMap, get_or}
use azure_pipelines_k8s_agen.Capabilities.{get_capabilities_map_from_string}
use azure_pipelines_k8s_agen.Go.{ok, return, attempt, ◌>>=◌}
use azure_pipelines_k8s_agen.Kube.{Pod, PodsWithCapabilities, AutoScaledAgent}
use azure_pipelines_k8s_agen.World.{Env, Call, Memory}
use azure_pipelines_k8s_agen.World.Monad.{call}
use azure_pipelines_k8s_agen.World.Costs.{spent}
use azure_pipelines_k8s_agen.World.Steps.{bind_ok}
use azure_pipelines_k8s_agen.Groups.{get_inexact_match}
use azure_pipelines_k8s_agen.PendingJobs.{PendingJob, PendingJobsWrapper, get_job_count}
use azure_pipelines_k8s_agen.RunningPods.{RunningPodsWrapper, get_pod_count_and_names}
use azure_pipelines_k8s_agen.AgentCreation.{create_agent, create_agents}
use azure_pipelines_k8s_agen.AgentCreation.Counting.{prepare_agent-Costs}
use azure_pipelines_k8s_agen.Reconciler.{
  agents_with_caps_to_create, after_creation, create_or_swallow, create_for_jobs, scale_up_for_jobs,
  scale_by_counts, scale,
}
use azure_pipelines_k8s_agen.Reconciler.Scaling.{creation}
use azure_pipelines_k8s_agen.World.Prices.{plain_creates_none}
use azure_pipelines_k8s_agen.Reconciler.Limits.{scale_eq, scale_down-Costs}

-- For each demand string in turn, how many more jobs than pods there are.
abbrev pub missing : GoMap (List Pod) → GoMap (List PendingJob) → ℕ
missing matching_pods [] = 0
missing matching_pods ((demands, jobs) ∷ m) =
    (length jobs - length (get_or matching_pods demands [])) + missing matching_pods m

length-agents_with_caps_to_create :
    (matching_pods : GoMap (List Pod)) (m : GoMap (List PendingJob))
    → length (agents_with_caps_to_create matching_pods m) ≡ missing matching_pods m
unfolding agents_with_caps_to_create
length-agents_with_caps_to_create matching_pods [] = refl
length-agents_with_caps_to_create matching_pods ((demands, jobs) ∷ m) = omega (
  arith,
  length-agents_with_caps_to_create matching_pods m,
  length-append (replicate (length jobs - length (get_or matching_pods demands [])) demands)
      (agents_with_caps_to_create matching_pods m),
  length-replicate (length jobs - length (get_or matching_pods demands [])) demands,
)

module _ (env : Env) (namespace owner : Text) (agent : AutoScaledAgent)
    (p : PodsWithCapabilities) where
  -- In every state an agent with these capabilities is created.
  abbrev pub Creates : GoMap Text → Type 0
  Creates capabilities =
      (s : Memory)
      → (name : Text) × ((create_agent env namespace owner agent p capabilities s).0 ≡ ok name)

  abbrev pub AllCreate : List Text → Type 0
  AllCreate [] = Unit
  AllCreate (w ∷ wanted) = Creates (get_capabilities_map_from_string w) × AllCreate wanted

  create_agent_counts :
      (capabilities : GoMap Text) (s : Memory) (name : Text)
      → (create_agent env namespace owner agent p capabilities s).0 ≡ ok name
      → spent creation (create_agent env namespace owner agent p capabilities s).1.log
        ≡ spent creation s.log + 1
  unfolding create_agent ◌>>=◌ call
  create_agent_counts capabilities s name h = ground (
    arith,
    (prepare_agent-Costs env namespace owner agent p creation plain_creates_none capabilities).at s,
  )

  one_more :
      (capabilities : GoMap Text) (s : Memory)
      → Creates capabilities
      → ((create_or_swallow env namespace owner agent p 1 capabilities s).0 ≡ ok tt)
        × (spent creation (create_or_swallow env namespace owner agent p 1 capabilities s).1.log
            ≡ spent creation s.log + 1)
  unfolding create_or_swallow create_agents ◌>>=◌ attempt after_creation
  one_more capabilities s h =
      ground (arith, h s, create_agent_counts capabilities s (h s).0 (h s).1)

  pub create_for_jobs_exact :
      (allowed : ℕ) (wanted : List Text) (s : Memory)
      → AllCreate wanted
      → ((create_for_jobs env namespace owner agent p allowed wanted s).0 ≡ ok tt)
        × (spent creation (create_for_jobs env namespace owner agent p allowed wanted s).1.log
            ≡ spent creation s.log + min allowed (length wanted))
  unfolding create_for_jobs return
  create_for_jobs_exact allowed [] s h = (refl, omega arith)
  create_for_jobs_exact zero (w ∷ wanted) s h = (refl, omega arith)
  create_for_jobs_exact (suc allowed) (w ∷ wanted) s h =
      let first : ((create_or_swallow env namespace owner agent p 1
              (get_capabilities_map_from_string w) s).0
            ≡ ok tt)
          × (spent creation
                (create_or_swallow env namespace owner agent p 1
                  (get_capabilities_map_from_string w) s).1.log
              ≡ spent creation s.log + 1) =
        one_more (get_capabilities_map_from_string w) s h.0 in
      let s' : Memory =
        (create_or_swallow env namespace owner agent p 1 (get_capabilities_map_from_string w)
          s).1 in
      let rest : ((create_for_jobs env namespace owner agent p allowed wanted s').0 ≡ ok tt)
          × (spent creation (create_for_jobs env namespace owner agent p allowed wanted s').1.log
              ≡ spent creation s'.log + min allowed (length wanted)) =
        create_for_jobs_exact allowed wanted s' h.1 in
      rw
        (bind_ok
          (create_or_swallow env namespace owner agent p 1 (get_capabilities_map_from_string w))
          (λ _. create_for_jobs env namespace owner agent p allowed wanted) s tt first.0)
        (rest.0, omega (arith, first.1, rest.1))

  module _ (pending_jobs : PendingJobsWrapper) (rpw : RunningPodsWrapper) (mn mx : ℕ)
      (s : Memory) where
    abbrev pub pod_count : ℕ
    pod_count = (get_pod_count_and_names (get_inexact_match rpw p.capabilities)).0

    abbrev pub job_count : ℕ
    job_count = get_job_count (get_inexact_match pending_jobs p.capabilities)

    -- The matching jobs in the order in which this round visits them.
    abbrev pub visited_jobs : GoMap (List PendingJob)
    visited_jobs = env.range_jobs s.log (get_inexact_match pending_jobs p.capabilities)

    up_for_jobs_exact :
        (allowed : ℕ)
        → AllCreate (agents_with_caps_to_create (get_inexact_match rpw p.capabilities) visited_jobs)
        → ((scale_up_for_jobs env namespace owner agent p allowed
              (get_inexact_match rpw p.capabilities)
              (get_inexact_match pending_jobs p.capabilities)
              s).0
            ≡ ok tt)
          × (spent creation
                (scale_up_for_jobs env namespace owner agent p allowed
                  (get_inexact_match rpw p.capabilities)
                  (get_inexact_match pending_jobs p.capabilities)
                  s).1.log
              ≡ spent creation s.log
                + min allowed (missing (get_inexact_match rpw p.capabilities) visited_jobs))
    unfolding scale_up_for_jobs ◌>>=◌ call
    up_for_jobs_exact allowed h =
        let (done, count) =
          create_for_jobs_exact allowed
            (agents_with_caps_to_create (get_inexact_match rpw p.capabilities) visited_jobs)
            (record s { log = Call.range ∷ s.log }) h in
        (
          done,
          omega (
            arith,
            count,
            length-agents_with_caps_to_create (get_inexact_match rpw p.capabilities) visited_jobs,
          ),
        )

    -- Where neither too many pods run nor fewer than the minimum, and each agent that is to be created
    -- is created, the round succeeds and creates exactly as many pods as the jobs of each demand
    -- string exceed its pods, but no more than the pods are short of the maximum.
    pub scale_meets_demand :
        p.min_count ≡ some mn
        → p.max_count ≡ some mx
        → pod_count ≤ min mx (max job_count mn)
        → mn ≤ pod_count
        → AllCreate (agents_with_caps_to_create (get_inexact_match rpw p.capabilities) visited_jobs)
        → ((scale env namespace owner agent pending_jobs p rpw s).0 ≡ ok rpw)
          × (spent creation (scale env namespace owner agent pending_jobs p rpw s).1.log
              ≡ spent creation s.log
                + min
                    (mx - pod_count)
                    (missing (get_inexact_match rpw p.capabilities) visited_jobs))
    unfolding scale_by_counts ◌>>=◌
    scale_meets_demand e e' few enough h =
        rw (scale_eq env namespace owner agent p pending_jobs rpw mn mx s e e')
          (ground (arith, few, enough, up_for_jobs_exact (mx - pod_count) h))

    -- A round that has the minimum and wants no agent creates no pod.
    pub wants_nothing :
        p.min_count ≡ some mn
        → p.max_count ≡ some mx
        → mn ≤ pod_count
        → agents_with_caps_to_create (get_inexact_match rpw p.capabilities) visited_jobs ≡ []
        → spent creation (scale env namespace owner agent pending_jobs p rpw s).1.log
          ≡ spent creation s.log
    unfolding scale_by_counts ◌>>=◌
    wants_nothing e e' enough none_wanted =
        let up = up_for_jobs_exact (mx - pod_count) (subst AllCreate (sym none_wanted) tt) in
        let down =
          (scale_down-Costs env namespace owner agent creation plain_creates_none 0 (λ _. refl) rpw
              (get_inexact_match rpw p.capabilities)).at
            s in
        let few : missing (get_inexact_match rpw p.capabilities) visited_jobs ≡ 0 =
          sym
            (length-agents_with_caps_to_create (get_inexact_match rpw p.capabilities) visited_jobs)
          ∙ ap length none_wanted in
        rw (scale_eq env namespace owner agent p pending_jobs rpw mn mx s e e')
          (ground (arith, enough, few, up, down))
