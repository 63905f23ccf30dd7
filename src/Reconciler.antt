-- ===== src/Reconciler.antt =====
-- internal/controller/autoscaledagent_controller.go: `Reconcile`, and the scaling of one entry of
-- the spec.
pub mod Scaling
pub mod Limits
pub mod Demand
pub mod Supply
pub mod Answered
pub mod Settled
pub mod Faults
pub mod Exhausted
pub mod Rounds
pub mod Totals
pub mod Surplus
pub mod Contained
pub mod Safety
pub mod Panics
pub mod Deletions
use azure_pipelines_k8s_agen.Prelude.{
  ℕ, zero, suc, ◌+◌, ◌-◌, ◌*◌, min, max, Bool, true, false, List, [], ◌∷◌, ◌++◌, Option, none, some,
  length, replicate, ltb, if◌then◌else◌,
}
use azure_pipelines_k8s_agen.Text.{Text, codes, text_eq}
use azure_pipelines_k8s_agen.GoMap.{GoMap, lookup, get_or}
use azure_pipelines_k8s_agen.Capabilities.{
  get_capabilities_map_from_string, get_sorted_stringification_of_map,
}
use azure_pipelines_k8s_agen.Go.{
  Result, ok, err, panic, GoError, pvc_exhaustion, conflict, message, return, fail, lift, deref,
  attempt, ◌>>=◌, ◌>>◌,
}
use azure_pipelines_k8s_agen.Kube.{Pod, PodsWithCapabilities, AutoScaledAgent, AutoScaledAgentSpec}
use azure_pipelines_k8s_agen.World.{Env, Memory, Call, Log}
use azure_pipelines_k8s_agen.World.Monad.{M, call, delete_pod, range_jobs}
use azure_pipelines_k8s_agen.Groups.{Group, get_inexact_match}
use azure_pipelines_k8s_agen.PendingJobs.{PendingJob, PendingJobsWrapper, get_job_count}
use azure_pipelines_k8s_agen.RunningPods.{
  RunningPodsWrapper, get_filtered_running_pods, new_running_pods_wrapper, get_pod_count_and_names,
}
use azure_pipelines_k8s_agen.AgentPods.{get_pods_with_phases, delete_terminated_agent_pods}
use azure_pipelines_k8s_agen.Containers.{terminate_finished_agent_pods}
use azure_pipelines_k8s_agen.IdlePods.{Scan, get_terminateable_pod}
use azure_pipelines_k8s_agen.PvcRelease.{delete_promised_annotation_from_pvcs, second}
use azure_pipelines_k8s_agen.AgentCreation.{create_agents}
use azure_pipelines_k8s_agen.AzureDevOps.{
  get_pool_id_from_name, create_or_update_dummy_agents, get_pending_jobs,
}
use azure_pipelines_k8s_agen.AgentCollection.{delete_dead_dummy_agents}
use azure_pipelines_k8s_agen.PendingJobsDump.{print_pending_jobs_if_changed}

-- Five minutes.
abbrev pub agent_min_idle_period_default : ℕ
agent_min_idle_period_default = 300 * second

-- The demand strings of the agents to create, for the entries of the map in this order: as many for
-- each as there are more jobs than pods.
unfoldable pub agents_with_caps_to_create : GoMap (List Pod) → GoMap (List PendingJob) → List Text
agents_with_caps_to_create matching_pods [] = []
agents_with_caps_to_create matching_pods ((demands, jobs) ∷ m) =
    replicate (length jobs - length (get_or matching_pods demands [])) demands
    ++ agents_with_caps_to_create matching_pods m

-- The groups share the lists of pods with the map that `GetInexactMatch` returned, so annotations
-- set there show here.
unfoldable pub write_back : RunningPodsWrapper → GoMap (List Pod) → RunningPodsWrapper
write_back [] seen = []
write_back (g ∷ gs) seen =
    elim (lookup seen (get_sorted_stringification_of_map g.label)) [
      | none ↦ g
      | some pods ↦ record g { members = pods }
    ]
    ∷ write_back gs seen

module _ (env : Env) (namespace owner : Text) (agent : AutoScaledAgent) where
  -- `err.(*service.PvcExhaustionError)`: that error is swallowed, any other is returned.
  after_creation : Result (Unit {0}) → M (Unit {0})
  after_creation (err (message why)) = fail (message why)
  after_creation (err (pvc_exhaustion name)) = return tt
  after_creation (err conflict) = fail conflict
  after_creation (ok _) = return tt
  after_creation panic = lift panic

  unfoldable pub create_or_swallow : PodsWithCapabilities → ℕ → GoMap Text → M (Unit {0})
  unfolding after_creation
  create_or_swallow p count capabilities = do
    result ← attempt (create_agents env namespace owner agent p count capabilities)
    after_creation result

  -- The loop over the agents to create, with what is left of the maximum.
  unfoldable pub create_for_jobs : PodsWithCapabilities → ℕ → List Text → M (Unit {0})
  create_for_jobs p max_agents_allowed_to_create [] = return tt
  create_for_jobs p zero (capabilities ∷ rest) = return tt
  create_for_jobs p (suc allowed) (capabilities ∷ rest) = do
    create_or_swallow p 1 (get_capabilities_map_from_string capabilities)
    create_for_jobs p allowed rest

  unfoldable pub delete_found : Option Pod → M (Unit {0})
  delete_found none = return tt
  delete_found (some pod) = delete_pod env pod

  -- Too many pods: one of them, if any can be terminated, is deleted.
  unfoldable pub scale_down : RunningPodsWrapper → GoMap (List Pod) → M RunningPodsWrapper
  unfolding delete_found write_back
  scale_down running_pods matching_pods = do
    scan ← get_terminateable_pod env matching_pods (elim agent.spec.agent_min_idle_period [
      | none ↦ agent_min_idle_period_default
      | some d ↦ d
    ])
    delete_found scan.found
    return (write_back running_pods scan.seen)

  scale_up_for_jobs :
      PodsWithCapabilities → ℕ → GoMap (List Pod) → GoMap (List PendingJob) → M (Unit {0})
  scale_up_for_jobs p allowed matching_pods matching_jobs = do
    ordered ← range_jobs env matching_jobs
    create_for_jobs p allowed (agents_with_caps_to_create matching_pods ordered)

  -- The three branches, on the counts.
  unfoldable pub scale_by_counts :
      PodsWithCapabilities
      → ℕ
      → ℕ
      → ℕ
      → ℕ
      → RunningPodsWrapper
      → GoMap (List Pod)
      → GoMap (List PendingJob)
      → M RunningPodsWrapper
  unfolding scale_up_for_jobs
  scale_by_counts p min_count max_count pods jobs running_pods matching_pods matching_jobs =
      if ltb (min max_count (max jobs min_count)) pods
      then scale_down running_pods matching_pods
      else if ltb pods min_count
      then (do create_or_swallow p (min_count - pods) p.capabilities; return running_pods)
      else if ltb pods max_count
      then (do
        scale_up_for_jobs p (max_count - pods) matching_pods matching_jobs
        return running_pods)
      else return running_pods

  -- The body of the loop over `PodsWithCapabilities`.
  unfoldable pub scale :
      PendingJobsWrapper → PodsWithCapabilities → RunningPodsWrapper → M RunningPodsWrapper
  scale pending_jobs p running_pods = do
    max_count ← deref p.max_count
    min_count ← deref p.min_count
    let matching_pods = get_inexact_match running_pods p.capabilities
    let matching_jobs = get_inexact_match pending_jobs p.capabilities
    scale_by_counts p min_count max_count (get_pod_count_and_names matching_pods).0
        (get_job_count matching_jobs) running_pods matching_pods matching_jobs

  unfoldable pub scale_all :
      PendingJobsWrapper → List PodsWithCapabilities → RunningPodsWrapper → M (Unit {0})
  scale_all pending_jobs [] running_pods = return tt
  scale_all pending_jobs (p ∷ ps) running_pods = do
    running_pods' ← scale pending_jobs p running_pods
    scale_all pending_jobs ps running_pods'

module _ (env : Env) (namespace name : Text) where
  pat_of : Option Text → M Text
  pat_of none = fail (message (codes "data key 'pat' is missing"))
  pat_of (some pat) = return pat

  unfoldable pub get_azure_pat : AutoScaledAgentSpec → M Text
  unfolding pat_of
  get_azure_pat spec = do
    secret ←
        call (Call.get_secret namespace spec.personal_access_token_secret_name)
          (λ log. env.get_secret log namespace spec.personal_access_token_secret_name)
    pat_of (lookup secret (codes "pat"))

  -- `RequeueAfter`, in nanoseconds; 0 for the empty result.
  reconcile_agent : AutoScaledAgent → M ℕ
  unfolding get_azure_pat
  reconcile_agent agent = do
    max_terminated ← deref agent.spec.max_terminated_pods_to_keep
    delete_terminated_agent_pods env namespace name max_terminated
    terminate_finished_agent_pods env namespace name
    delete_promised_annotation_from_pvcs env namespace name
    azure_pat ← get_azure_pat agent.spec
    pool_id ← get_pool_id_from_name env azure_pat agent.spec
    dummy_agent_names ← create_or_update_dummy_agents env pool_id azure_pat agent.name agent.spec
    delete_dead_dummy_agents env pool_id azure_pat agent.spec agent.name dummy_agent_names
    pending_jobs ← get_pending_jobs env pool_id azure_pat agent.spec
    print_pending_jobs_if_changed env agent.name pending_jobs
    running_pods ← get_pods_with_phases env namespace name (codes "Running" ∷ codes "Pending" ∷ [])
    scale_all env namespace name agent pending_jobs agent.spec.pods_with_capabilities
        (new_running_pods_wrapper (get_filtered_running_pods running_pods))
    return (5 * second)

  found_agent : Option (Result AutoScaledAgent) → M ℕ
  unfolding reconcile_agent
  found_agent none = return 0
  found_agent (some (ok agent)) = reconcile_agent agent
  found_agent (some (err e)) = fail e
  found_agent (some panic) = lift panic

  unfoldable pub reconcile : M ℕ
  unfolding found_agent
  reconcile = do
    found ← call (Call.get_agent namespace name) (λ log. ok (env.get_agent log namespace name))
    found_agent found
