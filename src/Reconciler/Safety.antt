-- ===== src/Reconciler/Safety.antt =====
-- A whole reconciliation keeps to the terms, in an orderly world and for a complete resource.
use azure_pipelines_k8s_agen.Prelude.{refl, [], ◌∷◌, Option, none, some, Every}
use azure_pipelines_k8s_agen.Text.{Text, codes}
use azure_pipelines_k8s_agen.GoMap.{lookup}
use azure_pipelines_k8s_agen.Go.{Result, ok, err, panic, GoError, ◌>>=◌}
use azure_pipelines_k8s_agen.Kube.{AutoScaledAgent, AutoScaledAgentSpec}
use azure_pipelines_k8s_agen.World.{Env, Call, Memory}
use azure_pipelines_k8s_agen.World.Monad.{call}
use azure_pipelines_k8s_agen.World.Safe.{
  Given-panics, AllowsCreations, AllowsDeletions, Safe-lift, Terms, Holds, Anything, Safe,
  Safe-return, Safe-fail, Safe-call, Safe-deref, Safe-either, Safe-bind, Safe-then,
  Safe-read_memory, Safe-write_memory,
}
use azure_pipelines_k8s_agen.World.Allowed.{Holds-allowed, allowed-IsNamed, allowed-IsCompleteEntry}
use azure_pipelines_k8s_agen.World.Orderly.{IsOrderly, ListsSound}
use azure_pipelines_k8s_agen.PendingJobs.{PendingJobsWrapper}
use azure_pipelines_k8s_agen.PendingJobsDump.{print_pending_jobs_if_changed}
use azure_pipelines_k8s_agen.AgentPods.{get_pods_with_phases}
use azure_pipelines_k8s_agen.AgentPods.Safety.{
  get_pods_with_phases-Safe, delete_terminated_agent_pods-Safe,
}
use azure_pipelines_k8s_agen.Containers.Safety.{terminate_finished_agent_pods-Safe}
use azure_pipelines_k8s_agen.PvcRelease.Safety.{delete_promised_annotation_from_pvcs-Safe}
use azure_pipelines_k8s_agen.AzureDevOps.Safety.{
  get_pool_id_from_name-Safe, create_or_update_dummy_agents-Safe, get_pending_jobs-Safe,
}
use azure_pipelines_k8s_agen.AgentCollection.Safety.{allowed-HasAges, delete_dead_dummy_agents-Safe}
use azure_pipelines_k8s_agen.Reconciler.Contained.{
  filtered-Every, new_running_pods_wrapper-AllGroups,
}
use azure_pipelines_k8s_agen.Reconciler.{
  pat_of, get_azure_pat, reconcile_agent, found_agent, reconcile,
}
use azure_pipelines_k8s_agen.Reconciler.Scaling.Safety.{IsComplete, scale_all-Safe}

-- The answer to the request for the resource is on the terms, and a resource that is found
-- is complete.
abbrev pub FoundComplete : Terms → Option (Result AutoScaledAgent) → Type 0
FoundComplete t none = Unit
FoundComplete t (some r) = Holds t (IsComplete t) r

module _ (t : Terms) (p : t.panics) (q : (e : GoError) → t.errors e) where
  allowed-IsComplete : (agent : AutoScaledAgent) → IsComplete t agent
  allowed-IsComplete agent = record {
    max_terminated = Given-panics t agent.spec.max_terminated_pods_to_keep p;
    ages = allowed-HasAges t p agent.spec;
    volumes = λ v _. allowed-IsNamed t p v.name;
    entries = λ e _. allowed-IsCompleteEntry t p e;
  }

  pub allowed-FoundComplete : (found : Option (Result AutoScaledAgent)) → FoundComplete t found
  allowed-FoundComplete none = tt
  allowed-FoundComplete (some r) =
      Holds-allowed t p q (IsComplete t) r λ agent _. allowed-IsComplete agent

module _ {t : Terms} (env : Env) (o : IsOrderly t env) (namespace name : Text)
    (l : ListsSound t env namespace name) where
  pub get_azure_pat-Safe :
      (spec : AutoScaledAgentSpec) → Safe t Anything (get_azure_pat env namespace name spec)
  unfolding get_azure_pat
  get_azure_pat-Safe spec =
      Safe-then Anything _ _ (Safe-call Anything _ _ (λ log. o.get_secret log namespace _) refl)
        λ secret. of (lookup secret _)
    where
      of : (found : Option Text) → Safe t Anything (pat_of env namespace name found)
      of none = Safe-fail Anything _ (t.messages _)
      of (some pat) = Safe-return Anything pat tt

  pub print-Safe :
      (cr_name : Text) (pending_jobs : PendingJobsWrapper)
      → Safe t Anything (print_pending_jobs_if_changed env cr_name pending_jobs)
  unfolding print_pending_jobs_if_changed
  print-Safe cr_name pending_jobs =
      Safe-then Anything _ _ Safe-read_memory
        λ m. Safe-either Anything _ _ _ (Safe-return Anything _ tt) (Safe-write_memory _ (λ s c. c))

  pub running_pods-Safe :
      Safe t
        (Every t.sound)
        (get_pods_with_phases env namespace name (codes "Running" ∷ codes "Pending" ∷ []))
  running_pods-Safe =
      get_pods_with_phases-Safe t env t.sound t.sound_prop namespace name
        (codes "Running" ∷ codes "Pending" ∷ [])
        (λ log. l.listed log _, (λ log. l.listed log _, tt))

  module _ (creates : AllowsCreations t) (deletes : AllowsDeletions t) where
    reconcile_agent-Safe :
        (agent : AutoScaledAgent)
        → IsComplete t agent
        → Safe t Anything (reconcile_agent env namespace name agent)
    unfolding reconcile_agent
    reconcile_agent-Safe agent c = Safe-then Anything _ _ (Safe-deref _ c.max_terminated) λ n.
        Safe-then Anything _ _ (delete_terminated_agent_pods-Safe env o deletes namespace name n l)
          λ _.
            Safe-then Anything _ _ (terminate_finished_agent_pods-Safe env o namespace name l) λ _.
              Safe-then Anything _ _
                (delete_promised_annotation_from_pvcs-Safe env o namespace name l)
                λ _. Safe-then Anything _ _ (get_azure_pat-Safe agent.spec) λ pat.
                  Safe-then Anything _ _ (get_pool_id_from_name-Safe env o pat agent.spec) λ pool.
                    Safe-then Anything _ _
                      (create_or_update_dummy_agents-Safe env o pool pat agent.name agent.spec)
                      λ names.
                        Safe-then Anything _ _
                          (delete_dead_dummy_agents-Safe env o pool pat agent.spec c.ages agent.name
                            names)
                          λ _.
                            Safe-then Anything _ _ (get_pending_jobs-Safe env o pool pat agent.spec)
                              λ jobs. Safe-then Anything _ _ (print-Safe agent.name jobs) λ _.
                                Safe-bind (Every t.sound) Anything _ _ running_pods-Safe λ pods h.
                                  Safe-then Anything _ _
                                    (scale_all-Safe env o namespace name agent c creates deletes
                                      jobs agent.spec.pods_with_capabilities _ c.entries
                                      (new_running_pods_wrapper-AllGroups t _
                                        (filtered-Every t pods h)))
                                    λ _. Safe-return Anything _ tt

    found_agent-Safe :
        (found : Option (Result AutoScaledAgent))
        → FoundComplete t found
        → Safe t Anything (found_agent env namespace name found)
    unfolding found_agent
    found_agent-Safe none h = Safe-return Anything _ tt
    found_agent-Safe (some (ok agent)) h = reconcile_agent-Safe agent h
    found_agent-Safe (some (err e)) h = Safe-fail Anything e h
    found_agent-Safe (some panic) h = Safe-lift Anything panic h

    module _ (s : Memory) (h : FoundComplete t (env.get_agent s.log namespace name)) where
      -- The memory once the resource has been asked for.
      abbrev asked : Memory
      asked = record s { log = Call.get_agent namespace name ∷ s.log }

      pub reconcile-Holds : Holds t Anything (reconcile env namespace name s).0
      unfolding reconcile call ◌>>=◌
      reconcile-Holds = (found_agent-Safe (env.get_agent s.log namespace name) h).value asked

      pub reconcile_keeps : t.invariant s.log → t.invariant (reconcile env namespace name s).1.log
      unfolding reconcile call ◌>>=◌
      reconcile_keeps clean =
          (found_agent-Safe (env.get_agent s.log namespace name) h).keeps asked
            (t.grows (Call.get_agent namespace name) s.log refl clean)
