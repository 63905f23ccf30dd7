-- ===== src/Reconciler/Scaling/Safety.antt =====
-- The scaling of the entries keeps to the terms, in an orderly world and for a complete resource.
use azure_pipelines_k8s_agen.Prelude.{
  refl, ℕ, zero, suc, List, [], ◌∷◌, Option, none, some, Every, Every-uncons,
}
use azure_pipelines_k8s_agen.Text.{Text}
use azure_pipelines_k8s_agen.GoMap.{GoMap}
use azure_pipelines_k8s_agen.Go.{Result, ok, err, panic, pvc_exhaustion, message, conflict}
use azure_pipelines_k8s_agen.Kube.{Pod, PodsWithCapabilities, AutoScaledAgent}
use azure_pipelines_k8s_agen.World.{Env}
use azure_pipelines_k8s_agen.World.Safe.{
  AllowsCreations, AllowsDeletions, Safe-lift, Terms, Given, Holds, Anything, Safe, Safe-return,
  Safe-fail, Safe-call, Safe-deref, exhausting, Safe-caught, Safe-either, Safe-bind, Safe-then,
}
use azure_pipelines_k8s_agen.World.Orderly.{
  IsOrderly, IsNamedVolume, IsCompleteEntry, IsCompleteEntry-prop,
}
use azure_pipelines_k8s_agen.World.Exhausting.{exhausting-IsOrderly}
use azure_pipelines_k8s_agen.PendingJobs.{PendingJob, PendingJobsWrapper}
use azure_pipelines_k8s_agen.RunningPods.{RunningPodsWrapper}
use azure_pipelines_k8s_agen.AgentPods.Safety.{delete_pod-Safe}
use azure_pipelines_k8s_agen.AgentCollection.Safety.{HasAges}
use azure_pipelines_k8s_agen.AgentCreation.Safety.{create_agents-Safe}
use azure_pipelines_k8s_agen.IdlePods.Safety.{
  AllContained, SeesMap, FoundSound, get_terminateable_pod-Safe,
}
use azure_pipelines_k8s_agen.Reconciler.Contained.{
  AllGroups, get_inexact_match-AllContained, write_back-AllGroups,
}
use azure_pipelines_k8s_agen.Reconciler.{
  after_creation, create_or_swallow, create_for_jobs, delete_found, scale_down, scale_up_for_jobs,
  scale_by_counts, scale, scale_all,
}

-- The resource gives all that `Reconcile` reads through a pointer without a check, and its cache
-- volumes have names.
pub record IsComplete (t : Terms) (agent : AutoScaledAgent) : Type 0 where
  pub max_terminated : Given t agent.spec.max_terminated_pods_to_keep
  pub ages : HasAges t agent.spec
  pub volumes : Every (IsNamedVolume t) agent.spec.reusable_cache_volumes
  pub entries : Every (IsCompleteEntry t) agent.spec.pods_with_capabilities

module _ {t : Terms} (env : Env) (o : IsOrderly t env) (namespace owner : Text)
    (agent : AutoScaledAgent) (c : IsComplete t agent) (creates : AllowsCreations t)
    (deletes : AllowsDeletions t) where
  after_creation-Safe :
      (r : Result (Unit {0}))
      → Holds (exhausting t) Anything r
      → Safe t Anything (after_creation env namespace owner agent r)
  unfolding after_creation
  after_creation-Safe (ok x) h = Safe-return Anything _ tt
  after_creation-Safe (err (message why)) h = Safe-fail Anything _ h
  after_creation-Safe (err (pvc_exhaustion name)) h = Safe-return Anything _ tt
  after_creation-Safe (err conflict) h = Safe-fail Anything _ h
  after_creation-Safe panic h = Safe-lift Anything panic h

  delete_found-Safe :
      (found : Option Pod)
      → FoundSound t found
      → Safe t Anything (delete_found env namespace owner agent found)
  unfolding delete_found
  delete_found-Safe none h = Safe-return Anything _ tt
  delete_found-Safe (some pod) h = delete_pod-Safe env o deletes pod h

  scale_down-Safe :
      (running_pods : RunningPodsWrapper) (matching_pods : GoMap (List Pod))
      → AllGroups t running_pods
      → AllContained t matching_pods
      → Safe t (AllGroups t) (scale_down env namespace owner agent running_pods matching_pods)
  unfolding scale_down
  scale_down-Safe running_pods matching_pods a m =
      Safe-bind (SeesMap t) (AllGroups t) _ _ (get_terminateable_pod-Safe env o matching_pods _ m)
        λ scan (f, h).
          Safe-then (AllGroups t) _ _ (delete_found-Safe scan.found f)
            λ _. Safe-return (AllGroups t) _ (write_back-AllGroups t running_pods scan.seen a h)

  module _ (p : PodsWithCapabilities) (h : IsCompleteEntry t p) where
    create_or_swallow-Safe :
        (count : ℕ) (capabilities : GoMap Text)
        → Safe t Anything (create_or_swallow env namespace owner agent p count capabilities)
    unfolding create_or_swallow
    create_or_swallow-Safe count capabilities =
        Safe-bind (Holds (exhausting t) Anything) Anything _ _
          (Safe-caught Anything _ (
            create_agents-Safe {t = exhausting t} env (exhausting-IsOrderly t env o) namespace owner
              agent p c.entries (let (_, _, one) = h in one) c.volumes (λ name. tt) creates count
              capabilities))
          λ r k. after_creation-Safe r k

    create_for_jobs-Safe :
        (allowed : ℕ) (wanted : List Text)
        → Safe t Anything (create_for_jobs env namespace owner agent p allowed wanted)
    unfolding create_for_jobs
    create_for_jobs-Safe allowed [] = Safe-return Anything _ tt
    create_for_jobs-Safe zero (w ∷ wanted) = Safe-return Anything _ tt
    create_for_jobs-Safe (suc allowed) (w ∷ wanted) =
        Safe-then Anything _ _ (create_or_swallow-Safe 1 _) λ _. create_for_jobs-Safe allowed wanted

    scale_by_counts-Safe :
        (mn mx pods jobs : ℕ) (running_pods : RunningPodsWrapper) (matching_pods : GoMap (List Pod))
        (matching_jobs : GoMap (List PendingJob))
        → AllGroups t running_pods
        → AllContained t matching_pods
        → Safe t (AllGroups t) (
            scale_by_counts env namespace owner agent p mn mx pods jobs running_pods matching_pods
              matching_jobs)
    unfolding scale_by_counts scale_up_for_jobs
    scale_by_counts-Safe mn mx pods jobs running_pods matching_pods matching_jobs a m =
        Safe-either (AllGroups t) _ _ _ (scale_down-Safe running_pods matching_pods a m) (
          Safe-either (AllGroups t) _ _ _
            (Safe-then (AllGroups t) _ _ (create_or_swallow-Safe _ _)
              λ _. Safe-return (AllGroups t) _ a)
            (Safe-either (AllGroups t) _ _ _
              (Safe-then (AllGroups t) _ _
                (Safe-then Anything _ _ (Safe-call Anything _ _ (λ log. tt) refl)
                  λ ordered. create_for_jobs-Safe _ _)
                λ _. Safe-return (AllGroups t) _ a)
              (Safe-return (AllGroups t) _ a)))

    scale-Safe :
        (pending_jobs : PendingJobsWrapper) (running_pods : RunningPodsWrapper)
        → AllGroups t running_pods
        → Safe t (AllGroups t) (scale env namespace owner agent pending_jobs p running_pods)
    unfolding scale
    scale-Safe pending_jobs running_pods a =
        let (mn_given, mx_given, _) = h in
        Safe-then (AllGroups t) _ _ (Safe-deref _ mx_given) λ mx.
          Safe-then (AllGroups t) _ _ (Safe-deref _ mn_given) λ mn.
            scale_by_counts-Safe mn mx _ _ running_pods _ _ a
              (get_inexact_match-AllContained t running_pods p.capabilities a)

  pub scale_all-Safe :
      (pending_jobs : PendingJobsWrapper) (ps : List PodsWithCapabilities)
      (running_pods : RunningPodsWrapper)
      → Every (IsCompleteEntry t) ps
      → AllGroups t running_pods
      → Safe t Anything (scale_all env namespace owner agent pending_jobs ps running_pods)
  unfolding scale_all
  scale_all-Safe pending_jobs [] running_pods h a = Safe-return Anything _ tt
  scale_all-Safe pending_jobs (p ∷ ps) running_pods h a =
      let (here, rest) = Every-uncons (IsCompleteEntry t) (IsCompleteEntry-prop t) p ps h in
      Safe-bind (AllGroups t) Anything _ _ (scale-Safe p here pending_jobs running_pods a)
        λ running_pods' a'. scale_all-Safe pending_jobs ps running_pods' rest a'
