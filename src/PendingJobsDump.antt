-- ===== src/PendingJobsDump.antt =====
-- `PrintPendingJobsIfChanged` of internal/service/utils.go: the pending jobs as a text, which is
-- remembered for each resource and logged when it changes. The log itself is left out.
use azure_pipelines_k8s_agen.Prelude.{
  ℕ, Bool, false, List, [], ◌∷◌, Option, none, some, ◌==◌, if◌then◌else◌,
}
use azure_pipelines_k8s_agen.Text.{Text, codes, text_eq}
use azure_pipelines_k8s_agen.GoMap.{GoMap, lookup, insert}
use azure_pipelines_k8s_agen.Capabilities.{
  get_sorted_stringification_of_map, get_sorted_stringification_of_capabilities_map,
}
use azure_pipelines_k8s_agen.Go.{return, ◌>>=◌}
use azure_pipelines_k8s_agen.PendingJobs.{PendingJob, PendingJobsWrapper}
use azure_pipelines_k8s_agen.World.{Env}
use azure_pipelines_k8s_agen.World.Monad.{M, read_memory, write_memory}
use azure_pipelines_k8s_agen.AzureDevOps.{decimal}

-- `%t` of whether the time is not the zero time
abbrev assigned_text : ℕ → Text
assigned_text time = if time == 0 then codes "false" else codes "true"

abbrev job_entry : PendingJob → GoMap Text
job_entry job =
    (codes "RequestID", decimal job.request_id)
    ∷ (codes "Demands", get_sorted_stringification_of_capabilities_map job.demands)
    ∷ (codes "Assigned", assigned_text job.assign_time)
    ∷ []

abbrev job_entries : List PendingJob → List (GoMap Text)
job_entries [] = []
job_entries (job ∷ jobs) = job_entry job ∷ job_entries jobs

-- `pendingJobsDebugMap`: a later group with the same text would take the place of an earlier one.
unfoldable pub pending_jobs_debug_map :
    GoMap (List (GoMap Text)) → PendingJobsWrapper → GoMap (List (GoMap Text))
pending_jobs_debug_map m [] = m
pending_jobs_debug_map m (g ∷ groups) =
    pending_jobs_debug_map
      (insert m (get_sorted_stringification_of_map g.label) (job_entries g.members)) groups

abbrev is_same_dump : Option Text → Text → Bool
is_same_dump none dump = false
is_same_dump (some previous) dump = text_eq previous dump

module _ (env : Env) where
  unfoldable pub print_pending_jobs_if_changed : Text → PendingJobsWrapper → M (Unit {0})
  unfolding pending_jobs_debug_map
  print_pending_jobs_if_changed cr_name pending_jobs = do
    let dump = env.encode_dump (pending_jobs_debug_map [] pending_jobs)
    m ← read_memory
    if is_same_dump (lookup m.cached_pending_jobs_dump cr_name) dump
        then return tt
        else write_memory (λ s. record s {
          cached_pending_jobs_dump = insert s.cached_pending_jobs_dump cr_name dump;
        })
