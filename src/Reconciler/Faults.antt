-- ===== src/Reconciler/Faults.antt =====
-- Where a round or a reconciliation stops before it has done anything.
use azure_pipelines_k8s_agen.Prelude.{ℕ, Option, none, some, ◌≡◌, refl, ◌⊎◌, inl, inr, ◌∙◌}
use azure_pipelines_k8s_agen.Text.{Text}
use azure_pipelines_k8s_agen.Go.{panic}
use azure_pipelines_k8s_agen.Kube.{PodsWithCapabilities, AutoScaledAgent}
use azure_pipelines_k8s_agen.World.{Env, Memory}
use azure_pipelines_k8s_agen.World.Steps.{bind_missing, bind_deref}
use azure_pipelines_k8s_agen.PendingJobs.{PendingJobsWrapper}
use azure_pipelines_k8s_agen.RunningPods.{RunningPodsWrapper}
use azure_pipelines_k8s_agen.Reconciler.{scale}

-- The round over an entry that leaves out the minimum or the maximum count ends in a panic, before
-- any call.
pub missing_count_panics :
    (env : Env) (namespace owner : Text) (agent : AutoScaledAgent) (p : PodsWithCapabilities)
    (pending_jobs : PendingJobsWrapper) (rpw : RunningPodsWrapper) (s : Memory)
    → (p.min_count ≡ none) ⊎ (p.max_count ≡ none)
    → scale env namespace owner agent pending_jobs p rpw s ≡ (panic, s)
unfolding scale
missing_count_panics env namespace owner agent p pending_jobs rpw s (inr e) =
    bind_missing p.max_count _ s e
missing_count_panics env namespace owner agent p pending_jobs rpw s (inl e) =
    at_max p.max_count refl
  where
    at_max :
        (o : Option ℕ)
        → p.max_count ≡ o
        → scale env namespace owner agent pending_jobs p rpw s ≡ (panic, s)
    at_max none e' = bind_missing p.max_count _ s e'
    at_max (some mx) e' = bind_deref p.max_count mx _ s e' ∙ bind_missing p.min_count _ s e
