-- ===== src/FakePlatform/Steps/Jobs.antt =====
-- What happens to one job: it is assigned once, and no longer listed once it is finished.
use azure_pipelines_k8s_agen.Prelude.{
  ℕ, Bool, false, List, [], ◌∷◌, Option, none, some, ◌≡◌, refl, sym, ◌∙◌, ap, arith, ◌==◌, ==_iff,
  any, inr, ◌⊎◌,
}
use azure_pipelines_k8s_agen.Text.{Text}
use azure_pipelines_k8s_agen.GoMap.{GoMap}
use azure_pipelines_k8s_agen.World.{AzurePipelinesRegisterAgentRequest}
use azure_pipelines_k8s_agen.PendingJobs.{AzurePipelinesApiJobRequest}
use azure_pipelines_k8s_agen.FakePlatform.{Server, Job, finished, Agent, get_job, save_job}
use azure_pipelines_k8s_agen.FakePlatform.Handlers.{
  agent_named, listed_jobs, assign_job, finish_job, add_agent,
}
use azure_pipelines_k8s_agen.FakePlatform.Steps.Sound.{has_id, DistinctIds}

-- A job that has been found has the identifier, and is what is found after it has been saved.
get_job-id : (jobs : List Job) (id : ℕ) (job : Job) → get_job jobs id ≡ some job → job.id ≡ id
unfolding get_job
get_job-id [] id job e = cc
get_job-id (j ∷ jobs) id job e = grind (arith, get_job-id jobs id job, ==_iff j.id id)

get_job-save_job : (jobs : List Job) (job : Job) → get_job (save_job jobs job) job.id ≡ some job
unfolding get_job save_job
get_job-save_job [] job = grind (arith, ==_iff job.id job.id)
get_job-save_job (j ∷ jobs) job =
    grind (
      arith,
      get_job-save_job jobs job,
      ==_iff job.id job.id,
      ==_iff j.id job.id,
      ==_iff job.id j.id,
    )

module _ (atoi : Text → Option ℕ) (s : Server) where
  -- Once a job has been assigned, every further attempt to assign it, by whatever agent, is answered
  -- with a conflict and leaves the server as it is.
  assign_job_once :
      (job agent agent' : Text) (header header' : Text ⊎ GoMap Text)
      → (assign_job atoi s job agent header).status ≡ 200
      → ((assign_job atoi (assign_job atoi s job agent header).server job agent' header').status
          ≡ 409)
        × ((assign_job atoi (assign_job atoi s job agent header).server job agent' header').server
            ≡ (assign_job atoi s job agent header).server)
  unfolding assign_job
  assign_job_once job agent agent' header header' e = (
    grind (arith, get_job-id s.jobs, get_job-save_job s.jobs),
    grind (arith, get_job-id s.jobs, get_job-save_job s.jobs),
  )

  -- Registering an agent again leaves all agents as they are, also where the capabilities are new,
  -- and where the pool is the right one the answer is a conflict with the identifier of the agent.
  add_agent_again :
      (now : ℕ) (pool : Text) (r : AzurePipelinesRegisterAgentRequest) (a : Agent)
      → agent_named r.name s.agents ≡ some a
      → ((add_agent atoi s now pool (inr r)).server.agents ≡ s.agents)
        × (atoi pool ≡ some s.pool_id → (add_agent atoi s now pool (inr r)).status ≡ 409)
  unfolding add_agent
  add_agent_again now pool r a e =
      (grind (arith, e), λ p. grind (arith, e, p, ==_iff s.pool_id s.pool_id))

abbrev is_listed : ℕ → List AzurePipelinesApiJobRequest → Bool
is_listed id l = any (λ x. x.request_id == id) l

listed_by_id :
    (now : Job → ℕ) (jobs : List Job) (id : ℕ)
    → has_id id jobs ≡ false
    → is_listed id (listed_jobs now jobs) ≡ false
unfolding listed_jobs
listed_by_id now [] id h = refl
listed_by_id now (j ∷ jobs) id h = grind (arith, listed_by_id now jobs id, h)

-- A job that is saved as finished is not listed, where no other has its identifier.
finished_not_listed :
    (now : Job → ℕ) (jobs : List Job) (job : Job)
    → DistinctIds jobs
    → job.state ≡ finished
    → is_listed job.id (listed_jobs now (save_job jobs job)) ≡ false
unfolding listed_jobs save_job
finished_not_listed now [] job d e = grind (arith, e)
finished_not_listed now (j ∷ jobs) job (h, d) e = grind (
  arith,
  e,
  h,
  finished_not_listed now jobs job d e,
  listed_by_id now jobs job.id,
  ==_iff job.id j.id,
  ==_iff j.id job.id,
)

module _ (atoi : Text → Option ℕ) (s : Server) where
  finish_job-jobs :
      (text agent : Text) (id : ℕ) (job : Job)
      → atoi text ≡ some id
      → get_job s.jobs id ≡ some job
      → (finish_job atoi s text agent).server.jobs
        ≡ save_job s.jobs (record job { state = finished })
  unfolding finish_job
  finish_job-jobs text agent id job e at = grind (arith, e, at)

  -- Where no two jobs have one identifier, a job that has been finished is not in the list of
  -- jobs that is made next, at whatever time that is.
  finish_job_unlisted :
      (text agent : Text) (id : ℕ) (now : Job → ℕ)
      → DistinctIds s.jobs
      → atoi text ≡ some id
      → (finish_job atoi s text agent).status ≡ 200
      → is_listed id (listed_jobs now (finish_job atoi s text agent).server.jobs) ≡ false
  unfolding finish_job
  finish_job_unlisted text agent id now d e ok200 = of (get_job s.jobs id) refl
    where
      of :
          (o : Option Job)
          → get_job s.jobs id ≡ o
          → is_listed id (listed_jobs now (finish_job atoi s text agent).server.jobs) ≡ false
      of none at = grind (arith, e, at, ok200)
      of (some job) at =
          ap (λ l. is_listed id (listed_jobs now l)) (finish_job-jobs text agent id job e at)
          ∙ ap
              (λ i.
                is_listed i (listed_jobs now (save_job s.jobs (record job { state = finished }))))
              (sym (get_job-id s.jobs id job at))
          ∙ finished_not_listed now s.jobs (record job { state = finished }) d refl
