-- ===== src/FakeAgent/Jobs/Served.antt =====
-- The jobs of the server as they reach the agent, and what the server answers when it takes one.
use azure_pipelines_k8s_agen.Prelude.{
  ℕ, ◌^◌, ◌<◌, Bool, true, false, ◌&&◌, List, [], ◌∷◌, ◌++◌, Option, some, ◌≡◌, refl, ◌∙◌, ap,
  arith, map, keep, ltb_ℤ, ◌==◌, ==_iff, if◌then◌else◌, Bool-cases, inl, inr, pos,
}
use azure_pipelines_k8s_agen.Text.{Text}
use azure_pipelines_k8s_agen.GoMap.{GoMap}
use azure_pipelines_k8s_agen.AzureDevOps.{decimal}
use azure_pipelines_k8s_agen.PendingJobs.{AzurePipelinesApiJobRequest}
use azure_pipelines_k8s_agen.FakePlatform.{
  JobState, pending, in_progress, finished, Job, Agent, Server, get_job,
}
use azure_pipelines_k8s_agen.FakePlatform.Handlers.{
  list_job_at, listed_jobs, assign_job, agent_named,
}
use azure_pipelines_k8s_agen.FakePlatform.Steps.Sound.{DistinctIds, has_id}
use azure_pipelines_k8s_agen.FakeAgent.Integers.{decimal_int}
use azure_pipelines_k8s_agen.FakeAgent.Integers.RoundTrip.{parse_int-decimal}
use azure_pipelines_k8s_agen.FakeAgent.Jobs.{
  SeenJob, seen_jobs, is_eligible, insert_by_delay, sort_by_delay, is_pending,
  get_eligible_jobs_sorted_by_start_delay,
}

-- A job of the server whose numbers are those of 64 bits with a sign.
pub record Fits (j : Job) : Type 0 where
  pub id : j.id < 2 ^ 63
  pub duration : j.duration < 2 ^ 63
  pub start_delay : j.start_delay < 2 ^ 63
  pub finish_delay : j.finish_delay < 2 ^ 63

abbrev pub AllFit : List Job → Type 0
AllFit [] = Unit
AllFit (j ∷ jobs) = Fits j × AllFit jobs

abbrev pub is_unfinished : JobState → Bool
is_unfinished finished = false
is_unfinished pending = true
is_unfinished in_progress = true

-- The job as the agent ought to see it.
abbrev pub shown : ℕ → Job → SeenJob
shown pool_id j = record {
  id = pos j.id;
  pool_id = pool_id;
  state = j.state;
  duration = pos j.duration;
  start_delay = pos j.start_delay;
  finish_delay = pos j.finish_delay;
  demands = j.demands;
}

abbrev pub unfinished : List Job → List Job
unfinished jobs = keep (λ (j : Job). is_unfinished j.state) jobs

module _ (pool_id : ℕ) (now : Job → ℕ) (set : (j : Job) → 0 < now j) where
  listed_one :
      (j : Job) (state : JobState) (rest : List AzurePipelinesApiJobRequest)
      → Fits j
      → j.state ≡ state
      → seen_jobs pool_id (list_job_at now j state ++ rest) ≡ (
          if is_unfinished state
          then shown pool_id j ∷ seen_jobs pool_id rest
          else seen_jobs pool_id rest)
  unfolding list_job_at seen_jobs
  listed_one j pending rest f e =
      rw
        (
          parse_int-decimal j.id f.id,
          parse_int-decimal j.duration f.duration,
          parse_int-decimal j.start_delay f.start_delay,
          parse_int-decimal j.finish_delay f.finish_delay,
          e,
        )
        refl
  listed_one j in_progress rest f e =
      let unset : (now j == 0) ≡ false = ground (arith, set j) in
      rw
        (
          unset,
          parse_int-decimal j.id f.id,
          parse_int-decimal j.duration f.duration,
          parse_int-decimal j.start_delay f.start_delay,
          parse_int-decimal j.finish_delay f.finish_delay,
          e,
        )
        refl
  listed_one j finished rest f e = refl

  -- What the agent makes of the list that the server prints is the unfinished jobs of the server, in
  -- order and with all they hold, if their numbers fit and the server's clock is set.
  pub seen_jobs-listed_jobs :
      (jobs : List Job)
      → AllFit jobs
      → seen_jobs pool_id (listed_jobs now jobs) ≡ map (shown pool_id) (unfinished jobs)
  unfolding listed_jobs seen_jobs
  seen_jobs-listed_jobs [] f = refl
  seen_jobs-listed_jobs (j ∷ jobs) (f, fs) =
      listed_one j j.state (listed_jobs now jobs) f refl
      ∙ elim (Bool-cases (is_unfinished j.state)) [
        | inl is ↦ rw is (ap (λ l. shown pool_id j ∷ l) (seen_jobs-listed_jobs jobs fs))
        | inr is ↦ rw is (seen_jobs-listed_jobs jobs fs)
      ]

-- A predicate on all elements.
abbrev pub All {ℓ} : {A : Type ℓ} → (A → Type 0) → List A → Type 0
All P [] = Unit
All P (x ∷ xs) = P x × All P xs

All-insert :
    (P : SeenJob → Type 0) (job : SeenJob) (jobs : List SeenJob)
    → P job
    → All P jobs
    → All P (insert_by_delay job jobs)
unfolding insert_by_delay
All-insert P job [] h hs = (h, tt)
All-insert P job (j ∷ jobs) h (k, ks) = elim (Bool-cases (ltb_ℤ j.start_delay job.start_delay)) [
  | inl later ↦ rw later (k, All-insert P job jobs h ks)
  | inr first ↦ rw first (h, (k, ks))
]

All-sort : (P : SeenJob → Type 0) (jobs : List SeenJob) → All P jobs → All P (sort_by_delay jobs)
unfolding sort_by_delay
All-sort P [] h = tt
All-sort P (job ∷ jobs) (h, hs) = All-insert P job (sort_by_delay jobs) h (All-sort P jobs hs)

get_job_behind :
    (j : Job) (jobs all : List Job)
    → has_id j.id jobs ≡ false
    → All (λ (x : Job). get_job all x.id ≡ some x) jobs
    → All (λ (x : Job). get_job (j ∷ all) x.id ≡ some x) jobs
unfolding get_job
get_job_behind j [] all h hs = tt
get_job_behind j (x ∷ jobs) all h (k, ks) = (
  ground (arith, k, h, ==_iff j.id x.id, ==_iff x.id j.id),
  get_job_behind j jobs all (ground (arith, h)) ks,
)

-- Where no two jobs have one identifier, each is found by its own.
get_job_self :
    (jobs : List Job) → DistinctIds jobs → All (λ (x : Job). get_job jobs x.id ≡ some x) jobs
unfolding get_job
get_job_self [] d = tt
get_job_self (j ∷ jobs) (h, d) =
    (ground (arith, ==_iff j.id j.id), get_job_behind j jobs jobs h (get_job_self jobs d))

pending_of : (state : JobState) (b : Bool) → (is_pending state && b) ≡ true → state ≡ pending
pending_of pending b h = refl
pending_of in_progress b h = cc
pending_of finished b h = cc

module _ (atoi : Text → Option ℕ) (s : Server) (agent_name : Text) (capabilities : GoMap Text) where
  -- The server's answer to the request that takes the job.
  abbrev pub IsAccepted : SeenJob → Type 0
  IsAccepted x = (assign_job atoi s (decimal_int x.id) agent_name (inr capabilities)).status ≡ 200

  assign_pending_job :
      (j : Job) (a : Agent)
      → atoi (decimal j.id) ≡ some j.id
      → agent_named agent_name s.agents ≡ some a
      → get_job s.jobs j.id ≡ some j
      → j.state ≡ pending
      → (assign_job atoi s (decimal j.id) agent_name (inr capabilities)).status ≡ 200
  unfolding assign_job
  assign_pending_job j a e known found state = grind (arith, e, known, found, state)

  eligible-IsAccepted :
      (environ : List Text) (pool_id : ℕ) (a : Agent)
      → ((n : ℕ) → n < 2 ^ 63 → atoi (decimal n) ≡ some n)
      → agent_named agent_name s.agents ≡ some a
      → (jobs : List Job) → AllFit jobs
      → All (λ (x : Job). get_job s.jobs x.id ≡ some x) jobs
      → All IsAccepted (keep (is_eligible environ) (map (shown pool_id) (unfinished jobs)))
  unfolding decimal_int
  eligible-IsAccepted environ pool_id a read known [] f found = tt
  eligible-IsAccepted environ pool_id a read known (j ∷ jobs) (f, fs) (found, founds) =
      let rest = eligible-IsAccepted environ pool_id a read known jobs fs founds in
      elim (Bool-cases (is_unfinished j.state)) [
        | inr is ↦ rw is rest
        | inl is ↦ rw is (elim (Bool-cases (is_eligible environ (shown pool_id j))) [
          | inr no_match ↦ rw no_match rest
          | inl matches ↦ rw matches (
            assign_pending_job j a (read j.id f.id) known found (pending_of j.state _ matches),
            rest,
          )
        ])
      ]

  -- Where the agent is registered, no two jobs have one identifier, the numbers fit and the router's
  -- identifiers are read back, the server accepts the request for each job that the agent takes for
  -- eligible from the list that it was given, if nothing has happened in between.
  pub eligible_jobs-IsAccepted :
      (environ : List Text) (pool_id : ℕ) (now : Job → ℕ) (a : Agent)
      → ((j : Job) → 0 < now j)
      → ((n : ℕ) → n < 2 ^ 63 → atoi (decimal n) ≡ some n)
      → agent_named agent_name s.agents ≡ some a
      → DistinctIds s.jobs
      → AllFit s.jobs
      → All IsAccepted (
          get_eligible_jobs_sorted_by_start_delay environ
            (seen_jobs pool_id (listed_jobs now s.jobs)))
  unfolding get_eligible_jobs_sorted_by_start_delay
  eligible_jobs-IsAccepted environ pool_id now a set read known d f =
      rw (seen_jobs-listed_jobs pool_id now set s.jobs f) (
        All-sort IsAccepted _
          (eligible-IsAccepted environ pool_id a read known s.jobs f (get_job_self s.jobs d)))
