-- ===== src/FakeAgent/Loop.antt =====
-- fake_agent/main.go: `main`, with the passes of its loop that fuel allows.
pub mod Plain
pub mod Passes
pub mod Ends
pub mod Phases
pub mod Errors
use azure_pipelines_k8s_agen.Prelude.{
  ℕ, zero, suc, ◌+◌, Bool, true, false, ◌&&◌, not, List, [], ◌∷◌, Option, none, some, leb, ltb,
  ltb_ℤ, ◌==◌, if◌then◌else◌, any, ℤ, pos, pos_part, neg_part,
}
use azure_pipelines_k8s_agen.Text.{Text, codes}
use azure_pipelines_k8s_agen.Go.{
  Result, ok, err, panic, GoError, pvc_exhaustion, message, conflict, return, lift, attempt, ◌>>=◌,
  ◌>>◌,
}
use azure_pipelines_k8s_agen.FakePlatform.{JobState}
use azure_pipelines_k8s_agen.FakeAgent.Machine.{Machine, Action, time_now, sleep}
use azure_pipelines_k8s_agen.FakeAgent.Jobs.{SeenJob, get_eligible_jobs_sorted_by_start_delay}
use azure_pipelines_k8s_agen.FakeAgent.Client.{
  get_pool_id_from_name, register_as_agent, get_pending_jobs, assign_job, finish_job, delete_agent,
}
use azure_pipelines_k8s_agen.FakeAgent.Worker.{
  copy_worker_process_binary, start_worker_process, kill_process,
}

-- How the program ends: `os.Exit(code)`, or a return from `main`.
pub data Ending : Type 0 where
  exit : ℕ → Ending
  returned : Ending

-- The variables of `main` that the loop changes. A time of 0 is the zero time.
pub record Variables : Type 0 where
  pub assigned_job : SeenJob
  pub has_assigned_job : Bool
  pub hold_before_assign_timestamp : ℕ
  pub assigned_timestamp : ℕ
  pub started_timestamp : ℕ
  pub is_stopped : Bool
  pub proc : Option ℕ
  pub get_job_error_count : ℕ

abbrev pub with_start : Variables → ℕ → ℕ → Variables
with_start v t id = record v { started_timestamp = t; proc = some id }

abbrev pub with_hold : Variables → ℕ → Variables
with_hold v since = record v { hold_before_assign_timestamp = since }

abbrev pub with_job : Variables → ℕ → SeenJob → ℕ → Variables
with_job v since job t = record v {
  assigned_job = job;
  has_assigned_job = true;
  hold_before_assign_timestamp = since;
  assigned_timestamp = t;
}

-- What a pass ends with: the next pass, a `break`, or the end of the program.
pub data Pass : Type 0 where
  again : Variables → Pass
  left_loop : Variables → Pass
  ended : Ending → Pass

-- `id`, `pool_id` and so on of a `Job{}`, whose state is the empty text, which no test reads.
abbrev no_job : SeenJob
no_job = record {
  id = pos 0;
  pool_id = 0;
  state = JobState.finished;
  duration = pos 0;
  start_delay = pos 0;
  finish_delay = pos 0;
  demands = [];
}

abbrev pub at_first : Variables
at_first = record {
  assigned_job = no_job;
  has_assigned_job = false;
  hold_before_assign_timestamp = 0;
  assigned_timestamp = 0;
  started_timestamp = 0;
  is_stopped = false;
  proc = none;
  get_job_error_count = 0;
}

-- `t.After(from.Add(d))`
abbrev pub is_after : ℕ → ℕ → ℤ → Bool
is_after t from d = ltb (from + pos_part d) (t + neg_part d)

abbrev pub has_start_delay : SeenJob → Bool
has_start_delay job = ltb_ℤ (pos 0) job.start_delay

abbrev pub eq_ℤ : ℤ → ℤ → Bool
eq_ℤ a b = pos_part a == pos_part b && neg_part a == neg_part b

abbrev pub second : ℕ
second = 1_000_000_000

-- Whether to try to assign the job, and when the holding began.
pub record Hold : Type 0 where
  pub should_attempt_assign : Bool
  pub since : ℕ

-- What the loop over the eligible jobs ends with, beside the time at which the holding began.
pub data Search : Type 0 where
  taken : ℕ → SeenJob → Search
  not_taken : ℕ → Search
  refused : Search

module _ (machine : Machine) (organization_url agent_name : Text) (pool_id : ℕ) where
  unfoldable pub hold_before_assign : ℕ → SeenJob → Action Hold
  hold_before_assign since job =
      if has_start_delay job
      then (do
        t ← time_now machine
        if since == 0
            then return (record { should_attempt_assign = false; since = t })
            else return (record {
              should_attempt_assign = is_after t since job.start_delay;
              since = since;
            }))
      else return (record { should_attempt_assign = true; since = since })

  started_at : Variables → ℕ → Result ℕ → Action Pass
  started_at v t (ok id) = return (again (with_start v t id))
  started_at v t (err _) = return (ended (exit 1))
  started_at v t panic = lift panic

  -- `startedTimestamp = time.Now()`, and the start of the worker's process.
  start_worker : Variables → Action Pass
  unfolding started_at
  start_worker v = do
    t ← time_now machine
    process ← attempt (start_worker_process machine)
    started_at v t process

  -- By what trying to assign the job gave; `rest` goes on with the jobs after it.
  after_assign : ℕ → SeenJob → Action Search → Result (Unit {0}) → Action Search
  after_assign since job rest (ok _) = return (taken since job)
  after_assign since job rest (err conflict) = rest
  after_assign since job rest (err (message _)) = return refused
  after_assign since job rest (err (pvc_exhaustion _)) = return refused
  after_assign since job rest panic = lift panic

  -- The loop over the eligible jobs.
  try_jobs : ℕ → List SeenJob → Action Search
  unfolding hold_before_assign after_assign
  try_jobs since [] = return (not_taken since)
  try_jobs since (job ∷ jobs) = do
    hold ← hold_before_assign since job
    let rest = try_jobs hold.since jobs
    let attempted : Action Search = do
      result ← attempt (assign_job machine organization_url agent_name job.id)
      after_assign hold.since job rest result
    if hold.should_attempt_assign then attempted else rest

  after_search : Variables → Search → Action Pass
  unfolding start_worker
  after_search v (not_taken since) = return (again (with_hold v since))
  after_search v refused = return (ended (exit 1))
  after_search v (taken since job) = do
    t ← time_now machine
    let v' = with_job v since job t
    if has_start_delay job then return (again v') else start_worker v'

  seek : Variables → List SeenJob → Action Pass
  unfolding try_jobs after_search
  seek v jobs = do
    search ←
        try_jobs v.hold_before_assign_timestamp
          (get_eligible_jobs_sorted_by_start_delay machine.environ jobs)
    after_search v search

  -- The job has been cancelled.
  cancel : Variables → Action Pass
  cancel v = if v.is_stopped then return (left_loop v) else (do
    attempt (kill_process machine v.proc)
    return (left_loop (record v { is_stopped = true })))

  after_finish : Variables → Result (Unit {0}) → Action Pass
  after_finish v (ok _) = return (left_loop (record v { is_stopped = true }))
  after_finish v (err _) = return (ended (exit 1))
  after_finish v panic = lift panic

  -- The job has been assigned, and is to be started.
  wait_to_start : Variables → Action Pass
  unfolding start_worker
  wait_to_start v = do
    t ← time_now machine
    if is_after t v.assigned_timestamp v.assigned_job.start_delay
        then start_worker v
        else return (again v)

  -- The job is running.
  wait_to_finish : Variables → Action Pass
  unfolding after_finish
  wait_to_finish v = do
    t ← time_now machine
    if is_after t v.started_timestamp v.assigned_job.duration
        then (do
          attempt (kill_process machine v.proc)
          result ← attempt (finish_job machine organization_url agent_name v.assigned_job.id)
          after_finish v result)
        else return (again v)

  attend : Variables → List SeenJob → Action Pass
  unfolding cancel wait_to_start wait_to_finish
  attend v jobs =
      if any (λ (job : SeenJob). eq_ℤ job.id v.assigned_job.id) jobs
      then (if v.started_timestamp == 0 then wait_to_start v else wait_to_finish v)
      else cancel v

  with_jobs : Variables → List SeenJob → Action Pass
  unfolding seek attend
  with_jobs v jobs = if v.has_assigned_job then attend v jobs else seek v jobs

  -- The number of errors is set back to 0 also after an error, and no jobs have then been found.
  after_get_jobs : Variables → Result (List SeenJob) → Action Pass
  unfolding with_jobs
  after_get_jobs v (ok jobs) = with_jobs (record v { get_job_error_count = 0 }) jobs
  after_get_jobs v (err _) =
      if leb 5 (v.get_job_error_count + 1)
      then return (ended (exit 1))
      else with_jobs (record v { get_job_error_count = 0 }) []
  after_get_jobs v panic = lift panic

  -- The body of the loop, up to the sleep.
  unfoldable pub pass : Variables → Action Pass
  unfolding after_get_jobs
  pass v = do
    jobs ← attempt (get_pending_jobs machine organization_url pool_id)
    after_get_jobs v jobs

  after_delete : Result (Unit {0}) → Action Ending
  after_delete (ok _) = return returned
  after_delete (err _) = return (exit 1)
  after_delete panic = lift panic

  deregister : ℕ → Variables → Action Ending
  unfolding after_delete
  deregister agent_id v = do
    sleep v.assigned_job.finish_delay
    result ← attempt (delete_agent machine organization_url agent_id pool_id)
    after_delete result

  after_kill : ℕ → Variables → Result (Unit {0}) → Action Ending
  unfolding deregister
  after_kill agent_id v (ok _) = deregister agent_id v
  after_kill agent_id v (err _) = return returned
  after_kill agent_id v panic = lift panic

  -- What follows the loop.
  unfoldable pub wind_up : ℕ → Variables → Action Ending
  unfolding after_kill
  wind_up agent_id v =
      if not (v.started_timestamp == 0) && not v.is_stopped
      then (do result ← attempt (kill_process machine v.proc); after_kill agent_id v result)
      else deregister agent_id v

  -- What follows a pass: the sleep and the `rest` of the loop, or what is behind it.
  after_pass : ℕ → (Variables → Action (Option Ending)) → Pass → Action (Option Ending)
  unfolding wind_up
  after_pass agent_id rest (again v) = do sleep (pos second); rest v
  after_pass agent_id rest (left_loop v) = do ending ← wind_up agent_id v; return (some ending)
  after_pass agent_id rest (ended ending) = return (some ending)

  -- The loop and what follows it: `none` where the fuel, one for a pass, has run out.
  unfoldable pub run : ℕ → ℕ → Variables → Action (Option Ending)
  unfolding pass after_pass
  run zero agent_id v = return none
  run (suc fuel) agent_id v = do next ← pass v; after_pass agent_id (run fuel agent_id) next

-- Go on with the value, or exit with code 1.
or_exit : {A : Type 0} → Result A → (A → Action (Option Ending)) → Action (Option Ending)
or_exit (ok a) next = next a
or_exit (err _) next = return (some (exit 1))
or_exit panic next = lift panic

unfoldable pub main : Machine → ℕ → Action (Option Ending)
unfolding or_exit run
main machine fuel = do
  let organization_url = machine.getenv (codes "AZP_URL")
  let pool_name = machine.getenv (codes "AZP_POOL")
  let agent_name = machine.getenv (codes "AZP_AGENT_NAME")
  pool ← attempt (get_pool_id_from_name machine organization_url pool_name)
  or_exit pool λ pool_id. do
    agent ← attempt (register_as_agent machine organization_url pool_id agent_name)
    or_exit agent λ agent_id. do
      copied ← attempt (copy_worker_process_binary machine)
      or_exit copied λ _. run machine organization_url agent_name pool_id fuel agent_id at_first
