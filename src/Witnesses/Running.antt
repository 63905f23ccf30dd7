-- ===== src/Witnesses/Running.antt =====
-- Examples of the fake agent at work.
use azure_pipelines_k8s_agen.Prelude.{
  ℕ, suc, ◌≤◌, true, List, [], ◌∷◌, Option, none, some, ◌≡◌, refl, ap, arith, map, keep, ℤ, pos,
  negsuc,
}
use mathlib.Core.List.{Perm}
use azure_pipelines_k8s_agen.Text.{codes, text_eq, cut}
use azure_pipelines_k8s_agen.GoMap.{lookup, insert}
use azure_pipelines_k8s_agen.Go.{attempt, ok, err, message, ◌>>=◌}
use azure_pipelines_k8s_agen.Go.Ensures.{Ensures}
use azure_pipelines_k8s_agen.PendingJobs.{AzurePipelinesApiJobRequest}
use azure_pipelines_k8s_agen.FakePlatform.{JobState, pending, in_progress, finished, Job, Server}
use azure_pipelines_k8s_agen.FakePlatform.Handlers.{listed_jobs, agent_named}
use azure_pipelines_k8s_agen.FakeAgent.Integers.{parse_int}
use azure_pipelines_k8s_agen.FakeAgent.Integers.RoundTrip.{parse_int-decimal}
use azure_pipelines_k8s_agen.FakeAgent.Machine.{Machine, occur}
use azure_pipelines_k8s_agen.FakeAgent.Jobs.{
  SeenJob, seen_jobs, is_eligible, get_eligible_jobs_sorted_by_start_delay,
}
use azure_pipelines_k8s_agen.FakeAgent.Jobs.Order.{
  IsOrdered, get_eligible_jobs_sorted_by_start_delay_lem,
}
use azure_pipelines_k8s_agen.FakeAgent.Jobs.Served.{
  shown, unfinished, seen_jobs-listed_jobs, All, IsAccepted, eligible_jobs-IsAccepted,
}
use azure_pipelines_k8s_agen.FakeAgent.Client.{
  get_pending_jobs, assign_job, finish_job, delete_agent,
}
use azure_pipelines_k8s_agen.FakeAgent.Worker.{start_worker_process, kill_process}
use azure_pipelines_k8s_agen.FakeAgent.Loop.{Ending, Variables, left_loop, at_first, pass, run}
use azure_pipelines_k8s_agen.FakeAgent.Loop.Passes.{slept_time, HasClock}
use azure_pipelines_k8s_agen.FakeAgent.Loop.Ends.{HasEnded, assigned_ends}
use azure_pipelines_k8s_agen.FakeAgent.Loop.Phases.{phase_of, starts, Refines}
use azure_pipelines_k8s_agen.FakeAgent.Loop.Phases.Passes.{pass-Refines}
use azure_pipelines_k8s_agen.FakeAgent.Loop.Phases.Once.{worker_started_once}
use azure_pipelines_k8s_agen.FakeAgent.Loop.Errors.{error_gives_up_job}

abbrev request : AzurePipelinesApiJobRequest
request = record {
  request_id = 4;
  queue_time = 0;
  assign_time = 0;
  result = none;
  demands = codes "java -equals 17" ∷ [];
  job_id = codes "4";
  scope_id = codes "3000000000";
  host_id = codes "0";
  plan_id = codes "0";
  pool_id = 7;
}

-- The clock shows what has been slept, and the server lists one job and accepts everything.
abbrev machine : Machine
machine = record {
  getenv = λ name. name;
  environ = codes "java=17" ∷ [];
  http = λ _ _. ok (record { status_code = 200; body = ok [] });
  stat = λ _ _. ok tt;
  open_file = λ _ _. ok tt;
  create_file = λ _ _. ok tt;
  copy_file = λ _ _ _. ok tt;
  sync_file = λ _ _. ok tt;
  file_mode = λ _ _. ok 0o755;
  chmod = λ _ _ _. ok tt;
  start_process = λ _ _. ok 12;
  kill = λ _ _. ok tt;
  now = λ events. suc (slept_time events);
  new_request = λ _ _. ok tt;
  decode_pools = λ _. ok (7 ∷ []);
  decode_agent_id = λ _. ok 1;
  decode_job_requests = λ _. ok (request ∷ []);
  encode_register_request = λ _. ok [];
  encode_capabilities = λ _. ok [];
}

-- The same where the server is out of reach.
abbrev cut_off : Machine
cut_off = record machine { http = λ _ _. err (message (codes "timeout")) }

machine-HasClock : HasClock machine
machine-HasClock = record { is_set = λ events. omega arith; runs = λ events. omega arith }

abbrev seen : ℕ → ℤ → SeenJob
seen id delay = record {
  id = pos id;
  pool_id = 7;
  state = pending;
  duration = pos 3_000_000_000;
  start_delay = delay;
  finish_delay = pos 0;
  demands = codes "java -equals 17" ∷ [];
}

-- A job that the agent has been running since 5.
abbrev at_work : Variables
at_work = record at_first {
  assigned_job = seen 4 (pos 0);
  has_assigned_job = true;
  assigned_timestamp = 5;
  started_timestamp = 5;
  proc = some 12;
}

abbrev job : ℕ → JobState → Job
job id state = record {
  id = id;
  pool_id = 7;
  state = state;
  duration = 3_000_000_000;
  start_delay = 0;
  finish_delay = 0;
  demands = codes "java -equals 17" ∷ [];
}

abbrev some_jobs : List Job
some_jobs = job 4 pending ∷ job 5 finished ∷ job 6 in_progress ∷ []

abbrev server : Server
server = record {
  jobs = some_jobs;
  agents = record { name = codes "a"; id = 1; capabilities = []; status = []; created_on = 1 } ∷ [];
  requests = [];
  pool_id = 7;
  pool_name = codes "pool";
}

abbrev natural : ℤ → Option ℕ
natural (pos n) = some n
natural (negsuc n) = none

seen_jobs-listed_jobs_example :
    seen_jobs 7 (listed_jobs (λ _. 9) some_jobs) ≡ map (shown 7) (unfinished some_jobs)
seen_jobs-listed_jobs_example =
    seen_jobs-listed_jobs 7 (λ _. 9) (λ _. omega arith) some_jobs (omega arith)

get_eligible_jobs_sorted_by_start_delay_lem_example :
    Perm
      (get_eligible_jobs_sorted_by_start_delay
        (codes "java=17" ∷ [])
        (seen 1 (pos 3) ∷ seen 2 (negsuc 0) ∷ []))
      (keep (is_eligible (codes "java=17" ∷ [])) (seen 1 (pos 3) ∷ seen 2 (negsuc 0) ∷ []))
    × IsOrdered (
        get_eligible_jobs_sorted_by_start_delay
          (codes "java=17" ∷ [])
          (seen 1 (pos 3) ∷ seen 2 (negsuc 0) ∷ []))
get_eligible_jobs_sorted_by_start_delay_lem_example =
    get_eligible_jobs_sorted_by_start_delay_lem (codes "java=17" ∷ [])
      (seen 1 (pos 3) ∷ seen 2 (negsuc 0) ∷ [])

eligible_jobs-IsAccepted_example :
    All (IsAccepted (λ t. natural (parse_int t)) server (codes "a") []) (
      get_eligible_jobs_sorted_by_start_delay
        (codes "java=17" ∷ [])
        (seen_jobs 7 (listed_jobs (λ _. 9) some_jobs)))
unfolding agent_named text_eq
eligible_jobs-IsAccepted_example =
    eligible_jobs-IsAccepted (λ t. natural (parse_int t)) server (codes "a") []
      (codes "java=17" ∷ []) 7 (λ _. 9)
      (record { name = codes "a"; id = 1; capabilities = []; status = []; created_on = 1 })
      (λ _. omega arith) (λ n fits. ap natural (parse_int-decimal n fits)) refl
      (refl, (refl, (refl, tt))) (omega arith)

assigned_ends_example :
    (fuel : ℕ) × HasEnded (run machine (codes "url") (codes "a") 7 fuel 1 at_work [])
assigned_ends_example =
    assigned_ends machine (codes "url") (codes "a") 7 1 machine-HasClock at_work [] refl

pass-Refines_example :
    Ensures
      (λ events. starts events ≡ 0)
      (pass machine (codes "url") (codes "a") 7 at_first)
      (Refines (phase_of at_first) 0)
pass-Refines_example =
    pass-Refines machine (codes "url") (codes "a") 7 (λ events. omega arith) at_first 0 (λ _. refl)

error_gives_up_job_example :
    (pass cut_off (codes "url") (codes "a") 7 at_work []).0
    ≡ ok (left_loop (record at_work { get_job_error_count = 0; is_stopped = true }))
unfolding get_pending_jobs ◌>>=◌ occur
error_gives_up_job_example =
    error_gives_up_job cut_off (codes "url") (codes "a") 7 at_work [] (message (codes "timeout"))
      (λ events. λ e. cc) refl (omega arith) refl

worker_started_once_example :
    starts (run machine (codes "url") (codes "a") 7 10 1 at_first []).1 ≤ 1
unfolding run ◌>>=◌ attempt get_pending_jobs occur get_eligible_jobs_sorted_by_start_delay seen_jobs
    cut text_eq lookup insert parse_int assign_job start_worker_process finish_job delete_agent
    kill_process
worker_started_once_example =
    worker_started_once machine (codes "url") (codes "a") 7 1 (λ events. omega arith) 10 []
      (some Ending.returned) refl refl
