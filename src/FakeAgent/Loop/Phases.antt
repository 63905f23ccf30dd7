-- ===== src/FakeAgent/Loop/Phases.antt =====
-- The loop of the fake agent as a machine of three phases, which starts the worker on one move only.
pub mod Passes
pub mod Once
use azure_pipelines_k8s_agen.Prelude.{
  ℕ, zero, suc, ◌+◌, ◌≤◌, ◌<◌, Bool, true, false, List, [], ◌∷◌, Option, none, some, ◌≡◌, ◌≢◌, refl,
  sym, ◌∙◌, ap, subst, arith, leb, ltb_ℤ, ◌==◌, ==_iff, if◌then◌else◌, any, Bool-cases, inl, inr,
  pos, ℤ,
}
use azure_pipelines_k8s_agen.Text.{Text}
use azure_pipelines_k8s_agen.Go.{
  Result, ok, err, panic, GoError, pvc_exhaustion, message, conflict, return, lift, attempt, ◌>>=◌,
}
use azure_pipelines_k8s_agen.Go.Ensures.{
  Ensures, Ensures-return, Ensures-lift, Ensures-if, Ensures-then, Ensures-kept, Ensures-from,
  Keeps, Keeps-return, Keeps-lift, Keeps-if, Keeps-attempt, Keeps-then,
}
use azure_pipelines_k8s_agen.FakeAgent.Machine.{Event, Events, Machine, Action, occur, time_now}
use azure_pipelines_k8s_agen.FakeAgent.Jobs.{SeenJob, get_eligible_jobs_sorted_by_start_delay}
use azure_pipelines_k8s_agen.FakeAgent.Worker.{start_worker_process, kill_process}
use azure_pipelines_k8s_agen.FakeAgent.Loop.{
  Ending, exit, Variables, Pass, again, left_loop, ended, Search, taken, not_taken, refused,
  is_after, eq_ℤ, has_start_delay, hold_before_assign, after_assign, try_jobs, after_search, seek,
  started_at, start_worker, cancel, after_finish, wait_to_start, wait_to_finish, attend, with_jobs,
  after_get_jobs, pass,
}
use azure_pipelines_k8s_agen.FakeAgent.Loop.Plain.{
  is_plain, IsPlainProperty, Ensures-occur, Keeps-occur, kill_process-Keeps, get_pending_jobs-Keeps,
  assign_job-Keeps, finish_job-Keeps,
}

pub data Phase : Type 0 where
  seeking : Phase
  assigned : Phase
  running : Phase

abbrev pub phase_of : Variables → Phase
phase_of v =
    if v.has_assigned_job then (if v.started_timestamp == 0 then assigned else running) else seeking

-- A pass of the machine, with the number of times that it starts the worker.
pub data Move : Phase → Phase → ℕ → Type 0 where
  seek_on : Move seeking seeking 0
  take_job : Move seeking assigned 0
  take_and_start : Move seeking running 1
  wait_on : Move assigned assigned 0
  start_job : Move assigned running 1
  work_on : Move running running 0

-- How often a pass from the phase can start the worker.
abbrev pub may_start : Phase → ℕ
may_start seeking = 1
may_start assigned = 1
may_start running = 0

-- How often a worker's process has been started.
abbrev pub starts : Events → ℕ
starts [] = 0
starts (Event.process_start name ∷ events) = suc (starts events)
starts (e ∷ events) = starts events

starts-plain : (k : ℕ) → IsPlainProperty (λ events. starts events ≡ k)
starts-plain k (Event.slept d) events h e = cc
starts-plain k (Event.process_start name) events h e = cc
starts-plain k _ events h e = e

-- No start has been noted for a job that is still to be found.
abbrev pub IsFresh : Variables → Type 0
IsFresh v = v.has_assigned_job ≡ false → v.started_timestamp ≡ 0

-- What a pass may do from a phase, with a worker started `k` times before.
abbrev pub Refines : Phase → ℕ → Pass → Events → Type 0
Refines p k (again v) events = (n : ℕ) × Move p (phase_of v) n × (starts events ≡ n + k) × IsFresh v
Refines p k (left_loop v) events = (p ≢ seeking) × (v.is_stopped ≡ true) × (starts events ≡ k)
Refines p k (ended ending) events = starts events ≤ may_start p + k

without_start :
    (p q : Phase) (k : ℕ) (v : Variables) (events : Events)
    → Move p q 0
    → phase_of v ≡ q
    → IsFresh v
    → starts events ≡ k
    → Refines p k (again v) events
without_start p q k v events move e fresh same =
    (0, subst (λ x. Move p x 0) (sym e) move, omega (arith, same), fresh)

with_one_start :
    (p : Phase) (k : ℕ) (v : Variables) (events : Events)
    → Move p running 1
    → phase_of v ≡ running
    → IsFresh v
    → starts events ≡ suc k
    → Refines p k (again v) events
with_one_start p k v events move e fresh same =
    (1, subst (λ x. Move p x 1) (sym e) move, omega (arith, same), fresh)

phase_attending :
    (v : Variables)
    → v.has_assigned_job ≡ true
    → phase_of v ≡ (if v.started_timestamp == 0 then assigned else running)
phase_attending v has =
    ap (λ b. if b then (if v.started_timestamp == 0 then assigned else running) else seeking) has

phase_seeking : (v : Variables) → v.has_assigned_job ≡ false → phase_of v ≡ seeking
phase_seeking v has =
    ap (λ b. if b then (if v.started_timestamp == 0 then assigned else running) else seeking) has

phase_running :
    (v : Variables) → v.has_assigned_job ≡ true → 0 < v.started_timestamp → phase_of v ≡ running
phase_running v has set =
    let b : (v.started_timestamp == 0) ≡ false = ground (arith, set) in
    phase_attending v has ∙ rw b refl

phase_assigned :
    (v : Variables) → v.has_assigned_job ≡ true → v.started_timestamp ≡ 0 → phase_of v ≡ assigned
phase_assigned v has unset =
    phase_attending v has ∙ rw ((==_iff v.started_timestamp 0).1 unset) refl

module _ (machine : Machine) (organization_url agent_name : Text) (pool_id : ℕ) where
  module _ (P : Events → Type 0) (plain : IsPlainProperty P) where
    hold_before_assign-Keeps :
        (since : ℕ) (job : SeenJob)
        → Keeps P (hold_before_assign machine organization_url agent_name pool_id since job)
    unfolding hold_before_assign
    hold_before_assign-Keeps since job =
        Keeps-if _ (has_start_delay job) _ _
          (Keeps-then _ _ _ (Keeps-occur P plain _ _ refl)
            λ t. Keeps-if _ (since == 0) _ _ (Keeps-return _ _) (Keeps-return _ _))
          (Keeps-return _ _)

    after_assign-Keeps :
        (since : ℕ) (job : SeenJob) (rest : Action Search) (r : Result (Unit {0}))
        → Keeps P rest
        → Keeps P (after_assign machine organization_url agent_name pool_id since job rest r)
    unfolding after_assign
    after_assign-Keeps since job rest (ok u) h = Keeps-return _ _
    after_assign-Keeps since job rest (err conflict) h = h
    after_assign-Keeps since job rest (err (message why)) h = Keeps-return _ _
    after_assign-Keeps since job rest (err (pvc_exhaustion name)) h = Keeps-return _ _
    after_assign-Keeps since job rest panic h = Keeps-lift _ _

    try_jobs-Keeps :
        (since : ℕ) (jobs : List SeenJob)
        → Keeps P (try_jobs machine organization_url agent_name pool_id since jobs)
    unfolding try_jobs
    try_jobs-Keeps since [] = Keeps-return _ _
    try_jobs-Keeps since (job ∷ jobs) =
        Keeps-then _ _ _ (hold_before_assign-Keeps since job) λ hold.
          let rest = try_jobs-Keeps hold.since jobs in
          Keeps-if _ hold.should_attempt_assign _ _
            (Keeps-then _ _ _
              (Keeps-attempt _ _
                (assign_job-Keeps P plain machine organization_url agent_name job.id))
              λ r. after_assign-Keeps hold.since job _ r rest)
            rest

  cancel-Refines :
      (v : Variables) (p : Phase) (k : ℕ)
      → p ≢ seeking
      → Ensures
          (λ events. starts events ≡ k)
          (cancel machine organization_url agent_name pool_id v)
          (Refines p k)
  unfolding cancel
  cancel-Refines v p k busy =
      Ensures-if _ _ v.is_stopped _ _
        (λ stopped. Ensures-return _ _ _ (λ events same. (busy, stopped, same)))
        (λ _.
          Ensures-then _ _ _ _ _
            (Ensures-kept _ _
              (Keeps-attempt _ _ (kill_process-Keeps _ (starts-plain k) machine v.proc)))
            (λ _. Ensures-return _ _ _ (λ events same. (busy, refl, same))))

  after_finish-Refines :
      (v : Variables) (k : ℕ) (r : Result (Unit {0}))
      → Ensures
          (λ events. starts events ≡ k)
          (after_finish machine organization_url agent_name pool_id v r)
          (Refines running k)
  unfolding after_finish
  after_finish-Refines v k (ok u) = Ensures-return _ _ _ (λ events same. (λ e. cc, refl, same))
  after_finish-Refines v k (err e) = Ensures-return _ _ _ (λ events same. omega (arith, same))
  after_finish-Refines v k panic = Ensures-lift _ _ _ (λ events a p e. absurd cc)
