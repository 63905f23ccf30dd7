-- ===== src/FakeAgent/Loop/Passes.antt =====
-- What one pass of the loop of the fake agent ensures where a job has been assigned.
use azure_pipelines_k8s_agen.Prelude.{
  ℕ, ◌+◌, ◌≤◌, ◌<◌, true, List, [], ◌∷◌, ◌≡◌, refl, arith, leb, ◌==◌, if◌then◌else◌, any, inl, inr,
  ◌⊎◌, pos_part,
}
use azure_pipelines_k8s_agen.Text.{Text}
use azure_pipelines_k8s_agen.Go.{Result, ok, err, panic, attempt}
use azure_pipelines_k8s_agen.Go.Ensures.{
  Ensures, Ensures-return, Ensures-lift, Ensures-if, Ensures-then, Ensures-kept, Ensures-from,
  Keeps, Keeps-attempt,
}
use azure_pipelines_k8s_agen.FakeAgent.Machine.{Event, Events, Machine, occur, time_now}
use azure_pipelines_k8s_agen.FakeAgent.Jobs.{SeenJob}
use azure_pipelines_k8s_agen.FakeAgent.Worker.{start_worker_process}
use azure_pipelines_k8s_agen.FakeAgent.Loop.{
  Ending, Variables, Pass, again, left_loop, ended, is_after, eq_ℤ, started_at, start_worker,
  cancel, after_finish, wait_to_start, wait_to_finish, attend, with_jobs, after_get_jobs, pass,
}
use azure_pipelines_k8s_agen.FakeAgent.Loop.Plain.{
  IsPlainProperty, Ensures-occur, get_pending_jobs-Keeps,
}

-- The time that the program has slept.
abbrev pub slept_time : Events → ℕ
slept_time [] = 0
slept_time (Event.slept d ∷ events) = pos_part d + slept_time events
slept_time (e ∷ events) = slept_time events

-- The clock is never at the zero time, and shows at least the time that has been slept.
pub record HasClock (machine : Machine) : Type 0 where
  pub is_set : (events : Events) → 0 < machine.now events
  pub runs : (events : Events) → slept_time events ≤ machine.now events

pub slept_time-plain : (k : ℕ) → IsPlainProperty (λ events. slept_time events ≡ k)
slept_time-plain k (Event.slept d) events h e = cc
slept_time-plain k (Event.process_start name) events h e = e
slept_time-plain k _ events h e = e

-- These variables go on with the job.
pub record GoesOn (job : SeenJob) (v : Variables) : Type 0 where
  pub has : v.has_assigned_job ≡ true
  pub same_job : v.assigned_job ≡ job

-- What a pass that is not the last leaves where the job is running: the duration has not passed.
abbrev pub AfterRunning : SeenJob → ℕ → ℕ → Pass → Events → Type 0
AfterRunning job started k (again v) events =
    (slept_time events ≡ k)
    × GoesOn job v
    × (v.started_timestamp ≡ started)
    × (k ≤ started + pos_part job.duration)
AfterRunning job started k (left_loop v) events = Unit
AfterRunning job started k (ended ending) events = Unit

-- The same where it is to be started.
abbrev pub AfterWaiting : SeenJob → ℕ → ℕ → Pass → Events → Type 0
AfterWaiting job assigned k (again v) events =
    (slept_time events ≡ k)
    × GoesOn job v
    × ((0 < v.started_timestamp)
        ⊎ ((v.started_timestamp ≡ 0)
            × (v.assigned_timestamp ≡ assigned)
            × (k ≤ assigned + pos_part job.start_delay)))
AfterWaiting job assigned k (left_loop v) events = Unit
AfterWaiting job assigned k (ended ending) events = Unit

abbrev counted : Variables → Variables
counted v = record v { get_job_error_count = 0 }

start_worker_process-Keeps :
    (machine : Machine) (k : ℕ) (A : Type 0)
    → Keeps (λ events. (slept_time events ≡ k) × A) (start_worker_process machine)
unfolding start_worker_process occur
start_worker_process-Keeps machine k A = record { kept = λ events p. p }

module _ (machine : Machine) (organization_url agent_name : Text) (pool_id : ℕ) where
  -- Where a pass that goes on would break the rule, only an end remains.
  cancel-Ensures :
      (v : Variables) (P : Events → Type 0) (Q : Pass → Events → Type 0)
      → ((v' : Variables) (events : Events) → Q (left_loop v') events)
      → Ensures P (cancel machine organization_url agent_name pool_id v) Q
  unfolding cancel
  cancel-Ensures v P Q h =
      Ensures-if _ _ v.is_stopped _ _ (λ _. Ensures-return _ _ _ (λ events p. h _ events))
        (λ _.
          Ensures-then _ (λ _ _. Unit {0}) _ _ _ (record { at = λ _ _ _ _. tt })
            (λ _. Ensures-return _ _ _ (λ events _. h _ events)))

  after_finish-Ensures :
      (v : Variables) (r : Result (Unit {0})) (P : Events → Type 0) (Q : Pass → Events → Type 0)
      → ((v' : Variables) (events : Events) → Q (left_loop v') events)
      → ((ending : Ending) (events : Events) → Q (ended ending) events)
      → Ensures P (after_finish machine organization_url agent_name pool_id v r) Q
  unfolding after_finish
  after_finish-Ensures v (ok u) P Q h h' = Ensures-return _ _ _ (λ events p. h _ events)
  after_finish-Ensures v (err e) P Q h h' = Ensures-return _ _ _ (λ events p. h' _ events)
  after_finish-Ensures v panic P Q h h' = Ensures-lift _ _ _ (λ events a p e. absurd cc)

  module _ (clock : HasClock machine) where
    -- The reading of the clock is at least the time that has been slept.
    time_now-Ensures :
        (k : ℕ)
        → Ensures
            (λ events. slept_time events ≡ k)
            (time_now machine)
            (λ t events. (slept_time events ≡ k) × (k ≤ t) × (0 < t))
    time_now-Ensures k = Ensures-occur _ _ _ _ λ events t p e.
        let same : machine.now events ≡ t = cc in
        (p, omega (arith, clock.runs events), omega (arith, clock.is_set events))

    wait_to_finish-Ensures :
        (v : Variables) (k : ℕ)
        → v.has_assigned_job ≡ true
        → Ensures
            (λ events. slept_time events ≡ k)
            (wait_to_finish machine organization_url agent_name pool_id v)
            (AfterRunning v.assigned_job v.started_timestamp k)
    unfolding wait_to_finish
    wait_to_finish-Ensures v k has = Ensures-then _ _ _ _ _ (time_now-Ensures k) λ t.
        Ensures-if _ _ (is_after t v.started_timestamp v.assigned_job.duration) _ _
          (λ _.
            Ensures-then _ (λ _ _. Unit {0}) _ _ _ (record { at = λ _ _ _ _. tt })
              λ _.
                Ensures-then _ (λ _ _. Unit {0}) _ _ _ (record { at = λ _ _ _ _. tt })
                  λ r. after_finish-Ensures v r _ _ (λ _ _. tt) (λ _ _. tt))
          (λ early. Ensures-return _ _ _ λ events (slept, le, set).
            (slept, record { has = has; same_job = refl }, refl, ground (arith, early, le)))

    -- The worker is started, which takes no sleep, or the program ends.
    start_worker-Ensures :
        (v : Variables) (k : ℕ)
        → v.has_assigned_job ≡ true
        → Ensures
            (λ events. slept_time events ≡ k)
            (start_worker machine organization_url agent_name pool_id v)
            (AfterWaiting v.assigned_job v.assigned_timestamp k)
    unfolding start_worker
    start_worker-Ensures v k has = Ensures-then _ _ _ _ _ (time_now-Ensures k) λ t.
        Ensures-then _ (λ _ events. (slept_time events ≡ k) × (0 < t)) _ _ _ (of_start t)
          λ r. of_result t r
      where
        of_start :
            (t : ℕ)
            → Ensures
                (λ events. (slept_time events ≡ k) × (k ≤ t) × (0 < t))
                (attempt (start_worker_process machine))
                (λ _ events. (slept_time events ≡ k) × (0 < t))
        of_start t =
            Ensures-from _ _ _ _
              (Ensures-kept _ _ (Keeps-attempt _ _ (start_worker_process-Keeps machine k (0 < t))))
              (λ events p. (p.0, p.2))

        of_result :
            (t : ℕ) (r : Result ℕ)
            → Ensures
                (λ events. (slept_time events ≡ k) × (0 < t))
                (started_at machine organization_url agent_name pool_id v t r)
                (AfterWaiting v.assigned_job v.assigned_timestamp k)
        of_result t (ok id) =
            Ensures-return _ _ _ λ events p. (p.0, record { has = has; same_job = refl }, inl p.1)
        of_result t (err e) = Ensures-return _ _ _ (λ events p. tt)
        of_result t panic = Ensures-lift _ _ _ (λ events a p e. absurd cc)

    wait_to_start-Ensures :
        (v : Variables) (k : ℕ)
        → v.has_assigned_job ≡ true
        → v.started_timestamp ≡ 0
        → Ensures
            (λ events. slept_time events ≡ k)
            (wait_to_start machine organization_url agent_name pool_id v)
            (AfterWaiting v.assigned_job v.assigned_timestamp k)
    unfolding wait_to_start
    wait_to_start-Ensures v k has unset = Ensures-then _ _ _ _ _ (time_now-Ensures k) λ t.
        Ensures-if _ _ (is_after t v.assigned_timestamp v.assigned_job.start_delay) _ _
          (λ _. Ensures-from _ _ _ _ (start_worker-Ensures v k has) (λ events p. p.0))
          (λ early. Ensures-return _ _ _ λ events (slept, le, set). (
            slept,
            record { has = has; same_job = refl },
            inr (unset, refl, ground (arith, early, le)),
          ))

  -- What a pass ensures where a job has been assigned, by what it does if the job is still listed.
  module _ (v : Variables) (P : Events → Type 0) (Q : Pass → Events → Type 0)
      (left : (v' : Variables) (events : Events) → Q (left_loop v') events)
      (end : (ending : Ending) (events : Events) → Q (ended ending) events)
      (has : v.has_assigned_job ≡ true) where
    attend-Ensures :
        (jobs : List SeenJob)
        → Ensures P
            (if v.started_timestamp == 0
              then wait_to_start machine organization_url agent_name pool_id (counted v)
              else wait_to_finish machine organization_url agent_name pool_id (counted v))
            Q
        → Ensures P (with_jobs machine organization_url agent_name pool_id (counted v) jobs) Q
    unfolding with_jobs attend
    attend-Ensures jobs h =
        Ensures-if _ _ v.has_assigned_job _ _
          (λ _.
            Ensures-if _ _ (any (λ (job : SeenJob). eq_ℤ job.id v.assigned_job.id) jobs) _ _
              (λ _. h) (λ _. cancel-Ensures _ _ _ left))
          (λ not_has. absurd (cc (has, not_has)))

    after_get_jobs-Ensures :
        (r : Result (List SeenJob))
        → Ensures P
            (if v.started_timestamp == 0
              then wait_to_start machine organization_url agent_name pool_id (counted v)
              else wait_to_finish machine organization_url agent_name pool_id (counted v))
            Q
        → Ensures P (after_get_jobs machine organization_url agent_name pool_id v r) Q
    unfolding after_get_jobs
    after_get_jobs-Ensures (ok jobs) h = attend-Ensures jobs h
    after_get_jobs-Ensures (err e) h =
        Ensures-if _ _ (leb 5 (v.get_job_error_count + 1)) _ _
          (λ _. Ensures-return _ _ _ (λ events p. end _ events)) (λ _. attend-Ensures [] h)
    after_get_jobs-Ensures panic h = Ensures-lift _ _ _ (λ events a p e. absurd cc)

    pass-Ensures :
        IsPlainProperty P
        → Ensures P
            (if v.started_timestamp == 0
              then wait_to_start machine organization_url agent_name pool_id (counted v)
              else wait_to_finish machine organization_url agent_name pool_id (counted v))
            Q
        → Ensures P (pass machine organization_url agent_name pool_id v) Q
    unfolding pass
    pass-Ensures plain h =
        Ensures-then _ (λ _. P) _ _ _
          (Ensures-kept _ _
            (Keeps-attempt _ _ (get_pending_jobs-Keeps P plain machine organization_url pool_id)))
          (λ r. after_get_jobs-Ensures r h)

  module _ (clock : HasClock machine) (v : Variables) (k : ℕ)
      (has : v.has_assigned_job ≡ true) where
    pub running_pass :
        0 < v.started_timestamp
        → Ensures
            (λ events. slept_time events ≡ k)
            (pass machine organization_url agent_name pool_id v)
            (AfterRunning v.assigned_job v.started_timestamp k)
    running_pass set =
        pass-Ensures v _ (AfterRunning v.assigned_job v.started_timestamp k) (λ _ _. tt) (λ _ _. tt)
          has (slept_time-plain k)
          (Ensures-if _ _ (v.started_timestamp == 0) _ _
            (λ unset. absurd (ground (arith, set, unset)))
            (λ _. wait_to_finish-Ensures clock (record v { get_job_error_count = 0 }) k has))

    pub waiting_pass :
        v.started_timestamp ≡ 0
        → Ensures
            (λ events. slept_time events ≡ k)
            (pass machine organization_url agent_name pool_id v)
            (AfterWaiting v.assigned_job v.assigned_timestamp k)
    waiting_pass unset =
        pass-Ensures v _ (AfterWaiting v.assigned_job v.assigned_timestamp k) (λ _ _. tt)
          (λ _ _. tt) has (slept_time-plain k)
          (Ensures-if _ _ (v.started_timestamp == 0) _ _
            (λ _. wait_to_start-Ensures clock (record v { get_job_error_count = 0 }) k has unset)
            (λ set. absurd (ground (arith, set, unset))))
