-- ===== src/FakeAgent/Loop/Phases/Passes.antt =====
-- Each pass of the loop is a move of the machine of three phases.
use azure_pipelines_k8s_agen.Prelude.{
  ℕ, suc, ◌+◌, ◌<◌, Bool, true, false, List, [], ◌≡◌, refl, sym, ◌∙◌, ap, subst, arith, leb, ◌==◌,
  ==_iff, if◌then◌else◌, any,
}
use azure_pipelines_k8s_agen.Text.{Text}
use azure_pipelines_k8s_agen.Go.{Result, ok, err, panic, attempt}
use azure_pipelines_k8s_agen.Go.Ensures.{
  Ensures, Ensures-return, Ensures-lift, Ensures-if, Ensures-then, Ensures-kept, Ensures-from,
  Keeps-attempt,
}
use azure_pipelines_k8s_agen.FakeAgent.Machine.{Events, Machine, occur, time_now}
use azure_pipelines_k8s_agen.FakeAgent.Jobs.{SeenJob}
use azure_pipelines_k8s_agen.FakeAgent.Worker.{start_worker_process}
use azure_pipelines_k8s_agen.FakeAgent.Loop.{
  Variables, with_start, with_hold, with_job, Search, taken, not_taken, refused, is_after, eq_ℤ,
  has_start_delay, after_search, seek, started_at, start_worker, wait_to_start, wait_to_finish,
  attend, with_jobs, after_get_jobs, pass,
}
use azure_pipelines_k8s_agen.FakeAgent.Loop.Plain.{
  Ensures-occur, Keeps-occur, kill_process-Keeps, get_pending_jobs-Keeps, finish_job-Keeps,
}
use azure_pipelines_k8s_agen.Go.Ensures.{attempt_state}
use azure_pipelines_k8s_agen.FakeAgent.Loop.Phases.{
  Phase, seeking, assigned, running, phase_of, Move, seek_on, take_job, take_and_start, wait_on,
  start_job, work_on, starts, starts-plain, Refines, try_jobs-Keeps, cancel-Refines,
  after_finish-Refines, phase_running, phase_assigned, phase_attending, phase_seeking, IsFresh,
  may_start, without_start, with_one_start,
}

started_worker :
    (machine : Machine) (k t : ℕ)
    → Ensures
        (λ events. (starts events ≡ k) × (0 < t))
        (attempt (start_worker_process machine))
        (λ _ events. (starts events ≡ suc k) × (0 < t))
unfolding start_worker_process occur
started_worker machine k t = record {
  at = λ events (same, set) r e.
      (ap starts (attempt_state (start_worker_process machine) events) ∙ ap suc same, set);
}

module _ (machine : Machine) (organization_url agent_name : Text) (pool_id : ℕ) where
  module _ (set : (events : Events) → 0 < machine.now events) where
    now-Ensures :
        (k : ℕ)
        → Ensures
            (λ events. starts events ≡ k)
            (time_now machine)
            (λ t events. (starts events ≡ k) × (0 < t))
    now-Ensures k =
        Ensures-occur _ _ _ _ λ events t same e.
          let at : machine.now events ≡ t = cc in (same, omega (arith, set events))

    start_worker-Refines :
        (v : Variables) (p : Phase) (k : ℕ)
        → v.has_assigned_job ≡ true
        → Move p running 1
        → may_start p ≡ 1
        → Ensures
            (λ events. starts events ≡ k)
            (start_worker machine organization_url agent_name pool_id v)
            (Refines p k)
    unfolding start_worker
    start_worker-Refines v p k has move may = Ensures-then _ _ _ _ _ (now-Ensures k) λ t.
        Ensures-then _ (λ _ events. (starts events ≡ suc k) × (0 < t)) _ _ _ (worker t) (after t)
      where
        worker :
            (t : ℕ)
            → Ensures
                (λ events. (starts events ≡ k) × (0 < t))
                (attempt (start_worker_process machine))
                (λ _ events. (starts events ≡ suc k) × (0 < t))
        worker t = started_worker machine k t

        after :
            (t : ℕ) (r : Result ℕ)
            → Ensures
                (λ events. (starts events ≡ suc k) × (0 < t))
                (started_at machine organization_url agent_name pool_id v t r)
                (Refines p k)
        after t (ok id) = Ensures-return _ _ _ λ events same.
            with_one_start p k (with_start v t id) events move
              (phase_running (with_start v t id) has same.1) (λ not_has. cc) same.0
        after t (err e) = Ensures-return _ _ _ (λ events same. omega (arith, same.0, may))
        after t panic = Ensures-lift _ _ _ (λ events a p e. absurd cc)

    wait_to_start-Refines :
        (v : Variables) (k : ℕ)
        → v.has_assigned_job ≡ true
        → v.started_timestamp ≡ 0
        → Ensures
            (λ events. starts events ≡ k)
            (wait_to_start machine organization_url agent_name pool_id v)
            (Refines assigned k)
    unfolding wait_to_start
    wait_to_start-Refines v k has unset = Ensures-then _ _ _ _ _ (now-Ensures k) λ t.
        Ensures-if _ _ (is_after t v.assigned_timestamp v.assigned_job.start_delay) _ _
          (λ _.
            Ensures-from _ _ _ _ (start_worker-Refines v assigned k has start_job refl)
              (λ events p. p.0))
          (λ _. Ensures-return _ _ _ λ events same.
            without_start _ _ k v events wait_on (phase_assigned v has unset) (λ _. unset) same.0)

    wait_to_finish-Refines :
        (v : Variables) (k : ℕ)
        → v.has_assigned_job ≡ true
        → 0 < v.started_timestamp
        → Ensures
            (λ events. starts events ≡ k)
            (wait_to_finish machine organization_url agent_name pool_id v)
            (Refines running k)
    unfolding wait_to_finish
    wait_to_finish-Refines v k has is_set =
        Ensures-then _ _ _ _ _ (Ensures-kept _ _ (Keeps-occur _ (starts-plain k) _ _ refl)) λ t.
          Ensures-if _ _ (is_after t v.started_timestamp v.assigned_job.duration) _ _
            (λ _.
              Ensures-then _ _ _ _ _
                (Ensures-kept _ _
                  (Keeps-attempt _ _ (kill_process-Keeps _ (starts-plain k) machine v.proc)))
                λ _.
                  Ensures-then _ _ _ _ _
                    (Ensures-kept _ _ (
                      Keeps-attempt _ _ (
                        finish_job-Keeps _ (starts-plain k) machine organization_url agent_name
                          v.assigned_job.id)))
                    λ r. after_finish-Refines machine organization_url agent_name pool_id v k r)
            (λ _. Ensures-return _ _ _ λ events same.
              without_start _ _ k v events work_on (phase_running v has is_set) (λ not_has. cc)
                same)

    attend-Refines :
        (v : Variables) (jobs : List SeenJob) (k : ℕ) (b : Bool)
        → v.has_assigned_job ≡ true
        → (v.started_timestamp == 0) ≡ b
        → Ensures
            (λ events. starts events ≡ k)
            (attend machine organization_url agent_name pool_id v jobs)
            (Refines (if b then assigned else running) k)
    unfolding attend
    attend-Refines v jobs k true has e =
        Ensures-if _ _ (any (λ (job : SeenJob). eq_ℤ job.id v.assigned_job.id) jobs) _ _
          (λ _.
            Ensures-if _ _ (v.started_timestamp == 0) _ _
              (λ _. wait_to_start-Refines v k has ((==_iff v.started_timestamp 0).0 e))
              (λ e'. absurd (cc (e, e'))))
          (λ _. cancel-Refines machine organization_url agent_name pool_id v assigned k (λ p. cc))
    attend-Refines v jobs k false has e =
        Ensures-if _ _ (any (λ (job : SeenJob). eq_ℤ job.id v.assigned_job.id) jobs) _ _
          (λ _.
            Ensures-if _ _ (v.started_timestamp == 0) _ _ (λ e'. absurd (cc (e, e')))
              (λ _. wait_to_finish-Refines v k has (ground (arith, e))))
          (λ _. cancel-Refines machine organization_url agent_name pool_id v running k (λ p. cc))

    after_search-Refines :
        (v : Variables) (k : ℕ) (search : Search)
        → v.has_assigned_job ≡ false
        → v.started_timestamp ≡ 0
        → Ensures
            (λ events. starts events ≡ k)
            (after_search machine organization_url agent_name pool_id v search)
            (Refines seeking k)
    unfolding after_search
    after_search-Refines v k (not_taken since) has unset = Ensures-return _ _ _ λ events same.
        without_start _ seeking k (with_hold v since) events seek_on
          (phase_seeking (with_hold v since) has) (λ _. unset) same
    after_search-Refines v k refused has unset =
        Ensures-return _ _ _ (λ events same. omega (arith, same))
    after_search-Refines v k (taken since job) has unset =
        Ensures-then _ _ _ _ _ (Ensures-kept _ _ (Keeps-occur _ (starts-plain k) _ _ refl)) λ t.
          Ensures-if _ _ (has_start_delay job) _ _
            (λ _. Ensures-return _ _ _ λ events same.
              without_start _ _ k (with_job v since job t) events take_job
                (phase_assigned (with_job v since job t) refl unset) (λ _. unset) same)
            (λ _. start_worker-Refines (with_job v since job t) seeking k refl take_and_start refl)

    seek-Refines :
        (v : Variables) (jobs : List SeenJob) (k : ℕ)
        → v.has_assigned_job ≡ false
        → v.started_timestamp ≡ 0
        → Ensures
            (λ events. starts events ≡ k)
            (seek machine organization_url agent_name pool_id v jobs)
            (Refines seeking k)
    unfolding seek
    seek-Refines v jobs k has unset =
        Ensures-then _ _ _ _ _
          (Ensures-kept _ _
            (try_jobs-Keeps machine organization_url agent_name pool_id _ (starts-plain k) _ _))
          λ search. after_search-Refines v k search has unset

    with_jobs-Refines :
        (v : Variables) (jobs : List SeenJob) (k : ℕ)
        → IsFresh v
        → Ensures
            (λ events. starts events ≡ k)
            (with_jobs machine organization_url agent_name pool_id v jobs)
            (Refines (phase_of v) k)
    unfolding with_jobs
    with_jobs-Refines v jobs k fresh =
        Ensures-if _ _ v.has_assigned_job _ _
          (λ has.
            subst
              (λ p.
                Ensures (λ events. starts events ≡ k)
                  (attend machine organization_url agent_name pool_id v jobs) (Refines p k))
              (sym (phase_attending v has))
              (attend-Refines v jobs k (v.started_timestamp == 0) has refl))
          (λ has.
            subst
              (λ p.
                Ensures (λ events. starts events ≡ k)
                  (seek machine organization_url agent_name pool_id v jobs) (Refines p k))
              (sym (phase_seeking v has)) (seek-Refines v jobs k has (fresh has)))

    after_get_jobs-Refines :
        (v : Variables) (r : Result (List SeenJob)) (k : ℕ)
        → IsFresh v
        → Ensures
            (λ events. starts events ≡ k)
            (after_get_jobs machine organization_url agent_name pool_id v r)
            (Refines (phase_of v) k)
    unfolding after_get_jobs
    after_get_jobs-Refines v (ok jobs) k fresh =
        with_jobs-Refines (record v { get_job_error_count = 0 }) jobs k fresh
    after_get_jobs-Refines v (err e) k fresh =
        Ensures-if _ _ (leb 5 (v.get_job_error_count + 1)) _ _
          (λ _. Ensures-return _ _ _ (λ events same. omega (arith, same)))
          (λ _. with_jobs-Refines (record v { get_job_error_count = 0 }) [] k fresh)
    after_get_jobs-Refines v panic k fresh = Ensures-lift _ _ _ (λ events a p e. absurd cc)

    -- Every pass is a move of the machine of three phases, with the start of the worker where the
    -- move says so, or it leaves the loop from a job with the worker stopped, or it ends the program;
    -- the clock is never at the zero time.
    pub pass-Refines :
        (v : Variables) (k : ℕ)
        → IsFresh v
        → Ensures
            (λ events. starts events ≡ k)
            (pass machine organization_url agent_name pool_id v)
            (Refines (phase_of v) k)
    unfolding pass
    pass-Refines v k fresh =
        Ensures-then _ _ _ _ _
          (Ensures-kept _ _ (
            Keeps-attempt _ _
              (get_pending_jobs-Keeps _ (starts-plain k) machine organization_url pool_id)))
          λ r. after_get_jobs-Refines v r k fresh
