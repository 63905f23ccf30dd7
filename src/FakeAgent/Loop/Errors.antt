-- ===== src/FakeAgent/Loop/Errors.antt =====
-- What an error in the retrieval of the jobs does to a fake agent with a job.
use azure_pipelines_k8s_agen.Prelude.{
  ℕ, ◌+◌, ◌<◌, true, false, [], ◌≡◌, ◌≢◌, refl, ◌∙◌, ap, arith, leb, if◌then◌else◌, Bool-cases, inl,
  inr,
}
use azure_pipelines_k8s_agen.Text.{Text}
use azure_pipelines_k8s_agen.Go.{Result, ok, err, panic, GoError, return, attempt, after, ◌>>=◌}
use azure_pipelines_k8s_agen.FakeAgent.Machine.{Events, Machine, Action, occur}
use azure_pipelines_k8s_agen.FakeAgent.Client.{get_pending_jobs}
use azure_pipelines_k8s_agen.FakeAgent.Worker.{kill_process}
use azure_pipelines_k8s_agen.FakeAgent.Loop.{
  Variables, Pass, left_loop, cancel, attend, seek, with_jobs, after_get_jobs, pass,
}

-- A call whose error is looked at, where it does fail.
attempt_err :
    {A B : Type 0} (m : Action A) (f : Result A → Action B) (events : Events) (e : GoError)
    → (m events).0 ≡ err e
    → (attempt m >>= f) events ≡ f (err e) (m events).1
unfolding attempt ◌>>=◌
attempt_err m f events e eq = rw (eq, after) refl

-- A call whose result is dropped, where it does not panic.
dropped :
    {A B : Type 0} (r : Result A × Events) (b : B) (events : Events)
    → r.0 ≢ panic
    → ((attempt (λ (_ : Events). r) >>= λ _. return b) events).0 ≡ ok b
unfolding attempt ◌>>=◌ return
dropped (ok a, s) b events h = refl
dropped (err e, s) b events h = refl
dropped (panic, s) b events h = absurd (h refl)

module _ (machine : Machine) (organization_url agent_name : Text) (pool_id : ℕ) where
  cancel_lem :
      (v : Variables) (events : Events)
      → machine.kill events v.proc ≢ panic
      → (cancel machine organization_url agent_name pool_id v events).0
        ≡ ok (left_loop (record v { is_stopped = true }))
  unfolding cancel kill_process occur attempt ◌>>=◌ return
  cancel_lem v events h = elim (Bool-cases v.is_stopped) [
    | inl stopped ↦ rw stopped refl
    | inr going ↦ rw going (
        dropped (kill_process machine v.proc events) (left_loop (record v { is_stopped = true }))
          events h)
  ]

  with_no_jobs :
      (v : Variables)
      → v.has_assigned_job ≡ true
      → with_jobs machine organization_url agent_name pool_id v []
        ≡ cancel machine organization_url agent_name pool_id v
  unfolding with_jobs attend
  with_no_jobs v has =
      ap
        (λ b.
          if b
          then cancel machine organization_url agent_name pool_id v
          else seek machine organization_url agent_name pool_id v [])
        has

  -- One error in the retrieval of the jobs, with fewer than four noted, makes an agent that has been
  -- assigned a job leave the loop with the worker stopped and no error noted, if no kill of its
  -- process panics.
  pub error_gives_up_job :
      (v : Variables) (events : Events) (e : GoError)
      → ((events : Events) → machine.kill events v.proc ≢ panic)
      → v.has_assigned_job ≡ true
      → v.get_job_error_count < 4
      → (get_pending_jobs machine organization_url pool_id events).0 ≡ err e
      → (pass machine organization_url agent_name pool_id v events).0
        ≡ ok (left_loop (record v { get_job_error_count = 0; is_stopped = true }))
  unfolding pass after_get_jobs
  error_gives_up_job v events e no_panic has few failed =
      let low : leb 5 (v.get_job_error_count + 1) ≡ false = ground (arith, few) in
      ap (λ (r : Result Pass × Events). r.0)
        (attempt_err (get_pending_jobs machine organization_url pool_id)
          (after_get_jobs machine organization_url agent_name pool_id v) events e failed)
      ∙ rw low (
          ap
            (λ (m : Action Pass).
              (m (get_pending_jobs machine organization_url pool_id events).1).0)
            (with_no_jobs (record v { get_job_error_count = 0 }) has)
          ∙ cancel_lem (record v { get_job_error_count = 0 }) _ (no_panic _))
