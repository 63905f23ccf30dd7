-- ===== src/FakeAgent/Loop/Phases/Once.antt =====
-- The fake agent starts its worker's process at most once.
use azure_pipelines_k8s_agen.Prelude.{
  ℕ, zero, suc, ◌+◌, ◌≤◌, ◌<◌, ◌&&◌, not, Option, ◌≡◌, refl, arith, ◌==◌, ℤ, pos,
}
use azure_pipelines_k8s_agen.Text.{Text}
use azure_pipelines_k8s_agen.Go.{Result, ok, err, panic, ◌>>◌}
use azure_pipelines_k8s_agen.Go.Ensures.{
  Ensures, Ensures-return, Ensures-then, Ensures-kept, Ensures-from, Keeps, Keeps-return,
  Keeps-fail, Keeps-lift, Keeps-if, Keeps-attempt, Keeps-then,
}
use azure_pipelines_k8s_agen.FakeAgent.Machine.{Event, Events, Machine, Action, occur, sleep}
use azure_pipelines_k8s_agen.FakeAgent.Client.{delete_agent}
use azure_pipelines_k8s_agen.FakeAgent.Loop.{
  Ending, Variables, Pass, again, left_loop, ended, at_first, after_delete, deregister, after_kill,
  wind_up, after_pass, run, second,
}
use azure_pipelines_k8s_agen.FakeAgent.Loop.Plain.{IsPlainProperty, Keeps-occur, kill_process-Keeps}
use azure_pipelines_k8s_agen.FakeAgent.Loop.Phases.{
  Phase, seeking, assigned, running, phase_of, Move, seek_on, take_job, take_and_start, wait_on,
  start_job, work_on, starts, may_start, IsFresh, Refines,
}
use azure_pipelines_k8s_agen.FakeAgent.Loop.Phases.Passes.{pass-Refines}

-- The worker has been started once if the job runs, and not at all before.
abbrev started_in : Phase → ℕ
started_in seeking = 0
started_in assigned = 0
started_in running = 1

Move-started : {p q : Phase} {n : ℕ} → Move p q n → n + started_in p ≡ started_in q
Move-started seek_on = omega arith
Move-started take_job = omega arith
Move-started take_and_start = omega arith
Move-started wait_on = omega arith
Move-started start_job = omega arith
Move-started work_on = omega arith

started_in_bounds : (p : Phase) → may_start p + started_in p ≡ 1
started_in_bounds seeking = omega arith
started_in_bounds assigned = omega arith
started_in_bounds running = omega arith

AtMostOnce : Events → Type 0
AtMostOnce events = starts events ≤ 1

sleep-Keeps : (d : ℤ) → Keeps AtMostOnce (sleep d)
unfolding occur AtMostOnce
sleep-Keeps d = record { kept = λ events p. p }

AtMostOnce-plain : IsPlainProperty AtMostOnce
unfolding AtMostOnce
AtMostOnce-plain (Event.slept d) events h e = cc
AtMostOnce-plain (Event.process_start name) events h e = cc
AtMostOnce-plain _ events h e = e

slept_then :
    {B : Type 0} (k : ℕ) (m : Action B)
    → Ensures (λ events. starts events ≡ k) m (λ _. AtMostOnce)
    → Ensures (λ events. starts events ≡ k) (sleep (pos second) >> m) (λ _. AtMostOnce)
unfolding occur
slept_then k m h =
    Ensures-then _ (λ _ events. starts events ≡ k) _ _ _ (record { at = λ events same u e. same })
      (λ u. h)

module _ (machine : Machine) (organization_url agent_name : Text) (pool_id agent_id : ℕ) where
  delete_agent-Keeps : Keeps AtMostOnce (delete_agent machine organization_url agent_id pool_id)
  unfolding delete_agent
  delete_agent-Keeps =
      Keeps-then _ _ _
        (Keeps-then _ _ _ (Keeps-lift _ _) λ u. Keeps-occur _ AtMostOnce-plain _ _ refl)
        λ response. Keeps-if _ _ _ _ (Keeps-return _ _) (Keeps-fail _ _)

  after_delete-Keeps :
      (r : Result (Unit {0}))
      → Keeps AtMostOnce (after_delete machine organization_url agent_name pool_id r)
  unfolding after_delete
  after_delete-Keeps (ok u) = Keeps-return _ _
  after_delete-Keeps (err e) = Keeps-return _ _
  after_delete-Keeps panic = Keeps-lift _ _

  deregister-Keeps :
      (v : Variables)
      → Keeps AtMostOnce (deregister machine organization_url agent_name pool_id agent_id v)
  unfolding deregister
  deregister-Keeps v =
      Keeps-then _ _ _ (sleep-Keeps _)
        λ u. Keeps-then _ _ _ (Keeps-attempt _ _ delete_agent-Keeps) after_delete-Keeps

  after_kill-Keeps :
      (v : Variables) (r : Result (Unit {0}))
      → Keeps AtMostOnce (after_kill machine organization_url agent_name pool_id agent_id v r)
  unfolding after_kill
  after_kill-Keeps v (ok u) = deregister-Keeps v
  after_kill-Keeps v (err e) = Keeps-return _ _
  after_kill-Keeps v panic = Keeps-lift _ _

  wind_up-Keeps :
      (v : Variables)
      → Keeps AtMostOnce (wind_up machine organization_url agent_name pool_id agent_id v)
  unfolding wind_up
  wind_up-Keeps v =
      Keeps-if _ (not (v.started_timestamp == 0) && not v.is_stopped) _ _
        (Keeps-then _ _ _ (Keeps-attempt _ _ (kill_process-Keeps _ AtMostOnce-plain machine v.proc))
          (after_kill-Keeps v))
        (deregister-Keeps v)

  -- From variables that agree with the events, the rest of the loop starts the worker at most once
  -- in all.
  run-AtMostOnce :
      ((events : Events) → 0 < machine.now events)
      → (fuel : ℕ) (v : Variables) → IsFresh v
      → Ensures
          (λ events. starts events ≡ started_in (phase_of v))
          (run machine organization_url agent_name pool_id fuel agent_id v)
          (λ _. AtMostOnce)
  unfolding run AtMostOnce
  run-AtMostOnce set zero v fresh =
      Ensures-return _ _ _ (λ events same. omega (arith, same, started_in_bounds (phase_of v)))
  run-AtMostOnce set (suc fuel) v fresh =
      Ensures-then _ _ _ _ _
        (pass-Refines machine organization_url agent_name pool_id set v (started_in (phase_of v))
          fresh)
        (next (run-AtMostOnce set fuel))
    where
      next :
          ((v' : Variables)
            → IsFresh v'
            → Ensures
                (λ events. starts events ≡ started_in (phase_of v'))
                (run machine organization_url agent_name pool_id fuel agent_id v')
                (λ _. AtMostOnce))
          → (p : Pass)
          → Ensures
              (Refines (phase_of v) (started_in (phase_of v)) p)
              (after_pass machine organization_url agent_name pool_id agent_id
                (run machine organization_url agent_name pool_id fuel agent_id)
                p)
              (λ _. AtMostOnce)
      next rest (again v') = record {
        at = λ events (n, move, same, fresh').
            (slept_then _ _ (rest v' fresh')).at events (omega (arith, same, Move-started move));
      }
      next rest (left_loop v') =
          Ensures-then _ (λ _. AtMostOnce) _ _ _
            (Ensures-from _ _ _ _ (Ensures-kept _ _ (wind_up-Keeps v'))
              (λ events (busy, stopped, same). omega (arith, same, started_in_bounds (phase_of v))))
            (λ ending. Ensures-return _ _ _ (λ events once. once))
      next rest (ended ending) =
          Ensures-return _ _ _ (λ events few. omega (arith, few, started_in_bounds (phase_of v)))

  -- Up to any pass, and however the program ends, the fake agent has started its worker's process at
  -- most once, if none had been started before and the clock is never at the zero time.
  pub worker_started_once :
      ((events : Events) → 0 < machine.now events)
      → (fuel : ℕ) (events : Events) (ending : Option Ending) → starts events ≡ 0
      → (run machine organization_url agent_name pool_id fuel agent_id at_first events).0
        ≡ ok ending
      → starts (run machine organization_url agent_name pool_id fuel agent_id at_first events).1 ≤ 1
  unfolding AtMostOnce
  worker_started_once set fuel events ending none_before e =
      (run-AtMostOnce set fuel at_first (λ _. refl)).at events none_before ending e
