-- ===== src/FakeAgent/Loop/Ends.antt =====
-- Once a job has been assigned the loop of the fake agent comes to its end.
use azure_pipelines_k8s_agen.Prelude.{
  ℕ, zero, suc, ◌+◌, ◌*◌, ◌<◌, true, ◌∷◌, Option, none, some, ◌≡◌, ◌≢◌, refl, sym, ◌∙◌, ap, subst,
  arith, inl, inr, Bool-cases, ◌==◌, ==_iff, pos, pos_part,
}
use azure_pipelines_k8s_agen.Text.{Text}
use azure_pipelines_k8s_agen.Go.{Result, ok, err, panic, return, after, ◌>>=◌}
use azure_pipelines_k8s_agen.FakeAgent.Machine.{Event, Events, Machine, Action, occur}
use azure_pipelines_k8s_agen.FakeAgent.Jobs.{SeenJob}
use azure_pipelines_k8s_agen.FakeAgent.Loop.{
  Ending, Variables, Pass, again, left_loop, ended, second, pass, after_pass, wind_up, run,
}
use azure_pipelines_k8s_agen.FakeAgent.Loop.Passes.{
  slept_time, HasClock, running_pass, waiting_pass,
}

-- The fuel has not run out.
abbrev pub HasEnded : Result (Option Ending) × Events → Type 0
HasEnded r = r.0 ≢ ok none

after-HasEnded :
    {A : Type 0} (r : Result A) (f : A → Action (Option Ending)) (events : Events)
    → ((a : A) → r ≡ ok a → HasEnded (f a events))
    → HasEnded (after r f events)
after-HasEnded (ok a) f events h = h a refl
after-HasEnded (err x) f events h = λ p. cc
after-HasEnded panic f events h = λ p. cc

-- With an ending behind it, an action does not report that the fuel has run out.
ending_some : (m : Action Ending) (events : Events) → HasEnded ((m >>= λ e. return (some e)) events)
unfolding ◌>>=◌ return
ending_some m events =
    after-HasEnded (m events).0 (λ (e : Ending). return {S = Events} (some e)) (m events).1
      (λ e q p. cc)

module _ (machine : Machine) (organization_url agent_name : Text) (pool_id agent_id : ℕ) where
  after_pass-HasEnded :
      (rest : Variables → Action (Option Ending)) (next : Pass) (events : Events)
      → ((v : Variables) → next ≡ again v → HasEnded (rest v (Event.slept (pos second) ∷ events)))
      → HasEnded (after_pass machine organization_url agent_name pool_id agent_id rest next events)
  unfolding after_pass ◌>>=◌ occur return
  after_pass-HasEnded rest (again v) events h = h v refl
  after_pass-HasEnded rest (left_loop v) events h =
      ending_some (wind_up machine organization_url agent_name pool_id agent_id v) events
  after_pass-HasEnded rest (ended ending) events h = λ p. cc

  -- More fuel than none is enough if it is enough after a pass that goes on.
  run-suc :
      (fuel : ℕ) (v : Variables) (events : Events)
      → ((v' : Variables)
          → (pass machine organization_url agent_name pool_id v events).0 ≡ ok (again v')
          → HasEnded (
              run machine organization_url agent_name pool_id fuel agent_id v' (
                Event.slept (pos second)
                ∷ (pass machine organization_url agent_name pool_id v events).1)))
      → HasEnded (run machine organization_url agent_name pool_id (suc fuel) agent_id v events)
  unfolding run ◌>>=◌
  run-suc fuel v events h =
      after-HasEnded _ _ _ λ next e. after_pass-HasEnded _ next _ λ v' e'. h v' (e ∙ ap ok e')

  -- A job that runs ends within its duration, counted in passes.
  pub running_ends :
      HasClock machine
      → (fuel : ℕ) (v : Variables) (events : Events) → v.has_assigned_job ≡ true
      → 0 < v.started_timestamp
      → v.started_timestamp + pos_part v.assigned_job.duration < slept_time events + second * fuel
      → HasEnded (run machine organization_url agent_name pool_id (suc fuel) agent_id v events)
  running_ends clock zero v events has set h = run-suc zero v events λ v' e.
      let (slept, on, same, late) =
        (running_pass machine organization_url agent_name pool_id clock v (slept_time events) has
            set).at
          events refl (again v') e in
      absurd (omega (arith, late, h))
  running_ends clock (suc fuel) v events has set h = run-suc (suc fuel) v events λ v' e.
      let (slept, on, same, late) =
        (running_pass machine organization_url agent_name pool_id clock v (slept_time events) has
            set).at
          events refl (again v') e in
      running_ends clock fuel v' _ on.has (subst (λ t. 0 < t) (sym same) set) (
        let d : pos_part v'.assigned_job.duration ≡ pos_part v.assigned_job.duration =
          ap (λ (j : SeenJob). pos_part j.duration) on.same_job in
        omega (arith, slept, same, late, h, d))

  -- The passes that are enough after a pass give those that are enough before it.
  run_some :
      (v : Variables) (events : Events)
      → ((v' : Variables)
          → (pass machine organization_url agent_name pool_id v events).0 ≡ ok (again v')
          → (fuel : ℕ) × HasEnded (
              run machine organization_url agent_name pool_id fuel agent_id v' (
                Event.slept (pos second)
                ∷ (pass machine organization_url agent_name pool_id v events).1)))
      → (fuel : ℕ) × HasEnded
          (run machine organization_url agent_name pool_id fuel agent_id v events)
  run_some v events h = of (pass machine organization_url agent_name pool_id v events).0 refl
    where
      of :
          (r : Result Pass)
          → (pass machine organization_url agent_name pool_id v events).0 ≡ r
          → (fuel : ℕ) × HasEnded
              (run machine organization_url agent_name pool_id fuel agent_id v events)
      of (ok (again v')) e =
          let (fuel, enough) = h v' e in
          (
            suc fuel,
            run-suc fuel v events λ v'' e'.
                let same : v' ≡ v'' = cc in
                subst
                  (λ x. HasEnded (
                    run machine organization_url agent_name pool_id fuel agent_id x (
                      Event.slept (pos second)
                      ∷ (pass machine organization_url agent_name pool_id v events).1)))
                  same enough,
          )
      of (ok (left_loop v')) e = (1, run-suc 0 v events λ v'' e'. absurd cc)
      of (ok (ended ending)) e = (1, run-suc 0 v events λ v'' e'. absurd cc)
      of (err x) e = (1, run-suc 0 v events λ v'' e'. absurd cc)
      of panic e = (1, run-suc 0 v events λ v'' e'. absurd cc)

  running_some :
      HasClock machine
      → (v : Variables) (events : Events) → v.has_assigned_job ≡ true
      → 0 < v.started_timestamp
      → (fuel : ℕ) × HasEnded
          (run machine organization_url agent_name pool_id fuel agent_id v events)
  running_some clock v events has set = (
    suc (suc (v.started_timestamp + pos_part v.assigned_job.duration)),
    running_ends clock (suc (v.started_timestamp + pos_part v.assigned_job.duration)) v events has
        set (omega arith),
  )

  waiting_ends :
      HasClock machine
      → (rounds : ℕ) (v : Variables) (events : Events) → v.has_assigned_job ≡ true
      → v.started_timestamp ≡ 0
      → v.assigned_timestamp + pos_part v.assigned_job.start_delay
        < slept_time events + second * rounds
      → (fuel : ℕ) × HasEnded
          (run machine organization_url agent_name pool_id fuel agent_id v events)
  waiting_ends clock zero v events has unset h = run_some v events λ v' e.
      let (slept, on, how) =
        (waiting_pass machine organization_url agent_name pool_id clock v (slept_time events) has
            unset).at
          events refl (again v') e in
      elim how [
        | inl set ↦ running_some clock v' _ on.has set
        | inr waits ↦ absurd (omega (arith, waits.2, h))
      ]
  waiting_ends clock (suc rounds) v events has unset h = run_some v events λ v' e.
      let (slept, on, how) =
        (waiting_pass machine organization_url agent_name pool_id clock v (slept_time events) has
            unset).at
          events refl (again v') e in
      elim how [
        | inl set ↦ running_some clock v' _ on.has set
        | inr waits ↦
            let d : pos_part v'.assigned_job.start_delay ≡ pos_part v.assigned_job.start_delay =
              ap (λ (j : SeenJob). pos_part j.start_delay) on.same_job in
            waiting_ends clock rounds v' _ on.has waits.0
              (omega (arith, slept, waits.1, waits.2, h, d))
      ]

  -- Whatever the server answers, an agent that has been assigned a job ends after finitely many
  -- passes, if the clock shows at least the time that has been slept and never the zero time.
  pub assigned_ends :
      HasClock machine
      → (v : Variables) (events : Events) → v.has_assigned_job ≡ true
      → (fuel : ℕ) × HasEnded
          (run machine organization_url agent_name pool_id fuel agent_id v events)
  assigned_ends clock v events has = elim (Bool-cases (v.started_timestamp == 0)) [
    | inl unset ↦
        waiting_ends clock (suc (v.assigned_timestamp + pos_part v.assigned_job.start_delay)) v
          events has ((==_iff v.started_timestamp 0).0 unset) (omega arith)
    | inr set ↦ running_some clock v events has (ground (arith, set))
  ]
