-- ===== src/FakeAgent/Loop/Plain.antt =====
-- What the requests of the fake agent leave as it is: a property of the events that only a sleep or
-- the start of a process can change.
use azure_pipelines_k8s_agen.Prelude.{ℕ, Bool, true, false, ◌∷◌, Option, ◌≡◌, refl, ℤ}
use azure_pipelines_k8s_agen.Text.{Text}
use azure_pipelines_k8s_agen.Go.{Result, ok}
use azure_pipelines_k8s_agen.Go.Ensures.{
  Ensures, Keeps, Keeps-return, Keeps-fail, Keeps-lift, Keeps-if, Keeps-then,
}
use azure_pipelines_k8s_agen.FakeAgent.Machine.{Event, Events, Machine, occur}
use azure_pipelines_k8s_agen.FakeAgent.Client.{
  get_pending_jobs, post_for_job, assign_job, finish_job,
}
use azure_pipelines_k8s_agen.FakeAgent.Worker.{kill_process}

abbrev pub is_plain : Event → Bool
is_plain (Event.slept d) = false
is_plain (Event.process_start name) = false
is_plain _ = true

abbrev pub IsPlainProperty : (Events → Type 0) → Type 0
IsPlainProperty P = (e : Event) (events : Events) → is_plain e ≡ true → P events → P (e ∷ events)

pub Ensures-occur :
    {A : Type 0} (P : Events → Type 0) (Q : A → Events → Type 0) (e : Event)
    (answer : Events → Result A)
    → ((events : Events) (a : A) → P events → answer events ≡ ok a → Q a (e ∷ events))
    → Ensures P (occur e answer) Q
unfolding occur
Ensures-occur P Q e answer h = record { at = λ events p a eq. h events a p eq }

module _ (P : Events → Type 0) (plain : IsPlainProperty P) where
  pub Keeps-occur :
      {A : Type 0} (e : Event) (answer : Events → Result A)
      → is_plain e ≡ true
      → Keeps P (occur e answer)
  unfolding occur
  Keeps-occur e answer h = record { kept = λ events. plain e events h }

  pub kill_process-Keeps :
      (machine : Machine) (proc : Option ℕ) → Keeps P (kill_process machine proc)
  unfolding kill_process
  kill_process-Keeps machine proc = Keeps-occur _ _ refl

  module _ (machine : Machine) (organization_url : Text) where
    pub get_pending_jobs-Keeps :
        (pool_id : ℕ) → Keeps P (get_pending_jobs machine organization_url pool_id)
    unfolding get_pending_jobs
    get_pending_jobs-Keeps pool_id = Keeps-then _ _ _ (Keeps-occur _ _ refl) λ response.
        Keeps-then _ _ _ (Keeps-lift _ _) λ body.
          Keeps-if _ _ _ _ (Keeps-then _ _ _ (Keeps-lift _ _) λ requests. Keeps-return _ _)
            (Keeps-fail _ _)

    post_for_job-Keeps : (url agent_name : Text) → Keeps P (post_for_job machine url agent_name)
    unfolding post_for_job
    post_for_job-Keeps url agent_name =
        Keeps-then _ _ _ (Keeps-lift _ _)
          λ request. Keeps-then _ _ _ (Keeps-lift _ _) λ capabilities. Keeps-occur _ _ refl

    pub assign_job-Keeps :
        (agent_name : Text) (job_id : ℤ)
        → Keeps P (assign_job machine organization_url agent_name job_id)
    unfolding assign_job
    assign_job-Keeps agent_name job_id = Keeps-then _ _ _ (post_for_job-Keeps _ _) λ response.
        Keeps-if _ _ _ _ (Keeps-return _ _) (Keeps-if _ _ _ _ (Keeps-fail _ _) (Keeps-fail _ _))

    pub finish_job-Keeps :
        (agent_name : Text) (job_id : ℤ)
        → Keeps P (finish_job machine organization_url agent_name job_id)
    unfolding finish_job
    finish_job-Keeps agent_name job_id =
        Keeps-then _ _ _ (post_for_job-Keeps _ _)
          λ response. Keeps-if _ _ _ _ (Keeps-return _ _) (Keeps-fail _ _)
