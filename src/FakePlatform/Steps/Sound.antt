-- ===== src/FakePlatform/Steps/Sound.antt =====
-- In every state that the server reaches, no two jobs have one identifier and no two agents one name.
use azure_pipelines_k8s_agen.Prelude.{
  ℕ, Bool, true, false, ◌||◌, List, [], ◌∷◌, ◌++◌, Option, none, some, ◌≡◌, refl, sym, subst, ◌∙◌,
  ap, arith, ◌==◌, ==_iff, if◌then◌else◌, any, Bool-cases, inl, inr, ◌⊎◌,
}
use azure_pipelines_k8s_agen.Text.{Text, text_eq, text_eq_iff}
use azure_pipelines_k8s_agen.GoMap.{GoMap}
use azure_pipelines_k8s_agen.World.{AzurePipelinesRegisterAgentRequest}
use azure_pipelines_k8s_agen.FakePlatform.{
  Server, Job, Agent, save_job, remove_job, create_pool, add_job, cancel_job, reset, cancelled,
}
use azure_pipelines_k8s_agen.FakePlatform.Handlers.{
  agent_named, remove_agent, assign_job, finish_job, add_agent, list_agents, delete_agent,
  list_jobs, list_pools,
}
use azure_pipelines_k8s_agen.FakePlatform.Steps.{
  Step, pool_created, job_added, job_cancelled, was_reset, job_assigned, job_finished, agent_added,
  agents_listed, agent_deleted, jobs_listed, pools_listed, Reach, at_start, after_step,
}

abbrev pub has_id : ℕ → List Job → Bool
has_id id jobs = any (λ j. j.id == id) jobs

abbrev pub DistinctIds : List Job → Type 0
DistinctIds [] = Unit
DistinctIds (j ∷ jobs) = (has_id j.id jobs ≡ false) × DistinctIds jobs

abbrev pub has_name : Text → List Agent → Bool
has_name name agents = any (λ a. text_eq a.name name) agents

abbrev pub DistinctNames : List Agent → Type 0
DistinctNames [] = Unit
DistinctNames (a ∷ agents) = (has_name a.name agents ≡ false) × DistinctNames agents

pub record IsSound (s : Server) : Type 0 where
  pub distinct_ids : DistinctIds s.jobs
  pub distinct_names : DistinctNames s.agents

has_id-save_job :
    (jobs : List Job) (job : Job) (i : ℕ)
    → has_id i (save_job jobs job) ≡ (job.id == i || has_id i jobs)
unfolding save_job
has_id-save_job [] job i = refl
has_id-save_job (j ∷ jobs) job i =
    ground (arith, has_id-save_job jobs job i, ==_iff job.id j.id, ==_iff job.id i, ==_iff j.id i)

pub save_job-DistinctIds :
    (jobs : List Job) (job : Job) → DistinctIds jobs → DistinctIds (save_job jobs job)
unfolding save_job
save_job-DistinctIds [] job d = (refl, tt)
save_job-DistinctIds (j ∷ jobs) job (h, d) = elim (Bool-cases (job.id == j.id)) [
  | inl e ↦ rw e (ap (λ i. has_id i jobs) ((==_iff job.id j.id).0 e) ∙ h, d)
  | inr e ↦
      rw e (has_id-save_job jobs job j.id ∙ ground (arith, e, h), save_job-DistinctIds jobs job d)
]

-- The jobs that a cancellation leaves.
abbrev left : List Job → ℕ → List Job
left jobs id = elim (remove_job jobs id) [ none ↦ jobs | some jobs' ↦ jobs' ]

left_cons :
    (j : Job) (jobs : List Job) (id : ℕ)
    → left (j ∷ jobs) id ≡ (if j.id == id then jobs else j ∷ left jobs id)
unfolding remove_job
left_cons j jobs id = ground arith

left-has_id : (jobs : List Job) (id i : ℕ) → has_id i jobs ≡ false → has_id i (left jobs id) ≡ false
unfolding remove_job
left-has_id [] id i h = refl
left-has_id (j ∷ jobs) id i h =
    ap (has_id i) (left_cons j jobs id) ∙ ground (arith, left-has_id jobs id i, h)

left-DistinctIds : (jobs : List Job) (id : ℕ) → DistinctIds jobs → DistinctIds (left jobs id)
unfolding remove_job
left-DistinctIds [] id d = tt
left-DistinctIds (j ∷ jobs) id (h, d) =
    subst DistinctIds (sym (left_cons j jobs id)) (elim (Bool-cases (j.id == id)) [
      | inl e ↦ rw e d
      | inr e ↦ rw e (left-has_id jobs id j.id h, left-DistinctIds jobs id d)
    ])

agent_named-has_name :
    (name : Text) (agents : List Agent)
    → has_name name agents ≡ elim (agent_named name agents) [ none ↦ false | some _ ↦ true ]
unfolding agent_named
agent_named-has_name name [] = refl
agent_named-has_name name (a ∷ agents) = ground (arith, agent_named-has_name name agents)

has_name-append :
    (name : Text) (agents : List Agent) (a : Agent)
    → has_name name (agents ++ a ∷ []) ≡ (has_name name agents || text_eq a.name name)
has_name-append name [] a = ground arith
has_name-append name (b ∷ agents) a = ground (arith, has_name-append name agents a)

append-DistinctNames :
    (agents : List Agent) (a : Agent)
    → has_name a.name agents ≡ false
    → DistinctNames agents
    → DistinctNames (agents ++ a ∷ [])
append-DistinctNames [] a h d = (refl, tt)
append-DistinctNames (b ∷ agents) a h (k, d) = (
  ground (
    arith,
    has_name-append b.name agents a,
    k,
    h,
    text_eq_iff a.name b.name,
    text_eq_iff b.name a.name,
  ),
  append-DistinctNames agents a (ground (arith, h)) d,
)

remove_agent-has_name :
    (id : ℕ) (agents : List Agent) (name : Text)
    → has_name name agents ≡ false
    → has_name name (remove_agent id agents) ≡ false
unfolding remove_agent
remove_agent-has_name id [] name h = h
remove_agent-has_name id (a ∷ agents) name h =
    ground (arith, h, remove_agent-has_name id agents name)

remove_agent-DistinctNames :
    (id : ℕ) (agents : List Agent) → DistinctNames agents → DistinctNames (remove_agent id agents)
unfolding remove_agent
remove_agent-DistinctNames id [] d = d
remove_agent-DistinctNames id (a ∷ agents) (h, d) = elim (Bool-cases (a.id == id)) [
  | inl e ↦ rw e d
  | inr e ↦ rw e (remove_agent-has_name id agents a.name h, remove_agent-DistinctNames id agents d)
]

module _ (atoi : Text → Option ℕ) (s : Server) (sound : IsSound s) where
  add_job-IsSound :
      (id pool duration start_delay finish_delay : ℕ) (demands : GoMap Text)
      → IsSound (add_job s id pool duration start_delay finish_delay demands).server
  unfolding add_job
  add_job-IsSound id pool duration start_delay finish_delay demands = record {
    distinct_ids = grind (arith, save_job-DistinctIds s.jobs, sound.distinct_ids);
    distinct_names = grind (arith, sound.distinct_names);
  }

  cancel_job-IsSound : (id : ℕ) → IsSound (cancel_job s id).server
  unfolding cancel_job
  cancel_job-IsSound id = of (remove_job s.jobs id) (left-DistinctIds s.jobs id sound.distinct_ids)
    where
      of :
          (o : Option (List Job))
          → DistinctIds (elim o [ none ↦ s.jobs | some l ↦ l ])
          → IsSound (cancelled s o).server
      of none d = sound
      of (some jobs) d = record { distinct_ids = d; distinct_names = sound.distinct_names }

  assign_job-IsSound :
      (job agent : Text) (header : Text ⊎ GoMap Text)
      → IsSound (assign_job atoi s job agent header).server
  unfolding assign_job
  assign_job-IsSound job agent header = record {
    distinct_ids = grind (arith, save_job-DistinctIds s.jobs, sound.distinct_ids);
    distinct_names = grind (arith, sound.distinct_names);
  }

  finish_job-IsSound : (job agent : Text) → IsSound (finish_job atoi s job agent).server
  unfolding finish_job
  finish_job-IsSound job agent = record {
    distinct_ids = grind (arith, save_job-DistinctIds s.jobs, sound.distinct_ids);
    distinct_names = grind (arith, sound.distinct_names);
  }

  add_agent-IsSound :
      (now : ℕ) (pool : Text) (body : (ℕ × Text) ⊎ AzurePipelinesRegisterAgentRequest)
      → IsSound (add_agent atoi s now pool body).server
  unfolding add_agent
  add_agent-IsSound now pool body = record {
    distinct_ids = grind (arith, sound.distinct_ids);
    distinct_names = grind (
      arith,
      append-DistinctNames s.agents,
      λ (name : Text). agent_named-has_name name s.agents,
      sound.distinct_names,
    );
  }

  list_agents-IsSound : (pool : Text) → IsSound (list_agents atoi s pool).server
  unfolding list_agents
  list_agents-IsSound pool = record {
    distinct_ids = grind (arith, sound.distinct_ids);
    distinct_names = grind (arith, sound.distinct_names);
  }

  delete_agent-IsSound : (pool agent : Text) → IsSound (delete_agent atoi s pool agent).server
  unfolding delete_agent
  delete_agent-IsSound pool agent = record {
    distinct_ids = grind (arith, sound.distinct_ids);
    distinct_names = grind (
      arith,
      λ (id : ℕ). remove_agent-DistinctNames id s.agents sound.distinct_names,
      sound.distinct_names,
    );
  }

  list_jobs-IsSound : (now : Job → ℕ) (pool : Text) → IsSound (list_jobs atoi s now pool).server
  unfolding list_jobs
  list_jobs-IsSound now pool = record {
    distinct_ids = grind (arith, sound.distinct_ids);
    distinct_names = grind (arith, sound.distinct_names);
  }

  list_pools-IsSound : (query : Text) → IsSound (list_pools s query).server
  unfolding list_pools
  list_pools-IsSound query = record {
    distinct_ids = grind (arith, sound.distinct_ids);
    distinct_names = grind (arith, sound.distinct_names);
  }

Step-IsSound : (atoi : Text → Option ℕ) {s t : Server} → IsSound s → Step atoi s t → IsSound t
unfolding create_pool reset
Step-IsSound atoi h (pool_created id name) = record {
  distinct_ids = h.distinct_ids;
  distinct_names = h.distinct_names;
}
Step-IsSound atoi {s} h (job_added id pool duration start_delay finish_delay demands) =
    add_job-IsSound atoi s h id pool duration start_delay finish_delay demands
Step-IsSound atoi {s} h (job_cancelled id) = cancel_job-IsSound atoi s h id
Step-IsSound atoi h was_reset = record { distinct_ids = tt; distinct_names = tt }
Step-IsSound atoi {s} h (job_assigned job agent header) =
    assign_job-IsSound atoi s h job agent header
Step-IsSound atoi {s} h (job_finished job agent) = finish_job-IsSound atoi s h job agent
Step-IsSound atoi {s} h (agent_added now pool body) = add_agent-IsSound atoi s h now pool body
Step-IsSound atoi {s} h (agents_listed pool) = list_agents-IsSound atoi s h pool
Step-IsSound atoi {s} h (agent_deleted pool agent) = delete_agent-IsSound atoi s h pool agent
Step-IsSound atoi {s} h (jobs_listed now pool) = list_jobs-IsSound atoi s h now pool
Step-IsSound atoi {s} h (pools_listed query) = list_pools-IsSound atoi s h query

-- In every state that the server reaches from its start by calls of the tests and by handlers, in
-- any order, no two jobs have one identifier and no two agents have one name.
pub Reach-IsSound : (atoi : Text → Option ℕ) {s : Server} → Reach atoi s → IsSound s
Reach-IsSound atoi at_start = record { distinct_ids = tt; distinct_names = tt }
Reach-IsSound atoi (after_step r step) = Step-IsSound atoi (Reach-IsSound atoi r) step
