-- ===== src/IdlePods/Reasons.antt =====
-- Why a pod is chosen by `getTerminateablePod`.
use azure_pipelines_k8s_agen.Prelude.{
  ℕ, ◌+◌, ◌≤◌, Bool, true, false, ◌||◌, List, [], ◌∷◌, Option, none, some, ◌≡◌, refl, sym, subst,
  leb→le, if◌then◌else◌,
}
use azure_pipelines_k8s_agen.Text.{Text, codes, text_eq, contains_text}
use azure_pipelines_k8s_agen.GoMap.{GoMap, lookup, has_key}
use azure_pipelines_k8s_agen.Go.{Result, ok, err, panic, GoError, attempt, after, ◌>>=◌}
use azure_pipelines_k8s_agen.Kube.{Container, Pod}
use azure_pipelines_k8s_agen.World.{Env, Call, Log, Memory}
use azure_pipelines_k8s_agen.World.Monad.{M, call}
use azure_pipelines_k8s_agen.World.Gives.{
  Gives, Gives-return, Gives-crash, Gives-call, Gives-if, Gives-any, Gives-then,
}
use azure_pipelines_k8s_agen.IdlePods.{
  Scan, error_text, is_unscheduled, exec_command_in_pod, idle_since, on_idle, on_busy, on_stdout,
  exec_in_agent, scan_pod, scan_pods, scan_map, get_terminateable_pod,
  idle_agent_pod_first_detection_timestamp_annotation_key,
}

-- What the world answered to the command that was sent to a container.
pub data Answer (env : Env) (pod : Pod) (c : Container) : Result Text → Type 0 where
  refused :
      (log : Log) {e : GoError}
      → env.new_executor log pod.namespace pod.name c.name ≡ err e
      → Answer env pod c (err e)
  streamed :
      (log : Log) {r : Result Text}
      → env.stream log pod.namespace pod.name c.name ≡ r
      → Answer env pod c r

-- The grounds on which a pod may be terminated.
pub data Reason (env : Env) (period : ℕ) (pod : Pod) : Type 0 where
  not_scheduled : is_unscheduled env pod ≡ true → Reason env period pod
  long_idle :
      (agent : Container) (others : List Container) (stdout first : Text) (since : ℕ) (log : Log)
      → pod.spec.containers ≡ agent ∷ others
      → Answer env pod agent (ok stdout)
      → text_eq stdout (codes "0\n") ≡ true
      → lookup pod.annotations idle_agent_pod_first_detection_timestamp_annotation_key ≡ some first
      → env.parse_time first ≡ ok since
      → since + period ≤ env.now log
      → Reason env period pod
  stopped :
      (agent : Container) (others : List Container) (e : GoError)
      → pod.spec.containers ≡ agent ∷ others
      → Answer env pod agent (err e)
      → (contains_text (codes "container not found") (error_text e)
          || contains_text (codes "cannot exec in a stopped container") (error_text e))
        ≡ true
      → Reason env period pod

-- What a scan has found, if anything, may be terminated.
Explained : (env : Env) (period : ℕ) {A : Type 0} → Scan A → Type 0
Explained env period scan = (p : Pod) → scan.found ≡ some p → Reason env period p

module _ (env : Env) (period : ℕ) where
  -- Nothing is found.
  Explained-none : {A : Type 0} (a : A) → Explained env period (record { found = none; seen = a })
  unfolding Explained
  Explained-none a p e = absurd cc

  Explained-some :
      {A : Type 0} (a : A) (pod : Pod)
      → Reason env period pod
      → Explained env period (record { found = some pod; seen = a })
  unfolding Explained
  Explained-some a pod h p e = let same : pod ≡ p = cc in subst (Reason env period) same h

  Explained-if :
      {A : Type 0} (a : A) (b : Bool) (pod : Pod)
      → (b ≡ true → Reason env period pod)
      → Explained env period (record { found = if b then some pod else none; seen = a })
  Explained-if a true pod h = Explained-some a pod (h refl)
  Explained-if a false pod h = Explained-none a

  streamed_answer :
      (pod : Pod) (c : Container) (x : Result Text × Memory) (log : Log) (s : Memory)
      (r : Result Text)
      → env.stream log pod.namespace pod.name c.name ≡ x.0
      → (attempt (λ _. x) s).0 ≡ ok r
      → Answer env pod c r
  unfolding attempt
  streamed_answer pod c (ok t, s') log s r h p =
      let same : ok t ≡ r = cc in subst (Answer env pod c) same (streamed log h)
  streamed_answer pod c (err e, s') log s r h p =
      let same : err e ≡ r = cc in subst (Answer env pod c) same (streamed log h)
  streamed_answer pod c (panic, s') log s r h p = absurd cc

  executor_answer :
      (pod : Pod) (c : Container) (x : Result (Unit {0})) (log : Log) (s s' : Memory)
      (r : Result Text)
      → env.new_executor log pod.namespace pod.name c.name ≡ x
      → (attempt
          (λ _.
            after x
              (λ _.
                call
                  (Call.stream pod.namespace pod.name c.name)
                  (λ log. env.stream log pod.namespace pod.name c.name))
              s')
          s).0
        ≡ ok r
      → Answer env pod c r
  unfolding attempt call
  executor_answer pod c (ok _) log s s' r h p = streamed_answer pod c _ s'.log s r refl p
  executor_answer pod c (err e) log s s' r h p =
      let same : err e ≡ r = cc in subst (Answer env pod c) same (refused log h)
  executor_answer pod c panic log s s' r h p = absurd cc

  exec-Answer :
      (pod : Pod) (c : Container)
      → Gives (Answer env pod c) (attempt (exec_command_in_pod env pod.namespace pod.name c.name))
  unfolding attempt exec_command_in_pod ◌>>=◌ call
  exec-Answer pod c = record { value = λ s r p. executor_answer pod c _ s.log s _ r refl p }

  on_idle-Explained :
      (pod : Pod) (o : Option Text)
      → lookup pod.annotations idle_agent_pod_first_detection_timestamp_annotation_key ≡ o
      → ((first : Text) (t : ℕ) (log : Log)
          → o ≡ some first
          → env.parse_time first ≡ ok t
          → t + period ≤ env.now log
          → Reason env period pod)
      → Gives (Explained env period) (on_idle env pod period o)
  unfolding on_idle
  on_idle-Explained pod none eq k = Gives-then _ _ _ _ (Gives-any _) λ t _.
      Gives-then _ _ _ _ (Gives-any _)
        λ _ _. Gives-then _ _ _ _ (Gives-any _) λ r _. Gives-return _ _ (Explained-none _)
  on_idle-Explained pod (some first) eq k = since (env.parse_time first) refl
    where
      since :
          (r : Result ℕ)
          → env.parse_time first ≡ r
          → Gives (Explained env period) (idle_since env pod period r)
      since (ok t) h =
          Gives-then (λ t'. (log : Log) × (env.now log ≡ t')) _ _ _
            (Gives-call _ _ _ λ log a p. (log, cc))
            λ t' known. Gives-return _ _ (
              Explained-if _ _ _ λ late.
                k first t known.0 refl h
                  (subst (λ n. t + period ≤ n) (sym known.1) (leb→le (t + period) t' late)))
      since (err e) h = Gives-return _ _ (Explained-none _)
      since panic h = Gives-crash _

  on_busy-Explained : (pod : Pod) → Gives (Explained env period) (on_busy env pod)
  unfolding on_busy
  on_busy-Explained pod =
      Gives-if _ (has_key pod.annotations idle_agent_pod_first_detection_timestamp_annotation_key) _
        _ (λ _. Gives-then _ _ _ _ (Gives-any _) λ r _. Gives-return _ _ (Explained-none _))
        (λ _. Gives-return _ _ (Explained-none _))

  on_stdout-Explained :
      (pod : Pod) (agent : Container) (others : List Container) (r : Result Text)
      → pod.spec.containers ≡ agent ∷ others
      → Answer env pod agent r
      → Gives (Explained env period) (on_stdout env pod period r)
  unfolding on_stdout
  on_stdout-Explained pod agent others (ok stdout) e a =
      Gives-if _ _ _ _
        (λ zero_jobs.
          on_idle-Explained pod _ refl
            λ first t log found. long_idle agent others stdout first t log e a zero_jobs found)
        (λ _.
          Gives-if _ (text_eq stdout (codes "1\n")) _ _ (λ _. on_busy-Explained pod)
            (λ _. Gives-return _ _ (Explained-none _)))
  on_stdout-Explained pod agent others (err x) e a =
      Gives-return _ _ (Explained-if _ _ _ (stopped agent others x e a))
  on_stdout-Explained pod agent others panic e a = Gives-crash _

  exec_in_agent-Explained :
      (pod : Pod) (cs : List Container)
      → pod.spec.containers ≡ cs
      → Gives (Explained env period) (exec_in_agent env pod period cs)
  unfolding exec_in_agent
  exec_in_agent-Explained pod [] e = Gives-crash _
  exec_in_agent-Explained pod (agent ∷ cs) e =
      Gives-then _ _ _ _ (exec-Answer pod agent) λ r a. on_stdout-Explained pod agent cs r e a

  scan_pod-Explained : (pod : Pod) → Gives (Explained env period) (scan_pod env period pod)
  unfolding scan_pod
  scan_pod-Explained pod =
      Gives-if _ _ _ _ (λ e. Gives-return _ _ (Explained-some _ pod (not_scheduled e)))
        (λ _. exec_in_agent-Explained pod _ refl)

  either_way :
      {A : Type 0} (o : Option Pod) (go_on stop : M (Scan A))
      → Gives (Explained env period) go_on
      → Gives (Explained env period) stop
      → Gives (Explained env period) (elim o [ none ↦ go_on | some _ ↦ stop ])
  either_way none go_on stop h h' = h
  either_way (some pod) go_on stop h h' = h'

  scan_pods-Explained : (pods : List Pod) → Gives (Explained env period) (scan_pods env period pods)
  unfolding scan_pods Explained
  scan_pods-Explained [] = Gives-return _ _ (Explained-none {A = List Pod} [])
  scan_pods-Explained (pod ∷ pods) = Gives-then _ _ _ _ (scan_pod-Explained pod) λ one known.
      either_way one.found _ _
        (Gives-then _ _ _ _ (scan_pods-Explained pods) λ rest k. Gives-return _ _ k)
        (Gives-return _ _ known)

  scan_map-Explained : (m : GoMap (List Pod)) → Gives (Explained env period) (scan_map env period m)
  unfolding scan_map Explained
  scan_map-Explained [] = Gives-return _ _ (Explained-none {A = GoMap (List Pod)} [])
  scan_map-Explained ((key, pods) ∷ m) = Gives-then _ _ _ _ (scan_pods-Explained pods) λ one known.
      either_way one.found _ _
        (Gives-then _ _ _ _ (scan_map-Explained m) λ rest k. Gives-return _ _ k)
        (Gives-return _ _ known)

  -- A pod that is found to be terminated is pending and not scheduled, or its agent answered that it
  -- has no job and its annotation tells a first detection that is the minimum period ago at the
  -- clock, or the command failed since its container is gone or stopped.
  pub get_terminateable_pod-Reason :
      (pods : GoMap (List Pod)) (s : Memory) (scan : Scan (GoMap (List Pod))) (p : Pod)
      → (get_terminateable_pod env pods period s).0 ≡ ok scan
      → scan.found ≡ some p
      → Reason env period p
  unfolding get_terminateable_pod Explained
  get_terminateable_pod-Reason pods s scan p = λ e.
      (Gives-then _ _ _ _ (Gives-any _) λ ordered _. scan_map-Explained ordered).value s scan e p
