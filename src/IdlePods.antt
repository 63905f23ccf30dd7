-- ===== src/IdlePods.antt =====
-- The controller's `execCommandInPod` and `getTerminateablePod`.
pub mod Reasons
pub mod Safety
use azure_pipelines_k8s_agen.Prelude.{
  ℕ, ◌+◌, Bool, true, false, ◌&&◌, ◌||◌, List, [], ◌∷◌, ◌++◌, Option, none, some, leb,
  if◌then◌else◌,
}
use azure_pipelines_k8s_agen.Text.{Text, codes, text_eq, contains_text}
use azure_pipelines_k8s_agen.GoMap.{GoMap, lookup, has_key, insert, erase}
use azure_pipelines_k8s_agen.Go.{
  Result, ok, err, panic, GoError, pvc_exhaustion, message, conflict, Go, not_nil, return, crash,
  lift, attempt, ◌>>=◌, ◌>>◌,
}
use azure_pipelines_k8s_agen.Kube.{Pod, Container}
use azure_pipelines_k8s_agen.World.{Env, Memory, Call}
use azure_pipelines_k8s_agen.World.Monad.{M, call, now, update_pod, range_pods}

abbrev pub idle_agent_pod_first_detection_timestamp_annotation_key : Text
idle_agent_pod_first_detection_timestamp_annotation_key = codes "FirstIdleDetectionTimestamp"

-- `err.Error()`
abbrev pub error_text : GoError → Text
error_text (pvc_exhaustion name) = name
error_text (message why) = why
error_text conflict = codes "conflict error"

-- The pod that can be terminated, if any, and the pods as their annotations stand afterwards: the
-- annotations of a copied pod are the map of the pod itself.
pub record Scan (A : Type 0) : Type 0 where
  pub found : Option Pod
  pub seen : A

abbrev pub set_annotation : Pod → Text → Text → Pod
set_annotation pod key value = record pod { annotations = insert pod.annotations key value }

abbrev pub erase_annotation : Pod → Text → Pod
erase_annotation pod key = record pod { annotations = erase pod.annotations key }

module _ (env : Env) where
  unfoldable pub exec_command_in_pod : Text → Text → Text → M Text
  exec_command_in_pod namespace name container = do
    call (Call.new_executor namespace name container)
        (λ log. env.new_executor log namespace name container)
    call (Call.stream namespace name container) (λ log. env.stream log namespace name container)

  -- The agent is idle, and has no annotation: it gets one; a failed update is ignored.
  first_detection : Pod → M (Scan Pod)
  first_detection pod = do
    t ← now env
    not_nil pod.annotations
    let marked =
        set_annotation pod idle_agent_pod_first_detection_timestamp_annotation_key
          (env.format_time t)
    attempt (update_pod env marked)
    return (record { found = none; seen = marked })

  idle_since : Pod → ℕ → Result ℕ → M (Scan Pod)
  idle_since pod min_idle_period (ok first) = do
    t ← now env
    return
        (record { found = if leb (first + min_idle_period) t then some pod else none; seen = pod })
  idle_since pod min_idle_period (err e) = return (record { found = none; seen = pod })
  idle_since pod min_idle_period panic = crash

  on_idle : Pod → ℕ → Option Text → M (Scan Pod)
  unfolding first_detection idle_since
  on_idle pod min_idle_period none = first_detection pod
  on_idle pod min_idle_period (some first) = idle_since pod min_idle_period (env.parse_time first)

  on_busy : Pod → M (Scan Pod)
  on_busy pod =
      if has_key pod.annotations idle_agent_pod_first_detection_timestamp_annotation_key
      then (do
        let cleared = erase_annotation pod idle_agent_pod_first_detection_timestamp_annotation_key
        attempt (update_pod env cleared)
        return (record { found = none; seen = cleared }))
      else return (record { found = none; seen = pod })

  on_stdout : Pod → ℕ → Result Text → M (Scan Pod)
  unfolding on_idle on_busy
  on_stdout pod min_idle_period (ok stdout) =
      if text_eq stdout (codes "0\n")
      then on_idle pod min_idle_period
          (lookup pod.annotations idle_agent_pod_first_detection_timestamp_annotation_key)
      else if text_eq stdout (codes "1\n")
      then on_busy pod
      else return (record { found = none; seen = pod })
  on_stdout pod min_idle_period (err e) = return (record {
    found =
        if contains_text (codes "container not found") (error_text e)
          || contains_text (codes "cannot exec in a stopped container") (error_text e)
        then some pod
        else none;
    seen = pod;
  })
  on_stdout pod min_idle_period panic = crash

  exec_in_agent : Pod → ℕ → List Container → M (Scan Pod)
  unfolding on_stdout exec_command_in_pod
  exec_in_agent pod min_idle_period [] = crash
  exec_in_agent pod min_idle_period (agent ∷ _) = do
    stdout ← attempt (exec_command_in_pod pod.namespace pod.name agent.name)
    on_stdout pod min_idle_period stdout

  -- The pod is pending and has not been scheduled to a node.
  abbrev pub is_unscheduled : Pod → Bool
  is_unscheduled pod =
      text_eq pod.phase (codes "Pending")
      && elim pod.container_statuses [ none ↦ true | some _ ↦ false ]

  -- The body of the two loops, for one pod.
  unfoldable pub scan_pod : ℕ → Pod → M (Scan Pod)
  unfolding exec_in_agent
  scan_pod min_idle_period pod =
      if is_unscheduled pod
      then return (record { found = some pod; seen = pod })
      else exec_in_agent pod min_idle_period pod.spec.containers

  scan_pods : ℕ → List Pod → M (Scan (List Pod))
  unfolding scan_pod
  scan_pods min_idle_period [] = return (record { found = none; seen = [] })
  scan_pods min_idle_period (pod ∷ pods) = do
    one ← scan_pod min_idle_period pod
    let stop : M (Scan (List Pod)) = return (record { found = one.found; seen = one.seen ∷ pods })
    let go_on : M (Scan (List Pod)) = do
      rest ← scan_pods min_idle_period pods
      return (record { found = rest.found; seen = one.seen ∷ rest.seen })
    elim one.found [ none ↦ go_on | some _ ↦ stop ]

  scan_map : ℕ → GoMap (List Pod) → M (Scan (GoMap (List Pod)))
  unfolding scan_pods
  scan_map min_idle_period [] = return (record { found = none; seen = [] })
  scan_map min_idle_period ((key, pods) ∷ m) = do
    one ← scan_pods min_idle_period pods
    let stop : M (Scan (GoMap (List Pod))) =
        return (record { found = one.found; seen = (key, one.seen) ∷ m })
    let go_on : M (Scan (GoMap (List Pod))) = do
      rest ← scan_map min_idle_period m
      return (record { found = rest.found; seen = (key, one.seen) ∷ rest.seen })
    elim one.found [ none ↦ go_on | some _ ↦ stop ]

  unfoldable pub get_terminateable_pod : GoMap (List Pod) → ℕ → M (Scan (GoMap (List Pod)))
  unfolding scan_map
  get_terminateable_pod pods agent_min_idle_period = do
    ordered ← range_pods env pods
    scan_map agent_min_idle_period ordered
