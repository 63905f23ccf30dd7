-- ===== src/IdlePods/Safety.antt =====
-- Looking for a pod to terminate keeps to the terms, and so do the pods that it gives back.
use mathlib.Core.HLevel.{Π_prop}
use azure_pipelines_k8s_agen.Prelude.{
  false, refl, Bool, ◌+◌, ◌||◌, leb, if◌then◌else◌, ℕ, true, ◌≡◌, List, [], ◌∷◌, Option, none, some,
  Every, Every-cons, Every-uncons,
}
use azure_pipelines_k8s_agen.Text.{codes, contains_text, text_eq, Text}
use azure_pipelines_k8s_agen.GoMap.{GoMap, insert, erase, has_key-insert, has_key-erase}
use azure_pipelines_k8s_agen.RunningPods.{capabilities_annotation_name}
use azure_pipelines_k8s_agen.Go.{return, Result, ok, err, panic, attempt}
use azure_pipelines_k8s_agen.Kube.{Container, Pod}
use azure_pipelines_k8s_agen.World.{Env}
use azure_pipelines_k8s_agen.World.Monad.{M, update_pod}
use azure_pipelines_k8s_agen.World.Safe.{
  Safe-crash, Safe-not_nil, CanWrite, insert-CanWrite, sound-CanWrite, Terms, Holds, Anything, Safe,
  Safe-return, Safe-call, Safe-attempt, Safe-either, Safe-bind, Safe-then, Safe-now, Safe-weaker,
}
use azure_pipelines_k8s_agen.World.Orderly.{IsOrderly}
use azure_pipelines_k8s_agen.IdlePods.{
  error_text, set_annotation, erase_annotation,
  idle_agent_pod_first_detection_timestamp_annotation_key, Scan, exec_command_in_pod, idle_since,
  on_idle, on_busy, on_stdout, exec_in_agent, scan_pod, scan_pods, scan_map, get_terminateable_pod,
}

abbrev key : Text
key = idle_agent_pod_first_detection_timestamp_annotation_key

-- A pod that is found, if any, is sound.
abbrev pub FoundSound : Terms → Option Pod → Type 0
FoundSound t none = Unit
FoundSound t (some pod) = t.sound pod

-- So are the pods as they stand after the scan: the pod, those of a list, those of a map.
abbrev SeesOne : Terms → Scan Pod → Type 0
SeesOne t scan = FoundSound t scan.found × t.sound scan.seen

abbrev SeesList : Terms → Scan (List Pod) → Type 0
SeesList t scan = FoundSound t scan.found × Every t.sound scan.seen

abbrev pub AllContained : Terms → GoMap (List Pod) → Type 0
AllContained t = Every (λ x. Every t.sound x.1)

pub Contained-prop : (t : Terms) (x : Text × List Pod) → IsProp (Every t.sound x.1)
Contained-prop t x = Π_prop λ pod. Π_prop λ m. t.sound_prop pod

abbrev pub SeesMap : Terms → Scan (GoMap (List Pod)) → Type 0
SeesMap t scan = FoundSound t scan.found × AllContained t scan.seen

module _ {t : Terms} (env : Env) (o : IsOrderly t env) where
  exec_command_in_pod-Safe :
      (namespace name container : Text)
      → Safe t Anything (exec_command_in_pod env namespace name container)
  unfolding exec_command_in_pod
  exec_command_in_pod-Safe namespace name container =
      Safe-then Anything _ _
        (Safe-call Anything _ _ (λ log. o.new_executor log namespace name container) refl)
        λ _. Safe-call Anything _ _ (λ log. o.stream log namespace name container) refl

  -- A failed update is ignored.
  update_ignored :
      (pod : Pod) → CanWrite t pod.annotations → Safe t Anything (attempt (update_pod env pod))
  update_ignored pod h = Safe-weaker _ _ (
      Safe-attempt (λ updated. CanWrite t updated.annotations) _
        (Safe-call _ _ _ (λ log. o.update_pod log pod h) refl))

  -- An agent pod stays one when it is given the annotation or loses it.
  marked : (pod : Pod) (value : Text) → t.sound pod → t.sound (set_annotation pod key value)
  marked pod value h =
      t.annotated pod (insert pod.annotations key value) h
        (has_key-insert pod.annotations key value capabilities_annotation_name)

  cleared : (pod : Pod) → t.sound pod → t.sound (erase_annotation pod key)
  unfolding text_eq
  cleared pod h =
      t.annotated pod (erase pod.annotations key) h
        (has_key-erase pod.annotations key capabilities_annotation_name refl)

  found_if : (b : Bool) (pod : Pod) → t.sound pod → FoundSound t (if b then some pod else none)
  found_if true pod h = h
  found_if false pod h = tt

  module _ (pod : Pod) (period : ℕ) (h : t.sound pod) where
    not_found : Safe t (SeesOne t) (return (record { found = none; seen = pod }))
    not_found = Safe-return _ _ (tt, h)

    on_idle-Safe : (known : Option Text) → Safe t (SeesOne t) (on_idle env pod period known)
    unfolding on_idle
    on_idle-Safe none = Safe-then (SeesOne t) _ _ (Safe-now env) λ now.
        Safe-then (SeesOne t) _ _ (Safe-not_nil pod.annotations (sound-CanWrite t pod h)) λ _.
          Safe-then (SeesOne t) _ _
            (update_ignored _ (insert-CanWrite t pod.annotations key (env.format_time now)))
            λ r. Safe-return (SeesOne t) _ (tt, marked pod _ h)
    on_idle-Safe (some first) = since (env.parse_time first) (o.parse_time first)
      where
        since :
            (r : Result ℕ) → Holds t Anything r → Safe t (SeesOne t) (idle_since env pod period r)
        since (ok first) k =
            Safe-then (SeesOne t) _ _ (Safe-now env)
              λ now. Safe-return (SeesOne t) _ (found_if (leb (first + period) now) pod h, h)
        since (err e) k = not_found
        since panic k = Safe-crash _ k

    on_busy-Safe : Safe t (SeesOne t) (on_busy env pod)
    unfolding on_busy
    on_busy-Safe =
        Safe-either (SeesOne t) _ _ _
          (Safe-then (SeesOne t) _ _
            (update_ignored _ (sound-CanWrite t (erase_annotation pod key) (cleared pod h)))
            λ r. Safe-return (SeesOne t) _ (tt, cleared pod h))
          not_found

    on_stdout-Safe :
        (r : Result Text) → Holds t Anything r → Safe t (SeesOne t) (on_stdout env pod period r)
    unfolding on_stdout
    on_stdout-Safe (ok stdout) k =
        Safe-either (SeesOne t) _ _ _ (on_idle-Safe _)
          (Safe-either (SeesOne t) _ _ _ on_busy-Safe not_found)
    on_stdout-Safe (err e) k = Safe-return (SeesOne t) _ (
      found_if
          (contains_text (codes "container not found") (error_text e)
            || contains_text (codes "cannot exec in a stopped container") (error_text e))
          pod h,
      h,
    )
    on_stdout-Safe panic k = Safe-crash _ k

    exec_in_agent-Safe :
        (cs : List Container)
        → pod.spec.containers ≡ cs
        → Safe t (SeesOne t) (exec_in_agent env pod period cs)
    unfolding exec_in_agent
    exec_in_agent-Safe [] e = Safe-crash _ (t.contained pod h e)
    exec_in_agent-Safe (agent ∷ cs) e =
        Safe-bind (Holds t Anything) (SeesOne t) _ _
          (Safe-attempt Anything _ (exec_command_in_pod-Safe _ _ _)) λ r k. on_stdout-Safe r k

    scan_pod-Safe : Safe t (SeesOne t) (scan_pod env period pod)
    unfolding scan_pod
    scan_pod-Safe =
        Safe-either (SeesOne t) _ _ _ (Safe-return (SeesOne t) _ (h, h)) (exec_in_agent-Safe _ refl)

  -- Stop at the pod that was found, or go on.
  stop_or_go :
      {A : Type 0} (Q : A → Type 0) (found : Option Pod) (go_on stop : M A)
      → Safe t Q go_on
      → Safe t Q stop
      → Safe t Q (elim found [ none ↦ go_on | some _ ↦ stop ])
  stop_or_go Q none go_on stop h k = h
  stop_or_go Q (some pod) go_on stop h k = k

  scan_pods-Safe :
      (period : ℕ) (pods : List Pod)
      → Every t.sound pods
      → Safe t (SeesList t) (scan_pods env period pods)
  unfolding scan_pods
  scan_pods-Safe period [] h = Safe-return (SeesList t) _ (tt, h)
  scan_pods-Safe period (pod ∷ pods) h =
      let (here, rest) = Every-uncons t.sound t.sound_prop pod pods h in
      Safe-bind (SeesOne t) (SeesList t) _ _ (scan_pod-Safe pod period here) λ one (f, k).
        stop_or_go (SeesList t) one.found _ _
          (Safe-bind (SeesList t) (SeesList t) _ _ (scan_pods-Safe period pods rest)
            λ others (fs, ks).
              Safe-return (SeesList t) _
                (fs, Every-cons t.sound t.sound_prop one.seen others.seen k ks))
          (Safe-return (SeesList t) _ (f, Every-cons t.sound t.sound_prop one.seen pods k rest))

  scan_map-Safe :
      (period : ℕ) (m : GoMap (List Pod))
      → AllContained t m
      → Safe t (SeesMap t) (scan_map env period m)
  unfolding scan_map
  scan_map-Safe period [] h = Safe-return (SeesMap t) _ (tt, h)
  scan_map-Safe period ((key, pods) ∷ m) h =
      let (here, rest) = Every-uncons (λ x. Every t.sound x.1) (Contained-prop t) (key, pods) m h in
      Safe-bind (SeesList t) (SeesMap t) _ _ (scan_pods-Safe period pods here) λ one (f, k).
        stop_or_go (SeesMap t) one.found _ _
          (Safe-bind (SeesMap t) (SeesMap t) _ _ (scan_map-Safe period m rest) λ others (fs, ks).
            Safe-return (SeesMap t) _ (
              fs,
              Every-cons (λ x. Every t.sound x.1) (Contained-prop t) (key, one.seen) others.seen k
                  ks,
            ))
          (Safe-return (SeesMap t) _
            (f, Every-cons (λ x. Every t.sound x.1) (Contained-prop t) (key, one.seen) m k rest))

  pub get_terminateable_pod-Safe :
      (pods : GoMap (List Pod)) (period : ℕ)
      → AllContained t pods
      → Safe t (SeesMap t) (get_terminateable_pod env pods period)
  unfolding get_terminateable_pod
  get_terminateable_pod-Safe pods period h =
      Safe-bind (AllContained t) (SeesMap t) _ _
        (Safe-call (AllContained t) _ _ (λ log. o.range_pods log pods h) refl)
        λ ordered k. scan_map-Safe period ordered k
