-- ===== src/Containers/Safety.antt =====
-- Terminating containers keeps to the terms: the indices that the loops use are in range.
use azure_pipelines_k8s_agen.Prelude.{
  ℕ, suc, ◌+◌, ◌≤◌, true, ◌&&◌, not, List, [], ◌∷◌, ◌++◌, Option, none, some, ◌≡◌, refl, sym, subst,
  ◌∙◌, arith, length, get_elem?, ltb, ◌==◌, ltb→lt, Bool-cases, inl, inr, Every, Every-nil,
  Every-cons, Every-uncons,
}
use azure_pipelines_k8s_agen.Text.{Text, codes}
use azure_pipelines_k8s_agen.Go.{Result, ok, err, panic}
use azure_pipelines_k8s_agen.Kube.{Pod, Container, ContainerStatus}
use azure_pipelines_k8s_agen.World.{Env}
use azure_pipelines_k8s_agen.World.Safe.{
  Terms, CanWrite, insert-CanWrite, sound-CanWrite, Safe-not_nil, Given, Holds, Anything, Safe,
  Safe-return, Safe-lift, Safe-call, Safe-either, Safe-if, Safe-bind, Safe-then,
}
use azure_pipelines_k8s_agen.World.Orderly.{IsOrderly, ListsSound, Given-get_elem}
use azure_pipelines_k8s_agen.RunningPods.{pod_termination_in_progress_annotation_key}
use azure_pipelines_k8s_agen.AgentPods.Safety.{get_pods_with_phases-Safe}
use azure_pipelines_k8s_agen.Containers.Indices.{named_at}
use azure_pipelines_k8s_agen.Containers.{
  statuses, status_index_from, spec_index_from, found_or, get_container_status_index,
  get_container_spec_index, indices_to_terminate, break_at, break_next, break_images,
  status_terminated, mark_terminating, terminate_containers, terminate_finished_pod,
  terminate_finished_pods, terminate_finished_agent_pods,
}

abbrev IsBelow : ℕ → ℕ → Type 0
IsBelow n i = ltb i n ≡ true

IsBelow-prop : (n i : ℕ) → IsProp (IsBelow n i)
IsBelow-prop n i = hlevel

indices-Every :
    (agent n bound : ℕ) (cs : List ContainerStatus)
    → n + length cs ≤ bound
    → Every (IsBelow bound) (indices_to_terminate agent n cs)
unfolding indices_to_terminate
indices-Every agent n bound [] h = Every-nil (IsBelow bound) (IsBelow-prop bound)
indices-Every agent n bound (c ∷ cs) h =
    let rest = indices-Every agent (suc n) bound cs (omega (arith, h)) in
    elim (Bool-cases (not (n == agent) && c.running)) [
      | inl e ↦ rw e (Every-cons (IsBelow bound) (IsBelow-prop bound) n _ (ground (arith, h)) rest)
      | inr e ↦ rw e rest
    ]

module _ (t : Terms) where
  found_or-Holds :
      (why : Text) (o : Option ℕ) (P : ℕ → Type 0)
      → ((i : ℕ) → o ≡ some i → P i)
      → Holds t P (found_or why o)
  unfolding found_or
  found_or-Holds why none P h = t.messages _
  found_or-Holds why (some i) P h = h i refl

  -- The container has a status.
  abbrev HasStatus : Pod → ℕ → Type 0
  HasStatus pod i = Given t (get_elem? (statuses pod) i)

  -- The status that is found for a container of the spec exists.
  status_index-Holds :
      (pod : Pod) (j : ℕ)
      → Given t (get_elem? pod.spec.containers j)
      → Holds t (HasStatus pod) (get_container_status_index pod j)
  unfolding get_container_status_index
  status_index-Holds pod j h = of (get_elem? pod.spec.containers j) h
    where
      of :
          (o : Option Container)
          → Given t o
          → Holds t (HasStatus pod) (elim o [
            | none ↦ panic
            | some c ↦
                found_or
                  (codes
                      "GetContainerStatusIndex(): no container found in pod that has the expected name "
                    ++ c.name)
                  (status_index_from 0 c.name (statuses pod))
          ])
      of none e = e
      of (some c) e = found_or-Holds _ _ _ λ i found.
          let (k, same, d, there, named) = named_at 0 i c.name (statuses pod) found in
          let here : i ≡ k = omega (arith, same) in rw (here, there) tt

  spec_index-Holds :
      (pod : Pod) (i : ℕ) → HasStatus pod i → Holds t Anything (get_container_spec_index pod i)
  unfolding get_container_spec_index
  spec_index-Holds pod i h = of (get_elem? (statuses pod) i) h
    where
      of :
          (o : Option ContainerStatus)
          → Given t o
          → Holds t Anything (elim o [
            | none ↦ panic
            | some c ↦
                found_or
                  (codes
                      "GetContainerSpecIndex(): none of the containers in the spec have the name "
                    ++ (c.name ++ codes " (should never happen!!)"))
                  (spec_index_from 0 c.name pod.spec.containers)
          ])
      of none e = e
      of (some c) e = found_or-Holds _ _ Anything (λ i _. tt)

  terminated-Holds :
      (l : List ContainerStatus) (i : ℕ)
      → Given t (get_elem? l i)
      → Holds t Anything (status_terminated l i)
  terminated-Holds l i h = of (get_elem? l i) h
    where
      of :
          (o : Option ContainerStatus)
          → Given t o
          → Holds t Anything (elim o [ none ↦ panic | some c ↦ ok c.terminated ])
      of none e = e
      of (some c) e = tt

  -- The statuses and the annotations are those of the pod.
  abbrev KeepsRest : Pod → Pod → Type 0
  KeepsRest pod pod' = pod'.annotations ≡ pod.annotations

  abbrev KeepsBoth : Pod → Pod → Type 0
  KeepsBoth pod pod' = (statuses pod' ≡ statuses pod) × KeepsRest pod pod'

  break_at-Holds :
      (pod : Pod) (i : ℕ) (r : Result ℕ)
      → Holds t Anything r
      → Holds t (KeepsBoth pod) (break_at pod i r)
  unfolding break_at
  break_at-Holds pod i (ok j) h = (refl, refl)
  break_at-Holds pod i (err e) h = h
  break_at-Holds pod i panic h = h

  break_next-Holds :
      (pod : Pod) (rest : Pod → Result Pod) (r : Result Pod)
      → Holds t (KeepsBoth pod) r
      → ((pod' : Pod) → KeepsBoth pod pod' → Holds t (KeepsRest pod) (rest pod'))
      → Holds t (KeepsRest pod) (break_next rest r)
  unfolding break_next
  break_next-Holds pod rest (ok pod') h k = k pod' h
  break_next-Holds pod rest (err e) h k = h
  break_next-Holds pod rest panic h k = h

  still :
      (pod pod' : Pod) (r : Result Pod)
      → KeepsRest pod pod'
      → Holds t (KeepsRest pod') r
      → Holds t (KeepsRest pod) r
  still pod pod' (ok b) e h = h ∙ e
  still pod pod' (err x) e h = h
  still pod pod' panic e h = h

  break_images-Holds :
      (l : List ContainerStatus) (is : List ℕ) (pod : Pod)
      → statuses pod ≡ l
      → Every (IsBelow (length l)) is
      → Holds t (KeepsRest pod) (break_images pod is)
  unfolding break_images
  break_images-Holds l [] pod e h = refl
  break_images-Holds l (i ∷ is) pod e h =
      let (here, later) = Every-uncons (IsBelow (length l)) (IsBelow-prop (length l)) i is h in
      break_next-Holds pod _ _
        (break_at-Holds pod i _
          (spec_index-Holds pod i (rw e (Given-get_elem t l i (inl (ltb→lt i (length l) here))))))
        λ pod' (e', a).
          still pod pod' (break_images pod' is) a (break_images-Holds l is pod' (e' ∙ e) later)

module _ {t : Terms} (env : Env) (o : IsOrderly t env) where
  mark_terminating-Safe :
      (pod : Pod) (indices : List ℕ)
      → CanWrite t pod.annotations
      → Every (IsBelow (length (statuses pod))) indices
      → Safe t Anything (mark_terminating env pod indices)
  unfolding mark_terminating
  mark_terminating-Safe pod indices a h =
      Safe-bind (KeepsRest t pod) Anything _ _
        (Safe-lift (KeepsRest t pod) _ (break_images-Holds t (statuses pod) indices pod refl h))
        λ broken same.
          Safe-bind (λ updated. CanWrite t updated.annotations) Anything _ _
            (Safe-call _ _ _ (λ log. o.update_pod log broken (subst (CanWrite t) (sym same) a))
              refl)
            λ updated k. Safe-then Anything _ _ (Safe-not_nil updated.annotations k) λ _.
              Safe-bind (λ updated. CanWrite t updated.annotations) Anything _ _
                (Safe-call _ _ _
                  (λ log. o.update_pod log _ (
                    insert-CanWrite t updated.annotations pod_termination_in_progress_annotation_key
                      (codes "1")))
                  refl)
                λ _ _. Safe-return Anything _ tt

  terminate_containers-Safe :
      (pod : Pod) (indices : List ℕ)
      → CanWrite t pod.annotations
      → Every (IsBelow (length (statuses pod))) indices
      → Safe t Anything (terminate_containers env pod indices)
  unfolding terminate_containers
  terminate_containers-Safe pod [] a h = Safe-return Anything _ tt
  terminate_containers-Safe pod (i ∷ is) a h =
      Safe-either Anything _ _ _ (Safe-return Anything _ tt)
        (mark_terminating-Safe pod (i ∷ is) a h)

  terminate_finished_pod-Safe :
      (pod : Pod) → CanWrite t pod.annotations → Safe t Anything (terminate_finished_pod env pod)
  unfolding terminate_finished_pod
  terminate_finished_pod-Safe pod a =
      Safe-if Anything (ltb 1 (length pod.spec.containers)) _ _
        (λ many.
          Safe-bind (HasStatus t pod) Anything _ _
            (Safe-lift (HasStatus t pod) _ (
              status_index-Holds t pod 0
                (Given-get_elem t pod.spec.containers 0 (inl (ground (arith, many))))))
            λ agent h.
              Safe-then Anything _ _
                (Safe-lift Anything _ (terminated-Holds t (statuses pod) agent h))
                λ terminated.
                  Safe-either Anything _ _ _
                    (terminate_containers-Safe pod _ a
                      (indices-Every agent 0 _ (statuses pod) (omega arith)))
                    (Safe-return Anything _ tt))
        (λ _. Safe-return Anything _ tt)

  terminate_finished_pods-Safe :
      (pods : List Pod) → Every t.sound pods → Safe t Anything (terminate_finished_pods env pods)
  unfolding terminate_finished_pods
  terminate_finished_pods-Safe [] h = Safe-return Anything _ tt
  terminate_finished_pods-Safe (pod ∷ pods) h =
      let (here, rest) = Every-uncons t.sound t.sound_prop pod pods h in
      Safe-then Anything _ _ (terminate_finished_pod-Safe pod (sound-CanWrite t pod here))
        λ _. terminate_finished_pods-Safe pods rest

  pub terminate_finished_agent_pods-Safe :
      (namespace owner : Text)
      → ListsSound t env namespace owner
      → Safe t Anything (terminate_finished_agent_pods env namespace owner)
  unfolding terminate_finished_agent_pods
  terminate_finished_agent_pods-Safe namespace owner l =
      Safe-bind (Every t.sound) Anything _ _
        (get_pods_with_phases-Safe t env t.sound t.sound_prop namespace owner _
          (λ log. l.listed log _, tt))
        λ pods h. terminate_finished_pods-Safe pods h
