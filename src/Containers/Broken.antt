-- ===== src/Containers/Broken.antt =====
-- Which containers of a finished pod are given an image that does not exist.
use azure_pipelines_k8s_agen.Prelude.{
  ℕ, suc, ◌+◌, Bool, true, false, ◌&&◌, ◌<◌, ltb, length, not, List, [], ◌∷◌, ◌++◌, some, ◌≡◌, refl,
  sym, ◌∙◌, ap, arith, get_elem?, Bool-cases, inl, inr, map, if◌then◌else◌,
}
use azure_pipelines_k8s_agen.Text.{codes}
use azure_pipelines_k8s_agen.Go.{not_nil, return, lift, ◌>>=◌, ◌>>◌, Result, ok}
use azure_pipelines_k8s_agen.Kube.{Pod, Container, ContainerStatus}
use azure_pipelines_k8s_agen.World.{Env}
use azure_pipelines_k8s_agen.World.Monad.{M, call, update_pod}
use azure_pipelines_k8s_agen.GoMap.{insert, has_key}
use azure_pipelines_k8s_agen.RunningPods.{pod_termination_in_progress_annotation_key}
use azure_pipelines_k8s_agen.Containers.{
  statuses, found_or, get_container_spec_index, get_container_status_index, status_terminated,
  mark_terminating, terminate_containers, terminate_finished_pod, indices_to_terminate, set_image,
  break_at, break_next, break_images, image_at, non_existent_container_image_suffix,
}
use azure_pipelines_k8s_agen.Containers.Indices.{DistinctNames}
use azure_pipelines_k8s_agen.Containers.Images.{
  DistinctStatuses, AllInSpec, has_name, broken, renamed, with_containers, is_to_terminate, locate,
  DistinctNames-renamed, AllInSpec-renamed, broken-set, broken-kept, broken-nil,
}

-- One turn of the loop, at a status that is that of a container of the spec.
break_at_lem :
    (pod : Pod) (i : ℕ) (s : ContainerStatus)
    → DistinctNames pod.spec.containers
    → has_name s.name pod.spec.containers ≡ true
    → get_elem? (statuses pod) i ≡ some s
    → break_at pod i (get_container_spec_index pod i)
      ≡ ok (
          with_containers pod (
            map
              (renamed s.name (s.image ++ non_existent_container_image_suffix))
              pod.spec.containers))
unfolding break_at get_container_spec_index found_or
break_at_lem pod i s d h at =
    let (k, found, set) = locate 0 s.name pod.spec.containers d h in
    let spec_index : get_container_spec_index pod i ≡ ok k =
      rw (get_container_spec_index, at, found) (ap ok (omega arith)) in
    let image : image_at (statuses pod) i ≡ s.image = rw (image_at, at) refl in
    ap (break_at pod i) spec_index
    ∙ ap
        (λ x. ok (
          with_containers pod
            (set_image pod.spec.containers k (x ++ non_existent_container_image_suffix))))
        image
    ∙ ap (λ cs. ok (with_containers pod cs)) (set (s.image ++ non_existent_container_image_suffix))

module _ (agent : ℕ) where
  break_rest :
      (ss : List ContainerStatus) (i : ℕ) (pod : Pod)
      → DistinctNames pod.spec.containers
      → DistinctStatuses ss
      → AllInSpec pod.spec.containers ss
      → ((k : ℕ) → get_elem? (statuses pod) (i + k) ≡ get_elem? ss k)
      → break_images pod (indices_to_terminate agent i ss)
        ≡ ok (with_containers pod (map (broken agent i ss) pod.spec.containers))
  unfolding break_images indices_to_terminate break_next
  break_rest [] i pod d ds known at =
      ap (λ cs. ok (with_containers pod cs)) (sym (broken-nil agent i pod.spec.containers))
  break_rest (s ∷ ss) i pod d (n, ds) (h, hs) at = elim (Bool-cases (is_to_terminate agent i s)) [
    | inl t ↦
        let image = s.image ++ non_existent_container_image_suffix in
        let pod' = with_containers pod (map (renamed s.name image) pod.spec.containers) in
        rw t (
          ap (break_next (λ p. break_images p (indices_to_terminate agent (suc i) ss)))
            (break_at_lem pod i s d h (here))
          ∙ break_rest ss (suc i) pod' (DistinctNames-renamed s.name image pod.spec.containers d) ds
              (AllInSpec-renamed s.name image pod.spec.containers ss hs) later
          ∙ ap (λ cs. ok (with_containers pod cs))
              (broken-set agent i s ss pod.spec.containers n t))
    | inr f ↦ rw f (
        break_rest ss (suc i) pod d ds hs later
        ∙ ap (λ cs. ok (with_containers pod cs)) (broken-kept agent i s ss pod.spec.containers n f))
  ]
    where
      here : get_elem? (statuses pod) i ≡ some s
      here = ap (get_elem? (statuses pod)) (omega arith) ∙ at 0

      later : (k : ℕ) → get_elem? (statuses pod) (suc i + k) ≡ get_elem? ss k
      later k = ap (get_elem? (statuses pod)) (omega arith) ∙ at (suc k)

-- Whether a running container is left besides the agent's.
abbrev pub is_any_running : ℕ → List ContainerStatus → Bool
is_any_running agent ss = elim (indices_to_terminate agent 0 ss) [ [] ↦ false | _ ∷ _ ↦ true ]

module _ (env : Env) where
  -- An update of the pod, and a second one that sets the annotation of what the first one answers,
  -- which panics where that has no annotations.
  abbrev pub update_and_annotate : Pod → M (Unit {0})
  update_and_annotate pod = do
    updated ← update_pod env pod
    not_nil updated.annotations
    update_pod env (record updated {
      annotations =
          insert updated.annotations pod_termination_in_progress_annotation_key (codes "1");
    })
    return tt

  terminate_containers_lem :
      (pod : Pod) (agent : ℕ) (is : List ℕ) (cs : List Container)
      → break_images pod is ≡ ok (with_containers pod cs)
      → terminate_containers env pod is ≡ (
          if (elim is [ [] ↦ false | _ ∷ _ ↦ true ])
            && not (has_key pod.annotations pod_termination_in_progress_annotation_key)
          then update_and_annotate (with_containers pod cs)
          else return tt)
  unfolding terminate_containers mark_terminating lift ◌>>=◌ return call
  terminate_containers_lem pod agent [] cs e = refl
  terminate_containers_lem pod agent (i ∷ is) cs e =
      elim (Bool-cases (has_key pod.annotations pod_termination_in_progress_annotation_key)) [
        | inl t ↦ rw t refl
        | inr f ↦ rw (f, e) refl
      ]

  if_terminated :
      (m : M (Unit {0})) (r : Result Bool)
      → r ≡ ok true
      → (lift r >>= λ terminated. if terminated then m else return tt) ≡ m
  unfolding ◌>>=◌ lift
  if_terminated m r e = rw e refl

  -- A pod with several containers whose agent's container has terminated, where no two containers
  -- and no two statuses have one name and every status is that of a container: if another container
  -- is running and the pod has not been annotated, the pod is updated such that the image of each
  -- running container other than the agent's, and nothing else, has become one that does not exist,
  -- and then, where the answer to that update has annotations, annotated by a second one, a panic
  -- otherwise; if not, nothing is done.
  pub terminate_finished_pod_lem :
      (pod : Pod) (agent : ℕ)
      → DistinctNames pod.spec.containers
      → DistinctStatuses (statuses pod)
      → AllInSpec pod.spec.containers (statuses pod)
      → 1 < length pod.spec.containers
      → get_container_status_index pod 0 ≡ ok agent
      → status_terminated (statuses pod) agent ≡ ok true
      → terminate_finished_pod env pod ≡ (
          if is_any_running agent (statuses pod)
            && not (has_key pod.annotations pod_termination_in_progress_annotation_key)
          then update_and_annotate
              (with_containers pod (map (broken agent 0 (statuses pod)) pod.spec.containers))
          else return tt)
  unfolding terminate_finished_pod ◌>>=◌ lift
  terminate_finished_pod_lem pod agent d ds known several at terminated =
      rw (several_true, at)
        (if_terminated (terminate_containers env pod (indices_to_terminate agent 0 (statuses pod)))
            (status_terminated (statuses pod) agent) terminated
          ∙ terminate_containers_lem pod agent (indices_to_terminate agent 0 (statuses pod)) _ (
              break_rest agent (statuses pod) 0 pod d ds known
                (λ k. ap (get_elem? (statuses pod)) (omega arith))))
    where
      several_true : ltb 1 (length pod.spec.containers) ≡ true
      several_true = ground (arith, several)
