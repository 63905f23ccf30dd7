-- ===== src/AgentPods/Safety.antt =====
-- Listing and deleting pods keeps to the terms.
use azure_pipelines_k8s_agen.Prelude.{
  Every-cons, Every-take, Bool-cases, inl, inr, ◌⊎◌, none, false, Option, ltb, ℕ, true, List, [],
  ◌∷◌, some, ◌≡◌, refl, arith, Every, Every-nil, Every-uncons, keep, Every-append,
}
use azure_pipelines_k8s_agen.Text.{Text}
use azure_pipelines_k8s_agen.Kube.{Pod}
use azure_pipelines_k8s_agen.World.{Env, Log}
use azure_pipelines_k8s_agen.World.Safe.{
  AllowsDeletions, Safe-change, Terms, Given, Holds, Anything, Safe, Safe-return, Safe-call,
  Safe-either, Safe-if, Safe-crash, Safe-bind, Safe-then,
}
use azure_pipelines_k8s_agen.World.Orderly.{IsOrderly, ListsSound, IsEnded, IsEnded-prop}
use azure_pipelines_k8s_agen.World.Monad.{delete_pod}
use azure_pipelines_k8s_agen.AgentPods.{
  start_of, insert_by_start, sort_by_start, is_agent_pod, get_pods_with_phases, all_started,
  can_compare, delete_pods, delete_oldest, delete_terminated_agent_pods,
}

module _ (t : Terms) (env : Env) (P : Pod → Type 0) (prop : (pod : Pod) → IsProp (P pod)) where
  -- The agent pods that are listed in each of the phases have the property.
  abbrev pub ListedIn : Text → Text → List Text → Type 0
  ListedIn namespace owner [] = Unit
  ListedIn namespace owner (phase ∷ phases) =
      ((log : Log)
        → Holds t (λ pods. Every P (keep is_agent_pod pods))
            (env.list_pods log namespace owner (some phase)))
      × ListedIn namespace owner phases

  pub get_pods_with_phases-Safe :
      (namespace owner : Text) (phases : List Text)
      → ListedIn namespace owner phases
      → Safe t (Every P) (get_pods_with_phases env namespace owner phases)
  unfolding get_pods_with_phases
  get_pods_with_phases-Safe namespace owner [] h = Safe-return _ _ (Every-nil P prop)
  get_pods_with_phases-Safe namespace owner (phase ∷ phases) (h, hs) =
      Safe-bind (λ pods. Every P (keep is_agent_pod pods)) _ _ _ (Safe-call _ _ _ h refl)
        λ items k.
          Safe-bind (Every P) _ _ _ (get_pods_with_phases-Safe namespace owner phases hs)
            λ others ks. Safe-return _ _ (Every-append P prop _ _ k ks)

module _ (t : Terms) where
  ended_all_started :
      (pods : List Pod) → Every (IsEnded t) pods → (all_started pods ≡ true) ⊎ t.panics
  unfolding all_started
  ended_all_started [] h = inl refl
  ended_all_started (pod ∷ pods) h =
      let ((sound, here), rest) = Every-uncons (IsEnded t) (IsEnded-prop t) pod pods h in
      of pod.start_time here (ended_all_started pods rest)
    where
      of :
          (o : Option ℕ)
          → Given t o
          → (all_started pods ≡ true) ⊎ t.panics
          → ((elim o [ none ↦ false | some _ ↦ all_started pods ]) ≡ true) ⊎ t.panics
      of none p r = inr p
      of (some n) g r = r

  ended_can_compare :
      (pods : List Pod) → Every (IsEnded t) pods → (can_compare pods ≡ true) ⊎ t.panics
  unfolding can_compare
  ended_can_compare pods h = elim (ended_all_started pods h) [
    | inl e ↦ inl (ground (arith, e))
    | inr p ↦ inr p
  ]

  insert_by_start-Every :
      (pod : Pod) (pods : List Pod)
      → IsEnded t pod
      → Every (IsEnded t) pods
      → Every (IsEnded t) (insert_by_start pod pods)
  unfolding insert_by_start
  insert_by_start-Every pod [] h hs = Every-cons (IsEnded t) (IsEnded-prop t) pod [] h hs
  insert_by_start-Every pod (p ∷ pods) h hs =
      let (here, rest) = Every-uncons (IsEnded t) (IsEnded-prop t) p pods hs in
      elim (Bool-cases (ltb (start_of p) (start_of pod))) [
        | inl e ↦ rw e (
            Every-cons (IsEnded t) (IsEnded-prop t) p _ here
              (insert_by_start-Every pod pods h rest))
        | inr e ↦ rw e (Every-cons (IsEnded t) (IsEnded-prop t) pod (p ∷ pods) h hs)
      ]

  sort_by_start-Every :
      (pods : List Pod) → Every (IsEnded t) pods → Every (IsEnded t) (sort_by_start pods)
  unfolding sort_by_start
  sort_by_start-Every [] h = h
  sort_by_start-Every (pod ∷ pods) h =
      let (here, rest) = Every-uncons (IsEnded t) (IsEnded-prop t) pod pods h in
      insert_by_start-Every pod (sort_by_start pods) here (sort_by_start-Every pods rest)

module _ {t : Terms} (env : Env) (o : IsOrderly t env) (d : AllowsDeletions t) where
  pub delete_pod-Safe : (pod : Pod) → t.sound pod → Safe t Anything (delete_pod env pod)
  delete_pod-Safe pod h =
      Safe-change Anything _ _ (λ log. o.delete_pod log pod) (λ log. d pod log h)

  delete_pods-Safe :
      (pods : List Pod) → Every (IsEnded t) pods → Safe t Anything (delete_pods env pods)
  unfolding delete_pods
  delete_pods-Safe [] h = Safe-return _ _ tt
  delete_pods-Safe (pod ∷ pods) h =
      let (here, rest) = Every-uncons (IsEnded t) (IsEnded-prop t) pod pods h in
      Safe-then _ _ _ (delete_pod-Safe pod here.0) λ _. delete_pods-Safe pods rest

  delete_oldest-Safe :
      (n : ℕ) (pods : List Pod)
      → Every (IsEnded t) pods
      → Safe t Anything (delete_oldest env n pods)
  unfolding delete_oldest
  delete_oldest-Safe n pods h =
      Safe-either Anything _ _ _
        (Safe-if Anything (can_compare pods) _ _
          (λ _.
            delete_pods-Safe _
              (Every-take (IsEnded t) (IsEnded-prop t) _ _ (sort_by_start-Every t pods h)))
          (λ f. Safe-crash Anything (elim (ended_can_compare t pods h) [ inl e ↦ cc | inr p ↦ p ])))
        (Safe-return Anything _ tt)

  pub delete_terminated_agent_pods-Safe :
      (namespace owner : Text) (n : ℕ)
      → ListsSound t env namespace owner
      → Safe t Anything (delete_terminated_agent_pods env namespace owner n)
  unfolding delete_terminated_agent_pods
  delete_terminated_agent_pods-Safe namespace owner n l =
      Safe-bind (Every (IsEnded t)) _ _ _
        (get_pods_with_phases-Safe t env (IsEnded t) (IsEnded-prop t) namespace owner _
          (l.succeeded, (l.failed, tt)))
        λ pods h. delete_oldest-Safe n pods h
