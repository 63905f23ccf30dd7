-- ===== src/Reconciler/Contained.antt =====
-- Running pods that all have a container, as they are grouped, matched and written back.
use mathlib.Core.HLevel.{Π_prop}
use azure_pipelines_k8s_agen.Prelude.{
  List, [], ◌∷◌, Option, none, some, Bool-cases, inl, inr, Every, Every-nil, Every-cons,
  Every-uncons, Every-append,
}
use azure_pipelines_k8s_agen.Text.{Text, text_eq}
use azure_pipelines_k8s_agen.GoMap.{GoMap, lookup, insert}
use azure_pipelines_k8s_agen.GoMap.Same.{deep_equal}
use azure_pipelines_k8s_agen.Capabilities.{InexactMatchStringMap, is_inexact_match}
use azure_pipelines_k8s_agen.Kube.{Pod}
use azure_pipelines_k8s_agen.World.Safe.{Terms}
use azure_pipelines_k8s_agen.Groups.{Group, add_member, matches_onto, get_inexact_match}
use azure_pipelines_k8s_agen.RunningPods.{
  RunningPodsWrapper, is_kept, get_filtered_running_pods, capabilities_of, add_pods,
  new_running_pods_wrapper,
}
use azure_pipelines_k8s_agen.IdlePods.Safety.{AllContained, Contained-prop}
use azure_pipelines_k8s_agen.Reconciler.{write_back}

module _ (t : Terms) where
  abbrev IsContained : Group Pod → Type 0
  IsContained g = Every t.sound g.members

  IsContained-prop : (g : Group Pod) → IsProp (IsContained g)
  IsContained-prop g = Π_prop λ pod. Π_prop λ m. t.sound_prop pod

  -- The pods of every group have a container.
  abbrev pub AllGroups : RunningPodsWrapper → Type 0
  AllGroups = Every (λ (g : Group Pod). Every t.sound g.members)

  cons_group :
      (g : Group Pod) (gs : RunningPodsWrapper) → IsContained g → AllGroups gs → AllGroups (g ∷ gs)
  cons_group = Every-cons IsContained IsContained-prop

  uncons_group :
      (g : Group Pod) (gs : RunningPodsWrapper) → AllGroups (g ∷ gs) → IsContained g × AllGroups gs
  uncons_group = Every-uncons IsContained IsContained-prop

  abbrev OnEntry : Text × List Pod → Type 0
  OnEntry x = Every t.sound x.1

  cons_entry :
      (k : Text) (pods : List Pod) (m : GoMap (List Pod))
      → Every t.sound pods
      → AllContained t m
      → AllContained t ((k, pods) ∷ m)
  cons_entry k pods m = Every-cons OnEntry (Contained-prop t) (k, pods) m

  uncons_entry :
      (k : Text) (pods : List Pod) (m : GoMap (List Pod))
      → AllContained t ((k, pods) ∷ m)
      → Every t.sound pods × AllContained t m
  uncons_entry k pods m = Every-uncons OnEntry (Contained-prop t) (k, pods) m

  -- The filter of the running pods.
  pub filtered-Every :
      (pods : List Pod) → Every t.sound pods → Every t.sound (get_filtered_running_pods pods)
  unfolding get_filtered_running_pods
  filtered-Every [] h = h
  filtered-Every (pod ∷ pods) h =
      let (here, rest) = Every-uncons t.sound t.sound_prop pod pods h in
      elim (Bool-cases (is_kept pod)) [
        | inl e ↦ rw e (Every-cons t.sound t.sound_prop pod _ here (filtered-Every pods rest))
        | inr e ↦ rw e (filtered-Every pods rest)
      ]

  one_pod : (pod : Pod) → t.sound pod → Every t.sound (pod ∷ [])
  one_pod pod h = Every-cons t.sound t.sound_prop pod [] h (Every-nil t.sound t.sound_prop)

  add_member-AllGroups :
      (gs : RunningPodsWrapper) (label : InexactMatchStringMap) (pod : Pod)
      → t.sound pod
      → AllGroups gs
      → AllGroups (add_member gs label pod)
  unfolding add_member
  add_member-AllGroups [] label pod h a = cons_group _ [] (one_pod pod h) a
  add_member-AllGroups (g ∷ gs) label pod h a =
      let (here, rest) = uncons_group g gs a in
      elim (Bool-cases (deep_equal g.label label)) [
        | inl e ↦ rw e (
            cons_group _ gs (Every-append t.sound t.sound_prop g.members _ here (one_pod pod h))
              rest)
        | inr e ↦ rw e (cons_group g _ here (add_member-AllGroups gs label pod h rest))
      ]

  add_pods-AllGroups :
      (gs : RunningPodsWrapper) (pods : List Pod)
      → Every t.sound pods
      → AllGroups gs
      → AllGroups (add_pods gs pods)
  unfolding add_pods
  add_pods-AllGroups gs [] h a = a
  add_pods-AllGroups gs (pod ∷ pods) h a =
      let (here, rest) = Every-uncons t.sound t.sound_prop pod pods h in
      add_pods-AllGroups (add_member gs (capabilities_of pod) pod) pods rest
        (add_member-AllGroups gs (capabilities_of pod) pod here a)

  pub new_running_pods_wrapper-AllGroups :
      (pods : List Pod) → Every t.sound pods → AllGroups (new_running_pods_wrapper pods)
  unfolding new_running_pods_wrapper
  new_running_pods_wrapper-AllGroups pods h =
      add_pods-AllGroups [] pods h (Every-nil IsContained IsContained-prop)

  insert-AllContained :
      (m : GoMap (List Pod)) (k : Text) (pods : List Pod)
      → Every t.sound pods
      → AllContained t m
      → AllContained t (insert m k pods)
  unfolding insert
  insert-AllContained [] k pods h a = cons_entry k pods [] h a
  insert-AllContained ((j, v) ∷ m) k pods h a =
      let (here, rest) = uncons_entry j v m a in
      elim (Bool-cases (text_eq j k)) [
        | inl e ↦ rw e (cons_entry k pods m h rest)
        | inr e ↦ rw e (cons_entry j v _ here (insert-AllContained m k pods h rest))
      ]

  matches_onto-AllContained :
      (gs : RunningPodsWrapper) (m : GoMap (List Pod)) (capabilities : GoMap Text)
      → AllGroups gs
      → AllContained t m
      → AllContained t (matches_onto m gs capabilities)
  unfolding matches_onto
  matches_onto-AllContained [] m capabilities a h = h
  matches_onto-AllContained (g ∷ gs) m capabilities a h =
      let (here, rest) = uncons_group g gs a in
      elim (Bool-cases (is_inexact_match g.label capabilities)) [
        | inl e ↦ rw e (
            matches_onto-AllContained gs _ capabilities rest
              (insert-AllContained m _ g.members here h))
        | inr e ↦ rw e (matches_onto-AllContained gs m capabilities rest h)
      ]

  pub get_inexact_match-AllContained :
      (gs : RunningPodsWrapper) (capabilities : GoMap Text)
      → AllGroups gs
      → AllContained t (get_inexact_match gs capabilities)
  unfolding get_inexact_match
  get_inexact_match-AllContained gs capabilities a =
      matches_onto-AllContained gs [] capabilities a (Every-nil OnEntry (Contained-prop t))

  abbrev Found : Option (List Pod) → Type 0
  Found none = Unit
  Found (some pods) = Every t.sound pods

  lookup-AllContained : (m : GoMap (List Pod)) (k : Text) → AllContained t m → Found (lookup m k)
  unfolding lookup
  lookup-AllContained [] k a = tt
  lookup-AllContained ((j, v) ∷ m) k a =
      let (here, rest) = uncons_entry j v m a in
      elim (Bool-cases (text_eq j k)) [
        | inl e ↦ rw e here
        | inr e ↦ rw e (lookup-AllContained m k rest)
      ]

  -- The group after the lists of its pods has been looked up.
  replaced :
      (g : Group Pod) (o : Option (List Pod))
      → IsContained g
      → Found o
      → IsContained (elim o [ none ↦ g | some pods ↦ record g { members = pods } ])
  replaced g none h k = h
  replaced g (some pods) h k = k

  pub write_back-AllGroups :
      (gs : RunningPodsWrapper) (seen : GoMap (List Pod))
      → AllGroups gs
      → AllContained t seen
      → AllGroups (write_back gs seen)
  unfolding write_back
  write_back-AllGroups [] seen a h = a
  write_back-AllGroups (g ∷ gs) seen a h =
      let (here, rest) = uncons_group g gs a in
      cons_group _ _ (replaced g (lookup seen _) here (lookup-AllContained seen _ h))
        (write_back-AllGroups gs seen rest h)
