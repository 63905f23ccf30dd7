-- ===== src/Reconciler/Supply.antt =====
-- Pods that answer demand strings, and how many of them stand under each.
use mathlib.Core.List.{forall_mem-cons}
use native.Mathlib.Bridge.{le_prop}
use azure_pipelines_k8s_agen.Prelude.{
  ℕ, zero, suc, ◌+◌, ◌-◌, ◌≤◌, true, List, [], ◌∷◌, ◌++◌, ◌≡◌, refl, ◌∙◌, ap, arith, length,
  replicate, keep, Every, Bool-cases, inl, inr, if◌then◌else◌,
}
use azure_pipelines_k8s_agen.Text.{Text, text_eq, text_eq_refl}
use azure_pipelines_k8s_agen.GoMap.{GoMap, IsMap, get_or, insert}
use azure_pipelines_k8s_agen.GoMap.Same.{deep_equal}
use azure_pipelines_k8s_agen.Capabilities.{
  InexactMatchStringMap, is_inexact_match, get_sorted_stringification_of_map,
  get_capabilities_map_from_string,
}
use azure_pipelines_k8s_agen.Capabilities.RoundTrip.{from_string-stringification}
use azure_pipelines_k8s_agen.Capabilities.Normal.{from_string-IsMap}
use azure_pipelines_k8s_agen.Capabilities.Order.{stringification-Same}
use azure_pipelines_k8s_agen.Kube.{Pod}
use azure_pipelines_k8s_agen.Groups.{Group, get_inexact_match, matches_onto}
use azure_pipelines_k8s_agen.Groups.Shape.{IsLabel, AllLabels, deep_equal-text_eq}
use azure_pipelines_k8s_agen.PendingJobs.{PendingJob}
use azure_pipelines_k8s_agen.RunningPods.{
  is_kept, capabilities_of, new_running_pods_wrapper, get_filtered_running_pods,
}
use azure_pipelines_k8s_agen.RunningPods.Exact.{pods_under_capabilities, capabilities_of-IsLabel}
use azure_pipelines_k8s_agen.Reconciler.{agents_with_caps_to_create}

-- How many of the demand strings are this one.
abbrev pub occurrences : Text → List Text → ℕ
occurrences d [] = 0
occurrences d (w ∷ ws) = let rest = occurrences d ws in if text_eq w d then suc rest else rest

-- The capabilities of the pod, as its group is labelled.
abbrev written : Pod → Text
written pod = get_sorted_stringification_of_map (capabilities_of pod)

-- For each of the demand strings in turn, a pod that is kept and is grouped under it.
pub data Answers : List Text → List Pod → Type 0 where
  no_more : Answers [] []
  one_more :
      {wanted : List Text} {pods : List Pod} (pod : Pod)
      → is_kept pod ≡ true
      → Answers wanted pods
      → Answers (get_sorted_stringification_of_map (capabilities_of pod) ∷ wanted) (pod ∷ pods)

-- The kept pods that are grouped under the string.
abbrev pub under : Text → List Pod → List Pod
under d pods = keep (λ pod. text_eq (written pod) d) (keep is_kept pods)

pub length-under-append :
    (d : Text) (pods created : List Pod)
    → length (under d (pods ++ created)) ≡ length (under d pods) + length (under d created)
length-under-append d [] created = omega arith
length-under-append d (pod ∷ pods) created = ground (arith, length-under-append d pods created)

pub under-Answers :
    (d : Text) (wanted : List Text) (created : List Pod)
    → Answers wanted created
    → length (under d created) ≡ occurrences d wanted
under-Answers d _ _ no_more = refl
under-Answers d _ _ (one_more pod k a) = ground (arith, k, under-Answers d _ _ a)

pub occurrences-replicate :
    (d : Text) (n : ℕ) (ws : List Text) → occurrences d (replicate n d ++ ws) ≡ n + occurrences d ws
occurrences-replicate d zero ws = omega arith
occurrences-replicate d (suc n) ws = ground (arith, text_eq_refl d, occurrences-replicate d n ws)

pub occurrences-append :
    (d : Text) (vs ws : List Text) → occurrences d ws ≤ occurrences d (vs ++ ws)
occurrences-append d [] ws = omega arith
occurrences-append d (v ∷ vs) ws = ground (arith, occurrences-append d vs ws)

-- Under the demand string, the groups of any pods that match the capabilities have those that are
-- kept and are grouped under it.
abbrev pub IsCounted : GoMap Text → Text → Type 0
IsCounted capabilities d =
    (pods : List Pod)
    → length (
        get_or
          (get_inexact_match (new_running_pods_wrapper (get_filtered_running_pods pods))
            capabilities)
          d [])
      ≡ length (under d pods)

under-labelled :
    (label : InexactMatchStringMap) (pods : List Pod)
    → IsLabel label
    → length (keep (λ pod. deep_equal (capabilities_of pod) label) pods)
      ≡ length (keep (λ pod. text_eq (written pod) (get_sorted_stringification_of_map label)) pods)
under-labelled label [] l = refl
under-labelled label (pod ∷ pods) l = ground (
  arith,
  under-labelled label pods l,
  deep_equal-text_eq (capabilities_of pod) label (capabilities_of-IsLabel pod) l,
)

label-IsCounted :
    (capabilities : GoMap Text) (label : InexactMatchStringMap)
    → IsMap capabilities
    → IsLabel label
    → is_inexact_match label capabilities ≡ true
    → IsCounted capabilities (get_sorted_stringification_of_map label)
label-IsCounted capabilities label c l e pods =
    ap length (pods_under_capabilities pods capabilities label c l ∙ rw e refl)
    ∙ under-labelled label (keep is_kept pods) l

-- Reading the string and writing what has been read gives it back.
abbrev pub IsNormal : Text → Type 0
IsNormal d = get_sorted_stringification_of_map (get_capabilities_map_from_string d) ≡ d

pub IsNormal-prop : (d : Text) → IsProp (IsNormal d)
IsNormal-prop d = hlevel

label-IsNormal :
    (label : InexactMatchStringMap)
    → IsLabel label
    → IsNormal (get_sorted_stringification_of_map label)
label-IsNormal label l =
    stringification-Same
      (get_capabilities_map_from_string (get_sorted_stringification_of_map label)) label
      (from_string-IsMap _) l.is_map (from_string-stringification label l.is_encodable)

abbrev pub IsDemand : GoMap Text → Text → Type 0
IsDemand capabilities d = IsNormal d × IsCounted capabilities d

IsDemand-prop : (capabilities : GoMap Text) (d : Text) → IsProp (IsDemand capabilities d)
IsDemand-prop capabilities d = hlevel

module _ (capabilities : GoMap Text) (c : IsMap capabilities) where
  abbrev pub AllDemands : GoMap (List PendingJob) → Type 0
  AllDemands = Every (λ x. IsDemand capabilities x.0)

  cons-AllDemands :
      (m : GoMap (List PendingJob)) (d : Text) (x : List PendingJob)
      → IsDemand capabilities d
      → AllDemands m
      → AllDemands ((d, x) ∷ m)
  cons-AllDemands m d x h a = (forall_mem-cons (λ x. IsDemand-prop capabilities x.0)).1 (h, a)

  pub uncons-AllDemands :
      (m : GoMap (List PendingJob)) (d : Text) (x : List PendingJob)
      → AllDemands ((d, x) ∷ m)
      → IsDemand capabilities d × AllDemands m
  uncons-AllDemands m d x a = (forall_mem-cons (λ x. IsDemand-prop capabilities x.0)).0 a

  insert-AllDemands :
      (m : GoMap (List PendingJob)) (d : Text) (x : List PendingJob)
      → IsDemand capabilities d
      → AllDemands m
      → AllDemands (insert m d x)
  unfolding insert
  insert-AllDemands [] d x h a = cons-AllDemands [] d x h a
  insert-AllDemands ((k, y) ∷ m) d x h a =
      let (b, bs) = uncons-AllDemands m k y a in
      elim (Bool-cases (text_eq k d)) [
        | inl e ↦ rw e (cons-AllDemands m d x h bs)
        | inr e ↦ rw e (cons-AllDemands _ k y b (insert-AllDemands m d x h bs))
      ]

  pub matches_onto-AllDemands :
      (gs : List (Group PendingJob)) (acc : GoMap (List PendingJob))
      → AllLabels gs
      → AllDemands acc
      → AllDemands (matches_onto acc gs capabilities)
  unfolding matches_onto
  matches_onto-AllDemands [] acc l a = a
  matches_onto-AllDemands (g ∷ gs) acc (l, ls) a =
      elim (Bool-cases (is_inexact_match g.label capabilities)) [
        | inl e ↦ rw e (
            matches_onto-AllDemands gs _ ls (
              insert-AllDemands acc _ g.members
                (label-IsNormal g.label l, label-IsCounted capabilities g.label c l e) a))
        | inr e ↦ rw e (matches_onto-AllDemands gs acc ls a)
      ]

-- Each demand string has as many pods as jobs.
abbrev pub IsMet : GoMap (List Pod) → Text × List PendingJob → Type 0
IsMet pods x = length x.1 ≤ length (get_or pods x.0 [])

pub IsMet-prop : (pods : GoMap (List Pod)) (x : Text × List PendingJob) → IsProp (IsMet pods x)
IsMet-prop pods x = le_prop

pub met-nothing_wanted :
    (pods : GoMap (List Pod)) (m : GoMap (List PendingJob))
    → Every (IsMet pods) m
    → agents_with_caps_to_create pods m ≡ []
unfolding agents_with_caps_to_create
met-nothing_wanted pods [] h = refl
met-nothing_wanted pods ((d, jobs) ∷ m) h =
    let (met, rest) : IsMet pods (d, jobs) × Every (IsMet pods) m =
      (forall_mem-cons (IsMet-prop pods)).0 h in
    let none_missing : length jobs - length (get_or pods d []) ≡ 0 = omega (arith, met) in
    rw none_missing (met-nothing_wanted pods m rest)
