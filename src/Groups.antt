-- ===== src/Groups.antt =====
-- internal/service/structs.go: items grouped by equal capability maps. `PendingJobsWrapper` and
-- `RunningPodsWrapper` are two copies of this code, over jobs and over pods.

pub mod Shape
pub mod Counts
pub mod Members
use azure_pipelines_k8s_agen.Prelude.{
  ℕ, ◌+◌, Bool, true, false, List, [], ◌∷◌, ◌++◌, if◌then◌else◌, length,
}
use azure_pipelines_k8s_agen.Text.{Text}
use azure_pipelines_k8s_agen.GoMap.{GoMap, insert}
use azure_pipelines_k8s_agen.GoMap.Same.{deep_equal}
use azure_pipelines_k8s_agen.Capabilities.{
  InexactMatchStringMap, is_inexact_match, get_sorted_stringification_of_map,
}

-- `PendingJobsWithDemands` and `RunningPodsWithCapabilities`
pub record Group (A : Type 0) : Type 0 where
  pub label : InexactMatchStringMap
  pub members : List A

module _ {A : Type 0} where
  -- The loop for an existing entry, which `break`s at the first, and the new entry if there is none.
  unfoldable pub add_member : List (Group A) → InexactMatchStringMap → A → List (Group A)
  add_member [] label item = record { label = label; members = item ∷ [] } ∷ []
  add_member (g ∷ gs) label item =
      if deep_equal g.label label
      then record g { members = g.members ++ item ∷ [] } ∷ gs
      else g ∷ add_member gs label item

  -- The loop over the groups of `GetInexactMatch`, from the map that it has filled so far.
  unfoldable pub matches_onto : GoMap (List A) → List (Group A) → GoMap Text → GoMap (List A)
  matches_onto result [] capabilities = result
  matches_onto result (g ∷ gs) capabilities =
      matches_onto
        (if is_inexact_match g.label capabilities
          then insert result (get_sorted_stringification_of_map g.label) g.members
          else result)
        gs capabilities

  unfoldable pub get_inexact_match : List (Group A) → GoMap Text → GoMap (List A)
  unfolding matches_onto
  get_inexact_match groups capabilities = matches_onto [] groups capabilities

  -- The sum of the lengths, `GetJobCount` and the count of `GetPodCountAndNames`.
  unfoldable pub total : GoMap (List A) → ℕ
  total [] = 0
  total ((k, items) ∷ m) = length items + total m
