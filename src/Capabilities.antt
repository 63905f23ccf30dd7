-- ===== src/Capabilities.antt =====
-- internal/service/structs.go and utils.go: capability maps, how they are compared and how they are
-- written into a string and read back.
pub mod Match
pub mod RoundTrip
pub mod Order
pub mod Normal
use azure_pipelines_k8s_agen.Prelude.{
  Bool, true, false, ◌&&◌, ◌||◌, List, [], ◌∷◌, ◌++◌, map, Option, none, some, if◌then◌else◌,
}
use azure_pipelines_k8s_agen.Text.{Text, codes, text_eq, split, cut, join}
use azure_pipelines_k8s_agen.Text.Sort.{sort}
use azure_pipelines_k8s_agen.GoMap.{GoMap, keys, lookup, insert, get_or}

abbrev pub extra_agent_containers_annotation_key : Text
extra_agent_containers_annotation_key = codes "ExtraAgentContainers"

abbrev pub InexactMatchStringMap : Type 0
InexactMatchStringMap = GoMap Text

-- The first loop: every entry of `input` is in `m`.
unfoldable pub input_in : InexactMatchStringMap → GoMap Text → Bool
input_in m [] = true
input_in m ((k, v) ∷ input) = text_eq (get_or m k []) v && input_in m input

-- The second loop: every entry of `m`, but the one for extra containers, is in `input`.
unfoldable pub in_input : InexactMatchStringMap → GoMap Text → Bool
in_input [] input = true
in_input ((k, v) ∷ m) input =
    let rest = in_input m input in
    if text_eq k extra_agent_containers_annotation_key
    then rest
    else text_eq (get_or input k []) v && rest

unfoldable pub is_inexact_match : InexactMatchStringMap → GoMap Text → Bool
unfolding input_in in_input
is_inexact_match m input = input_in m input && in_input m input

abbrev pair_text : Text → Text → Text
pair_text key value = key ++ (codes "=" ++ value)

abbrev pair_texts : GoMap Text → List Text → List Text
pair_texts m [] = []
pair_texts m (key ∷ rest) = pair_text key (get_or m key []) ∷ pair_texts m rest

unfoldable pub get_sorted_stringification_of_capabilities_map : GoMap Text → Text
get_sorted_stringification_of_capabilities_map m = join (codes ";") (pair_texts m (sort (keys m)))

abbrev pub get_sorted_stringification_of_map : InexactMatchStringMap → Text
get_sorted_stringification_of_map m = get_sorted_stringification_of_capabilities_map m

add_pair : GoMap Text → Option (Text × Text) → GoMap Text
add_pair m none = m
add_pair m (some (key, value)) = insert m key value

add_pairs : GoMap Text → List Text → GoMap Text
unfolding add_pair
add_pairs m [] = m
add_pairs m (capability ∷ rest) = add_pairs (add_pair m (cut (codes "=") capability)) rest

unfoldable pub get_capabilities_map_from_string : Text → GoMap Text
unfolding add_pairs
get_capabilities_map_from_string capabilities = add_pairs [] (split (codes ";") capabilities)
