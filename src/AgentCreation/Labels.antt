-- ===== src/AgentCreation/Labels.antt =====
-- The pod that is created for capabilities is later found under them.
use azure_pipelines_k8s_agen.Prelude.{true, List, [], ◌≡◌, ◌∙◌, ap, arith}
use azure_pipelines_k8s_agen.Text.{Text, text_eq_refl}
use azure_pipelines_k8s_agen.GoMap.{GoMap, IsMap, get_or, lookup-insert}
use azure_pipelines_k8s_agen.Kube.{Container, PodsWithCapabilities, AutoScaledAgent}
use azure_pipelines_k8s_agen.Capabilities.{
  get_sorted_stringification_of_capabilities_map, get_capabilities_map_from_string,
  get_sorted_stringification_of_map,
}
use azure_pipelines_k8s_agen.Capabilities.RoundTrip.{encodable, from_string-stringification}
use azure_pipelines_k8s_agen.Capabilities.Normal.{from_string-IsMap}
use azure_pipelines_k8s_agen.Capabilities.Order.{stringification-Same}
use azure_pipelines_k8s_agen.RunningPods.{capabilities_of, capabilities_annotation_name}
use azure_pipelines_k8s_agen.AgentCreation.{copy_map, new_pod}

pub annotation_of_new_pod :
    (pod_name : Text) (agent : AutoScaledAgent) (p : PodsWithCapabilities) (m : GoMap Text)
    (cs : List Container)
    → get_or (new_pod pod_name agent p m cs).annotations capabilities_annotation_name []
      ≡ get_sorted_stringification_of_capabilities_map m
unfolding new_pod
annotation_of_new_pod pod_name agent p m cs = ground (
  arith,
  lookup-insert (copy_map [] p.pod_annotations) capabilities_annotation_name
      (get_sorted_stringification_of_capabilities_map m) capabilities_annotation_name,
  text_eq_refl capabilities_annotation_name,
)

-- A pod that is made for a capability map, with one entry to a key, no `=` or `;` in a key and no `;`
-- in a value, is later grouped under the written form of that map, whatever annotations the entry
-- sets.
pub new_pod_label :
    (pod_name : Text) (agent : AutoScaledAgent) (p : PodsWithCapabilities) (m : GoMap Text)
    (cs : List Container)
    → IsMap m
    → encodable m ≡ true
    → get_sorted_stringification_of_map (capabilities_of (new_pod pod_name agent p m cs))
      ≡ get_sorted_stringification_of_capabilities_map m
unfolding capabilities_of
new_pod_label pod_name agent p m cs d e =
    ap (λ s. get_sorted_stringification_of_map (get_capabilities_map_from_string s))
      (annotation_of_new_pod pod_name agent p m cs)
    ∙ stringification-Same
        (get_capabilities_map_from_string (get_sorted_stringification_of_capabilities_map m)) m
        (from_string-IsMap _) d (from_string-stringification m e)
