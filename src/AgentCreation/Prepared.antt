-- ===== src/AgentCreation/Prepared.antt =====
-- What the pod that `createAgent` creates is like.
use azure_pipelines_k8s_agen.Prelude.{List, [], ◌∷◌, ◌++◌, none, ◌≡◌}
use azure_pipelines_k8s_agen.Text.{Text, codes}
use azure_pipelines_k8s_agen.GoMap.{GoMap, get_or}
use azure_pipelines_k8s_agen.Go.{ok}
use azure_pipelines_k8s_agen.Kube.{Container, Pod, PodsWithCapabilities, AutoScaledAgent}
use azure_pipelines_k8s_agen.World.{Env, Log}
use azure_pipelines_k8s_agen.World.Monad.{range_strings}
use azure_pipelines_k8s_agen.Capabilities.{get_sorted_stringification_of_capabilities_map}
use azure_pipelines_k8s_agen.RunningPods.{capabilities_annotation_name}
use azure_pipelines_k8s_agen.AgentCreation.{copy_map, agent_env, env_vars, extra_containers}

module _ (env : Env) (namespace owner : Text) (agent : AutoScaledAgent) (p : PodsWithCapabilities)
    (m : GoMap Text) where
  -- What makes the pod an agent for the capabilities. The agent's container is the first of the
  -- template with the four variables and one for each capability; the others follow, and then the
  -- extra ones.
  pub record IsAgentPod (pod : Pod) : Type 0 where
    pub annotation :
        get_or pod.annotations capabilities_annotation_name []
        ≡ get_sorted_stringification_of_capabilities_map m
    pub restart_policy : pod.spec.restart_policy ≡ codes "Never"
    pub deletion_timestamp : pod.deletion_timestamp ≡ none
    pub labels : pod.labels ≡ copy_map [] p.pod_labels
    pub containers :
        (log : Log) × (c : Container) × (cs extra : List Container)
        × (p.pod_template_spec.containers ≡ c ∷ cs)
        × (extra_containers env m ≡ ok extra)
        × (pod.spec.containers
            ≡ record c {
              env = (c.env ++ agent_env pod.name agent) ++ env_vars (env.range_strings log m);
            }
                ∷ cs
              ++ extra)
