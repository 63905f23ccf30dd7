-- ===== src/AgentCreation.antt =====
-- The controller's `createAgents` and `createAgent`.
pub mod Counting
pub mod Labels
pub mod Prepared
pub mod Safety
use azure_pipelines_k8s_agen.Prelude.{
  ℕ, zero, suc, Bool, true, false, List, [], ◌∷◌, ◌++◌, Option, none, some, if◌then◌else◌,
}
use azure_pipelines_k8s_agen.Text.{Text, codes}
use azure_pipelines_k8s_agen.GoMap.{GoMap, lookup, insert}
use azure_pipelines_k8s_agen.Capabilities.{
  extra_agent_containers_annotation_key, get_sorted_stringification_of_capabilities_map,
}
use azure_pipelines_k8s_agen.Go.{Result, ok, return, crash, lift, ◌>>=◌, ◌>>◌}
use azure_pipelines_k8s_agen.Kube.{
  Container, EnvVar, EnvValue, literal, secret_key, Pod, PodSpec, PodsWithCapabilities,
  AutoScaledAgent,
}
use azure_pipelines_k8s_agen.World.{Env}
use azure_pipelines_k8s_agen.World.Monad.{M, create_pod, generate_random_string, range_strings}
use azure_pipelines_k8s_agen.RunningPods.{capabilities_annotation_name}
use azure_pipelines_k8s_agen.ExtraContainers.{parse_extra_agent_container_definition}
use azure_pipelines_k8s_agen.PvcAssignment.{assign_or_create_pvcs}

-- `for k, v := range from { to[k] = v }`
unfoldable pub copy_map : GoMap Text → GoMap Text → GoMap Text
copy_map to [] = to
copy_map to ((k, v) ∷ from) = copy_map (insert to k v) from

unfoldable pub env_vars : GoMap Text → List EnvVar
env_vars [] = []
env_vars ((key, val) ∷ m) = record { name = key; value = literal val } ∷ env_vars m

-- The four variables that the agent container needs.
unfoldable pub agent_env : Text → AutoScaledAgent → List EnvVar
agent_env pod_name agent =
    record { name = codes "AZP_AGENT_NAME"; value = literal pod_name }
    ∷ record { name = codes "AZP_URL"; value = literal agent.spec.organization_url }
    ∷ record { name = codes "AZP_POOL"; value = literal agent.spec.pool_name }
    ∷ record {
      name = codes "AZP_TOKEN";
      value = secret_key agent.spec.personal_access_token_secret_name (codes "pat");
    }
    ∷ []

-- The first container, which runs the agent, gets the variables.
unfoldable pub add_env : List EnvVar → List Container → Option (List Container)
add_env vars [] = none
add_env vars (c ∷ cs) = some (record c { env = c.env ++ vars } ∷ cs)

unfoldable pub extra_containers : Env → GoMap Text → Result (List Container)
extra_containers env capabilities =
    elim (lookup capabilities extra_agent_containers_annotation_key) [
      | none ↦ ok []
      | some text ↦ parse_extra_agent_container_definition env.parse_quantity text
    ]

-- A template with no container panics.
with_env : {A : Type 0} → Option A → M A
with_env none = crash
with_env (some a) = return a

unfoldable pub new_pod :
    Text → AutoScaledAgent → PodsWithCapabilities → GoMap Text → List Container → Pod
unfolding copy_map
new_pod pod_name agent p capabilities containers = record {
  name = pod_name;
  namespace = agent.namespace;
  labels = copy_map [] p.pod_labels;
  annotations =
      insert (copy_map [] p.pod_annotations) capabilities_annotation_name
        (get_sorted_stringification_of_capabilities_map capabilities);
  owner = none;
  deletion_timestamp = none;
  spec = record (p.pod_template_spec) { containers = containers; restart_policy = codes "Never" };
  phase = [];
  start_time = none;
  container_statuses = none;
}

module _ (env : Env) (namespace owner : Text) (agent : AutoScaledAgent)
    (p : PodsWithCapabilities) where
  -- All of `createAgent` up to the creation of the pod.
  unfoldable pub prepare_agent : GoMap Text → M Pod
  unfolding agent_env add_env env_vars extra_containers with_env new_pod
  prepare_agent capabilities = do
    suffix ← generate_random_string env
    let pod_name = agent.name ++ (codes "-" ++ suffix)
    with_four ← with_env (add_env (agent_env pod_name agent) p.pod_template_spec.containers)
    ordered ← range_strings env capabilities
    containers ← with_env (add_env (env_vars ordered) with_four)
    extra ← lift (extra_containers env capabilities)
    let pod = new_pod pod_name agent p capabilities (containers ++ extra)
    controller ← lift (env.set_pod_controller agent pod)
    assign_or_create_pvcs env namespace owner agent (record pod { owner = controller })

  unfoldable pub create_agent : GoMap Text → M Text
  unfolding prepare_agent
  create_agent capabilities = do
    pod ← prepare_agent capabilities
    create_pod env pod
    return pod.name

  unfoldable pub create_agents : ℕ → GoMap Text → M (Unit {0})
  create_agents zero capabilities = return tt
  create_agents (suc count) capabilities = do
    create_agent capabilities
    create_agents count capabilities
