-- ===== src/Witnesses.antt =====
-- Concrete inputs for the theorems: a world that answers every call in one way, and small objects.
pub mod Scaling
pub mod Settling
pub mod Grouping
pub mod Pods
pub mod Services
pub mod Platform
pub mod Storage
pub mod Running
pub mod Whole
use azure_pipelines_k8s_agen.Prelude.{ℕ, Bool, true, false, List, [], ◌∷◌, Option, none, some}
use azure_pipelines_k8s_agen.Text.{Text, codes}
use azure_pipelines_k8s_agen.GoMap.{GoMap}
use azure_pipelines_k8s_agen.Go.{Result, ok}
use azure_pipelines_k8s_agen.Kube.{
  Pod, PodSpec, Container, ContainerStatus, PodsWithCapabilities, ReusableCacheVolume,
  AutoScaledAgentSpec, AutoScaledAgent,
}
use azure_pipelines_k8s_agen.World.{Env, Memory, HttpResponse}
use azure_pipelines_k8s_agen.PendingJobs.{AzurePipelinesApiJobRequest}
use azure_pipelines_k8s_agen.RunningPods.{capabilities_annotation_name}

-- Every call succeeds, every list is empty, the clock stands still.
abbrev pub world : Env
world = record {
  get_agent = λ _ _ _. none;
  get_secret = λ _ _ _. ok [];
  list_pods = λ _ _ _ _. ok [];
  list_pvcs = λ _ _ _. ok [];
  create_pod = λ _ _. ok tt;
  update_pod = λ _ pod. ok pod;
  delete_pod = λ _ _. ok tt;
  create_pvc = λ _ pvc. ok pvc;
  update_pvc = λ _ pvc. ok pvc;
  new_executor = λ _ _ _ _. ok tt;
  stream = λ _ _ _ _. ok (codes "1\n");
  http = λ _ _. ok (record { status_code = 200; body = ok [] });
  now = λ _. 0;
  intn = λ _ _. 0;
  range_strings = λ _ m. m;
  range_times = λ _ m. m;
  range_pods = λ _ m. m;
  range_jobs = λ _ m. m;
  encode_spec = λ _ _. ok (codes "spec");
  set_pod_controller = λ agent _. ok (some agent.name);
  set_pvc_controller = λ agent _. ok (some agent.name);
  parse_quantity = λ t. ok t;
  parse_time = λ _. ok 0;
  format_time = λ _. [];
  new_request = λ _ _. ok tt;
  decode_pools = λ _. ok (7 ∷ []);
  decode_agents = λ _. ok [];
  decode_job_requests = λ _. ok [];
  encode_register_request = λ _. ok [];
  encode_dump = λ _. [];
  sha256_hex = λ t. t;
}

abbrev pub start : Memory
start = record {
  log = [];
  dummy_agent_names = [];
  cached_custom_resource_hash = [];
  last_dead_dummy_agent_deletion = 0;
  cached_azp_pool_ids = [];
  cached_pending_jobs_dump = [];
  disappeared_pods = [];
}

abbrev pub java : GoMap Text
java = (codes "java", codes "17") ∷ []

abbrev pub container : Text → Container
container name = record {
  name = name;
  image = codes "agent";
  command = [];
  args = [];
  env = [];
  volume_mounts = [];
  requests = [];
  limits = [];
  pre_stop = none;
  image_pull_policy = [];
}

abbrev pub pod_spec : PodSpec
pod_spec = record {
  containers = container (codes "agent") ∷ container (codes "side") ∷ [];
  volumes = [];
  restart_policy = codes "Never";
}

-- A pod with these capabilities, as they are written, that started at this time.
abbrev pub pod : Text → Text → ℕ → Pod
pod name capabilities time = record {
  name = name;
  namespace = codes "ns";
  labels = [];
  annotations = (capabilities_annotation_name, capabilities) ∷ [];
  owner = none;
  deletion_timestamp = none;
  spec = pod_spec;
  phase = codes "Running";
  start_time = some time;
  container_statuses = some (
      record { name = codes "side"; image = codes "x"; running = true; terminated = false }
      ∷ record { name = codes "agent"; image = codes "y"; running = true; terminated = false }
      ∷ []);
}

abbrev pub entry : PodsWithCapabilities
entry = record {
  capabilities = java;
  min_count = some 0;
  max_count = some 2;
  pod_labels = [];
  pod_annotations = [];
  pod_template_spec = pod_spec;
}

abbrev pub agent_spec : AutoScaledAgentSpec
agent_spec = record {
  pool_name = codes "pool";
  organization_url = codes "https://dev.azure.com/org";
  personal_access_token_secret_name = codes "pat";
  max_terminated_pods_to_keep = some 1;
  agent_min_idle_period = none;
  dummy_agent_garbage_collection_interval = some 10;
  dummy_agent_deletion_min_age = some 10;
  normal_offline_agent_deletion_min_age = some 10;
  reusable_cache_volumes =
      record {
        name = codes "cache";
        storage_class_name = codes "fast";
        requested_storage = codes "1Gi";
      }
      ∷ [];
  pods_with_capabilities = entry ∷ [];
}

abbrev pub custom_resource : AutoScaledAgent
custom_resource = record { name = codes "cr"; namespace = codes "ns"; spec = agent_spec }

-- A request whose demands are these.
abbrev pub job_request : ℕ → Option Text → List Text → AzurePipelinesApiJobRequest
job_request id result demands = record {
  request_id = id;
  queue_time = 0;
  assign_time = 0;
  result = result;
  demands = demands;
  job_id = [];
  scope_id = [];
  host_id = [];
  plan_id = [];
  pool_id = 0;
}
