-- ===== src/Kube.antt =====
-- The objects of the Kubernetes API that the controller reads and writes, with the fields that it
-- uses, and the custom resource of api/v1/autoscaledagent_types.go.
use azure_pipelines_k8s_agen.Prelude.{ℕ, Bool, List, Option}
use azure_pipelines_k8s_agen.Text.{Text}
use azure_pipelines_k8s_agen.GoMap.{GoMap}

pub data EnvValue : Type 0 where
  literal : Text → EnvValue
  secret_key : Text → Text → EnvValue

pub record EnvVar : Type 0 where
  pub name : Text
  pub value : EnvValue

pub record VolumeMount : Type 0 where
  pub name : Text
  pub mount_path : Text

-- `resource.Quantity`, by its canonical text
abbrev pub Quantity : Type 0
Quantity = Text

pub record Container : Type 0 where
  pub name : Text
  pub image : Text
  pub command : List Text
  pub args : List Text
  pub env : List EnvVar
  pub volume_mounts : List VolumeMount
  pub requests : GoMap Quantity
  pub limits : GoMap Quantity
  pub pre_stop : Option (List Text)
  pub image_pull_policy : Text

-- `running` and `terminated` say that the pointer of that state is not nil.
pub record ContainerStatus : Type 0 where
  pub name : Text
  pub image : Text
  pub running : Bool
  pub terminated : Bool

-- A volume that refers to a claim.
pub record Volume : Type 0 where
  pub name : Text
  pub claim_name : Text
  pub read_only : Bool

pub record PodSpec : Type 0 where
  pub containers : List Container
  pub volumes : List Volume
  pub restart_policy : Text

-- A map of annotations without entries is nil, since the API server leaves it out. The only map that
-- the controller takes entries from and may write to again is that of an agent pod, which keeps the
-- annotation of its capabilities.
pub record Pod : Type 0 where
  pub name : Text
  pub namespace : Text
  pub labels : GoMap Text
  pub annotations : GoMap Text
  pub owner : Option Text
  pub deletion_timestamp : Option ℕ
  pub spec : PodSpec
  pub phase : Text
  pub start_time : Option ℕ
  pub container_statuses : Option (List ContainerStatus)

pub record PersistentVolumeClaim : Type 0 where
  pub name : Text
  pub namespace : Text
  pub annotations : GoMap Text
  pub owner : Option Text
  pub access_mode : Text
  pub storage : Quantity
  pub storage_class_name : Text
  pub volume_mode : Text

pub record ReusableCacheVolume : Type 0 where
  pub name : Text
  pub storage_class_name : Text
  pub requested_storage : Text

-- The two counts are pointers; the resource's schema keeps them at 0 or more.
pub record PodsWithCapabilities : Type 0 where
  pub capabilities : GoMap Text
  pub min_count : Option ℕ
  pub max_count : Option ℕ
  pub pod_labels : GoMap Text
  pub pod_annotations : GoMap Text
  pub pod_template_spec : PodSpec

-- Durations are in nanoseconds; the schema allows none below 0.
pub record AutoScaledAgentSpec : Type 0 where
  pub pool_name : Text
  pub organization_url : Text
  pub personal_access_token_secret_name : Text
  pub max_terminated_pods_to_keep : Option ℕ
  pub agent_min_idle_period : Option ℕ
  pub dummy_agent_garbage_collection_interval : Option ℕ
  pub dummy_agent_deletion_min_age : Option ℕ
  pub normal_offline_agent_deletion_min_age : Option ℕ
  pub reusable_cache_volumes : List ReusableCacheVolume
  pub pods_with_capabilities : List PodsWithCapabilities

pub record AutoScaledAgent : Type 0 where
  pub name : Text
  pub namespace : Text
  pub spec : AutoScaledAgentSpec
