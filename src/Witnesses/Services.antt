-- ===== src/Witnesses/Services.antt =====
-- Examples on pods, claims, and the agents of a pool.
use mathlib.Core.List.{Perm}
use azure_pipelines_k8s_agen.Prelude.{
  ℕ, not, ◌++◌, keep, if◌then◌else◌, Every, Every-cons, Every-nil, ◌-◌, List, [], ◌∷◌, none, some,
  ◌≡◌, refl, length, take, drop, leb,
}
use azure_pipelines_k8s_agen.Text.{Text, codes, text_eq, starts_with}
use azure_pipelines_k8s_agen.Text.Sort.{contains}
use azure_pipelines_k8s_agen.GoMap.{GoMap, lookup}
use azure_pipelines_k8s_agen.GoMap.Same.{deep_equal, deep_equal-Same}
use azure_pipelines_k8s_agen.Go.{ok, err, message, ◌>>=◌}
use azure_pipelines_k8s_agen.Kube.{Pod, PersistentVolumeClaim, AutoScaledAgentSpec}
use azure_pipelines_k8s_agen.World.{Call, Memory, AzurePipelinesAgent}
use azure_pipelines_k8s_agen.World.Monad.{call, read_memory, write_memory}
use azure_pipelines_k8s_agen.Capabilities.{
  get_sorted_stringification_of_capabilities_map, get_sorted_stringification_of_map,
}
use azure_pipelines_k8s_agen.RunningPods.{capabilities_of}
use azure_pipelines_k8s_agen.AgentPods.{delete_oldest, sort_by_start, all_started}
use azure_pipelines_k8s_agen.AgentPods.Order.{delete_oldest_lem, deleted, AllBefore}
use azure_pipelines_k8s_agen.CacheVolumes.{
  is_pvc_limit_exceeded, count_pvcs, reusable_cache_volume_promised_annotation_key,
}
use azure_pipelines_k8s_agen.CacheVolumes.Limits.{is_pvc_limit_exceeded_lem, max_pvc_count}
use azure_pipelines_k8s_agen.PvcRelease.{release_pvcs, find_pod}
use azure_pipelines_k8s_agen.PvcRelease.Promises.{release_pvcs_held, is_held, LosesFree}
use azure_pipelines_k8s_agen.IdlePods.{
  get_terminateable_pod, idle_agent_pod_first_detection_timestamp_annotation_key,
}
use azure_pipelines_k8s_agen.World.{Env}
use azure_pipelines_k8s_agen.World.Costs.{spent}
use azure_pipelines_k8s_agen.IdlePods.Reasons.{get_terminateable_pod-Reason, Reason}
use azure_pipelines_k8s_agen.AgentCreation.{new_pod}
use azure_pipelines_k8s_agen.AgentCreation.Labels.{new_pod_label}
use azure_pipelines_k8s_agen.AzureDevOps.{
  pool_url, decimal, create_or_update_dummy_agents, get_pool_id_from_name,
}
use azure_pipelines_k8s_agen.AzureDevOps.Caching.{
  create_or_update_dummy_agents_again, get_pool_id_from_name_again,
}
use azure_pipelines_k8s_agen.AgentCollection.{collect_agents}
use azure_pipelines_k8s_agen.AgentCollection.Kept.{collect_agents_safe, is_safe, DeletesFree}
use azure_pipelines_k8s_agen.AgentNames.{compute_map_hash, get_dummy_agent_name}
use azure_pipelines_k8s_agen.AgentNames.Hashing.{
  compute_map_hash-Same, get_dummy_agent_name_collision,
}
use azure_pipelines_k8s_agen.Witnesses.{
  world, start, java, pod, pod_spec, entry, agent_spec, custom_resource,
}

abbrev old_pods : List Pod
old_pods =
    pod (codes "a") (codes "java=17") 5
    ∷ pod (codes "b") (codes "java=17") 3
    ∷ pod (codes "c") (codes "java=17") 4
    ∷ []

delete_oldest_lem_example :
    (delete_oldest world 1 old_pods start ≡ (
      ok tt,
      record start {
        log = deleted (take (length old_pods - 1) (sort_by_start old_pods)) start.log;
      },
    ))
    × (length (take (length old_pods - 1) (sort_by_start old_pods)) ≡ length old_pods - 1)
    × Perm
        (take (length old_pods - 1) (sort_by_start old_pods)
          ++ drop (length old_pods - 1) (sort_by_start old_pods))
        old_pods
    × AllBefore
        (take (length old_pods - 1) (sort_by_start old_pods))
        (drop (length old_pods - 1) (sort_by_start old_pods))
unfolding all_started
delete_oldest_lem_example = delete_oldest_lem world (λ _ _. refl) 1 old_pods start refl

abbrev claim : PersistentVolumeClaim
claim = record {
  name = codes "cr-1";
  namespace = codes "ns";
  annotations = (reusable_cache_volume_promised_annotation_key, codes "a") ∷ [];
  owner = none;
  access_mode = codes "ReadWriteOnce";
  storage = codes "1Gi";
  storage_class_name = codes "fast";
  volume_mode = codes "Filesystem";
}

is_pvc_limit_exceeded_lem_example :
    is_pvc_limit_exceeded custom_resource (codes "cache") (claim ∷ [])
    ≡ ok (
        leb
          (max_pvc_count agent_spec.reusable_cache_volumes
            (codes "cache")
            agent_spec.pods_with_capabilities)
          (count_pvcs (codes "cache") (claim ∷ [])))
is_pvc_limit_exceeded_lem_example =
    is_pvc_limit_exceeded_lem custom_resource (codes "cache") (claim ∷ []) ((2, refl), tt)

-- One claim is promised to a pod that runs, the other to one that has succeeded.
abbrev running_and_ended : List Pod
running_and_ended =
    pod (codes "a") [] 1 ∷ record (pod (codes "b") [] 1) { phase = codes "Succeeded" } ∷ []

abbrev lost : PersistentVolumeClaim
lost = record claim {
  name = codes "cr-2";
  annotations = (reusable_cache_volume_promised_annotation_key, codes "b") ∷ [];
}

-- The price on every update but that of the second claim without its promise.
abbrev other_updates : Call → ℕ
other_updates (Call.update_pvc pvc) = if text_eq pvc.name (codes "cr-2") then 0 else 1
other_updates _ = 0

release_pvcs_held_example :
    (release_pvcs world running_and_ended (claim ∷ lost ∷ []) start
      ≡ release_pvcs world running_and_ended
          (keep (λ pvc. not (is_held running_and_ended pvc)) (claim ∷ lost ∷ []))
          start)
    × (spent other_updates (release_pvcs world running_and_ended (claim ∷ lost ∷ []) start).1.log
        ≡ spent other_updates start.log)
unfolding lookup find_pod text_eq
release_pvcs_held_example =
    release_pvcs_held world running_and_ended (claim ∷ lost ∷ []) start other_updates refl refl (
      Every-cons (LosesFree running_and_ended other_updates) (λ c. hlevel) claim _ (λ e. cc)
        (Every-cons (LosesFree running_and_ended other_updates) (λ c. hlevel) lost _ (λ e. refl)
          (Every-nil (LosesFree running_and_ended other_updates) (λ c. hlevel))))

new_pod_label_example :
    get_sorted_stringification_of_map
      (capabilities_of (new_pod (codes "cr-xyz") custom_resource entry java pod_spec.containers))
    ≡ get_sorted_stringification_of_capabilities_map java
unfolding contains
new_pod_label_example =
    new_pod_label (codes "cr-xyz") custom_resource entry java pod_spec.containers (refl, tt) refl

-- The memory once the dummy agents have been registered.
abbrev registered : Memory
registered =
    (create_or_update_dummy_agents world 7 (codes "secret") (codes "cr") agent_spec start).1

create_or_update_dummy_agents_again_example :
    create_or_update_dummy_agents world 7 (codes "secret") (codes "cr") agent_spec registered
    ≡ (ok (get_dummy_agent_name java ∷ []), record registered { log = Call.range ∷ registered.log })
unfolding create_or_update_dummy_agents ◌>>=◌ call read_memory write_memory lookup
create_or_update_dummy_agents_again_example =
    create_or_update_dummy_agents_again world 7 (codes "secret") (codes "cr") agent_spec
      (codes "spec") (get_dummy_agent_name java ∷ []) start registered (λ _. refl) refl

abbrev pool_known : Memory
pool_known = (get_pool_id_from_name world (codes "secret") agent_spec start).1

abbrev other_spec : AutoScaledAgentSpec
other_spec = record agent_spec {
  organization_url = codes "https://dev.azure.com/orgp";
  pool_name = codes "ool";
}

get_pool_id_from_name_again_example :
    get_pool_id_from_name world (codes "other") other_spec pool_known ≡ (ok 7, pool_known)
unfolding get_pool_id_from_name ◌>>=◌ call read_memory write_memory lookup
get_pool_id_from_name_again_example =
    get_pool_id_from_name_again world (codes "secret") (codes "other") agent_spec other_spec start
      pool_known 7 refl refl

-- An agent of the pool in this state.
abbrev pool_agent : Text → Text → AzurePipelinesAgent
pool_agent name status = record { created_on = 0; name = name; id = 1; status = status }

-- Three agents that are safe, and one that is not, since its name is that of a dummy agent that is
-- no longer kept.
abbrev pool_agents : List AzurePipelinesAgent
pool_agents =
    pool_agent (codes "dummy-agent-1") (codes "offline")
    ∷ record (pool_agent (codes "dummy-agent-2") (codes "offline")) { id = 2 }
    ∷ pool_agent (codes "cr-1") (codes "online")
    ∷ pool_agent (codes "else") (codes "offline")
    ∷ []

abbrev kept_names : List Text
kept_names = codes "dummy-agent-1" ∷ []

-- The price on every request but the deletion of the second agent.
abbrev other_requests : Call → ℕ
other_requests (Call.http request) =
    if text_eq request.url
      (pool_url agent_spec.organization_url 7 (codes "/agents/2?api-version=7.0"))
    then 0
    else 1
other_requests _ = 0

abbrev DeletesSecond : AzurePipelinesAgent → Type 0
DeletesSecond =
    DeletesFree world 7 (codes "secret") agent_spec (codes "cr") kept_names other_requests

free :
    (agent : AzurePipelinesAgent) (agents : List AzurePipelinesAgent)
    → DeletesSecond agent
    → Every DeletesSecond agents
    → Every DeletesSecond (agent ∷ agents)
free agent agents h hs = Every-cons DeletesSecond (λ a. hlevel) agent agents h hs

collect_agents_safe_example :
    (collect_agents world 7 (codes "secret") agent_spec (codes "cr") kept_names pool_agents start
      ≡ collect_agents world 7
          (codes "secret")
          agent_spec
          (codes "cr")
          kept_names
          (keep
            (λ agent.
              not (is_safe world 7 (codes "secret") agent_spec (codes "cr") kept_names agent))
            pool_agents)
          start)
    × (spent other_requests
          (collect_agents world 7
            (codes "secret")
            agent_spec
            (codes "cr")
            kept_names
            pool_agents
            start).1.log
        ≡ spent other_requests start.log)
unfolding contains text_eq starts_with decimal
collect_agents_safe_example =
    collect_agents_safe world 7 (codes "secret") agent_spec (codes "cr") kept_names pool_agents
      start other_requests refl
      (free _ _ (λ e. cc)
        (free _ _ (λ e. refl)
          (free _ _ (λ e. cc) (free _ _ (λ e. cc) (Every-nil DeletesSecond (λ a. hlevel))))))

abbrev two_entries : GoMap Text
two_entries = (codes "os", codes "linux") ∷ java

abbrev other_order : GoMap Text
other_order = (codes "java", codes "17") ∷ (codes "os", codes "linux") ∷ []

compute_map_hash-Same_example : compute_map_hash two_entries ≡ compute_map_hash other_order
unfolding contains text_eq deep_equal lookup
compute_map_hash-Same_example =
    compute_map_hash-Same two_entries other_order (refl, (refl, tt)) (refl, (refl, tt))
      ((deep_equal-Same two_entries other_order (refl, (refl, tt)) (refl, (refl, tt))).0 refl)

get_dummy_agent_name_collision_example :
    get_dummy_agent_name ((codes "java1", codes "7") ∷ [])
    ≡ get_dummy_agent_name ((codes "java", codes "17") ∷ [])
get_dummy_agent_name_collision_example =
    get_dummy_agent_name_collision (codes "java") (codes "1") (codes "7")

-- No agent has a job, and the clock stands at 9.
abbrev idle_world : Env
idle_world = record world { stream = λ _ _ _ _. ok (codes "0\n"); now = λ _. 9 }

abbrev idle_pod : Pod
idle_pod = record (pod (codes "a") (codes "java=17") 1) {
  annotations =
      (idle_agent_pod_first_detection_timestamp_annotation_key, codes "2024-01-01T00:00:00Z") ∷ [];
}

abbrev idle_pods : GoMap (List Pod)
idle_pods = (codes "java=17", idle_pod ∷ []) ∷ []

get_terminateable_pod-Reason_example : Reason idle_world 5 idle_pod
unfolding get_terminateable_pod ◌>>=◌ call text_eq azure_pipelines_k8s_agen.Go.attempt lookup
get_terminateable_pod-Reason_example =
    get_terminateable_pod-Reason idle_world 5 idle_pods start
      (record { found = some idle_pod; seen = idle_pods }) idle_pod refl refl
