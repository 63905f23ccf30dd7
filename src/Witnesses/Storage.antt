-- ===== src/Witnesses/Storage.antt =====
-- Examples on claims and on extra containers.
use azure_pipelines_k8s_agen.Prelude.{
  ℕ, ◌+◌, ◌*◌, false, List, [], ◌∷◌, ◌++◌, none, some, ◌≡◌, ◌⊎◌, refl, arith, ltb, length,
  if◌then◌else◌,
}
use azure_pipelines_k8s_agen.Text.{Text, codes, text_eq, split}
use azure_pipelines_k8s_agen.Text.Sort.{contains}
use azure_pipelines_k8s_agen.GoMap.{GoMap, get_or, lookup, insert, has_key}
use azure_pipelines_k8s_agen.Go.{Result, ok, not_nil, ◌>>=◌}
use azure_pipelines_k8s_agen.Kube.{Container, PersistentVolumeClaim}
use azure_pipelines_k8s_agen.World.{Env, Memory}
use azure_pipelines_k8s_agen.World.Monad.{call, generate_random_string}
use azure_pipelines_k8s_agen.CacheVolumes.{
  get_matching_cache_volume, get_unpromised_pvc, is_pvc_limit_exceeded, max_counts_onto, count_pvcs,
  reusable_cache_volume_name_annotation_key, reusable_cache_volume_promised_annotation_key,
  compute_pvc_max_counts_per_reusable_cache_volume,
}
use azure_pipelines_k8s_agen.World.Costs.{spent}
use azure_pipelines_k8s_agen.PvcAssignment.{
  Assigned, assign_containers, assign_mount, promise_first,
}
use azure_pipelines_k8s_agen.PvcAssignment.Volumes.{
  assign_containers-volumes, volume_names, all_cache_mounts,
}
use azure_pipelines_k8s_agen.PvcAssignment.Promises.{Promises}
use azure_pipelines_k8s_agen.PvcAssignment.Promised.{assign_containers-Promises, updates}
use azure_pipelines_k8s_agen.PvcRelease.{second, has_pod_permanently_disappeared}
use azure_pipelines_k8s_agen.PvcRelease.Grace.{
  remembered, noted_log, IsYoung, IsOld, has_pod_permanently_disappeared_lem,
}
use azure_pipelines_k8s_agen.ExtraContainers.{
  Attributes, is_empty, parse_extra_agent_container_definition,
}
use azure_pipelines_k8s_agen.ExtraContainers.RoundTrip.{
  parse-written, written_all, containers_of_attributes,
}
use azure_pipelines_k8s_agen.ExtraContainers.Parsed.{
  parse_extra_agent_container_definition_lem, AllComplete,
}
use azure_pipelines_k8s_agen.Witnesses.{
  world, start, container, entry, pod_spec, agent_spec, custom_resource,
}
use azure_pipelines_k8s_agen.Kube.{AutoScaledAgent}

-- Two pods are remembered; the clock stands at 100 seconds, so that one of them is forgotten.
abbrev late : Env
late = record world { now = λ _. 100 * second }

abbrev two_missing : Memory
two_missing = record start {
  disappeared_pods = (codes "a", 98 * second) ∷ (codes "b", 10 * second) ∷ [];
}

has_pod_permanently_disappeared_lem_example :
    ((has_pod_permanently_disappeared late (codes "a") two_missing).0
      ≡ ok (
          ltb
            (get_or (remembered late (codes "a") two_missing) (codes "a") 0 + 5 * second)
            (late.now (noted_log late (codes "a") two_missing))))
    × (((lookup
              (has_pod_permanently_disappeared late (codes "a") two_missing).1.disappeared_pods
              (codes "b")
            ≡ lookup (remembered late (codes "a") two_missing) (codes "b"))
          × IsYoung late
              (late.now two_missing.log)
              (lookup (remembered late (codes "a") two_missing) (codes "b")))
        ⊎ ((lookup
                (has_pod_permanently_disappeared late (codes "a") two_missing).1.disappeared_pods
                (codes "b")
              ≡ none)
            × IsOld late
                (late.now (has_pod_permanently_disappeared late (codes "a") two_missing).1.log)
                (lookup (remembered late (codes "a") two_missing) (codes "b"))))
unfolding contains text_eq
has_pod_permanently_disappeared_lem_example =
    has_pod_permanently_disappeared_lem late (codes "a") two_missing (codes "b")
      (λ _ _. omega arith) (λ _ m d. (d, λ k. refl)) (refl, (refl, tt))

-- Both containers mount the cache.
abbrev caching : List Container
caching =
    record (container (codes "agent")) {
      volume_mounts = record { name = codes "cache"; mount_path = codes "/c" } ∷ [];
    }
    ∷ record (container (codes "side")) {
      volume_mounts = record { name = codes "cache"; mount_path = codes "/d" } ∷ [];
    }
    ∷ []

abbrev caching_resource : AutoScaledAgent
caching_resource = record custom_resource {
  spec = record agent_spec {
    pods_with_capabilities =
        record entry { pod_template_spec = record pod_spec { containers = caching } } ∷ [];
  };
}

abbrev nothing_yet : Assigned
nothing_yet = record { pvcs = []; volumes = [] }

assign_containers-volumes_example :
    volume_names (
      record { name = codes "cache"; claim_name = codes "cr-aaaaa"; read_only = false }
      ∷ record { name = codes "cache"; claim_name = codes "cr-aaaaa"; read_only = false }
      ∷ [])
    ≡ [] ++ all_cache_mounts caching_resource.spec.reusable_cache_volumes caching
unfolding assign_containers ◌>>=◌ call generate_random_string text_eq insert lookup
    get_matching_cache_volume get_unpromised_pvc is_pvc_limit_exceeded max_counts_onto count_pvcs
    assign_mount compute_pvc_max_counts_per_reusable_cache_volume
assign_containers-volumes_example =
    assign_containers-volumes world caching_resource (codes "cr-pod") caching nothing_yet
      (record {
        pvcs = [];
        volumes =
            record { name = codes "cache"; claim_name = codes "cr-aaaaa"; read_only = false }
            ∷ record { name = codes "cache"; claim_name = codes "cr-aaaaa"; read_only = false }
            ∷ [];
      })
      start (assign_containers world caching_resource (codes "cr-pod") nothing_yet caching start).1
      refl

abbrev cache_claim : Text → GoMap Text → PersistentVolumeClaim
cache_claim name promised = record {
  name = name;
  namespace = codes "ns";
  annotations = (reusable_cache_volume_name_annotation_key, codes "cache") ∷ promised;
  owner = some (codes "cr");
  access_mode = codes "ReadWriteOnce";
  storage = codes "1Gi";
  storage_class_name = codes "fast";
  volume_mode = codes "Filesystem";
}

-- One claim of the cache is promised to another pod, the other is free.
abbrev two_claims : Assigned
two_claims = record {
  pvcs =
      cache_claim (codes "cr-1")
        ((reusable_cache_volume_promised_annotation_key, codes "cr-other") ∷ [])
      ∷ cache_claim (codes "cr-2") []
      ∷ [];
  volumes = [];
}

abbrev one_promised : Assigned
one_promised = record {
  pvcs =
      cache_claim (codes "cr-1")
        ((reusable_cache_volume_promised_annotation_key, codes "cr-other") ∷ [])
      ∷ cache_claim (codes "cr-2")
          ((reusable_cache_volume_promised_annotation_key, codes "cr-pod") ∷ [])
      ∷ [];
  volumes = record { name = codes "cache"; claim_name = codes "cr-2"; read_only = false } ∷ [];
}

abbrev one_container : List Container
one_container =
    record (container (codes "agent")) {
      volume_mounts = record { name = codes "cache"; mount_path = codes "/c" } ∷ [];
    }
    ∷ []

-- A weight that tells a claim with the promise from one without.
abbrev annotations_of : PersistentVolumeClaim → ℕ
annotations_of pvc = length pvc.annotations

assign_containers-Promises_example :
    (n : ℕ) × Promises annotations_of (codes "cr-pod") two_claims.pvcs one_promised.pvcs n
    × (spent
          (updates annotations_of)
          (assign_containers world caching_resource
            (codes "cr-pod")
            two_claims
            one_container
            start).1.log
        ≡ n + spent (updates annotations_of) start.log)
unfolding assign_containers ◌>>=◌ call text_eq insert lookup get_matching_cache_volume
    get_unpromised_pvc assign_mount promise_first has_key not_nil
assign_containers-Promises_example =
    assign_containers-Promises world caching_resource annotations_of (codes "cr-pod") one_container
      two_claims one_promised start refl

abbrev definition : Text
definition = codes "name=u,image=ubuntu||name=p,image=pg,cpu=1"

abbrev parsed : Result (List Container)
parsed = parse_extra_agent_container_definition (λ t. ok t) definition

abbrev containers_of : Result (List Container) → List Container
containers_of (ok cs) = cs
containers_of _ = []

parse_extra_agent_container_definition_lem_example :
    (length (containers_of parsed)
      ≡ (if is_empty definition then 0 else length (split (codes "||") definition)))
    × AllComplete (containers_of parsed)
unfolding parse_extra_agent_container_definition split text_eq insert
parse_extra_agent_container_definition_lem_example =
    parse_extra_agent_container_definition_lem (λ t. ok t) definition (containers_of parsed) refl

abbrev attributes : Attributes
attributes = record { name = codes "u"; image = codes "ubuntu"; cpu = codes "250m"; memory = [] }

parse-written_example :
    parse_extra_agent_container_definition (λ t. ok t) (written_all (attributes ∷ attributes ∷ []))
    ≡ containers_of_attributes (λ t. ok t) (attributes ∷ attributes ∷ [])
parse-written_example = parse-written (λ t. ok t) attributes (attributes ∷ []) refl
