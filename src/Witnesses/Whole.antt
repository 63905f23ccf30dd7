-- ===== src/Witnesses/Whole.antt =====
-- Examples on whole reconciliations of a resource with a pod.
use mathlib.Core.List.{Mem}
use azure_pipelines_k8s_agen.Prelude.{
  Bool, true, ◌&&◌, ◌+◌, ◌-◌, ◌≤◌, length, List, [], ◌∷◌, Option, some, ◌≡◌, ◌≢◌, refl, subst,
  arith, inl, Every, Every-nil, Every-cons,
}
use azure_pipelines_k8s_agen.Text.{Text, codes, text_eq}
use azure_pipelines_k8s_agen.Go.{Result, ok, err, panic, pvc_exhaustion, ◌>>=◌}
use azure_pipelines_k8s_agen.Kube.{Pod, ReusableCacheVolume, PodsWithCapabilities, AutoScaledAgent}
use azure_pipelines_k8s_agen.World.{Env, Log}
use azure_pipelines_k8s_agen.World.Safe.{is_created, Terms}
use azure_pipelines_k8s_agen.World.Orderly.{
  IsOrderly, ListsSound, IsEnded, IsEnded-prop, IsNamedVolume, IsNamed-prop, IsCompleteEntry,
  IsCompleteEntry-prop,
}
use azure_pipelines_k8s_agen.AgentCreation.{create_agent, create_agents}
use azure_pipelines_k8s_agen.GoMap.{lookup, insert, has_key}
use azure_pipelines_k8s_agen.World.Monad.{call, generate_random_string}
use azure_pipelines_k8s_agen.PvcAssignment.{
  assign_or_create_pvcs, assign_containers, assign_mount, sort_by_name,
}
use azure_pipelines_k8s_agen.CacheVolumes.{
  get_matching_cache_volume, get_unpromised_pvc, is_pvc_limit_exceeded,
  compute_pvc_max_counts_per_reusable_cache_volume,
}
use azure_pipelines_k8s_agen.Reconciler.{reconcile}
use azure_pipelines_k8s_agen.Reconciler.Scaling.Safety.{IsComplete}
use azure_pipelines_k8s_agen.Reconciler.Panics.{no_panics, reconcile_never_panics}
use azure_pipelines_k8s_agen.Reconciler.Deletions.{DeletesOnly, reconcile_deletes_own}
use azure_pipelines_k8s_agen.World.Prices.{deletion}
use azure_pipelines_k8s_agen.World.Costs.{spent}
use azure_pipelines_k8s_agen.AgentPods.Surplus.{ListsAtMost}
use azure_pipelines_k8s_agen.Reconciler.Surplus.{reconcile_deletes_surplus}
use azure_pipelines_k8s_agen.Reconciler.Exhausted.{no_exhaustion, reconcile_hides_exhaustion}
use azure_pipelines_k8s_agen.Witnesses.{
  world, start, java, pod, entry, custom_resource, agent_spec, pod_spec, container,
}

abbrev cache_volume : ReusableCacheVolume
cache_volume = record {
  name = codes "cache";
  storage_class_name = codes "fast";
  requested_storage = codes "1Gi";
}

abbrev one : Pod
one = pod (codes "a") (codes "java=17") 1

-- The world with the resource in it, these pods in every list of pods, and a token.
abbrev reached : AutoScaledAgent → List Pod → Env
reached agent pods = record world {
  get_agent = λ _ _ _. some (ok agent);
  get_secret = λ _ _ _. ok ((codes "pat", codes "token") ∷ []);
  list_pods = λ _ _ _ _. ok pods;
}

-- One of two ended pods is deleted.
abbrev pod_world : Env
pod_world = reached custom_resource (one ∷ [])

only_one : (t : Terms) → t.sound one → Every t.sound (one ∷ [])
only_one t h = Every-cons t.sound t.sound_prop one [] h (Every-nil t.sound t.sound_prop)

one_created : is_created one.annotations ≡ true
unfolding has_key text_eq
one_created = refl

one_ended : Every (IsEnded no_panics) (one ∷ [])
one_ended =
    Every-cons (IsEnded no_panics) (IsEnded-prop no_panics) one [] (((λ e. cc), one_created), tt)
      (Every-nil (IsEnded no_panics) (IsEnded-prop no_panics))

reached-IsOrderly :
    (t : Terms) (agent : AutoScaledAgent) (pods : List Pod) → IsOrderly t (reached agent pods)
reached-IsOrderly t agent pods = record {
  get_secret = λ _ _ _. tt;
  list_pvcs = λ _ _ _. tt;
  create_pod = λ _ _. tt;
  update_pod = λ _ _ h. h;
  delete_pod = λ _ _. tt;
  create_pvc = λ _ _. tt;
  update_pvc = λ _ _. tt;
  new_executor = λ _ _ _ _. tt;
  stream = λ _ _ _ _. tt;
  http = λ _ _. tt;
  intn = λ _ n. inl (omega arith);
  range_pods = λ _ m h. h;
  encode_spec = λ _ _. tt;
  set_pod_controller = λ _ _. tt;
  set_pvc_controller = λ _ _. tt;
  parse_quantity = λ _. tt;
  parse_time = λ _. tt;
  new_request = λ _ _. tt;
  decode_pools = λ _. tt;
  decode_agents = λ _. tt;
  decode_job_requests = λ _. tt;
  encode_register_request = λ _. tt;
}

pod_world-ListsSound : ListsSound no_panics pod_world (codes "ns") (codes "cr")
unfolding has_key text_eq
pod_world-ListsSound = record {
  listed = λ _ _. only_one no_panics ((λ e. cc), one_created);
  succeeded = λ _. one_ended;
  failed = λ _. one_ended;
}

custom_resource-IsComplete : IsComplete no_panics custom_resource
custom_resource-IsComplete = record {
  max_terminated = tt;
  ages = record { interval = tt; dummy_age = tt; normal_age = tt };
  volumes =
      Every-cons (IsNamedVolume no_panics) (λ v. IsNamed-prop no_panics v.name) cache_volume [] tt
        (Every-nil (IsNamedVolume no_panics) (λ v. IsNamed-prop no_panics v.name));
  entries =
      Every-cons (IsCompleteEntry no_panics) (IsCompleteEntry-prop no_panics) entry [] (tt, tt, tt)
        (Every-nil (IsCompleteEntry no_panics) (IsCompleteEntry-prop no_panics));
}

reconcile_never_panics_example : (reconcile pod_world (codes "ns") (codes "cr") start).0 ≢ panic
reconcile_never_panics_example =
    reconcile_never_panics pod_world (reached-IsOrderly no_panics custom_resource (one ∷ []))
      (codes "ns") (codes "cr") pod_world-ListsSound start custom_resource-IsComplete

-- The pod of that namespace and name.
abbrev is_one : Text → Text → Bool
is_one namespace name = text_eq namespace (codes "ns") && text_eq name (codes "a")

abbrev AllOne : Result (List Pod) → Type 0
AllOne (ok pods) = (pod : Pod) → Mem pod pods → is_one pod.namespace pod.name ≡ true
AllOne (err e) = Unit
AllOne panic = Unit

one_listed : (pod : Pod) → Mem pod (one ∷ []) → is_one pod.namespace pod.name ≡ true
unfolding text_eq
one_listed =
    Every-cons (λ pod. is_one pod.namespace pod.name ≡ true) (λ pod. hlevel) one [] refl
      (Every-nil (λ pod. is_one pod.namespace pod.name ≡ true) (λ pod. hlevel))

listed_one :
    (log : Log) (phase : Option Text) (pods : List Pod)
    → pod_world.list_pods log (codes "ns") (codes "cr") phase ≡ ok pods
    → (pod : Pod) → Mem pod pods
    → is_one pod.namespace pod.name ≡ true
listed_one log phase pods e = subst AllOne e one_listed

reconcile_deletes_own_example :
    DeletesOnly is_one (reconcile pod_world (codes "ns") (codes "cr") start).1.log
reconcile_deletes_own_example =
    reconcile_deletes_own pod_world (codes "ns") (codes "cr") is_one listed_one (λ _ m x i. i) start
      tt

abbrev AtMostOne : Result (List Pod) → Type 0
AtMostOne (ok pods) = length pods ≤ 1
AtMostOne (err e) = Unit
AtMostOne panic = Unit

listed_once : (phase : Text) → ListsAtMost pod_world (codes "ns") (codes "cr") 1 phase
listed_once phase log pods e = subst AtMostOne e (omega arith)

-- Of two terminated pods one is kept, and the one entry may give one more.
reconcile_deletes_surplus_example :
    spent deletion (reconcile pod_world (codes "ns") (codes "cr") start).1.log
    ≤ spent deletion start.log + ((1 + 1 - 1) + length custom_resource.spec.pods_with_capabilities)
reconcile_deletes_surplus_example =
    reconcile_deletes_surplus pod_world (codes "ns") (codes "cr") custom_resource 1 1 1 start
      (listed_once (codes "Succeeded")) (listed_once (codes "Failed")) refl refl

-- An entry that asks for an agent with a claim and allows no claims.
abbrev exhausted_entry : PodsWithCapabilities
exhausted_entry = record entry {
  min_count = some 1;
  max_count = some 0;
  pod_template_spec = record pod_spec {
    containers =
        record (container (codes "agent")) {
          volume_mounts = record { name = codes "cache"; mount_path = codes "/cache" } ∷ [];
        }
        ∷ [];
  };
}

abbrev exhausted_resource : AutoScaledAgent
exhausted_resource = record custom_resource {
  spec = record agent_spec { pods_with_capabilities = exhausted_entry ∷ [] };
}

abbrev exhausted_world : Env
exhausted_world = reached exhausted_resource []

no_pods-ListsSound : ListsSound no_exhaustion exhausted_world (codes "ns") (codes "cr")
no_pods-ListsSound = record {
  listed = λ _ _. Every-nil no_exhaustion.sound no_exhaustion.sound_prop;
  succeeded = λ _. Every-nil (IsEnded no_exhaustion) (IsEnded-prop no_exhaustion);
  failed = λ _. Every-nil (IsEnded no_exhaustion) (IsEnded-prop no_exhaustion);
}

exhausted_resource-IsComplete : IsComplete no_exhaustion exhausted_resource
exhausted_resource-IsComplete = record {
  max_terminated = tt;
  ages = record { interval = tt; dummy_age = tt; normal_age = tt };
  volumes =
      Every-cons (IsNamedVolume no_exhaustion) (λ v. IsNamed-prop no_exhaustion v.name) cache_volume
        [] tt (Every-nil (IsNamedVolume no_exhaustion) (λ v. IsNamed-prop no_exhaustion v.name));
  entries =
      Every-cons (IsCompleteEntry no_exhaustion) (IsCompleteEntry-prop no_exhaustion)
        exhausted_entry [] (tt, tt, tt)
        (Every-nil (IsCompleteEntry no_exhaustion) (IsCompleteEntry-prop no_exhaustion));
}

-- The creation of the agent that the entry asks for runs out of claims.
claims_exhausted :
    (create_agents exhausted_world
      (codes "ns")
      (codes "cr")
      exhausted_resource
      exhausted_entry
      1
      java
      start).0
    ≡ err (pvc_exhaustion (codes "cache"))
unfolding create_agents create_agent generate_random_string ◌>>=◌ call lookup insert text_eq
    assign_or_create_pvcs assign_containers assign_mount get_matching_cache_volume
    get_unpromised_pvc sort_by_name is_pvc_limit_exceeded
    compute_pvc_max_counts_per_reusable_cache_volume
claims_exhausted = refl

reconcile_hides_exhaustion_example :
    (reconcile exhausted_world (codes "ns") (codes "cr") start).0
    ≢ err (pvc_exhaustion (codes "cache"))
reconcile_hides_exhaustion_example =
    reconcile_hides_exhaustion exhausted_world
      (reached-IsOrderly no_exhaustion exhausted_resource []) (codes "ns") (codes "cr")
      no_pods-ListsSound start exhausted_resource-IsComplete (codes "cache")
