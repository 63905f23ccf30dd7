-- ===== src/World/Allowed.antt =====
-- Terms on which an action may panic and return any error, and on which the world is orderly whatever it answers.
use azure_pipelines_k8s_agen.Prelude.{
  List, [], ◌∷◌, Option, some, ◌≡◌, refl, inr, Every, Every-keep, keep,
}
use azure_pipelines_k8s_agen.Text.{Text, codes}
use azure_pipelines_k8s_agen.GoMap.{GoMap}
use azure_pipelines_k8s_agen.Go.{Result, ok, err, panic, GoError}
use azure_pipelines_k8s_agen.Kube.{Pod, Container, PodsWithCapabilities}
use azure_pipelines_k8s_agen.World.{Env, Log}
use azure_pipelines_k8s_agen.AgentPods.{is_agent_pod}
use azure_pipelines_k8s_agen.World.Safe.{
  Terms, Holds, Holds-Anything, CanWrite, CanWrite-panics, Given-panics, Anything,
}
use azure_pipelines_k8s_agen.World.Orderly.{
  IsOrderly, ListsSound, IsEnded, IsEnded-prop, HasOne, IsNamed, IsCompleteEntry,
}

module _ (t : Terms) (p : t.panics) where
  pub HasOne-allowed : (cs : List Container) → HasOne t cs
  HasOne-allowed [] = p
  HasOne-allowed (c ∷ cs) = tt

  pub allowed-IsNamed : (name : Text) → IsNamed t name
  allowed-IsNamed [] = p
  allowed-IsNamed (c ∷ name) = tt

  pub allowed-IsCompleteEntry : (e : PodsWithCapabilities) → IsCompleteEntry t e
  allowed-IsCompleteEntry e =
      (Given-panics t e.min_count p, Given-panics t e.max_count p, HasOne-allowed _)

module _ (t : Terms) (p : t.panics) (q : (e : GoError) → t.errors e) where
  pub Holds-allowed :
      {A : Type 0} (Q : A → Type 0) (r : Result A) → ((a : A) → r ≡ ok a → Q a) → Holds t Q r
  Holds-allowed Q (ok a) h = h a refl
  Holds-allowed Q (err e) h = q e
  Holds-allowed Q panic h = p

  -- Where a panic is on the terms, the order of a loop is all that they ask of the world.
  pub allowed-IsOrderly :
      (env : Env)
      → ((log : Log) (m : GoMap (List Pod))
          → Every (λ x. Every t.sound x.1) m
          → Every (λ x. Every t.sound x.1) (env.range_pods log m))
      → IsOrderly t env
  allowed-IsOrderly env w = record {
    get_secret = λ a b c. Holds-Anything t (env.get_secret a b c) p q;
    list_pvcs = λ a b c. Holds-Anything t (env.list_pvcs a b c) p q;
    create_pod = λ a b. Holds-Anything t (env.create_pod a b) p q;
    update_pod = λ a b h.
        Holds-allowed (λ updated. CanWrite t updated.annotations) (env.update_pod a b)
          λ updated _. CanWrite-panics t updated.annotations p;
    delete_pod = λ a b. Holds-Anything t (env.delete_pod a b) p q;
    create_pvc = λ a b. Holds-Anything t (env.create_pvc a b) p q;
    update_pvc = λ a b. Holds-Anything t (env.update_pvc a b) p q;
    new_executor = λ a b c d. Holds-Anything t (env.new_executor a b c d) p q;
    stream = λ a b c d. Holds-Anything t (env.stream a b c d) p q;
    http = λ a b.
        Holds-allowed (λ response. Holds t Anything response.body) (env.http a b)
          λ response _. Holds-Anything t response.body p q;
    intn = λ _ _. inr p;
    range_pods = w;
    encode_spec = λ a b. Holds-Anything t (env.encode_spec a b) p q;
    set_pod_controller = λ a b. Holds-Anything t (env.set_pod_controller a b) p q;
    set_pvc_controller = λ a b. Holds-Anything t (env.set_pvc_controller a b) p q;
    parse_quantity = λ a. Holds-Anything t (env.parse_quantity a) p q;
    parse_time = λ a. Holds-Anything t (env.parse_time a) p q;
    new_request = λ a b. Holds-Anything t (env.new_request a b) p q;
    decode_pools = λ a. Holds-Anything t (env.decode_pools a) p q;
    decode_agents = λ a. Holds-Anything t (env.decode_agents a) p q;
    decode_job_requests = λ a. Holds-Anything t (env.decode_job_requests a) p q;
    encode_register_request = λ a. Holds-Anything t (env.encode_register_request a) p q;
  }

  -- Where the pods that are listed are sound.
  module _ (env : Env) (namespace owner : Text)
      (listed : (log : Log) (phase : Option Text) (pods : List Pod)
        → env.list_pods log namespace owner phase ≡ ok pods
        → Every t.sound pods) where
    ended :
        (log : Log) (phase : Text)
        → Holds t
            (λ pods. Every (IsEnded t) (keep is_agent_pod pods))
            (env.list_pods log namespace owner (some phase))
    ended log phase =
        Holds-allowed (λ pods. Every (IsEnded t) (keep is_agent_pod pods)) _
          λ pods e.
            Every-keep (IsEnded t) (IsEnded-prop t) is_agent_pod pods
              λ pod m. (listed log (some phase) pods e pod m, Given-panics t pod.start_time p)

    pub allowed-ListsSound : ListsSound t env namespace owner
    allowed-ListsSound = record {
      listed = λ log phase.
          Holds-allowed (λ pods. Every t.sound (keep is_agent_pod pods)) _
            λ pods e. Every-keep t.sound t.sound_prop is_agent_pod pods (listed log phase pods e);
      succeeded = λ log. ended log (codes "Succeeded");
      failed = λ log. ended log (codes "Failed");
    }
