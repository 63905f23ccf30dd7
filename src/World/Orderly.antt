-- ===== src/World/Orderly.antt =====
-- A world on given terms: its answers are errors or panics only on them, an update leaves a pod with
-- annotations if it has any, and the agent pods that it lists are sound.
use mathlib.Core.HLevel.{×_prop, ×₃_prop}
use azure_pipelines_k8s_agen.Prelude.{
  refl, ℕ, zero, suc, ◌<◌, [], ◌∷◌, List, Option, some, arith, length, ◌⊎◌, inl, inr, get_elem?,
  Every, keep,
}
use azure_pipelines_k8s_agen.Text.{Text, codes}
use azure_pipelines_k8s_agen.GoMap.{GoMap}
use azure_pipelines_k8s_agen.Kube.{
  Pod, PersistentVolumeClaim, Container, AutoScaledAgent, AutoScaledAgentSpec, PodsWithCapabilities,
  ReusableCacheVolume,
}
use azure_pipelines_k8s_agen.World.{Log, Env, HttpRequest, AzurePipelinesRegisterAgentRequest}
use azure_pipelines_k8s_agen.World.Monad.{random_chars, generate_random_string, charset}
use azure_pipelines_k8s_agen.AgentPods.{is_agent_pod}
use azure_pipelines_k8s_agen.World.Safe.{
  Terms, Holds, CanWrite, Anything, Given, Given-panics, Given-prop, Safe, Safe-then, Safe-bind,
  Safe-return, Safe-call, Safe-deref,
}

-- A pod that has ended is sound, and has a start time.
abbrev pub IsEnded : Terms → Pod → Type 0
IsEnded t pod = t.sound pod × Given t pod.start_time

pub record IsOrderly (t : Terms) (env : Env) : Type 0 where
  pub get_secret :
      (log : Log) (namespace name : Text) → Holds t Anything (env.get_secret log namespace name)
  pub list_pvcs :
      (log : Log) (namespace owner : Text) → Holds t Anything (env.list_pvcs log namespace owner)
  pub create_pod : (log : Log) (pod : Pod) → Holds t Anything (env.create_pod log pod)
  pub update_pod :
      (log : Log) (pod : Pod)
      → CanWrite t pod.annotations
      → Holds t (λ updated. CanWrite t updated.annotations) (env.update_pod log pod)
  pub delete_pod : (log : Log) (pod : Pod) → Holds t Anything (env.delete_pod log pod)
  pub create_pvc :
      (log : Log) (pvc : PersistentVolumeClaim) → Holds t Anything (env.create_pvc log pvc)
  pub update_pvc :
      (log : Log) (pvc : PersistentVolumeClaim) → Holds t Anything (env.update_pvc log pvc)
  pub new_executor : (log : Log) (a b c : Text) → Holds t Anything (env.new_executor log a b c)
  pub stream : (log : Log) (a b c : Text) → Holds t Anything (env.stream log a b c)
  pub http :
      (log : Log) (r : HttpRequest)
      → Holds t (λ response. Holds t Anything response.body) (env.http log r)
  pub intn : (log : Log) (n : ℕ) → (env.intn log (suc n) < suc n) ⊎ t.panics
  pub range_pods :
      (log : Log) (m : GoMap (List Pod))
      → Every (λ x. Every t.sound x.1) m
      → Every (λ x. Every t.sound x.1) (env.range_pods log m)
  pub encode_spec :
      (log : Log) (spec : AutoScaledAgentSpec) → Holds t Anything (env.encode_spec log spec)
  pub set_pod_controller :
      (agent : AutoScaledAgent) (pod : Pod) → Holds t Anything (env.set_pod_controller agent pod)
  pub set_pvc_controller :
      (agent : AutoScaledAgent) (pvc : PersistentVolumeClaim)
      → Holds t Anything (env.set_pvc_controller agent pvc)
  pub parse_quantity : (text : Text) → Holds t Anything (env.parse_quantity text)
  pub parse_time : (text : Text) → Holds t Anything (env.parse_time text)
  pub new_request : (method url : Text) → Holds t Anything (env.new_request method url)
  pub decode_pools : (body : Text) → Holds t Anything (env.decode_pools body)
  pub decode_agents : (body : Text) → Holds t Anything (env.decode_agents body)
  pub decode_job_requests : (body : Text) → Holds t Anything (env.decode_job_requests body)
  pub encode_register_request :
      (r : AzurePipelinesRegisterAgentRequest) → Holds t Anything (env.encode_register_request r)

-- The agent pods that are listed for the resource are sound, and those listed as ended have ended.
pub record ListsSound (t : Terms) (env : Env) (namespace owner : Text) : Type 0 where
  pub listed :
      (log : Log) (phase : Option Text)
      → Holds t
          (λ pods. Every t.sound (keep is_agent_pod pods))
          (env.list_pods log namespace owner phase)
  pub succeeded :
      (log : Log)
      → Holds t
          (λ pods. Every (IsEnded t) (keep is_agent_pod pods))
          (env.list_pods log namespace owner (some (codes "Succeeded")))
  pub failed :
      (log : Log)
      → Holds t
          (λ pods. Every (IsEnded t) (keep is_agent_pod pods))
          (env.list_pods log namespace owner (some (codes "Failed")))

pub Given-get_elem :
    {A : Type 0} (t : Terms) (xs : List A) (i : ℕ)
    → (i < length xs) ⊎ t.panics
    → Given t (get_elem? xs i)
Given-get_elem t xs i (inr p) = Given-panics t (get_elem? xs i) p
Given-get_elem t [] i (inl h) = absurd (omega (arith, h))
Given-get_elem t (x ∷ xs) zero (inl h) = tt
Given-get_elem t (x ∷ xs) (suc i) (inl h) = Given-get_elem t xs i (inl (omega (arith, h)))

module _ {t : Terms} (env : Env) (o : IsOrderly t env) where
  random_chars-Safe : (n : ℕ) → Safe t Anything (random_chars env n)
  unfolding random_chars
  random_chars-Safe zero = Safe-return Anything _ tt
  random_chars-Safe (suc n) =
      Safe-bind (λ i. (i < 36) ⊎ t.panics) Anything _ _
        (Safe-call _ _ _ (λ log. o.intn log 35) refl)
        λ i h.
          Safe-then Anything _ _ (Safe-deref _ (Given-get_elem t (charset env) i h))
            λ c. Safe-then Anything _ _ (random_chars-Safe n) λ rest. Safe-return Anything _ tt

  pub generate_random_string-Safe : Safe t Anything (generate_random_string env)
  unfolding generate_random_string
  generate_random_string-Safe = random_chars-Safe 5

-- The list has a container, or a panic is on the terms.
abbrev pub HasOne : Terms → List Container → Type 0
HasOne t [] = t.panics
HasOne t (c ∷ cs) = Unit

pub HasOne-prop : (t : Terms) (cs : List Container) → IsProp (HasOne t cs)
HasOne-prop t [] = t.panics_prop
HasOne-prop t (c ∷ cs) = hlevel

-- The text is not empty, or a panic is on the terms.
abbrev pub IsNamed : Terms → Text → Type 0
IsNamed t [] = t.panics
IsNamed t (_ ∷ _) = Unit

pub IsNamed-prop : (t : Terms) (name : Text) → IsProp (IsNamed t name)
IsNamed-prop t [] = t.panics_prop
IsNamed-prop t (c ∷ name) = hlevel

-- The cache volume has a name.
abbrev pub IsNamedVolume : Terms → ReusableCacheVolume → Type 0
IsNamedVolume t volume = IsNamed t volume.name

-- The entry gives both counts, and its template has a container.
abbrev pub IsCompleteEntry : Terms → PodsWithCapabilities → Type 0
IsCompleteEntry t p =
    Given t p.min_count × Given t p.max_count × HasOne t p.pod_template_spec.containers

pub IsCompleteEntry-prop : (t : Terms) (p : PodsWithCapabilities) → IsProp (IsCompleteEntry t p)
IsCompleteEntry-prop t p =
    ×₃_prop (Given-prop t p.min_count) (Given-prop t p.max_count) (HasOne-prop t _)

pub IsEnded-prop : (t : Terms) (pod : Pod) → IsProp (IsEnded t pod)
IsEnded-prop t pod = ×_prop (t.sound_prop pod) (Given-prop t pod.start_time)
