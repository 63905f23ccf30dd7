-- ===== src/AgentCreation/Safety.antt =====
-- Creating agents keeps to the terms where each entry gives its maximum and its template has a
-- container.
use azure_pipelines_k8s_agen.Prelude.{refl, ℕ, zero, suc, List, [], ◌∷◌, Option, none, some, Every}
use azure_pipelines_k8s_agen.Text.{Text}
use azure_pipelines_k8s_agen.GoMap.{GoMap, lookup}
use azure_pipelines_k8s_agen.Capabilities.{extra_agent_containers_annotation_key}
use azure_pipelines_k8s_agen.Go.{ok}
use azure_pipelines_k8s_agen.Kube.{AutoScaledAgent, PodsWithCapabilities, Container, EnvVar}
use azure_pipelines_k8s_agen.World.{Env}
use azure_pipelines_k8s_agen.World.Safe.{
  AllowsCreations, AllowsExhaustion, Safe-change, Terms, Holds, Anything, Safe, Safe-return,
  Safe-crash, Safe-lift, Safe-call, Safe-bind, Safe-then,
}
use azure_pipelines_k8s_agen.World.Orderly.{
  IsOrderly, IsCompleteEntry, IsNamedVolume, HasOne, generate_random_string-Safe,
}
use azure_pipelines_k8s_agen.ExtraContainers.{parse_extra_agent_container_definition}
use azure_pipelines_k8s_agen.ExtraContainers.Safety.{parse_extra_agent_container_definition-Holds}
use azure_pipelines_k8s_agen.PvcAssignment.Safety.{assign_or_create_pvcs-Safe}
use azure_pipelines_k8s_agen.AgentCreation.{
  add_env, extra_containers, with_env, prepare_agent, create_agent, create_agents,
}

-- Variables are added to the first container.
add_env-Safe :
    {t : Terms} (vars : List EnvVar) (cs : List Container)
    → HasOne t cs
    → Safe t (HasOne t) (with_env (add_env vars cs))
unfolding add_env with_env
add_env-Safe vars [] h = Safe-crash _ h
add_env-Safe vars (c ∷ cs) h = Safe-return _ _ tt

module _ {t : Terms} (env : Env) (o : IsOrderly t env) where
  extra_containers-Holds :
      (capabilities : GoMap Text) → Holds t Anything (extra_containers env capabilities)
  unfolding extra_containers
  extra_containers-Holds capabilities =
      of (lookup capabilities extra_agent_containers_annotation_key)
    where
      of :
          (extra : Option Text)
          → Holds t Anything (elim extra [
            | none ↦ ok []
            | some text ↦ parse_extra_agent_container_definition env.parse_quantity text
          ])
      of none = tt
      of (some text) =
          parse_extra_agent_container_definition-Holds t env.parse_quantity o.parse_quantity text

  module _ (namespace owner : Text) (agent : AutoScaledAgent) (p : PodsWithCapabilities)
      (complete : Every (IsCompleteEntry t) agent.spec.pods_with_capabilities)
      (one : HasOne t p.pod_template_spec.containers)
      (named : Every (IsNamedVolume t) agent.spec.reusable_cache_volumes)
      (exhausts : AllowsExhaustion t) where
    pub prepare_agent-Safe :
        (capabilities : GoMap Text)
        → Safe t Anything (prepare_agent env namespace owner agent p capabilities)
    unfolding prepare_agent
    prepare_agent-Safe capabilities =
        Safe-then Anything _ _ (generate_random_string-Safe env o) λ suffix.
          Safe-bind (HasOne t) Anything _ _ (add_env-Safe _ _ one) λ with_four h.
            Safe-then Anything _ _ (Safe-call Anything _ _ (λ log. tt) refl) λ ordered.
              Safe-bind (HasOne t) Anything _ _ (add_env-Safe _ with_four h) λ containers _.
                Safe-then Anything _ _ (Safe-lift Anything _ (extra_containers-Holds capabilities))
                  λ extra.
                    Safe-then Anything _ _ (Safe-lift Anything _ (o.set_pod_controller agent _))
                      λ controller.
                        assign_or_create_pvcs-Safe env o agent complete named exhausts namespace
                          owner _

    module _ (creates : AllowsCreations t) where
      create_agent-Safe :
          (capabilities : GoMap Text)
          → Safe t Anything (create_agent env namespace owner agent p capabilities)
      unfolding create_agent
      create_agent-Safe capabilities =
          Safe-then Anything _ _ (prepare_agent-Safe capabilities) λ pod.
            Safe-then Anything _ _
              (Safe-change Anything _ _ (λ log. o.create_pod log pod) (λ log. creates pod log))
              λ _. Safe-return Anything _ tt

      pub create_agents-Safe :
          (count : ℕ) (capabilities : GoMap Text)
          → Safe t Anything (create_agents env namespace owner agent p count capabilities)
      unfolding create_agents
      create_agents-Safe zero capabilities = Safe-return Anything _ tt
      create_agents-Safe (suc count) capabilities =
          Safe-then Anything _ _ (create_agent-Safe capabilities)
            λ _. create_agents-Safe count capabilities
