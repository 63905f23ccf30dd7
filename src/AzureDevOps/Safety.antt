-- ===== src/AzureDevOps/Safety.antt =====
-- The requests to Azure DevOps keep to the terms.
use azure_pipelines_k8s_agen.Prelude.{refl, ℕ, List, [], ◌∷◌, Option, none, some}
use azure_pipelines_k8s_agen.Text.{Text}
use azure_pipelines_k8s_agen.Kube.{AutoScaledAgentSpec, PodsWithCapabilities}
use azure_pipelines_k8s_agen.World.{Env, HttpResponse}
use azure_pipelines_k8s_agen.World.Safe.{
  Holds, Terms, Anything, Safe, Safe-return, Safe-fail, Safe-call, Safe-lift, Safe-either,
  Safe-bind, Safe-then, Safe-read_memory, Safe-write_memory,
}
use azure_pipelines_k8s_agen.World.Orderly.{IsOrderly}
use azure_pipelines_k8s_agen.AzureDevOps.{
  send, request_body, get_pending_jobs, only_pool, fetch_pool_id, cached_or_fetch,
  get_pool_id_from_name, compute_custom_resource_hash, register_dummy_agent, register_dummy_agents,
  register_and_cache, create_or_update_dummy_agents, delete_agent,
}

module _ {t : Terms} (env : Env) (o : IsOrderly t env) where
  abbrev HasBody : HttpResponse → Type 0
  HasBody response = Holds t Anything response.body

  send-Safe :
      (method url azure_pat body : Text) → Safe t HasBody (send env method url azure_pat body)
  send-Safe method url azure_pat body =
      Safe-then HasBody _ _ (Safe-lift Anything _ (o.new_request method url))
        λ _. Safe-call HasBody _ _ (λ log. o.http log _) refl

  pub request_body-Safe :
      (describe : Text → Text) (method url azure_pat : Text)
      → Safe t Anything (request_body env describe method url azure_pat)
  unfolding request_body
  request_body-Safe describe method url azure_pat =
      Safe-bind HasBody Anything _ _ (send-Safe method url azure_pat []) λ response h.
        Safe-then Anything _ _ (Safe-lift Anything _ h) λ body.
          Safe-either Anything _ _ _ (Safe-return Anything _ tt)
            (Safe-fail Anything _ (t.messages _))

  pub get_pending_jobs-Safe :
      (pool_id : ℕ) (azure_pat : Text) (spec : AutoScaledAgentSpec)
      → Safe t Anything (get_pending_jobs env pool_id azure_pat spec)
  unfolding get_pending_jobs
  get_pending_jobs-Safe pool_id azure_pat spec =
      Safe-then Anything _ _ (request_body-Safe _ _ _ _) λ body.
        Safe-then Anything _ _ (Safe-lift Anything _ (o.decode_job_requests body))
          λ requests. Safe-return Anything _ tt

  only_pool-Safe :
      (spec : AutoScaledAgentSpec) (ids : List ℕ) → Safe t Anything (only_pool env spec ids)
  unfolding only_pool
  only_pool-Safe spec [] = Safe-fail Anything _ (t.messages _)
  only_pool-Safe spec (id ∷ []) = Safe-return Anything _ tt
  only_pool-Safe spec (a ∷ b ∷ ids) = Safe-fail Anything _ (t.messages _)

  cached_or_fetch-Safe :
      (azure_pat : Text) (spec : AutoScaledAgentSpec) (known : Option ℕ)
      → Safe t Anything (cached_or_fetch env azure_pat spec known)
  unfolding cached_or_fetch fetch_pool_id
  cached_or_fetch-Safe azure_pat spec (some id) = Safe-return Anything _ tt
  cached_or_fetch-Safe azure_pat spec none =
      Safe-then Anything _ _ (request_body-Safe _ _ _ _) λ body.
        Safe-then Anything _ _ (Safe-lift Anything _ (o.decode_pools body)) λ ids.
          Safe-then Anything _ _ (only_pool-Safe spec ids) λ id.
            Safe-then Anything _ _ (Safe-write_memory _ (λ s c. c)) λ _. Safe-return Anything _ tt

  pub get_pool_id_from_name-Safe :
      (azure_pat : Text) (spec : AutoScaledAgentSpec)
      → Safe t Anything (get_pool_id_from_name env azure_pat spec)
  unfolding get_pool_id_from_name
  get_pool_id_from_name-Safe azure_pat spec =
      Safe-then Anything _ _ Safe-read_memory λ m. cached_or_fetch-Safe azure_pat spec _

  register_dummy_agents-Safe :
      (pool_id : ℕ) (azure_pat : Text) (spec : AutoScaledAgentSpec) (ps : List PodsWithCapabilities)
      → Safe t Anything (register_dummy_agents env pool_id azure_pat spec ps)
  unfolding register_dummy_agents register_dummy_agent
  register_dummy_agents-Safe pool_id azure_pat spec [] = Safe-return Anything _ tt
  register_dummy_agents-Safe pool_id azure_pat spec (p ∷ ps) =
      Safe-then Anything _ _
        (Safe-then Anything _ _ (Safe-lift Anything _ (o.encode_register_request _)) λ body.
          Safe-bind HasBody Anything _ _ (send-Safe _ _ _ _) λ response _.
            Safe-either Anything _ _ _ (Safe-return Anything _ tt)
              (Safe-fail Anything _ (t.messages _)))
        λ name.
          Safe-then Anything _ _ (register_dummy_agents-Safe pool_id azure_pat spec ps)
            λ names. Safe-return Anything _ tt

  pub create_or_update_dummy_agents-Safe :
      (pool_id : ℕ) (azure_pat cr_name : Text) (spec : AutoScaledAgentSpec)
      → Safe t Anything (create_or_update_dummy_agents env pool_id azure_pat cr_name spec)
  unfolding create_or_update_dummy_agents compute_custom_resource_hash register_and_cache
  create_or_update_dummy_agents-Safe pool_id azure_pat cr_name spec =
      Safe-then Anything _ _
        (Safe-then Anything _ _ (Safe-call Anything _ _ (λ log. o.encode_spec log spec) refl)
          λ bytes. Safe-return Anything _ tt)
        λ hash. Safe-then Anything _ _ Safe-read_memory λ m.
          Safe-either Anything _ _ _ (Safe-return Anything _ tt) (
            Safe-then Anything _ _ (register_dummy_agents-Safe pool_id azure_pat spec _) λ names.
              Safe-then Anything _ _ (Safe-write_memory _ (λ s c. c))
                λ _. Safe-return Anything _ tt)

  pub delete_agent-Safe :
      (organization_url : Text) (pool_id : ℕ) (azure_pat : Text) (agent_id : ℕ)
      → Safe t Anything (delete_agent env organization_url pool_id azure_pat agent_id)
  unfolding delete_agent
  delete_agent-Safe organization_url pool_id azure_pat agent_id =
      Safe-then Anything _ _ (request_body-Safe _ _ _ _) λ _. Safe-return Anything _ tt
