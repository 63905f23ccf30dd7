-- ===== src/AzureDevOps.antt =====
-- internal/service/utils.go: the calls of the Azure DevOps REST API, with their caches.
pub mod Caching
pub mod Safety
use azure_pipelines_k8s_agen.Prelude.{
  ℕ, zero, suc, ◌+◌, ◌/◌, ◌%◌, Bool, true, false, ◌&&◌, ◌||◌, not, List, [], ◌∷◌, ◌++◌, Option,
  none, some, ltb, leb, ◌==◌, length, if◌then◌else◌,
}
use azure_pipelines_k8s_agen.Text.{Text, codes, text_eq, starts_with}
use azure_pipelines_k8s_agen.Text.Sort.{contains}
use azure_pipelines_k8s_agen.GoMap.{GoMap, lookup, insert, get_or}
use azure_pipelines_k8s_agen.Go.{
  Result, ok, message, return, fail, lift, deref, and_then, ◌>>=◌, ◌>>◌,
}
use azure_pipelines_k8s_agen.Kube.{AutoScaledAgentSpec, PodsWithCapabilities}
use azure_pipelines_k8s_agen.World.{
  Env, Call, HttpRequest, HttpResponse, AzurePipelinesAgent, AzurePipelinesRegisterAgentRequest,
  Memory,
}
use azure_pipelines_k8s_agen.World.Monad.{M, call, now, http, read_memory, write_memory}
use azure_pipelines_k8s_agen.PendingJobs.{PendingJobsWrapper, add_open_requests}
use azure_pipelines_k8s_agen.AgentNames.{get_dummy_agent_name, dummy_agent_name_prefix}

unfoldable pub decimal_onto : ℕ → ℕ → Text → Text
decimal_onto zero n acc = acc
decimal_onto (suc fuel) n acc =
    let digit = b'0' + n % 10 in
    let more = decimal_onto fuel (n / 10) (digit ∷ acc) in if ltb n 10 then digit ∷ acc else more

-- `%d`
unfoldable pub decimal : ℕ → Text
unfolding decimal_onto
decimal n = decimal_onto (suc n) n []

abbrev pub is_success : ℕ → Bool
is_success status = leb 200 status && leb status 299

abbrev pub pools_url : AutoScaledAgentSpec → Text
pools_url spec =
    spec.organization_url ++ (codes "/_apis/distributedtask/pools?poolName=" ++ spec.pool_name)

abbrev pub pool_url : Text → ℕ → Text → Text
pool_url organization_url pool_id rest =
    organization_url ++ (codes "/_apis/distributedtask/pools/" ++ (decimal pool_id ++ rest))

abbrev pub agents_path : Text
agents_path = codes "/agents?api-version=7.0"

abbrev pub api_error : Text → ℕ → Text
api_error url status =
    codes "Azure DevOps REST API returned error. url: "
    ++ (url ++ (codes " status: " ++ decimal status))

abbrev pub with_response : Text → Text
with_response body = codes " response: " ++ body

abbrev is_hash : Option Text → Text → Bool
is_hash none hash = false
is_hash (some known) hash = text_eq known hash

module _ (env : Env) where
  abbrev pub send : Text → Text → Text → Text → M HttpResponse
  send method url azure_pat body = do
    lift (env.new_request method url)
    http env (record { method = method; url = url; password = azure_pat; body = body })

  -- A request whose answer is read whole before its status is looked at; `describe` is what an error
  -- says of the answer.
  unfoldable pub request_body : (Text → Text) → Text → Text → Text → M Text
  request_body describe method url azure_pat = do
    response ← send method url azure_pat []
    body ← lift response.body
    if is_success response.status_code
        then return body
        else fail (message (api_error url response.status_code ++ describe body))

  unfoldable pub get_pending_jobs : ℕ → Text → AutoScaledAgentSpec → M PendingJobsWrapper
  unfolding request_body
  get_pending_jobs pool_id azure_pat spec = do
    body ←
        request_body with_response (codes "GET")
          (pool_url spec.organization_url pool_id (codes "/jobrequests")) azure_pat
    requests ← lift (env.decode_job_requests body)
    return (add_open_requests [] requests)

  -- The checks on the number of pools.
  only_pool : AutoScaledAgentSpec → List ℕ → M ℕ
  only_pool spec [] = fail (
      message
        (codes "agent pool with name `" ++ (spec.pool_name ++ codes "` not found in response")))
  only_pool spec (id ∷ []) = return id
  only_pool spec ids = fail (
      message (
        codes "found "
        ++ (decimal (length ids)
            ++ (codes " agent pools with name `" ++ (spec.pool_name ++ codes "`")))))

  fetch_pool_id : Text → AutoScaledAgentSpec → M ℕ
  unfolding request_body only_pool
  fetch_pool_id azure_pat spec = do
    body ← request_body (λ _. []) (codes "GET") (pools_url spec) azure_pat
    ids ← lift (env.decode_pools body)
    pool_id ← only_pool spec ids
    write_memory (λ s. record s {
      cached_azp_pool_ids =
          insert s.cached_azp_pool_ids (spec.organization_url ++ spec.pool_name) pool_id;
    })
    return pool_id

  cached_or_fetch : Text → AutoScaledAgentSpec → Option ℕ → M ℕ
  unfolding fetch_pool_id
  cached_or_fetch azure_pat spec (some pool_id) = return pool_id
  cached_or_fetch azure_pat spec none = fetch_pool_id azure_pat spec

  unfoldable pub get_pool_id_from_name : Text → AutoScaledAgentSpec → M ℕ
  unfolding cached_or_fetch
  get_pool_id_from_name azure_pat spec = do
    m ← read_memory
    cached_or_fetch azure_pat spec
        (lookup m.cached_azp_pool_ids (spec.organization_url ++ spec.pool_name))

  unfoldable pub compute_custom_resource_hash : AutoScaledAgentSpec → M Text
  compute_custom_resource_hash spec = do
    bytes ← call Call.range (λ log. env.encode_spec log spec)
    return (env.sha256_hex bytes)

  abbrev pub register_request : Text → GoMap Text → AzurePipelinesRegisterAgentRequest
  register_request name capabilities = record {
    name = name;
    version = codes "99.999.9";
    os_description = codes "Linux 5.15.49-linuxkit-pr #1 SMP PREEMPT Thu May 25 07:27:39 UTC 2023";
    enabled = true;
    status = codes "offline";
    provisioning_state = codes "Provisioned";
    system_capabilities = capabilities;
  }

  -- The body of the loop, for one entry of the spec.
  register_dummy_agent : ℕ → Text → AutoScaledAgentSpec → PodsWithCapabilities → M Text
  register_dummy_agent pool_id azure_pat spec p = do
    let name = get_dummy_agent_name p.capabilities
    let url = pool_url spec.organization_url pool_id agents_path
    body ← lift (env.encode_register_request (register_request name p.capabilities))
    response ← send (codes "POST") url azure_pat body
    if response.status_code == 409 || response.status_code == 200
        then return name
        else fail (message (api_error url response.status_code))

  register_dummy_agents : ℕ → Text → AutoScaledAgentSpec → List PodsWithCapabilities → M (List Text)
  unfolding register_dummy_agent
  register_dummy_agents pool_id azure_pat spec [] = return []
  register_dummy_agents pool_id azure_pat spec (p ∷ ps) = do
    name ← register_dummy_agent pool_id azure_pat spec p
    names ← register_dummy_agents pool_id azure_pat spec ps
    return (name ∷ names)

  register_and_cache : ℕ → Text → Text → AutoScaledAgentSpec → Text → M (List Text)
  unfolding register_dummy_agents
  register_and_cache pool_id azure_pat cr_name spec hash = do
    names ← register_dummy_agents pool_id azure_pat spec spec.pods_with_capabilities
    write_memory (λ s. record s {
      dummy_agent_names = insert s.dummy_agent_names cr_name names;
      cached_custom_resource_hash = insert s.cached_custom_resource_hash cr_name hash;
    })
    return names

  unfoldable pub create_or_update_dummy_agents :
      ℕ → Text → Text → AutoScaledAgentSpec → M (List Text)
  unfolding compute_custom_resource_hash register_and_cache
  create_or_update_dummy_agents pool_id azure_pat cr_name spec = do
    hash ← compute_custom_resource_hash spec
    m ← read_memory
    if is_hash (lookup m.cached_custom_resource_hash cr_name) hash
        then return (get_or m.dummy_agent_names cr_name [])
        else register_and_cache pool_id azure_pat cr_name spec hash

  unfoldable pub delete_agent : Text → ℕ → Text → ℕ → M (Unit {0})
  unfolding request_body
  delete_agent organization_url pool_id azure_pat agent_id = do
    request_body with_response (codes "DELETE")
        (pool_url organization_url pool_id
          (codes "/agents/" ++ (decimal agent_id ++ codes "?api-version=7.0")))
        azure_pat
    return tt
