-- ===== src/FakeAgent/Client.antt =====
-- fake_agent/utils/fake_agent_utils.go: the requests of the fake agent to the platform server.
use azure_pipelines_k8s_agen.Prelude.{
  ℕ, true, ◌&&◌, not, List, [], ◌∷◌, ◌++◌, ◌==◌, length, if◌then◌else◌, ℤ,
}
use azure_pipelines_k8s_agen.Text.{Text, codes}
use azure_pipelines_k8s_agen.Go.{message, conflict, return, fail, lift, ◌>>=◌, ◌>>◌}
use azure_pipelines_k8s_agen.World.{HttpResponse, AzurePipelinesRegisterAgentRequest}
use azure_pipelines_k8s_agen.AzureDevOps.{decimal, is_success, api_error, with_response}
use azure_pipelines_k8s_agen.FakeAgent.Integers.{decimal_int}
use azure_pipelines_k8s_agen.FakeAgent.Machine.{AgentHttpRequest, Event, Machine, Action, occur}
use azure_pipelines_k8s_agen.FakeAgent.Jobs.{SeenJob, seen_jobs, capabilities_map_from_env}

-- The URLs of fake_platform_server/server.go, with the identifiers put in.
abbrev pub agents_container_url : ℕ → Text
agents_container_url pool_id =
    codes "/_apis/distributedtask/pools/" ++ (decimal pool_id ++ codes "/agents")

abbrev pub jobs_list_url : ℕ → Text
jobs_list_url pool_id =
    codes "/_apis/distributedtask/pools/" ++ (decimal pool_id ++ codes "/jobrequests")

abbrev pub specific_agent_url : ℕ → ℕ → Text
specific_agent_url pool_id agent_id =
    codes "/_apis/distributedtask/pools/"
    ++ (decimal pool_id ++ (codes "/agents/" ++ decimal agent_id))

abbrev pub assign_job_url : ℤ → Text
assign_job_url job_id = codes "/fake-api/assign-job/" ++ decimal_int job_id

abbrev pub finish_job_url : ℤ → Text
finish_job_url job_id = codes "/fake-api/finish-job/" ++ decimal_int job_id

-- The request by which the agent registers.
abbrev pub online_request : Text → List Text → AzurePipelinesRegisterAgentRequest
online_request agent_name environ = record {
  name = agent_name;
  version = codes "99.999.9";
  os_description = codes "Linux 5.15.49-linuxkit-pr #1 SMP PREEMPT Thu May 25 07:27:39 UTC 2023";
  enabled = true;
  status = codes "online";
  provisioning_state = codes "Provisioned";
  system_capabilities = capabilities_map_from_env environ;
}

module _ (machine : Machine) where
  -- `httpClient.Get(url)`
  abbrev get : Text → Action HttpResponse
  get url =
      let request : AgentHttpRequest = record {
        method = codes "GET";
        url = url;
        header = [];
        body = [];
      } in
      occur (Event.sent request) (λ events. machine.http events request)

  -- `http.NewRequest`, then `httpClient.Do`
  abbrev do_request : AgentHttpRequest → Action HttpResponse
  do_request request = do
    lift (machine.new_request request.method request.url)
    occur (Event.sent request) (λ events. machine.http events request)

  -- The identifier of the only pool, or what is wrong with their number.
  only_pool_id : Text → List ℕ → Action ℕ
  only_pool_id pool_name (id ∷ []) = return id
  only_pool_id pool_name ids = fail (
      message (
        codes "found "
        ++ (decimal (length ids)
            ++ (codes " agent pools with name `" ++ (pool_name ++ codes "`")))))

  unfoldable pub get_pool_id_from_name : Text → Text → Action ℕ
  unfolding only_pool_id
  get_pool_id_from_name organization_url pool_name = do
    let url = organization_url ++ (codes "/_apis/distributedtask/pools?poolName=" ++ pool_name)
    response ← get url
    body ← lift response.body
    if is_success response.status_code
        then (do ids ← lift (machine.decode_pools body); only_pool_id pool_name ids)
        else fail (message (api_error url response.status_code))

  unfoldable pub register_as_agent : Text → ℕ → Text → Action ℕ
  register_as_agent organization_url pool_id agent_name = do
    let url = organization_url ++ agents_container_url pool_id
    request_body ←
        lift (machine.encode_register_request (online_request agent_name machine.environ))
    response ← do_request (record {
      method = codes "POST";
      url = url;
      header = (codes "Content-Type", codes "application/json") ∷ [];
      body = request_body;
    })
    body ← lift response.body
    if not (is_success response.status_code) && not (response.status_code == 409)
        then fail (message (api_error url response.status_code))
        else lift (machine.decode_agent_id body)

  unfoldable pub get_pending_jobs : Text → ℕ → Action (List SeenJob)
  get_pending_jobs organization_url pool_id = do
    let url = organization_url ++ jobs_list_url pool_id
    response ← get url
    body ← lift response.body
    if is_success response.status_code
        then (do
          requests ← lift (machine.decode_job_requests body)
          return (seen_jobs pool_id requests))
        else fail (message (api_error url response.status_code ++ with_response body))

  -- What the requests that assign and finish a job have in common: the header is set once the URL
  -- has been accepted, and the body of the answer is not read.
  unfoldable pub post_for_job : Text → Text → Action HttpResponse
  post_for_job url agent_name = do
    lift (machine.new_request (codes "POST") url)
    capabilities ← lift (machine.encode_capabilities (capabilities_map_from_env machine.environ))
    let request : AgentHttpRequest = record {
      method = codes "POST";
      url = url;
      header =
          (codes "X-AZP-Agent-Name", agent_name)
          ∷ (codes "X-AZP-AGENT-CAPABILITIES", capabilities)
          ∷ [];
      body = [];
    }
    occur (Event.sent request) (λ events. machine.http events request)

  unfoldable pub assign_job : Text → Text → ℤ → Action (Unit {0})
  unfolding post_for_job
  assign_job organization_url agent_name job_id = do
    let url = organization_url ++ assign_job_url job_id
    response ← post_for_job url agent_name
    if is_success response.status_code
        then return tt
        else if response.status_code == 409
        then fail conflict
        else fail (message (api_error url response.status_code))

  unfoldable pub finish_job : Text → Text → ℤ → Action (Unit {0})
  unfolding post_for_job
  finish_job organization_url agent_name job_id = do
    let url = organization_url ++ finish_job_url job_id
    response ← post_for_job url agent_name
    if is_success response.status_code
        then return tt
        else fail (message (api_error url response.status_code))

  unfoldable pub delete_agent : Text → ℕ → ℕ → Action (Unit {0})
  delete_agent organization_url agent_id pool_id = do
    let url = organization_url ++ specific_agent_url pool_id agent_id
    response ← do_request (record { method = codes "DELETE"; url = url; header = []; body = [] })
    if is_success response.status_code
        then return tt
        else fail (message (api_error url response.status_code))
