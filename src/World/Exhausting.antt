-- ===== src/World/Exhausting.antt =====
-- A world on given terms is on those with one more error.
use azure_pipelines_k8s_agen.Go.{Result, ok, err, panic}
use azure_pipelines_k8s_agen.World.{Env, HttpResponse}
use azure_pipelines_k8s_agen.World.Safe.{
  Terms, Holds, Holds-exhausting, exhausting_errors, CanWrite, Anything, exhausting,
}
use azure_pipelines_k8s_agen.World.Orderly.{IsOrderly}

module _ (t : Terms) where
  -- The body that is read is an answer too.
  http-exhausting :
      (r : Result HttpResponse)
      → Holds t (λ response. Holds t Anything response.body) r
      → Holds (exhausting t) (λ response. Holds (exhausting t) Anything response.body) r
  http-exhausting (ok response) h = Holds-exhausting t Anything response.body h
  http-exhausting (err e) h = exhausting_errors t e h
  http-exhausting panic h = h

  pub exhausting-IsOrderly : (env : Env) → IsOrderly t env → IsOrderly (exhausting t) env
  exhausting-IsOrderly env o = record {
    get_secret = λ a b c. Holds-exhausting t Anything (env.get_secret a b c) (o.get_secret a b c);
    list_pvcs = λ a b c. Holds-exhausting t Anything (env.list_pvcs a b c) (o.list_pvcs a b c);
    create_pod = λ a b. Holds-exhausting t Anything (env.create_pod a b) (o.create_pod a b);
    update_pod = λ a b h.
        Holds-exhausting t (λ updated. CanWrite t updated.annotations) (env.update_pod a b)
          (o.update_pod a b h);
    delete_pod = λ a b. Holds-exhausting t Anything (env.delete_pod a b) (o.delete_pod a b);
    create_pvc = λ a b. Holds-exhausting t Anything (env.create_pvc a b) (o.create_pvc a b);
    update_pvc = λ a b. Holds-exhausting t Anything (env.update_pvc a b) (o.update_pvc a b);
    new_executor =
        λ a b c d. Holds-exhausting t Anything (env.new_executor a b c d) (o.new_executor a b c d);
    stream = λ a b c d. Holds-exhausting t Anything (env.stream a b c d) (o.stream a b c d);
    http = λ a b. http-exhausting (env.http a b) (o.http a b);
    intn = o.intn;
    range_pods = o.range_pods;
    encode_spec = λ a b. Holds-exhausting t Anything (env.encode_spec a b) (o.encode_spec a b);
    set_pod_controller =
        λ a b. Holds-exhausting t Anything (env.set_pod_controller a b) (o.set_pod_controller a b);
    set_pvc_controller =
        λ a b. Holds-exhausting t Anything (env.set_pvc_controller a b) (o.set_pvc_controller a b);
    parse_quantity = λ a. Holds-exhausting t Anything (env.parse_quantity a) (o.parse_quantity a);
    parse_time = λ a. Holds-exhausting t Anything (env.parse_time a) (o.parse_time a);
    new_request = λ a b. Holds-exhausting t Anything (env.new_request a b) (o.new_request a b);
    decode_pools = λ a. Holds-exhausting t Anything (env.decode_pools a) (o.decode_pools a);
    decode_agents = λ a. Holds-exhausting t Anything (env.decode_agents a) (o.decode_agents a);
    decode_job_requests =
        λ a. Holds-exhausting t Anything (env.decode_job_requests a) (o.decode_job_requests a);
    encode_register_request = λ a.
        Holds-exhausting t Anything (env.encode_register_request a) (o.encode_register_request a);
  }
