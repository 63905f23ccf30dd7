-- ===== src/World/Monad.antt =====
-- Calls as actions: each is logged, then answered.
use azure_pipelines_k8s_agen.Prelude.{ℕ, zero, suc, List, [], ◌∷◌, Option, get_elem?}
use azure_pipelines_k8s_agen.Text.{Text, codes}
use azure_pipelines_k8s_agen.GoMap.{GoMap}
use azure_pipelines_k8s_agen.Go.{Result, Go, ok, return, deref, ◌>>=◌}
use azure_pipelines_k8s_agen.World.{Call, Log, Env, Memory, HttpRequest, HttpResponse}
use azure_pipelines_k8s_agen.Kube.{Pod, PersistentVolumeClaim}
use azure_pipelines_k8s_agen.PendingJobs.{PendingJob}

abbrev pub M : Type 0 → Type 0
M A = Go Memory A

-- Log the call, and return the answer that the world gives to the calls so far.
unfoldable pub call : {A : Type 0} → Call → (Log → Result A) → M A
call c answer s = (answer s.log, record s { log = c ∷ s.log })

module _ (env : Env) where
  abbrev pub create_pod : Pod → M (Unit {0})
  create_pod pod = call (Call.create_pod pod) (λ log. env.create_pod log pod)

  abbrev pub update_pod : Pod → M Pod
  update_pod pod = call (Call.update_pod pod) (λ log. env.update_pod log pod)

  abbrev pub delete_pod : Pod → M (Unit {0})
  delete_pod pod = call (Call.delete_pod pod) (λ log. env.delete_pod log pod)

  abbrev pub create_pvc : PersistentVolumeClaim → M PersistentVolumeClaim
  create_pvc pvc = call (Call.create_pvc pvc) (λ log. env.create_pvc log pvc)

  abbrev pub update_pvc : PersistentVolumeClaim → M PersistentVolumeClaim
  update_pvc pvc = call (Call.update_pvc pvc) (λ log. env.update_pvc log pvc)

  abbrev pub list_pods : Text → Text → Option Text → M (List Pod)
  list_pods namespace owner phase =
      call (Call.list_pods namespace owner phase) (λ log. env.list_pods log namespace owner phase)

  abbrev pub list_pvcs : Text → Text → M (List PersistentVolumeClaim)
  list_pvcs namespace owner =
      call (Call.list_pvcs namespace owner) (λ log. env.list_pvcs log namespace owner)

  abbrev pub http : HttpRequest → M HttpResponse
  http request = call (Call.http request) (λ log. env.http log request)

  -- `time.Now()`
  abbrev pub now : M ℕ
  now = call Call.now (λ log. ok (env.now log))

  -- `rand.Intn(n)`
  abbrev pub intn : ℕ → M ℕ
  intn n = call (Call.intn n) (λ log. ok (env.intn log n))

  -- `for k, v := range m`: the entries in the order of this loop
  abbrev pub range_strings : GoMap Text → M (GoMap Text)
  range_strings m = call Call.range (λ log. ok (env.range_strings log m))

  abbrev pub range_times : GoMap ℕ → M (GoMap ℕ)
  range_times m = call Call.range (λ log. ok (env.range_times log m))

  abbrev pub range_pods : GoMap (List Pod) → M (GoMap (List Pod))
  range_pods m = call Call.range (λ log. ok (env.range_pods log m))

  abbrev pub range_jobs : GoMap (List PendingJob) → M (GoMap (List PendingJob))
  range_jobs m = call Call.range (λ log. ok (env.range_jobs log m))

  abbrev pub charset : Text
  charset = codes "abcdefghijklmnopqrstuvwxyz0123456789"

  unfoldable pub random_chars : ℕ → M Text
  random_chars zero = return []
  random_chars (suc n) = do
    i ← intn 36
    c ← deref (get_elem? charset i)
    rest ← random_chars n
    return (c ∷ rest)

  unfoldable pub generate_random_string : M Text
  unfolding random_chars
  generate_random_string = random_chars 5

unfoldable pub read_memory : M Memory
read_memory s = (ok s, s)

-- An assignment to package variables.
unfoldable pub write_memory : (Memory → Memory) → M (Unit {0})
write_memory f s = (ok tt, f s)
