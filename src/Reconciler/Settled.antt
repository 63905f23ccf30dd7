-- ===== src/Reconciler/Settled.antt =====
-- Once the pods that a round creates are listed, the next round creates none.
use mathlib.Core.List.{forall_mem-cons}
use azure_pipelines_k8s_agen.Prelude.{
  Every, ℕ, ◌≤◌, true, List, [], ◌∷◌, ◌++◌, ◌≡◌, some, ap, subst, ◌∙◌,
}
use azure_pipelines_k8s_agen.Text.{Text}
use azure_pipelines_k8s_agen.GoMap.{IsMap}
use azure_pipelines_k8s_agen.Capabilities.{
  get_capabilities_map_from_string, get_sorted_stringification_of_map,
}
use azure_pipelines_k8s_agen.Kube.{Pod, PodsWithCapabilities, AutoScaledAgent}
use azure_pipelines_k8s_agen.World.{Env, Log, Memory}
use azure_pipelines_k8s_agen.World.Costs.{spent}
use azure_pipelines_k8s_agen.PendingJobs.{AzurePipelinesApiJobRequest, add_open_requests}
use azure_pipelines_k8s_agen.PendingJobs.Exact.{demands_encodable}
use azure_pipelines_k8s_agen.RunningPods.{
  is_kept, capabilities_of, new_running_pods_wrapper, get_filtered_running_pods,
  get_pod_count_and_names,
}
use azure_pipelines_k8s_agen.AgentCreation.Prepared.{IsAgentPod}
use azure_pipelines_k8s_agen.Reconciler.{agents_with_caps_to_create, scale}
use azure_pipelines_k8s_agen.Reconciler.Scaling.{creation}
use azure_pipelines_k8s_agen.Reconciler.Demand.{wants_nothing}
use azure_pipelines_k8s_agen.Reconciler.Supply.{Answers, no_more, one_more, IsNormal, IsNormal-prop}
use azure_pipelines_k8s_agen.Reconciler.Answered.{
  matching, matching_jobs, RangesOver, nothing_wanted, wanted-IsNormal,
}

module _ (env : Env) (namespace owner : Text) (agent : AutoScaledAgent)
    (p : PodsWithCapabilities) where
  -- For each of the demand strings in turn, a pod that is an agent for what the string says, as
  -- `createAgent` makes it, and that is not being terminated.
  pub data Created : List Text → List Pod → Type 0 where
    none_created : Created [] []
    one_created :
        {wanted : List Text} {pods : List Pod} (w : Text) (pod : Pod)
        → is_kept pod ≡ true
        → IsAgentPod env namespace owner agent p (get_capabilities_map_from_string w) pod
        → Created wanted pods
        → Created (w ∷ wanted) (pod ∷ pods)

  written_of_agent :
      (w : Text) (pod : Pod)
      → IsNormal w
      → IsAgentPod env namespace owner agent p (get_capabilities_map_from_string w) pod
      → get_sorted_stringification_of_map (capabilities_of pod) ≡ w
  unfolding capabilities_of
  written_of_agent w pod n h =
      ap (λ s. get_sorted_stringification_of_map (get_capabilities_map_from_string s))
        (h.annotation ∙ n)
      ∙ n

  Created-Answers :
      (wanted : List Text) (pods : List Pod)
      → Every IsNormal wanted
      → Created wanted pods
      → Answers wanted pods
  Created-Answers _ _ n none_created = no_more
  Created-Answers _ _ n (one_created {wanted} {pods} w pod k h c) =
      let (first, rest) : IsNormal w × Every IsNormal wanted =
        (forall_mem-cons IsNormal-prop).0 n in
      subst (λ d. Answers (d ∷ wanted) (pod ∷ pods)) (written_of_agent w pod first h)
        (one_more pod k (Created-Answers wanted pods rest c))

  -- Where the demands hold no `=` or `;` in a key and no `;` in a value, the capabilities have one
  -- entry to a key, and `range` visits each entry of a map once: if there is one created pod for each
  -- agent that some round wanted, as `createAgent` makes it, and none of them is being terminated,
  -- and with them the minimum is reached, then a later round for the same jobs creates no pod.
  pub scale_settles :
      (requests : List AzurePipelinesApiJobRequest) (pods created : List Pod) (mn mx : ℕ)
      (log : Log) (s : Memory)
      → IsMap p.capabilities
      → demands_encodable requests ≡ true
      → p.min_count ≡ some mn
      → p.max_count ≡ some mx
      → RangesOver env
      → Created
          (agents_with_caps_to_create
            (matching p.capabilities pods)
            (env.range_jobs log (matching_jobs env p requests)))
          created
      → mn ≤ (get_pod_count_and_names (matching p.capabilities (pods ++ created))).0
      → spent creation
          (scale env namespace owner agent
            (add_open_requests [] requests)
            p
            (new_running_pods_wrapper (get_filtered_running_pods (pods ++ created)))
            s).1.log
        ≡ spent creation s.log
  scale_settles requests pods created mn mx log s c h e e' ranges made enough =
      let normal = wanted-IsNormal env p requests (matching p.capabilities pods) log c h ranges in
      wants_nothing env namespace owner agent p (add_open_requests [] requests)
        (new_running_pods_wrapper (get_filtered_running_pods (pods ++ created))) mn mx s e e' enough
        (nothing_wanted env p requests pods created log s.log c h ranges
          (Created-Answers _ created normal made))
