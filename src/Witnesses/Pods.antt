-- ===== src/Witnesses/Pods.antt =====
-- Examples on the containers of pods.
use azure_pipelines_k8s_agen.Prelude.{List, [], ◌∷◌, some, ◌≡◌, true, false, refl, arith}
use azure_pipelines_k8s_agen.Text.{codes, text_eq}
use azure_pipelines_k8s_agen.GoMap.{has_key}
use azure_pipelines_k8s_agen.Kube.{Pod, Container}
use azure_pipelines_k8s_agen.Containers.{
  terminate_finished_pod, get_container_status_index, indices_to_terminate,
}
use azure_pipelines_k8s_agen.Containers.Images.{with_containers}
use azure_pipelines_k8s_agen.Containers.Broken.{terminate_finished_pod_lem, update_and_annotate}
use azure_pipelines_k8s_agen.Witnesses.{world, pod, container}

-- The agent has finished, the other container runs.
abbrev finished_pod : Pod
finished_pod = record (pod (codes "a") [] 1) {
  container_statuses = some (
      record { name = codes "side"; image = codes "x"; running = true; terminated = false }
      ∷ record { name = codes "agent"; image = codes "y"; running = false; terminated = true }
      ∷ []);
}

abbrev broken_side : List Container
broken_side =
    container (codes "agent")
    ∷ record (container (codes "side")) { image = codes "xdoes-not-exist-for-sure" }
    ∷ []

terminate_finished_pod_lem_example :
    terminate_finished_pod world finished_pod
    ≡ update_and_annotate world (with_containers finished_pod broken_side)
unfolding terminate_finished_pod get_container_status_index text_eq has_key indices_to_terminate
terminate_finished_pod_lem_example =
    terminate_finished_pod_lem world finished_pod 1 ((refl, tt), (tt, tt)) ((refl, tt), (tt, tt))
      (refl, (refl, tt)) (omega arith) refl refl
