-- ===== src/Adapter/PodCodec/Agreement.antt =====
-- The two readers of pods of the API, `podToSpec` of pod_client.go and `podFromCore` of execution_service.go.
use vnode.Base.{◌≡◌, refl, ap, false, none, List, [], ◌∷◌, arith}
use vnode.Base.Map.{Map}
use vnode.Kube.{Quantities, CoreEnvVar, CoreVolumeMount, CoreContainer, CoreVolume, CorePod}
use vnode.Service.Execution.Core.{
  env_vars_from_core, volume_mounts_from_core, volume_from_core, volumes_from_core,
  resource_list_from_core, containers_from_core, pod_from_core,
}
use vnode.Adapter.PodCodec.{
  env_from_k8s, volume_mounts_from_k8s, volume_from_k8s, volumes_from_k8s, resource_list_from_k8s,
  containers_from_k8s, pod_to_spec,
}

same_env : (env : List CoreEnvVar) → env_from_k8s env ≡ env_vars_from_core env
unfolding env_from_k8s env_vars_from_core
same_env [] = refl
same_env (item ∷ env) =
    ap (λ xs. record { name = item.name; value = item.value } ∷ xs) (same_env env)

same_mounts : (ms : List CoreVolumeMount) → volume_mounts_from_k8s ms ≡ volume_mounts_from_core ms
unfolding volume_mounts_from_k8s volume_mounts_from_core
same_mounts [] = refl
same_mounts (m ∷ ms) = rw (same_mounts ms) refl

same_volume : (v : CoreVolume) → volume_from_k8s v ≡ volume_from_core v
unfolding volume_from_k8s volume_from_core
same_volume v = ground arith

same_volumes : (vs : List CoreVolume) → volumes_from_k8s vs ≡ volumes_from_core vs
unfolding volumes_from_k8s volumes_from_core
same_volumes [] = refl
same_volumes (v ∷ vs) = cc (same_volume v, same_volumes vs)

module _ {Q : Type 0} (quantities : Quantities Q) where
  same_resources :
      (m : Map Q) → resource_list_from_k8s quantities m ≡ resource_list_from_core quantities m
  unfolding resource_list_from_k8s resource_list_from_core
  same_resources m = ground arith

  same_containers :
      (cs : List (CoreContainer Q))
      → containers_from_k8s quantities cs ≡ containers_from_core quantities cs
  unfolding containers_from_k8s containers_from_core
  same_containers [] = refl
  same_containers (c ∷ cs) =
      rw
        (
          same_env c.env,
          same_mounts c.volume_mounts,
          same_resources c.requests,
          same_resources c.limits,
          same_containers cs,
        )
        refl

  -- The adapter and the execution service read a pod of the API alike, but for the fields that the service leaves
  -- out: the mount of the token, the runtime class, the node selector and whether the pod is being deleted.
  pub pod_to_spec-pod_from_core :
      (pod : CorePod Q)
      → pod_from_core quantities pod ≡ record (pod_to_spec quantities pod) {
        automount_service_account_token = none;
        runtime_class_name = "";
        node_selector = [];
        deleting = false;
      }
  unfolding pod_to_spec pod_from_core
  pod_to_spec-pod_from_core pod = rw (same_containers pod.containers, same_volumes pod.volumes) refl
