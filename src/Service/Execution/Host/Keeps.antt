-- ===== src/Service/Execution/Host/Keeps.antt =====
-- What `ensureHostPod`, `CleanupPoolPods` and `syncPodResources` keep: whatever each call of theirs does.
use vnode.Base.{ℕ, suc, String, List, [], ◌∷◌}
use vnode.Base.Errors.{is_not_found}
use vnode.Base.Exec.Keeps.{
  Keeps, keeps_rules, Keeps-attempt, Keeps-test, Keeps-answer, Keeps-wrapping, Keeps-bind,
}
use vnode.Base.Map.{Map}
use vnode.Model.Pool.{VNodePool}
use vnode.Model.Pod.{PodSpec, PodTranslation, VolumeResourceRef, resource_refs}
use vnode.Kube.{Clientset, CorePod}
use vnode.Ports.{ClusterClient}
use vnode.Service.Execution.Compare.{pod_specs_equal}
use vnode.Service.Execution.Host.{
  ensure_host_pod, delete_all, cleanup_pool_pods, sync_ref, sync_refs, sync_pod_resources,
}

-- Each call on the pods of the host keeps the invariant.
pub record HostKeeps {S : Type 0} (Inv : S → Type 0) (host : ClusterClient S) : Type 0 where
  pub create_pod : (p : PodSpec) → Keeps Inv (host.create_pod p)
  pub delete_pod : (ns name : String) → Keeps Inv (host.delete_pod ns name)
  pub get_pod : (ns name : String) → Keeps Inv (host.get_pod ns name)
  pub get_pod_status : (ns name : String) → Keeps Inv (host.get_pod_status ns name)
  pub list_pods :
      (ns : String) (labels : Map String) → Keeps Inv (host.list_pods_by_labels ns labels)
  pub ensure_config_map :
      (ns name : String) (content binary labels : Map String)
      → Keeps Inv (host.ensure_config_map ns name content binary labels)
  pub ensure_secret :
      (ns name : String) (content labels : Map String)
      → Keeps Inv (host.ensure_secret ns name content labels)

-- Each call on the pods and the resources of a tenant keeps it.
pub record TenantKeeps {Q S : Type 0} (Inv : S → Type 0) (clientset : Clientset Q S) : Type 0 where
  pub list_pods : Keeps Inv clientset.list_pods
  pub get_pod : (ns name : String) → Keeps Inv (clientset.get_pod ns name)
  pub update_pod_status :
      (ns : String) (p : CorePod Q) → Keeps Inv (clientset.update_pod_status ns p)
  pub get_config_map : (ns name : String) → Keeps Inv (clientset.get_config_map ns name)
  pub get_secret : (ns name : String) → Keeps Inv (clientset.get_secret ns name)

module _ {S : Type 0} {Inv : S → Type 0} {host : ClusterClient S} (h : HostKeeps Inv host) where
  pub ensure_host_pod-Keeps : (pod : PodSpec) → Keeps Inv (ensure_host_pod host pod)
  unfolding ensure_host_pod
  ensure_host_pod-Keeps pod =
      let creates = h.create_pod pod in
      let deletes = h.delete_pod pod.namespace pod.name in
      let gets = h.get_pod pod.namespace pod.name in
      Keeps-attempt _ _ _
        (λ e.
          Keeps-test (is_not_found e) _ _ (record { at = λ s i. creates.at s i }) (Keeps-answer _))
        (λ current. Keeps-test current.deleting _ _ (Keeps-answer _) (
          Keeps-test (pod_specs_equal current pod) _ _ (Keeps-answer _)
            (Keeps-attempt _ _ _ (λ e. Keeps-answer _) (λ _. Keeps-answer _) deletes)))
        gets

  delete_all-Keeps : (pods : List PodSpec) (n : ℕ) → Keeps Inv (delete_all host pods n)
  unfolding delete_all
  delete_all-Keeps [] n = Keeps-answer _
  delete_all-Keeps (p ∷ pods) n =
      Keeps-attempt _ _ _ (λ e. Keeps-answer _) (λ _. delete_all-Keeps pods (suc n))
        (h.delete_pod p.namespace p.name)

  pub cleanup_pool_pods-Keeps : (pool : VNodePool) → Keeps Inv (cleanup_pool_pods host pool)
  unfolding cleanup_pool_pods
  cleanup_pool_pods-Keeps pool =
      Keeps-attempt _ _ _ (λ e. Keeps-answer _) (λ pods. delete_all-Keeps pods 0) (h.list_pods _ _)

  module _ {Q : Type 0} {clientset : Clientset Q S} (t : TenantKeeps Inv clientset) where
    sync_ref-Keeps :
        (pool : VNodePool) (ref : VolumeResourceRef) → Keeps Inv (sync_ref host clientset pool ref)
    unfolding sync_ref
    sync_ref-Keeps pool ref =
        Keeps-test _ _ _
          (Keeps-attempt _ _ _ (λ e. search keeps_rules)
            (λ cm. Keeps-wrapping _ _ (h.ensure_config_map _ _ _ _ _)) (t.get_config_map _ _))
          (Keeps-test _ _ _
            (Keeps-attempt _ _ _ (λ e. search keeps_rules)
              (λ secret. Keeps-wrapping _ _ (h.ensure_secret _ _ _ _)) (t.get_secret _ _))
            (Keeps-answer _))

    sync_refs-Keeps :
        (pool : VNodePool) (refs : List VolumeResourceRef)
        → Keeps Inv (sync_refs host clientset pool refs)
    unfolding sync_refs
    sync_refs-Keeps pool [] = Keeps-answer _
    sync_refs-Keeps pool (ref ∷ refs) =
        Keeps-bind _ _ (λ _. sync_refs-Keeps pool refs) (sync_ref-Keeps pool ref)

    pub sync_pod_resources-Keeps :
        (translation : PodTranslation) (pool : VNodePool)
        → Keeps Inv (sync_pod_resources host clientset translation pool)
    unfolding sync_pod_resources
    sync_pod_resources-Keeps translation pool = sync_refs-Keeps pool (resource_refs translation)
