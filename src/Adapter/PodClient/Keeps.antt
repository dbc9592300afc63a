-- ===== src/Adapter/PodClient/Keeps.antt =====
-- What the client of the host cluster keeps: whatever the calls of the API keep.
use vnode.Base.{String}
use vnode.Base.Errors.{is_not_found}
use vnode.Base.Exec.Keeps.{Keeps, Keeps-attempt, Keeps-test, Keeps-answer, Keeps-bind}
use vnode.Base.Map.{Map}
use vnode.Kube.{Quantities, CorePod, ConfigMap, Secret, HostApi}
use vnode.Service.Execution.Host.Keeps.{HostKeeps}
use vnode.Adapter.PodClient.{
  create_pod, delete_pod, get_pod, get_pod_status, list_pods_by_labels, ensure_config_map,
  ensure_secret, pod_cluster_client,
}

-- Each call on the pods and the resources of the host keeps the invariant.
pub record HostApiKeeps {Q S : Type 0} (Inv : S → Type 0) (api : HostApi Q S) : Type 0 where
  pub create_pod : (p : CorePod Q) → Keeps Inv (api.create_pod p)
  pub get_pod : (ns name : String) → Keeps Inv (api.get_pod ns name)
  pub delete_pod : (ns name : String) → Keeps Inv (api.delete_pod ns name)
  pub list_pods : (ns : String) (labels : Map String) → Keeps Inv (api.list_pods ns labels)
  pub get_config_map : (ns name : String) → Keeps Inv (api.get_config_map ns name)
  pub create_config_map :
      (ns name : String) (cm : ConfigMap) → Keeps Inv (api.create_config_map ns name cm)
  pub update_config_map :
      (ns name : String) (cm : ConfigMap) → Keeps Inv (api.update_config_map ns name cm)
  pub get_secret : (ns name : String) → Keeps Inv (api.get_secret ns name)
  pub create_secret :
      (ns name : String) (secret : Secret) → Keeps Inv (api.create_secret ns name secret)
  pub update_secret :
      (ns name : String) (secret : Secret) → Keeps Inv (api.update_secret ns name secret)

module _ {Q S : Type 0} {Inv : S → Type 0} (quantities : Quantities Q) {api : HostApi Q S}
    (k : HostApiKeeps Inv api) where
  delete_pod-Keeps : (ns name : String) → Keeps Inv (delete_pod quantities api ns name)
  unfolding delete_pod
  delete_pod-Keeps ns name =
      Keeps-attempt _ _ _ (λ e. Keeps-test (is_not_found e) _ _ (Keeps-answer _) (Keeps-answer _))
        (λ _. Keeps-answer _) (k.delete_pod ns name)

  ensure_config_map-Keeps :
      (ns name : String) (content binary labels : Map String)
      → Keeps Inv (ensure_config_map quantities api ns name content binary labels)
  unfolding ensure_config_map
  ensure_config_map-Keeps ns name content binary labels =
      Keeps-attempt _ _ _
        (λ e. Keeps-test (is_not_found e) _ _ (k.create_config_map _ _ _) (Keeps-answer _))
        (λ _. k.update_config_map _ _ _) (k.get_config_map ns name)

  ensure_secret-Keeps :
      (ns name : String) (content labels : Map String)
      → Keeps Inv (ensure_secret quantities api ns name content labels)
  unfolding ensure_secret
  ensure_secret-Keeps ns name content labels =
      Keeps-attempt _ _ _
        (λ e. Keeps-test (is_not_found e) _ _ (k.create_secret _ _ _) (Keeps-answer _))
        (λ _. k.update_secret _ _ _) (k.get_secret ns name)

  -- The client of the host's pods keeps what each call of the API keeps.
  pub pod_cluster_client-HostKeeps : HostKeeps Inv (pod_cluster_client quantities api)
  unfolding pod_cluster_client create_pod get_pod get_pod_status list_pods_by_labels
  pod_cluster_client-HostKeeps = record {
    create_pod = λ p. k.create_pod _;
    delete_pod = delete_pod-Keeps;
    get_pod = λ ns name. Keeps-bind _ _ (λ _. Keeps-answer _) (k.get_pod ns name);
    get_pod_status = λ ns name. Keeps-bind _ _ (λ _. Keeps-answer _) (k.get_pod ns name);
    list_pods = λ ns labels. Keeps-bind _ _ (λ _. Keeps-answer _) (k.list_pods ns labels);
    ensure_config_map = ensure_config_map-Keeps;
    ensure_secret = ensure_secret-Keeps;
  }
