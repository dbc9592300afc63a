-- ===== src/Adapter/PodClient.antt =====
-- internal/adapter/outbound/kubeclient/pod_client.go: the client of the host cluster's pods.
pub mod Copies
pub mod Keeps
use vnode.Base.{String, if◌then◌else◌, List}
use vnode.Base.Errors.{Error, is_not_found}
use vnode.Base.Exec.{Call, Exec, Action, answer, pure, raise, attempt, ◌>>=◌}
use vnode.Base.Map.{Map}
use vnode.Model.Pod.{PodSpec, PodStatus}
use vnode.Kube.{Quantities, ConfigMap, Secret, HostApi}
use vnode.Ports.{ClusterClient}
use vnode.Adapter.PodCodec.{pod_spec_to_k8s_pod, pod_to_spec, pods_to_specs}
use vnode.Adapter.PodCodec.Status.{pod_to_status}

module _ {Q S : Type 0} (quantities : Quantities Q) (api : HostApi Q S) where
  unfoldable pub create_pod : PodSpec → Action S
  create_pod pod = api.create_pod (pod_spec_to_k8s_pod quantities pod)

  unfoldable pub update_pod : PodSpec → Action S
  update_pod pod =
      let desired = pod_spec_to_k8s_pod quantities pod in
      api.get_pod pod.namespace pod.name >>= λ current. api.update_pod (record current {
        labels = desired.labels;
        service_account_name = desired.service_account_name;
        runtime_class_name = desired.runtime_class_name;
        node_selector = desired.node_selector;
        containers = desired.containers;
        volumes = desired.volumes;
      })

  -- A pod that is not there counts as deleted.
  unfoldable pub delete_pod : String → String → Action S
  delete_pod ns name =
      attempt (api.delete_pod ns name) (λ e. if is_not_found e then pure tt else raise e) pure

  unfoldable pub get_pod : String → String → Exec S PodSpec
  get_pod ns name = api.get_pod ns name >>= λ pod. pure (pod_to_spec quantities pod)

  unfoldable pub get_pod_status : String → String → Exec S PodStatus
  get_pod_status ns name = api.get_pod ns name >>= λ pod. pure (pod_to_status pod)

  unfoldable pub list_pods_by_labels : String → Map String → Exec S (List PodSpec)
  list_pods_by_labels ns labels =
      api.list_pods ns labels >>= λ pods. pure (pods_to_specs quantities pods)

  unfoldable pub ensure_config_map :
      String → String → Map String → Map String → Map String → Action S
  ensure_config_map ns name content binary labels =
      let wanted : ConfigMap = record {
        content = content;
        binary_content = binary;
        labels = labels;
      } in
      attempt (api.get_config_map ns name)
        (λ e. if is_not_found e then api.create_config_map ns name wanted else raise e)
        (λ existing. api.update_config_map ns name wanted)

  unfoldable pub ensure_secret : String → String → Map String → Map String → Action S
  ensure_secret ns name content labels =
      let wanted : Secret = record { content = content; labels = labels } in
      attempt (api.get_secret ns name)
        (λ e. if is_not_found e then api.create_secret ns name wanted else raise e)
        (λ existing. api.update_secret ns name wanted)

  unfoldable pub pod_cluster_client : ClusterClient S
  pod_cluster_client = record {
    create_pod = create_pod;
    update_pod = update_pod;
    delete_pod = delete_pod;
    get_pod = get_pod;
    get_pod_status = get_pod_status;
    list_pods_by_labels = list_pods_by_labels;
    ensure_config_map = ensure_config_map;
    ensure_secret = ensure_secret;
  }
