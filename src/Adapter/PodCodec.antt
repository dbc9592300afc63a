-- ===== src/Adapter/PodCodec.antt =====
-- internal/adapter/outbound/kubeclient/pod_client.go: specifications of pods made into pods of the API, and
-- pods of the API read back.
pub mod Status
pub mod RoundTrip
pub mod Agreement
use vnode.Base.{
  String, Bool, true, false, Option, none, some, List, [], ◌∷◌, ◌++◌, ◌==◌, if◌then◌else◌,
}
use vnode.Base.Int.{ℤ, pos, wrap32}
use vnode.Base.Map.{Map, lookup}
use vnode.Model.Resource.{ResourceList}
use vnode.Model.Pod.{
  EnvVar, Volume, VolumeMount, Container, PodSpec, ContainerStatus, PodStatus, VolumeType,
  volume_projected, volume_config_map, volume_secret, volume_empty_dir, volume_pvc,
  volume_host_path, volume_other,
}
use vnode.Kube.{
  Quantities, resource_cpu, resource_memory, resource_pods, CoreEnvVar, CoreVolumeMount,
  CoreContainer, CoreVolume, CoreContainerStatus, CorePodStatus, CorePod,
}

unfoldable pub env_to_k8s : List EnvVar → List CoreEnvVar
env_to_k8s [] = []
env_to_k8s (item ∷ env) = record { name = item.name; value = item.value } ∷ env_to_k8s env

unfoldable pub env_from_k8s : List CoreEnvVar → List EnvVar
env_from_k8s [] = []
env_from_k8s (item ∷ env) = record { name = item.name; value = item.value } ∷ env_from_k8s env

unfoldable pub volume_mounts_to_k8s : List VolumeMount → List CoreVolumeMount
volume_mounts_to_k8s [] = []
volume_mounts_to_k8s (mount ∷ mounts) =
    record { name = mount.name; mount_path = mount.mount_path; read_only = mount.read_only }
    ∷ volume_mounts_to_k8s mounts

unfoldable pub volume_mounts_from_k8s : List CoreVolumeMount → List VolumeMount
volume_mounts_from_k8s [] = []
volume_mounts_from_k8s (mount ∷ mounts) =
    record { name = mount.name; mount_path = mount.mount_path; read_only = mount.read_only }
    ∷ volume_mounts_from_k8s mounts

unfoldable pub string_ptr_or_nil : String → Option String
string_ptr_or_nil v = if v == "" then none else some v

abbrev bare_volume : String → CoreVolume
bare_volume name = record {
  name = name;
  config_map = none;
  secret = none;
  persistent_volume_claim = none;
  empty_dir = false;
  host_path = none;
  projected = false;
}

unfoldable pub volume_to_k8s : Volume → CoreVolume
volume_to_k8s v =
    let out = bare_volume v.name in
    if v.type == volume_config_map
    then record out { config_map = some v.source }
    else if v.type == volume_secret
    then record out { secret = some v.source }
    else if v.type == volume_pvc
    then record out { persistent_volume_claim = some v.source }
    else if v.type == volume_empty_dir
    then record out { empty_dir = true }
    else if v.type == volume_host_path
    then record out { host_path = some v.source }
    else if v.type == volume_projected
    then record out { projected = true }
    else out

unfoldable pub volumes_to_k8s : List Volume → List CoreVolume
unfolding volume_to_k8s
volumes_to_k8s [] = []
volumes_to_k8s (v ∷ vs) = volume_to_k8s v ∷ volumes_to_k8s vs

abbrev typed : CoreVolume → VolumeType → String → Volume
typed volume type source = record { name = volume.name; type = type; source = source }

unfoldable pub volume_from_k8s : CoreVolume → Volume
volume_from_k8s volume = elim volume.config_map [
  | some name ↦ typed volume volume_config_map name
  | none ↦ elim volume.secret [
    | some name ↦ typed volume volume_secret name
    | none ↦ elim volume.persistent_volume_claim [
      | some name ↦ typed volume volume_pvc name
      | none ↦
          if volume.empty_dir then typed volume volume_empty_dir "" else elim volume.host_path [
            | some path ↦ typed volume volume_host_path path
            | none ↦
                if volume.projected
                then typed volume volume_projected ""
                else typed volume volume_other ""
          ]
    ]
  ]
]

unfoldable pub volumes_from_k8s : List CoreVolume → List Volume
unfolding volume_from_k8s
volumes_from_k8s [] = []
volumes_from_k8s (v ∷ vs) = volume_from_k8s v ∷ volumes_from_k8s vs

module _ {Q : Type 0} (quantities : Quantities Q) where
  abbrev entry_of : String → String → Map Q
  entry_of key text = if text == "" then [] else (key, quantities.must_parse text) ∷ []

  -- The number of pods is not written.
  unfoldable pub resource_list_to_k8s : ResourceList → Map Q
  resource_list_to_k8s r = entry_of resource_cpu r.cpu ++ entry_of resource_memory r.memory

  unfoldable pub containers_to_k8s : List Container → List (CoreContainer Q)
  unfolding env_to_k8s volume_mounts_to_k8s resource_list_to_k8s
  containers_to_k8s [] = []
  containers_to_k8s (c ∷ cs) =
      record {
        name = c.name;
        image = c.image;
        command = c.command;
        args = c.args;
        env = env_to_k8s c.env;
        volume_mounts = volume_mounts_to_k8s c.volume_mounts;
        requests = resource_list_to_k8s c.resources.requests;
        limits = resource_list_to_k8s c.resources.limits;
      }
      ∷ containers_to_k8s cs

  unfoldable pub pod_spec_to_k8s_pod : PodSpec → CorePod Q
  unfolding containers_to_k8s volumes_to_k8s string_ptr_or_nil
  pod_spec_to_k8s_pod pod = record {
    name = pod.name;
    namespace = pod.namespace;
    labels = pod.labels;
    deleting = false;
    node_name = pod.node_name;
    service_account_name = pod.service_account_name;
    automount_service_account_token = pod.automount_service_account_token;
    runtime_class_name = string_ptr_or_nil pod.runtime_class_name;
    node_selector = pod.node_selector;
    containers = containers_to_k8s pod.containers;
    volumes = volumes_to_k8s pod.volumes;
    status = record { phase = ""; pod_ip = ""; message = ""; reason = ""; container_statuses = [] };
  }

  abbrev quantity_text : Option Q → String
  quantity_text none = ""
  quantity_text (some q) = quantities.string q

  -- `int32(pods.Value())`
  abbrev pod_count : Option Q → ℤ
  pod_count none = pos 0
  pod_count (some pods) = wrap32 (quantities.value pods)

  unfoldable pub resource_list_from_k8s : Map Q → ResourceList
  resource_list_from_k8s r = record {
    cpu = quantity_text (lookup resource_cpu r);
    memory = quantity_text (lookup resource_memory r);
    pods = pod_count (lookup resource_pods r);
  }

  unfoldable pub containers_from_k8s : List (CoreContainer Q) → List Container
  unfolding env_from_k8s volume_mounts_from_k8s resource_list_from_k8s
  containers_from_k8s [] = []
  containers_from_k8s (c ∷ cs) =
      record {
        name = c.name;
        image = c.image;
        command = c.command;
        args = c.args;
        env = env_from_k8s c.env;
        volume_mounts = volume_mounts_from_k8s c.volume_mounts;
        resources = record {
          requests = resource_list_from_k8s c.requests;
          limits = resource_list_from_k8s c.limits;
        };
      }
      ∷ containers_from_k8s cs

  abbrev text_or_empty : Option String → String
  text_or_empty none = ""
  text_or_empty (some t) = t

  unfoldable pub pod_to_spec : CorePod Q → PodSpec
  unfolding containers_from_k8s volumes_from_k8s
  pod_to_spec pod = record {
    name = pod.name;
    namespace = pod.namespace;
    labels = pod.labels;
    node_name = pod.node_name;
    service_account_name = pod.service_account_name;
    automount_service_account_token = pod.automount_service_account_token;
    node_selector = pod.node_selector;
    deleting = pod.deleting;
    containers = containers_from_k8s pod.containers;
    volumes = volumes_from_k8s pod.volumes;
    runtime_class_name = text_or_empty pod.runtime_class_name;
  }

  unfoldable pub pods_to_specs : List (CorePod Q) → List PodSpec
  unfolding pod_to_spec
  pods_to_specs [] = []
  pods_to_specs (p ∷ ps) = pod_to_spec p ∷ pods_to_specs ps
