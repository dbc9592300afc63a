-- ===== src/Service/Execution/Core.antt =====
-- internal/domain/service/execution_service.go: pods of the API read into the model, and back.
use vnode.Base.{String, Bool, false, ◌||◌, Option, none, some, List, [], ◌∷◌, ◌==◌, if◌then◌else◌}
use vnode.Base.Int.{ℤ, pos, wrap32}
use vnode.Base.Map.{Map, lookup}
use vnode.Model.Resource.{ResourceList}
use vnode.Model.Pod.{
  EnvVar, Volume, VolumeMount, Container, PodSpec, ContainerStatus, PodStatus, VolumeType,
  volume_projected, volume_config_map, volume_secret, volume_empty_dir, volume_pvc,
  volume_host_path, volume_other,
}
use vnode.Kube.{
  Quantities, resource_cpu, resource_memory, resource_pods, CoreEnvVar, CoreVolumeMount,
  CoreContainer, CoreVolume, CoreContainerStatus, CorePod,
}

unfoldable pub env_vars_from_core : List CoreEnvVar → List EnvVar
env_vars_from_core [] = []
env_vars_from_core (env ∷ envs) =
    record { name = env.name; value = env.value } ∷ env_vars_from_core envs

unfoldable pub volume_mounts_from_core : List CoreVolumeMount → List VolumeMount
volume_mounts_from_core [] = []
volume_mounts_from_core (mount ∷ mounts) =
    record { name = mount.name; mount_path = mount.mount_path; read_only = mount.read_only }
    ∷ volume_mounts_from_core mounts

abbrev volume_of : CoreVolume → VolumeType → String → Volume
volume_of v type source = record { name = v.name; type = type; source = source }

unfoldable pub volume_from_core : CoreVolume → Volume
volume_from_core v = elim v.config_map [
  | some name ↦ volume_of v volume_config_map name
  | none ↦ elim v.secret [
    | some name ↦ volume_of v volume_secret name
    | none ↦ elim v.persistent_volume_claim [
      | some name ↦ volume_of v volume_pvc name
      | none ↦ if v.empty_dir then volume_of v volume_empty_dir "" else elim v.host_path [
        | some path ↦ volume_of v volume_host_path path
        | none ↦ volume_of v (if v.projected then volume_projected else volume_other) ""
      ]
    ]
  ]
]

unfoldable pub volumes_from_core : List CoreVolume → List Volume
unfolding volume_from_core
volumes_from_core [] = []
volumes_from_core (v ∷ vs) = volume_from_core v ∷ volumes_from_core vs

module _ {Q : Type 0} (quantities : Quantities Q) where
  abbrev text_of : Option Q → String
  text_of none = ""
  text_of (some q) = quantities.string q

  -- `int32(pods.Value())`
  abbrev count_of : Option Q → ℤ
  count_of none = pos 0
  count_of (some q) = wrap32 (quantities.value q)

  unfoldable pub resource_list_from_core : Map Q → ResourceList
  resource_list_from_core m = record {
    cpu = text_of (lookup resource_cpu m);
    memory = text_of (lookup resource_memory m);
    pods = count_of (lookup resource_pods m);
  }

  unfoldable pub containers_from_core : List (CoreContainer Q) → List Container
  unfolding env_vars_from_core volume_mounts_from_core resource_list_from_core
  containers_from_core [] = []
  containers_from_core (c ∷ cs) =
      record {
        name = c.name;
        image = c.image;
        command = c.command;
        args = c.args;
        env = env_vars_from_core c.env;
        volume_mounts = volume_mounts_from_core c.volume_mounts;
        resources = record {
          requests = resource_list_from_core c.requests;
          limits = resource_list_from_core c.limits;
        };
      }
      ∷ containers_from_core cs

  -- The fields that `podFromCore` leaves out have their zero values.
  unfoldable pub pod_from_core : CorePod Q → PodSpec
  unfolding containers_from_core volumes_from_core
  pod_from_core pod = record {
    name = pod.name;
    namespace = pod.namespace;
    labels = pod.labels;
    node_name = pod.node_name;
    service_account_name = pod.service_account_name;
    containers = containers_from_core pod.containers;
    volumes = volumes_from_core pod.volumes;
    automount_service_account_token = none;
    runtime_class_name = "";
    node_selector = [];
    deleting = false;
  }

unfoldable pub is_terminal_pod : {Q : Type 0} → CorePod Q → Bool
is_terminal_pod pod = (pod.status.phase == "Succeeded") || (pod.status.phase == "Failed")

-- The loop of `updateTenantPodStatus`.
unfoldable pub container_statuses_to_core : List ContainerStatus → List CoreContainerStatus
container_statuses_to_core [] = []
container_statuses_to_core (cs ∷ css) =
    record {
      name = cs.name;
      ready = cs.ready;
      restart_count = cs.restart_count;
      running = cs.state == "running";
      waiting = cs.state == "waiting";
      terminated = cs.state == "terminated";
    }
    ∷ container_statuses_to_core css

-- The fields of the tenant's pod that `updateTenantPodStatus` writes.
unfoldable pub with_status : {Q : Type 0} → CorePod Q → PodStatus → CorePod Q
unfolding container_statuses_to_core
with_status pod status = record pod {
  status = record {
    phase = status.phase;
    pod_ip = status.pod_ip;
    message = status.message;
    reason = status.reason;
    container_statuses = container_statuses_to_core status.container_statuses;
  };
}
