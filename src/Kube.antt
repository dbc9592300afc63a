-- ===== src/Kube.antt =====
-- The data of the Kubernetes API that the program reads and writes: of each type the fields that
-- the source names. A pointer that may be nil is an `Option`, a pointer whose target is never read a `Bool`.
-- The quantities of resources are a parameter `Q` with the four calls that are made on them.
use vnode.Base.{ℕ, String, Bool, Option, List}
use vnode.Base.Int.{ℤ}
use vnode.Base.Map.{Map}
use vnode.Base.Exec.{Exec, Action}
use vnode.Model.Pool.{TenantRef, Taint}

-- `resource.Quantity`. `resource.MustParse` panics on a text that is no quantity, and nothing keeps such texts
-- from it; the panic is not modelled, and `must_parse` has some value there.
pub record Quantities (Q : Type 0) : Type 0 where
  pub must_parse : String → Q
  pub string : Q → String
  pub value : Q → ℤ
  -- `NewQuantity` in the decimal format.
  pub new_quantity : ℤ → Q

abbrev pub resource_cpu : String
resource_cpu = "cpu"

abbrev pub resource_memory : String
resource_memory = "memory"

abbrev pub resource_pods : String
resource_pods = "pods"

pub record CoreEnvVar : Type 0 where
  pub name : String
  pub value : String

pub record CoreVolumeMount : Type 0 where
  pub name : String
  pub mount_path : String
  pub read_only : Bool

pub record CoreContainer (Q : Type 0) : Type 0 where
  pub name : String
  pub image : String
  pub command : List String
  pub args : List String
  pub env : List CoreEnvVar
  pub volume_mounts : List CoreVolumeMount
  pub requests : Map Q
  pub limits : Map Q

pub record CoreVolume : Type 0 where
  pub name : String
  pub config_map : Option String
  pub secret : Option String
  pub persistent_volume_claim : Option String
  pub empty_dir : Bool
  pub host_path : Option String
  pub projected : Bool

-- `State` of a container: which of its three pointers are set.
pub record CoreContainerStatus : Type 0 where
  pub name : String
  pub ready : Bool
  pub restart_count : ℤ
  pub running : Bool
  pub waiting : Bool
  pub terminated : Bool

pub record CorePodStatus : Type 0 where
  pub phase : String
  pub pod_ip : String
  pub message : String
  pub reason : String
  pub container_statuses : List CoreContainerStatus

pub record CorePod (Q : Type 0) : Type 0 where
  pub name : String
  pub namespace : String
  pub labels : Map String
  pub deleting : Bool
  pub node_name : String
  pub service_account_name : String
  pub automount_service_account_token : Option Bool
  pub runtime_class_name : Option String
  pub node_selector : Map String
  pub containers : List (CoreContainer Q)
  pub volumes : List CoreVolume
  pub status : CorePodStatus

pub record ConfigMap : Type 0 where
  pub content : Map String
  pub binary_content : Map String
  pub labels : Map String

pub record Secret : Type 0 where
  pub content : Map String
  pub labels : Map String

-- A time is a number, as the clock gives it.
pub record CoreNodeCondition : Type 0 where
  pub type : String
  pub status : String
  pub reason : String
  pub message : String
  pub last_heartbeat_time : ℕ
  pub last_transition_time : ℕ

pub record NodeSystemInfo : Type 0 where
  pub kubelet_version : String
  pub operating_system : String
  pub architecture : String
  pub container_runtime_version : String

pub record CoreNode (Q : Type 0) : Type 0 where
  pub name : String
  pub labels : Map String
  pub annotations : Map String
  pub taints : List Taint
  pub capacity : Map Q
  pub allocatable : Map Q
  pub conditions : List CoreNodeCondition
  pub node_info : Option NodeSystemInfo

pub record Lease : Type 0 where
  pub name : String
  pub namespace : String
  pub holder_identity : Option String
  pub lease_duration_seconds : Option ℤ
  pub renew_time : Option ℕ

-- The calls of `kubernetes.Interface` that the pod service and the registrar make on the cluster of a
-- tenant. Results that are never read are left out. `update_node` writes all but the status of the node.
pub record Clientset (Q S : Type 0) : Type 0 where
  pub list_pods : Exec S (List (CorePod Q))
  pub get_pod : String → String → Exec S (CorePod Q)
  pub update_pod_status : String → CorePod Q → Action S
  pub get_config_map : String → String → Exec S ConfigMap
  pub get_secret : String → String → Exec S Secret
  pub get_namespace : String → Action S
  pub create_namespace : String → Action S
  pub get_lease : String → String → Exec S Lease
  pub create_lease : Lease → Action S
  pub update_lease : String → Lease → Action S
  pub delete_lease : String → String → Action S
  pub get_node : String → Exec S (CoreNode Q)
  pub create_node : CoreNode Q → Action S
  pub update_node : CoreNode Q → Action S
  pub update_node_status : CoreNode Q → Action S
  pub delete_node : String → Action S

-- `TenantClientManager.Get`
pub record TenantClients (Q S : Type 0) : Type 0 where
  pub get : TenantRef → Exec S (Clientset Q S)

-- The calls that the pod client makes on the host cluster. `list_pods` lists all namespaces where the
-- namespace is empty. A `ConfigMap` and a `Secret` stand under a namespace and a name.
pub record HostApi (Q S : Type 0) : Type 0 where
  pub create_pod : CorePod Q → Action S
  pub get_pod : String → String → Exec S (CorePod Q)
  pub update_pod : CorePod Q → Action S
  pub delete_pod : String → String → Action S
  pub list_pods : String → Map String → Exec S (List (CorePod Q))
  pub get_config_map : String → String → Exec S ConfigMap
  pub create_config_map : String → String → ConfigMap → Action S
  pub update_config_map : String → String → ConfigMap → Action S
  pub get_secret : String → String → Exec S Secret
  pub create_secret : String → String → Secret → Action S
  pub update_secret : String → String → Secret → Action S
