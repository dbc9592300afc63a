-- ===== src/Ports.antt =====
-- internal/domain/ports: the interfaces between the services and their adapters, over a world `S`.
pub mod Laws
use vnode.Base.{String, List}
use vnode.Base.Map.{Map}
use vnode.Base.Exec.{Call, Exec, Action, Reply}
use vnode.Model.Pool.{VNodePool, TenantRef}
use vnode.Model.Node.{VNode}
use vnode.Model.Pod.{PodSpec, PodStatus, PodTranslation}

-- inbound.go: `Reconcile`, `Provision` and `Translate` return a value beside their error. Only
-- that of `Translate` is never read when the error is set.
pub record PoolManager (S : Type 0) : Type 0 where
  pub reconcile : VNodePool → Call S (Reply VNodePool)

pub record NodeLifecycle (S : Type 0) : Type 0 where
  pub provision : VNodePool → Call S (Reply VNode)
  pub deprovision : VNode → Action S
  pub update_status : VNode → Action S

pub record PodTranslator (S : Type 0) : Type 0 where
  pub translate : PodSpec → VNodePool → String → Exec S PodTranslation
  pub sync_status : PodStatus → Exec S PodStatus

-- outbound.go. Byte strings are texts.
pub record ClusterClient (S : Type 0) : Type 0 where
  pub create_pod : PodSpec → Action S
  pub update_pod : PodSpec → Action S
  pub delete_pod : String → String → Action S
  pub get_pod : String → String → Exec S PodSpec
  pub get_pod_status : String → String → Exec S PodStatus
  pub list_pods_by_labels : String → Map String → Exec S (List PodSpec)
  pub ensure_config_map : String → String → Map String → Map String → Map String → Action S
  pub ensure_secret : String → String → Map String → Map String → Action S

pub record NodeRegistrar (S : Type 0) : Type 0 where
  pub register : VNode → TenantRef → Action S
  pub deregister : VNode → TenantRef → Action S
  pub update_node_status : VNode → TenantRef → Action S

pub record IsolationRuntime (S : Type 0) : Type 0 where
  pub runtime_class_name : String
  pub validate : Action S

pub record KubeconfigResolver (S : Type 0) : Type 0 where
  pub resolve : String → String → Exec S String

pub record PoolRepository (S : Type 0) : Type 0 where
  pub get : String → String → Exec S VNodePool
  pub save : VNodePool → Action S
  pub list : Exec S (List VNodePool)

pub record NodeRepository (S : Type 0) : Type 0 where
  pub get : String → String → Exec S VNode
  pub save : VNode → Action S
  pub delete : String → String → Action S
  pub list_by_pool : String → String → Exec S (List VNode)
