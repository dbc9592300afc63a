-- ===== src/Cmd/Laws.antt =====
-- What is relied on of the clusters and the libraries under the operator of cmd/vnode/main.go.
use vnode.Base.{◌≡◌, ◌⊎◌, String, Bool, true, List}
use vnode.Base.Errors.{ok}
use vnode.Base.Map.{Map}
use vnode.Kube.{Clientset, CorePod, ConfigMap, Secret, HostApi}
use vnode.Ports.Laws.{Seen, View, Leaves}
use vnode.Api.{PoolCr, PoolApi, VNodeCr, VNodeApi}
use vnode.Api.NodeLaws.{VNodeApiLaws, NeverCancelled}
use vnode.Api.Retry.{Retries}
use vnode.Adapter.PoolReconciler.{pool_finalizer}
use vnode.Adapter.Registrar.Cluster.{Elsewhere}
use vnode.Adapter.PodSync.{Recorder}
use vnode.Cmd.{Libraries, Manager}

-- The calls on the resources of a host cluster other than its virtual nodes, and the updates of pools aside,
-- change nothing of what is seen.
pub record HostLeaves {A Q W : Type 0} (find : Seen A W) (pools : PoolApi W) (host : HostApi Q W)
    (events : Recorder W) : Type 0 where
  pub get_pool : (ns name : String) → Leaves find (pools.get ns name)
  pub patch_status : (base cr : PoolCr) → Leaves find (pools.patch_status base cr)
  pub create_pod : (p : CorePod Q) → Leaves find (host.create_pod p)
  pub get_pod : (ns name : String) → Leaves find (host.get_pod ns name)
  pub delete_pod : (ns name : String) → Leaves find (host.delete_pod ns name)
  pub list_pods : (ns : String) (labels : Map String) → Leaves find (host.list_pods ns labels)
  pub get_config_map : (ns name : String) → Leaves find (host.get_config_map ns name)
  pub create_config_map :
      (ns name : String) (cm : ConfigMap) → Leaves find (host.create_config_map ns name cm)
  pub update_config_map :
      (ns name : String) (cm : ConfigMap) → Leaves find (host.update_config_map ns name cm)
  pub get_secret : (ns name : String) → Leaves find (host.get_secret ns name)
  pub create_secret :
      (ns name : String) (secret : Secret) → Leaves find (host.create_secret ns name secret)
  pub update_secret :
      (ns name : String) (secret : Secret) → Leaves find (host.update_secret ns name secret)
  pub eventf :
      (cr : PoolCr) (type reason action note : String)
      → Leaves find (events.eventf cr type reason action note)

-- Nor do the calls on the pods and the resources of a tenant.
pub record PodsElsewhere {A Q W : Type 0} (find : Seen A W) (c : Clientset Q W) : Type 0 where
  pub list_pods : Leaves find c.list_pods
  pub get_pod : (ns name : String) → Leaves find (c.get_pod ns name)
  pub update_pod_status : (ns : String) (p : CorePod Q) → Leaves find (c.update_pod_status ns p)
  pub get_config_map : (ns name : String) → Leaves find (c.get_config_map ns name)
  pub get_secret : (ns name : String) → Leaves find (c.get_secret ns name)

-- Nor do the calls on virtual nodes, of what is seen of other resources.
pub record VNodesLeave {A W : Type 0} (find : Seen A W) (vnodes : VNodeApi W) : Type 0 where
  pub get : (ns name : String) → Leaves find (vnodes.get ns name)
  pub create : (cr : VNodeCr) → Leaves find (vnodes.create cr)
  pub update : (cr : VNodeCr) → Leaves find (vnodes.update cr)
  pub update_status : (cr : VNodeCr) → Leaves find (vnodes.update_status cr)
  pub delete : (ns name : String) → Leaves find (vnodes.delete ns name)
  pub list : (ns : String) (labels : Map String) → Leaves find (vnodes.list ns labels)

-- What is relied on of the clusters and the libraries, for the virtual nodes.
pub record ClusterLaws {Q V C W R K : Type 0} (find : View W) (libs : Libraries Q V C W R)
    (mgr : Manager Q V C W R K) (k : K) : Type 0 where
  pub vnodes : VNodeApiLaws mgr.vnodes find
  pub live : NeverCancelled mgr.vnodes
  pub retries : Retries libs.retry
  pub retries_host : Retries libs.retry_host
  pub clock : Leaves find libs.now
  pub nodes_elsewhere : (c : C) → Elsewhere find (libs.clusters c)
  pub pods_elsewhere : (c : C) → PodsElsewhere find (libs.clusters c)
  pub update_pool : (cr : PoolCr) → Leaves find (mgr.pools.update cr)
  pub host : HostLeaves find mgr.pools (mgr.host k) (mgr.event_recorder "vnode-pod-sync")

-- The same for what is seen of the finalizers of pools. An update of a pool writes those of its resource or
-- nothing, and what was added is contained.
pub record FinalizerHostLaws {Q V C W R K : Type 0} (held : Seen Bool W)
    (libs : Libraries Q V C W R) (mgr : Manager Q V C W R K) (k : K) : Type 0 where
  pub contains-add :
      (fs : List String)
      → libs.finalizers.contains (libs.finalizers.add fs pool_finalizer) pool_finalizer ≡ true
  pub get_named :
      (ns name : String) (s : W) (cr : PoolCr)
      → (mgr.pools.get ns name s).0 ≡ ok cr
      → (cr.namespace ≡ ns) × (cr.name ≡ name)
  pub update_changes :
      (cr : PoolCr) (s : W) (ns name : String)
      → (held (mgr.pools.update cr s).1 ns name ≡ held s ns name)
        ⊎ ((ns ≡ cr.namespace)
            × (name ≡ cr.name)
            × (held (mgr.pools.update cr s).1 ns name
                ≡ libs.finalizers.contains cr.finalizers pool_finalizer))
  pub vnodes : VNodesLeave held mgr.vnodes
  pub retries : Retries libs.retry
  pub retries_host : Retries libs.retry_host
  pub clock : Leaves held libs.now
  pub nodes_elsewhere : (c : C) → Elsewhere held (libs.clusters c)
  pub pods_elsewhere : (c : C) → PodsElsewhere held (libs.clusters c)
  pub host : HostLeaves held mgr.pools (mgr.host k) (mgr.event_recorder "vnode-pod-sync")
