-- ===== src/Adapter/PoolRepository.antt =====
-- internal/adapter/outbound/kubeclient/client.go: the pools, kept as `VNodePool` resources.
use vnode.Base.{String, List, [], ◌∷◌, length}
use vnode.Base.Int.{pos, wrap32}
use vnode.Base.Exec.{Exec, Action, pure, ◌>>=◌}
use vnode.Model.Pool.{VNodePool, Taint, Toleration}
use vnode.Ports.{PoolRepository}
use vnode.Api.{PoolCr, PoolApi}

unfoldable pub taints_of : List Taint → List Taint
taints_of [] = []
taints_of (t ∷ ts) = record { key = t.key; value = t.value; effect = t.effect } ∷ taints_of ts

unfoldable pub tolerations_of : List Toleration → List Toleration
tolerations_of [] = []
tolerations_of (t ∷ ts) =
    record {
      key = t.key;
      operator = t.operator;
      value = t.value;
      effect = t.effect;
      toleration_seconds = t.toleration_seconds;
    }
    ∷ tolerations_of ts

-- It leaves `Nodes` empty.
unfoldable pub cr_to_pool : PoolCr → VNodePool
cr_to_pool cr = record {
  id = cr.uid;
  name = cr.name;
  namespace = cr.namespace;
  tenant_ref = cr.tenant_ref;
  mode = cr.mode;
  isolation_backend = cr.isolation_backend;
  runtime_class_name = cr.runtime_class_name;
  node_count = cr.node_count;
  per_node_resources = cr.per_node_resources;
  display_name = cr.display_name;
  node_selector = cr.node_selector;
  taints = taints_of cr.taints;
  tolerations = tolerations_of cr.tolerations;
  phase = cr.status.phase;
  ready_nodes = cr.status.ready_nodes;
  nodes = [];
  deletion_pending = cr.deleting;
}

unfoldable pub crs_to_pools : List PoolCr → List VNodePool
crs_to_pools [] = []
crs_to_pools (cr ∷ crs) = cr_to_pool cr ∷ crs_to_pools crs

-- `int32(len(pool.Nodes))`
unfoldable pub with_pool_status : PoolCr → VNodePool → PoolCr
with_pool_status cr pool = record cr {
  status = record cr.status {
    phase = pool.phase;
    ready_nodes = pool.ready_nodes;
    total_nodes = wrap32 (pos (length pool.nodes));
  };
}

module _ {S : Type 0} (api : PoolApi S) where
  unfoldable pub get_pool : String → String → Exec S VNodePool
  get_pool ns name = api.get ns name >>= λ cr. pure (cr_to_pool cr)

  unfoldable pub save_pool : VNodePool → Action S
  save_pool pool =
      api.get pool.namespace pool.name >>= λ cr. api.update_status (with_pool_status cr pool)

  unfoldable pub list_pools : Exec S (List VNodePool)
  list_pools = api.list >>= λ crs. pure (crs_to_pools crs)

  abbrev pub pool_repository : PoolRepository S
  pool_repository = record { get = get_pool; save = save_pool; list = list_pools }
