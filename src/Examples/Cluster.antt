-- ===== src/Examples/Cluster.antt =====
-- The cluster of a tenant in memory, and the registration of a node there.
use vnode.Base.{
  ◌&&◌, ℕ, ◌≡◌, refl, String, true, Option, none, some, [], ◌∷◌, ◌==◌, if◌then◌else◌, arith, eq_iff,
  eq_refl,
}
use vnode.Base.Decimal.{show_ℤ}
use vnode.Base.Errors.{Result, ok, err, leaf, not_found}
use vnode.Base.Exec.{Call, attempt, answer, wrapping, ◌>>=◌}
use vnode.Base.Int.{pos}
use vnode.Model.Node.{VNode}
use vnode.Kube.{Quantities, Clientset, CoreNode, Lease}
use vnode.Ports.{KubeconfigResolver}
use vnode.Service.NodeMarks.{no_node}
use vnode.Adapter.TenantClients.{
  TenantWorld, get_client, cached_or, build_client, on_world, with_config, with_client, keep_client,
  cache_key,
}
use vnode.Adapter.Registrar.Presence.Deregister.{
  DeletionLaws, IsUnregistered, deregister-IsUnregistered,
}
use vnode.Adapter.Registrar.{
  deregister, remove_node, delete_found, register, ensure_lease_namespace, upsert_node,
  update_node_status, sync_node, write_node_status, new_core_node, upsert_lease, upsert_lease_at,
  with_node_status, held_lease,
}
use vnode.Examples.Pools.{pool_of}
use vnode.Examples.Resources.{retry_on}

record Held : Type 0 where
  nodes : String → Option (CoreNode String)
  leases : String → String → Option Lease

abbrev put : {A : Type 0} → String → Option A → (String → Option A) → String → Option A
put name a f k = if name == k then a else f k

abbrev put_lease :
    String
    → String
    → Option Lease
    → (String → String → Option Lease)
    → String
    → String
    → Option Lease
put_lease ns name a f j k = if (ns == j) && (name == k) then a else f j k

abbrev read_node : String → Option (CoreNode String) → Result (CoreNode String)
read_node name none = err (leaf not_found name)
read_node name (some n) = ok (record n { name = name })

abbrev read_lease : String → String → Option Lease → Result Lease
read_lease ns name none = err (leaf not_found name)
read_lease ns name (some l) = ok (record l { namespace = ns; name = name })

-- All but the status of `n`, and the status of `n` alone.
abbrev updated : CoreNode String → Option (CoreNode String) → Option (CoreNode String)
updated n none = some n
updated n (some old) = some (record n {
  capacity = old.capacity;
  allocatable = old.allocatable;
  conditions = old.conditions;
  node_info = old.node_info;
})

abbrev restated : CoreNode String → Option (CoreNode String) → Option (CoreNode String)
restated n none = none
restated n (some old) = some (record old {
  capacity = n.capacity;
  allocatable = n.allocatable;
  conditions = n.conditions;
  node_info = n.node_info;
})

abbrev found_or : Option (CoreNode String) → Result (Unit {0})
found_or none = err (leaf not_found "node")
found_or (some n) = ok tt

-- The default admission of the API server taints a new node.
abbrev not_ready_tainted : CoreNode String → CoreNode String
not_ready_tainted n = record n {
  taints =
      record { key = "node.kubernetes.io/not-ready"; value = ""; effect = "NoSchedule" } ∷ n.taints;
}

abbrev cluster : String → Clientset String Held
cluster c = record {
  list_pods = λ w. (ok [], w);
  get_pod = λ ns name w. (err (leaf not_found name), w);
  update_pod_status = λ ns p w. (ok tt, w);
  get_config_map = λ ns name w. (err (leaf not_found name), w);
  get_secret = λ ns name w. (err (leaf not_found name), w);
  get_namespace = λ name w. (err (leaf not_found name), w);
  create_namespace = λ name w. (ok tt, w);
  get_lease = λ ns name w. (read_lease ns name (w.leases ns name), w);
  create_lease =
      λ l w. (ok tt, record w { leases = put_lease l.namespace l.name (some l) w.leases });
  update_lease = λ ns l w. (ok tt, record w { leases = put_lease ns l.name (some l) w.leases });
  delete_lease = λ ns name w. (ok tt, record w { leases = put_lease ns name none w.leases });
  get_node = λ name w. (read_node name (w.nodes name), w);
  create_node =
      λ n w. (ok tt, record w { nodes = put n.name (some (not_ready_tainted n)) w.nodes });
  update_node =
      λ n w. (ok tt, record w { nodes = put n.name (updated n (w.nodes n.name)) w.nodes });
  update_node_status = λ n w. (
    found_or (w.nodes n.name),
    record w { nodes = put n.name (restated n (w.nodes n.name)) w.nodes },
  );
  delete_node = λ name w. (ok tt, record w { nodes = put name none w.nodes });
}

abbrev node_at : String → Held → String → Option (CoreNode String)
node_at c w k = w.nodes k

abbrev lease_at : String → Held → String → String → Option Lease
lease_at c w ns k = w.leases ns k

put_here :
    {A : Type 0} (name : String) (a : Option A) (f : String → Option A) → put name a f name ≡ a
put_here name a f = rw (eq_refl name) refl

lease_put_here :
    (ns name : String) (a : Option Lease) (f : String → String → Option Lease)
    → put_lease ns name a f ns name ≡ a
lease_put_here ns name a f = rw (eq_refl ns, eq_refl name) refl

abbrev quantities : Quantities String
quantities = record {
  must_parse = λ t. t;
  string = λ q. q;
  value = λ q. pos 0;
  new_quantity = show_ℤ;
}

abbrev noon : Call Held ℕ
noon w = (43200, w)

abbrev resolver : KubeconfigResolver Held
resolver = record { resolve = λ ns name w. (ok name, w) }

abbrev rest_config : String → Result String
rest_config text = ok text

abbrev factory : String → Result String
factory cfg = ok cfg

abbrev node : VNode
node = record no_node {
  name = "n";
  pool_name = "p";
  capacity = (pool_of 1).per_node_resources;
  conditions = record { type = "Ready"; status = true; reason = "Ready"; message = "" } ∷ [];
}

abbrev empty : TenantWorld String Held
empty = record { clients = []; world = record { nodes = λ k. none; leases = λ j k. none } }

cluster-DeletionLaws : (c : String) → DeletionLaws (cluster c) (node_at c) (lease_at c)
cluster-DeletionLaws c = record {
  lease_ok = λ ns name w h. lease_put_here ns name none w.leases;
  lease_missing = λ ns name w e h _. lease_put_here ns name none w.leases;
  node_ok = λ name w h. put_here name none w.nodes;
  node_missing = λ name w e h _. put_here name none w.nodes;
  node_keeps = λ name w j k. refl;
}

abbrev registered : TenantWorld String Held
registered =
    (register quantities "v1" noon (retry_on 0) cluster resolver rest_config factory node
      (pool_of 1).tenant_ref empty).1

deregister-IsUnregistered_example :
    IsUnregistered node_at lease_at node
      (pool_of 1).tenant_ref
      (deregister quantities "v1" noon
        (retry_on 0)
        cluster
        resolver
        rest_config
        factory
        node
        (pool_of 1).tenant_ref
        registered).1
unfolding register ◌>>=◌ get_client cached_or build_client on_world with_config with_client
    keep_client ensure_lease_namespace upsert_node update_node_status cache_key sync_node
    write_node_status new_core_node upsert_lease upsert_lease_at attempt wrapping with_node_status
    held_lease answer deregister remove_node delete_found
deregister-IsUnregistered_example =
    deregister-IsUnregistered quantities "v1" noon (retry_on 0) cluster cluster-DeletionLaws
      resolver rest_config factory node (pool_of 1).tenant_ref registered
      (λ e. ground (arith, e, eq_iff "kc" "")) refl
