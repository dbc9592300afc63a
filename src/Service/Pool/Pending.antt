-- ===== src/Service/Pool/Pending.antt =====
-- A pool that `Reconcile` calls ready while no node is.
use vnode.Base.{◌^◌, ◌<◌, ◌≡◌, refl, none, List, [], ◌∷◌, length, All, arith, eq_iff}
use vnode.Base.Errors.{ok}
use vnode.Base.Exec.{attempt}
use vnode.Base.Int.{pos, wrap32_id}
use vnode.Model.Pool.{VNodePool, pool_ready, desired_scale_actions}
use vnode.Model.Node.{VNode, node_pending, node_not_ready, node_terminating}
use vnode.Ports.{NodeRepository, NodeLifecycle}
use vnode.Service.Pool.{ready_count, finish, scale_up, scale_down, scale, reconcile}

abbrev AllPending : List VNode → Type 0
AllPending = All (λ (n : VNode). n.phase ≡ node_pending)

ready_count-pending : (ns : List VNode) → AllPending ns → ready_count ns ≡ length ns
unfolding ready_count
ready_count-pending [] _ = refl
ready_count-pending (n ∷ ns) (p, rest) = ground (
  arith,
  ready_count-pending ns rest,
  eq_iff n.phase node_not_ready,
  eq_iff n.phase node_terminating,
  eq_iff node_pending node_not_ready,
  eq_iff node_pending node_terminating,
)

-- A pool that has as many nodes as it asks for is left as it is, and reported Ready with all its nodes
-- ready, also while each of them is still Pending.
pub reconcile_pending :
    {S : Type 0} (repo : NodeRepository S) (nodes : NodeLifecycle S) (pool : VNodePool)
    (existing : List VNode) (s : S)
    → (repo.list_by_pool pool.namespace pool.name s).0 ≡ ok existing
    → pool.node_count ≡ pos (length existing)
    → length existing < 2 ^ 31
    → AllPending existing
    → reconcile repo nodes pool s ≡ (
      record {
        value = record pool { ready_nodes = pos (length existing); phase = pool_ready };
        error = none;
      },
      (repo.list_by_pool pool.namespace pool.name s).1,
    )
unfolding reconcile scale attempt scale_up scale_down finish desired_scale_actions
reconcile_pending repo nodes pool existing s listed all few pending =
    ground (arith, ready_count-pending existing pending, wrap32_id (pos (length existing)) few)
