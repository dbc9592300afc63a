-- ===== src/Adapter/VnodeReconciler.antt =====
-- internal/adapter/inbound/reconciler/vnode_reconciler.go. Durations are in nanoseconds.
pub mod Backoff
pub mod Keeps
use vnode.Base.{
  ℕ, zero, suc, ◌+◌, ◌-◌, ◌*◌, String, ◌<>◌, Bool, ◌&&◌, ◌||◌, List, [], ◌∷◌, ◌==◌, ltb, leb,
  if◌then◌else◌,
}
use vnode.Base.Errors.{Error, wrap, is_not_found, is_context_error}
use vnode.Base.Exec.{Call, Exec, answer, pure, raise, attempt}
use vnode.Base.Map.{Map, get}
use vnode.Model.Resource.{ResourceList, no_resources}
use vnode.Model.Node.{NodeCondition, VNode, node_pending, node_not_ready}
use vnode.Ports.{NodeLifecycle}
use vnode.Api.{VNodeCr, conditions_of}

abbrev pub second : ℕ
second = 1000000000

abbrev pub vnode_min_requeue : ℕ
vnode_min_requeue = 2 * second

abbrev pub vnode_max_requeue : ℕ
vnode_max_requeue = 60 * second

-- The node that `Reconcile` builds: it sets neither `Taints` nor `Allocatable`.
unfoldable pub node_of : VNodeCr → VNode
unfolding conditions_of
node_of cr = record {
  id = cr.uid;
  name = cr.name;
  namespace = cr.namespace;
  pool_name = cr.pool_ref;
  tenant_ref = record {
    vcluster_name = get "vnode.kroderdev.io/vcluster-name" cr.annotations;
    vcluster_namespace = get "vnode.kroderdev.io/vcluster-namespace" cr.annotations;
    kubeconfig_secret = get "vnode.kroderdev.io/kubeconfig-secret" cr.annotations;
  };
  taints = [];
  phase = cr.phase;
  capacity = cr.capacity;
  allocatable = no_resources;
  conditions = conditions_of cr.conditions;
}

unfoldable pub should_requeue_vnode : VNode → Bool
should_requeue_vnode node = (node.phase == node_pending) || (node.phase == node_not_ready)

-- The loop of `requeueBackoff`. The delay doubles in each round and begins with 2 s, so that it is
-- past 60 s after five rounds: that much fuel is enough.
unfoldable pub backoff_loop : ℕ → ℕ → ℕ → ℕ → ℕ
backoff_loop zero age threshold delay = delay
backoff_loop (suc fuel) age threshold delay =
    let rest = backoff_loop fuel age (threshold + 30 * second) (delay * 2) in
    if leb threshold age && ltb delay vnode_max_requeue then rest else delay

-- The age of an object that is created in the future is 0 here and negative in the source; both are
-- below the first threshold.
unfoldable pub requeue_backoff : ℕ → ℕ
unfolding backoff_loop
requeue_backoff age =
    let delay = backoff_loop 5 age (30 * second) vnode_min_requeue in
    if ltb vnode_max_requeue delay then vnode_max_requeue else delay

-- `RequeueAfter`, which is 0 for no further call. The clock and the read of the object are parameters.
module _ {S : Type 0} (get_vnode : String → String → Exec S VNodeCr) (now : Call S ℕ)
    (nodes : NodeLifecycle S) where
  abbrev requeue_after : VNodeCr → Exec S ℕ
  requeue_after cr s = let (t, s') = now s in pure (requeue_backoff (t - cr.creation_timestamp)) s'

  unfoldable pub reconcile_vnode : String → String → Exec S ℕ
  unfolding node_of should_requeue_vnode requeue_backoff
  reconcile_vnode ns name =
      attempt (get_vnode ns name) (λ e. if is_not_found e then pure 0 else raise e)
        (λ cr.
          attempt (nodes.update_status (node_of cr))
            (λ e.
              if is_not_found e || is_context_error e
              then pure 0
              else raise (wrap ("updating node " <> cr.name) e))
            (λ _. if should_requeue_vnode (node_of cr) then requeue_after cr else pure 0))
