-- ===== src/Adapter/VnodeReconciler/Backoff.antt =====
-- How long the reconciler waits.
use vnode.Base.{zero, ℕ, suc, ◌*◌, ◌-◌, ◌≤◌, ◌≡◌, ◌⊎◌, refl, String, true, arith, eq_iff}
use vnode.Base.Errors.{ok}
use vnode.Base.Exec.{Call, Exec, answer, attempt}
use vnode.Model.Node.{node_pending, node_not_ready}
use vnode.Ports.{NodeLifecycle}
use vnode.Api.{VNodeCr}
use vnode.Adapter.VnodeReconciler.{
  node_of, should_requeue_vnode, backoff_loop, requeue_backoff, reconcile_vnode, second,
  vnode_max_requeue, vnode_min_requeue,
}

loop_stops :
    (n age threshold delay : ℕ)
    → vnode_max_requeue ≤ delay
    → backoff_loop n age threshold delay ≡ delay
unfolding backoff_loop
loop_stops zero age threshold delay h = refl
loop_stops (suc n) age threshold delay h = ground arith

-- The loop of `requeueBackoff` is over after at most five rounds: more fuel gives the same delay.
pub backoff_loop_enough :
    (n age : ℕ)
    → backoff_loop (suc (suc (suc (suc (suc n))))) age (30 * second) vnode_min_requeue
      ≡ backoff_loop 5 age (30 * second) vnode_min_requeue
unfolding backoff_loop
backoff_loop_enough n age =
    ground (arith, loop_stops n age (180 * second) (64 * second) (omega arith))

requeue_backoff_bounds :
    (age : ℕ)
    → (vnode_min_requeue ≤ requeue_backoff age) × (requeue_backoff age ≤ vnode_max_requeue)
unfolding requeue_backoff backoff_loop
requeue_backoff_bounds age = ground arith

module _ {S : Type 0} (get_vnode : String → String → Exec S VNodeCr) (now : Call S ℕ)
    (nodes : NodeLifecycle S) (ns name : String) (s : S) (cr : VNodeCr)
    (found : (get_vnode ns name s).0 ≡ ok cr)
    (updated : (nodes.update_status (node_of cr) (get_vnode ns name s).1).0 ≡ ok tt) where
  -- A node that is found, whose status is updated without an error, and that was Pending or NotReady, is
  -- looked at again after 2 to 60 seconds.
  pub reconcile_vnode_requeues :
      (cr.phase ≡ node_pending) ⊎ (cr.phase ≡ node_not_ready)
      → (delay : ℕ) × ((reconcile_vnode get_vnode now nodes ns name s).0 ≡ ok delay)
        × (vnode_min_requeue ≤ delay)
        × (delay ≤ vnode_max_requeue)
  unfolding reconcile_vnode answer attempt node_of should_requeue_vnode
  reconcile_vnode_requeues stuck =
      let t = (now (nodes.update_status (node_of cr) (get_vnode ns name s).1).1).0 in
      let again : should_requeue_vnode (node_of cr) ≡ true =
        ground (arith, stuck, eq_iff cr.phase node_pending, eq_iff cr.phase node_not_ready) in
      (
        requeue_backoff (t - cr.creation_timestamp),
        rw (found, updated, again) refl,
        (requeue_backoff_bounds (t - cr.creation_timestamp)).0,
        (requeue_backoff_bounds (t - cr.creation_timestamp)).1,
      )
