-- ===== src/Adapter/VnodeReconciler/Keeps.antt =====
-- What a reconciliation of a `VNode` keeps: whatever its calls keep.
use vnode.Base.{ℕ, String, ◌||◌}
use vnode.Base.Errors.{ok, is_not_found, is_context_error}
use vnode.Base.Exec.{Call, Exec, answer}
use vnode.Base.Exec.Keeps.{Keeps, Keeps-attempt, Keeps-test, Keeps-answer}
use vnode.Ports.{NodeLifecycle}
use vnode.Service.Pool.Keeps.{LifecycleKeeps}
use vnode.Api.{VNodeCr}
use vnode.Adapter.VnodeReconciler.{node_of, should_requeue_vnode, requeue_after, reconcile_vnode}

module _ {S : Type 0} {Inv : S → Type 0} {get_vnode : String → String → Exec S VNodeCr}
    {now : Call S ℕ} {nodes : NodeLifecycle S} where
  -- What the read of the resource, the clock and the node service keep, a reconciliation keeps, wherever it stops.
  pub reconcile_vnode-Keeps :
      ((ns name : String) → Keeps Inv (get_vnode ns name))
      → Keeps Inv now
      → LifecycleKeeps Inv nodes
      → (ns name : String) → Keeps Inv (reconcile_vnode get_vnode now nodes ns name)
  unfolding reconcile_vnode answer
  reconcile_vnode-Keeps gets clock k ns name =
      Keeps-attempt _ _ _ (λ e. Keeps-test (is_not_found e) _ _ (Keeps-answer _) (Keeps-answer _))
        (λ cr.
          Keeps-attempt _ _ _
            (λ e.
              Keeps-test (is_not_found e || is_context_error e) _ _ (Keeps-answer _)
                (Keeps-answer _))
            (λ _.
              Keeps-test (should_requeue_vnode (node_of cr)) (requeue_after get_vnode now nodes cr)
                _ (record { at = λ s h. clock.at s h }) (Keeps-answer (ok 0)))
            (k.update_status (node_of cr)))
        (gets ns name)
