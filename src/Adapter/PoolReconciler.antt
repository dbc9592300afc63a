-- ===== src/Adapter/PoolReconciler.antt =====
-- internal/adapter/inbound/reconciler/vnodepool_reconciler.go. A result is the `RequeueAfter` in nanoseconds,
-- 0 for no further call.
pub mod Finalizer
pub mod Keeps
use vnode.Base.{
  ℕ, String, ◌<>◌, Bool, true, false, ◌&&◌, not, Option, none, some, List, [], ◌∷◌, ◌==◌, bool_eq,
  if◌then◌else◌, is_some,
}
use vnode.Base.Decimal.{show_ℤ}
use vnode.Base.Errors.{Error, Result, ok, err, wrap, message, is_not_found}
use vnode.Base.Exec.{
  Call, Exec, Action, Reply, answer, pure, raise, attempt, wrapping, dropping_error, ◌>>=◌, ◌>>◌,
}
use vnode.Base.Int.{ℤ, pos, eqb_ℤ}
use vnode.Base.Map.{Map, get}
use vnode.Model.Pool.{
  VNodePool, PoolPhase, Taint, Toleration, validate, pool_pending, pool_ready, pool_scaling,
  pool_failed, pool_deleting,
}
use vnode.Ports.{PoolManager}
use vnode.Adapter.PoolStatus.{statuses_eq, failed_status, deleting_status, reconciled_status}
use vnode.Api.{ApiCondition, Finalizers, PoolStatus, PoolCr, VNodeCr, VNodeApi, PoolApi}

abbrev pub pool_finalizer : String
pool_finalizer = "vnode.kroderdev.io/pool-cleanup"

abbrev pub one_second : ℕ
one_second = 1000000000

unfoldable pub map_taints : List Taint → List Taint
map_taints [] = []
map_taints (t ∷ ts) = record { key = t.key; value = t.value; effect = t.effect } ∷ map_taints ts

unfoldable pub map_tolerations : List Toleration → List Toleration
map_tolerations [] = []
map_tolerations (t ∷ ts) =
    record {
      key = t.key;
      operator = t.operator;
      value = t.value;
      effect = t.effect;
      toleration_seconds = t.toleration_seconds;
    }
    ∷ map_tolerations ts

unfoldable pub cr_to_pool_model : PoolCr → VNodePool
cr_to_pool_model cr = record {
  id = cr.uid;
  name = cr.name;
  namespace = cr.namespace;
  tenant_ref = cr.tenant_ref;
  mode = cr.mode;
  isolation_backend = cr.isolation_backend;
  runtime_class_name = cr.runtime_class_name;
  node_count = cr.node_count;
  per_node_resources = cr.per_node_resources;
  display_name = cr.display_name;
  node_selector = cr.node_selector;
  taints = map_taints cr.taints;
  tolerations = map_tolerations cr.tolerations;
  phase = cr.status.phase;
  ready_nodes = cr.status.ready_nodes;
  nodes = [];
  deletion_pending = cr.deleting;
}

abbrev pub pool_selector : String → Map String
pool_selector name = ("vnode.kroderdev.io/pool", name) ∷ []

-- The pool that `handleDeletion` reconciles.
unfoldable pub emptied : PoolCr → VNodePool
emptied cr = record (cr_to_pool_model cr) { node_count = pos 0; deletion_pending = true }

module _ {S : Type 0} (pools : PoolApi S) (vnodes : VNodeApi S) (finalizers : Finalizers)
    (retry : Action S → Action S) (manager : PoolManager S) where
  -- One attempt of `updatePoolStatus`.
  unfoldable pub write_pool_status : String → String → (PoolStatus → PoolStatus) → Action S
  write_pool_status ns name mutate = pools.get ns name >>= λ base.
      let current = record base { status = mutate base.status } in
      if statuses_eq base.status current.status then pure tt else pools.patch_status base current

  unfoldable pub update_pool_status : String → String → (PoolStatus → PoolStatus) → Action S
  update_pool_status ns name mutate = retry (write_pool_status ns name mutate)

  -- One attempt to remove the finalizer.
  unfoldable pub write_unfinalized : PoolCr → Action S
  write_unfinalized cr =
      attempt (pools.get cr.namespace cr.name) (λ e. if is_not_found e then pure tt else raise e)
        (λ current.
          pools.update
            (record current { finalizers = finalizers.remove current.finalizers pool_finalizer })
          >>= λ _. pure tt)

  -- `handleDeletion` once the nodes are listed that are left.
  unfoldable pub finish_deletion : PoolCr → List VNodeCr → Exec S ℕ
  finish_deletion cr [] = wrapping "removing finalizer" (retry (write_unfinalized cr)) >> pure 0
  finish_deletion cr (n ∷ remaining) = pure one_second

  unfoldable pub cleaned_up : PoolCr → Option Error → Exec S ℕ
  cleaned_up cr (some e) = raise (wrap ("cleaning up pool " <> cr.name) e)
  cleaned_up cr none =
      wrapping ("listing remaining VNodes for pool " <> cr.name)
        (vnodes.list cr.namespace (pool_selector cr.name))
      >>= λ remaining. finish_deletion cr remaining

  unfoldable pub handle_deletion : PoolCr → Exec S ℕ
  handle_deletion cr =
      if not (finalizers.contains cr.finalizers pool_finalizer)
      then pure 0
      else dropping_error (update_pool_status cr.namespace cr.name deleting_status) >> λ s.
          let (r, s') = manager.reconcile (emptied cr) s in cleaned_up cr r.error s'

  unfoldable pub ensure_finalizer : PoolCr → Exec S PoolCr
  ensure_finalizer cr =
      if finalizers.contains cr.finalizers pool_finalizer
      then pure cr
      else wrapping "adding finalizer"
          (pools.update (record cr { finalizers = finalizers.add cr.finalizers pool_finalizer }))

  -- The rest of `Reconcile` after the manager returned.
  unfoldable pub report : PoolCr → VNodePool → Option Error → Exec S ℕ
  report cr value (some e) =
      dropping_error (update_pool_status cr.namespace cr.name (failed_status "ReconcileFailed" e))
      >> raise (wrap ("reconciling pool " <> cr.name) e)
  report cr value none =
      wrapping "updating pool status"
        (update_pool_status cr.namespace cr.name (reconciled_status value))
      >> (if cr.deleting && not (value.phase == pool_ready) then pure one_second else pure 0)

  -- The part of `Reconcile` after `Validate`; a specification that is not valid is not tried again.
  unfoldable pub validated : PoolCr → Option Error → Exec S ℕ
  validated cr (some e) =
      dropping_error (update_pool_status cr.namespace cr.name (failed_status "ValidationFailed" e))
      >> pure 0
  validated cr none =
      λ s. let (r, s') = manager.reconcile (cr_to_pool_model cr) s in report cr r.value r.error s'

  unfoldable pub reconcile_pool_cr : String → String → Exec S ℕ
  reconcile_pool_cr ns name =
      attempt (pools.get ns name) (λ e. if is_not_found e then pure 0 else raise e)
        (λ cr.
          if cr.deleting
          then handle_deletion cr
          else ensure_finalizer cr >>= λ current.
              validated current (validate (cr_to_pool_model current)))

-- `vnodeToPool`: the pool whose reconciliation an event on a `VNode` asks for.
unfoldable pub vnode_to_pool : VNodeCr → Option (String × String)
vnode_to_pool cr =
    let pool = get "vnode.kroderdev.io/pool" cr.labels in
    if pool == "" then none else some (cr.namespace, pool)

pub data VNodeEvent : Type 0 where
  created deleted generic : VNodeCr → VNodeEvent
  updated : (old new : VNodeCr) → VNodeEvent

-- `vnodePhaseChangedPredicate`
unfoldable pub phase_changed : VNodeEvent → Bool
phase_changed (created cr) = false
phase_changed (deleted cr) = true
phase_changed (generic cr) = false
phase_changed (updated old new) = not (old.phase == new.phase)
