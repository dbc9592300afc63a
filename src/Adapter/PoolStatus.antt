-- ===== src/Adapter/PoolStatus.antt =====
-- internal/adapter/inbound/reconciler/vnodepool_reconciler.go: the statuses that the reconcilers of pools write.
pub mod Conditions
use vnode.Base.{String, ◌<>◌, Bool, true, false, ◌&&◌, not, List, [], ◌∷◌, ◌==◌, if◌then◌else◌}
use vnode.Base.Decimal.{show_ℤ}
use vnode.Base.Errors.{Error, message}
use vnode.Base.Int.{eqb_ℤ}
use vnode.Model.Pool.{VNodePool, PoolPhase, pool_ready, pool_scaling, pool_failed, pool_deleting}
use vnode.Api.{ApiCondition, PoolStatus}

-- `setStatusCondition`: the first condition of the type is overwritten, or one is added at the end.
unfoldable pub set_status_condition :
    List ApiCondition → String → String → String → String → List ApiCondition
set_status_condition [] type status reason message =
    record { type = type; status = status; reason = reason; message = message } ∷ []
set_status_condition (c ∷ cs) type status reason message =
    let rest = set_status_condition cs type status reason message in
    if not (c.type == type)
    then c ∷ rest
    else if (c.status == status) && ((c.reason == reason) && (c.message == message))
    then c ∷ cs
    else record c { status = status; reason = reason; message = message } ∷ cs

unfoldable pub condition_status : Bool → String
condition_status b = if b then "True" else "False"

unfoldable pub phase_reason : PoolPhase → String
phase_reason phase =
    if phase == pool_ready
    then "PoolReady"
    else if phase == pool_scaling
    then "PoolScaling"
    else if phase == pool_deleting
    then "PoolDeleting"
    else if phase == pool_failed
    then "PoolFailed"
    else "PoolPending"

abbrev pub conditions_eq : List ApiCondition → List ApiCondition → Bool
conditions_eq [] [] = true
conditions_eq [] (d ∷ ds) = false
conditions_eq (c ∷ cs) [] = false
conditions_eq (c ∷ cs) (d ∷ ds) =
    let rest = conditions_eq cs ds in
    (c.type == d.type)
    && ((c.status == d.status) && ((c.reason == d.reason) && ((c.message == d.message) && rest)))

-- `reflect.DeepEqual` on the statuses.
unfoldable pub statuses_eq : PoolStatus → PoolStatus → Bool
statuses_eq a b =
    (a.phase == b.phase)
    && (eqb_ℤ a.ready_nodes b.ready_nodes
        && (eqb_ℤ a.total_nodes b.total_nodes && conditions_eq a.conditions b.conditions))

-- The two conditions that every change of a pool's status sets.
unfoldable pub with_conditions :
    List ApiCondition
    → (ready reason text : String) → (degraded reason' text' : String) → List ApiCondition
with_conditions cs ready reason text degraded reason' text' =
    set_status_condition (set_status_condition cs "Ready" ready reason text) "Degraded" degraded
      reason' text'

unfoldable pub failed_status : String → Error → PoolStatus → PoolStatus
failed_status reason e status = record status {
  phase = pool_failed;
  conditions =
      with_conditions status.conditions "False" reason (message e) "True" reason (message e);
}

unfoldable pub deleting_status : PoolStatus → PoolStatus
deleting_status status = record status {
  phase = pool_deleting;
  conditions =
      with_conditions status.conditions "False" "Deleting" "Pool is being deleted" "False"
        "Deleting" "Pool cleanup in progress";
}

unfoldable pub reconciled_status : VNodePool → PoolStatus → PoolStatus
reconciled_status pool status =
    let reason = phase_reason pool.phase in
    record {
      phase = pool.phase;
      ready_nodes = pool.ready_nodes;
      total_nodes = pool.node_count;
      conditions =
          with_conditions status.conditions (condition_status (pool.phase == pool_ready)) reason
            (show_ℤ pool.ready_nodes <> ("/" <> (show_ℤ pool.node_count <> " virtual nodes ready")))
            (condition_status (pool.phase == pool_failed)) reason ("Pool phase is " <> pool.phase);
    }
