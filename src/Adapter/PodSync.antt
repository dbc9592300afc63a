-- ===== src/Adapter/PodSync.antt =====
-- internal/adapter/inbound/reconciler/podsync_reconciler.go. A result is the `RequeueAfter` in
-- nanoseconds, 0 for no further call.
pub mod Requeue
pub mod Accounts
pub mod Keeps
use vnode.Base.{
  ltb, ◌||◌, ℕ, String, ◌<>◌, ◌&&◌, not, Option, none, some, List, [], ◌∷◌, ◌==◌, if◌then◌else◌,
}
use vnode.Base.Decimal.{show_ℤ}
use vnode.Observability.{
  CounterLib, Observed, aside, count, host_pod_creates, host_pod_deletes, status_syncs,
  execution_failures,
}
use vnode.Base.Errors.{Error, errorf, wrap, message, is_not_found, is_context_error}
use vnode.Base.Exec.{
  Call, Exec, Action, answer, pure, raise, attempt, unless_context, dropping_error, ◌>>=◌, ◌>>◌,
}
use vnode.Base.Int.{pos}
use vnode.Model.Pool.{VNodePool, validate, pool_failed}
use vnode.Kube.{Quantities, TenantClients}
use vnode.Ports.{NodeRepository, ClusterClient, PodTranslator}
use vnode.Service.Execution.Host.{cleanup_pool_pods}
use vnode.Service.Execution.Sync.{PodExecutionResult, reconcile_pool}
use vnode.Api.{ApiCondition, PoolStatus, PoolCr, PoolApi}
use vnode.Adapter.PoolStatus.{statuses_eq}
use vnode.Adapter.PoolReconciler.{cr_to_pool_model}

abbrev pub two_seconds : ℕ
two_seconds = 2000000000

abbrev pub three_seconds : ℕ
three_seconds = 3000000000

-- The first condition of the type is overwritten, or one is added at the end.
unfoldable pub set_pod_sync_condition :
    List ApiCondition → String → String → String → String → List ApiCondition
set_pod_sync_condition [] type status reason message =
    record { type = type; status = status; reason = reason; message = message } ∷ []
set_pod_sync_condition (c ∷ cs) type status reason message =
    let rest = set_pod_sync_condition cs type status reason message in
    if not (c.type == type)
    then c ∷ rest
    else if (c.status == status) && ((c.reason == reason) && (c.message == message))
    then c ∷ cs
    else record c { status = status; reason = reason; message = message } ∷ cs

-- What `updateExecutionConditions` makes of a status.
unfoldable pub execution_status : (ready degraded reason text : String) → PoolStatus → PoolStatus
execution_status ready degraded reason text status = record status {
  conditions =
      set_pod_sync_condition
        (set_pod_sync_condition status.conditions "PodExecutionReady" ready reason text) "Degraded"
        degraded reason text;
}

-- `events.EventRecorder`: an event about a pool with its type, its reason, its action and its note.
pub record Recorder (W : Type 0) : Type 0 where
  pub eventf : PoolCr → (type reason action note : String) → Call W (Unit {0})

module _ {S : Type 0} (pools : PoolApi S) (retry : Action S → Action S) where
  -- One attempt of `updateExecutionConditions`.
  unfoldable pub write_execution_conditions :
      String → String → (ready degraded reason text : String) → Action S
  write_execution_conditions ns name ready degraded reason text =
      attempt (pools.get ns name) (λ e. unless_context e (raise e))
        (λ base.
          let current = record base {
            status = execution_status ready degraded reason text base.status;
          } in
          if statuses_eq base.status current.status
          then pure tt
          else attempt (pools.patch_status base current) (λ e. unless_context e (raise e)) pure)

  unfoldable pub update_execution_conditions :
      String → String → (ready degraded reason text : String) → Action S
  update_execution_conditions ns name ready degraded reason text =
      retry (write_execution_conditions ns name ready degraded reason text)

-- A call on a recorder that is nil panics, which the controller reports as an error.
abbrev pub nil_recorder : Error
nil_recorder = errorf "panic: invalid memory address or nil pointer dereference [recovered]"

module _ {V W : Type 0} (recorder : Option (Recorder W)) where
  -- A call of `r.Recorder.Eventf`, which `Reconcile` makes without a look whether the recorder is nil.
  unfoldable pub normal_event : PoolCr → (reason action note : String) → Action (Observed V W)
  normal_event cr reason action note = elim recorder [
    | none ↦ raise nil_recorder
    | some events ↦
        λ s. let (_, s') = aside (events.eventf cr "Normal" reason action note) s in pure tt s'
  ]

  unfoldable pub record_warning : PoolCr → String → Error → Action (Observed V W)
  record_warning cr reason e = elim recorder [
    | none ↦ pure tt
    | some events ↦ λ s.
        let (_, s') = aside (events.eventf cr "Warning" reason "PodSync" (message e)) s in
        pure tt s'
  ]

abbrev show_count : ℕ → String
show_count n = show_ℤ (pos n)

-- The note of an event on a round that did something.
unfoldable pub synced_note : PodExecutionResult → String
synced_note r =
    "Processed "
    <> (show_count r.source_pods
        <> (" tenant pods, created "
            <> (show_count r.created_host_pods
                <> (" host pods, deleted "
                    <> (show_count r.deleted_host_pods
                        <> (" host pods, synced "
                            <> (show_count r.synced_statuses <> " statuses")))))))

module _ {Q V W : Type 0} (pools : PoolApi W) (retry : Action W → Action W)
    (quantities : Quantities Q) (repo : NodeRepository W) (host : ClusterClient W)
    (translator : PodTranslator W) (tenants : TenantClients Q W) (counters : CounterLib V)
    (recorder : Option (Recorder W)) where
  -- The part of `Reconcile` after `CleanupPoolPods`.
  unfoldable pub pods_cleaned : PoolCr → ℕ → Option Error → Exec (Observed V W) ℕ
  unfolding normal_event record_warning
  pods_cleaned cr deleted (some e) =
      count counters execution_failures cr.name 1
      >> record_warning recorder cr "PodCleanupFailed" e
      >> raise (wrap ("cleaning host pods for pool " <> cr.name) e)
  pods_cleaned cr deleted none =
      (if ltb 0 deleted
        then count counters host_pod_deletes cr.name deleted
          >> normal_event recorder cr "PodCleanupComplete" "PodCleanup"
              ("Deleted " <> (show_count deleted <> " host pods during pool cleanup"))
        else pure tt)
      >> pure 0

  -- The part of `Reconcile` after `ReconcilePool`.
  unfoldable pub pods_reconciled :
      PoolCr → PodExecutionResult → Option Error → Exec (Observed V W) ℕ
  unfolding normal_event record_warning synced_note
  pods_reconciled cr result (some e) =
      if is_context_error e
      then pure 0
      else count counters execution_failures cr.name 1
        >> record_warning recorder cr "PodExecutionFailed" e
        >> aside (
            dropping_error (
              update_execution_conditions pools retry cr.namespace cr.name "False" "True"
                "PodExecutionFailed" (message e)))
        >> pure two_seconds
  pods_reconciled cr result none =
      count counters host_pod_creates cr.name result.created_host_pods
      >> count counters host_pod_deletes cr.name result.deleted_host_pods
      >> count counters status_syncs cr.name result.synced_statuses
      >> (if ltb 0 result.created_host_pods
            || ltb 0 result.deleted_host_pods
            || ltb 0 result.synced_statuses
          then normal_event recorder cr "PodExecutionSynced" "PodSync" (synced_note result)
          else pure tt)
      >> aside (
          dropping_error (
            update_execution_conditions pools retry cr.namespace cr.name "True" "False"
              "PodExecutionReady"
              ("Processed " <> (show_count result.source_pods <> " tenant pods"))))
      >> pure two_seconds

  -- The part of `Reconcile` after `Validate`.
  unfoldable pub sync_validated : PoolCr → Option Error → Exec (Observed V W) ℕ
  sync_validated cr (some e) = pure 0
  sync_validated cr none =
      let pool = cr_to_pool_model cr in
      if cr.deleting
      then (λ s.
          let (r, s') = aside (cleanup_pool_pods host pool) s in pods_cleaned cr r.value r.error s')
      else if pool.phase == pool_failed
      then pure three_seconds
      else (λ s.
          let (r, s') = aside (reconcile_pool quantities repo host translator tenants pool) s in
          pods_reconciled cr r.value r.error s')

  unfoldable pub sync_pool_cr : String → String → Exec (Observed V W) ℕ
  sync_pool_cr ns name =
      attempt (aside (pools.get ns name)) (λ e. if is_not_found e then pure 0 else raise e)
        (λ cr. sync_validated cr (validate (cr_to_pool_model cr)))
