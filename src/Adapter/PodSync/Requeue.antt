-- ===== src/Adapter/PodSync/Requeue.antt =====
-- What comes after a reconciliation of a pool's pods, and what it writes to the status of the pool.
use mathlib.Core.Path.{subst}
use vnode.Base.{
  Bool-cases, inl, inr, ltb, ◌||◌, ℕ, ◌≡◌, refl, String, false, ◌==◌, Option, none, some, List, [],
  ◌∷◌, if◌then◌else◌,
}
use vnode.Base.Errors.{Error, Result, ok, is_context_error}
use vnode.Base.Exec.{Action, answer, ◌>>=◌}
use vnode.Base.Exec.Outcome.{outcome_attempt, outcome_test}
use vnode.Observability.{CounterLib, Observed, aside, count}
use vnode.Model.Pool.{validate, pool_failed}
use vnode.Kube.{Quantities, TenantClients}
use vnode.Ports.{NodeRepository, ClusterClient, PodTranslator}
use vnode.Service.Execution.Sync.{PodExecutionResult}
use vnode.Service.Execution.Sync.Counts.{TranslatesQuietly, reconcile_pool-IsQuiet}
use vnode.Api.{ApiCondition, PoolStatus, PoolCr, PoolApi}
use vnode.Adapter.PoolStatus.{set_status_condition}
use vnode.Adapter.PoolStatus.Conditions.{find_condition, find_condition-set_status_condition}
use vnode.Adapter.PoolReconciler.{cr_to_pool_model}
use vnode.Adapter.PodSync.{
  two_seconds, three_seconds, set_pod_sync_condition, execution_status, pods_reconciled,
  sync_validated, sync_pool_cr, Recorder,
}

-- The two reconcilers of pools set a condition in the same way.
set_pod_sync_condition-set_status_condition :
    (cs : List ApiCondition) (type status reason text : String)
    → set_pod_sync_condition cs type status reason text
      ≡ set_status_condition cs type status reason text
unfolding set_pod_sync_condition set_status_condition
set_pod_sync_condition-set_status_condition [] type status reason text = refl
set_pod_sync_condition-set_status_condition (c ∷ cs) type status reason text =
    rw (set_pod_sync_condition-set_status_condition cs type status reason text) refl

-- A reconciliation of a pool's pods writes the conditions PodExecutionReady and Degraded, with one
-- reason and one text, and leaves the condition of every other type as it is.
pub find_condition-execution_status :
    (other ready degraded reason text : String) (status : PoolStatus)
    → find_condition other (execution_status ready degraded reason text status).conditions ≡ (
        if "Degraded" == other
        then some (record { type = "Degraded"; status = degraded; reason = reason; message = text })
        else if "PodExecutionReady" == other
        then some
            (record { type = "PodExecutionReady"; status = ready; reason = reason; message = text })
        else find_condition other status.conditions)
unfolding execution_status
find_condition-execution_status other ready degraded reason text status =
    rw
      (
        set_pod_sync_condition-set_status_condition status.conditions "PodExecutionReady" ready
            reason text,
        set_pod_sync_condition-set_status_condition
            (set_status_condition status.conditions "PodExecutionReady" ready reason text)
            "Degraded" degraded reason text,
        find_condition-set_status_condition other "Degraded"
            (set_status_condition status.conditions "PodExecutionReady" ready reason text) degraded
            reason text,
        find_condition-set_status_condition other "PodExecutionReady" status.conditions ready reason
            text,
      )
      refl

module _ {Q V W : Type 0} (pools : PoolApi W) (retry : Action W → Action W)
    (quantities : Quantities Q) (repo : NodeRepository W) (host : ClusterClient W)
    (translator : PodTranslator W) (tenants : TenantClients Q W) (counters : CounterLib V)
    (events : Recorder W) (quiet : TranslatesQuietly translator) where
  pods_reconciled-requeues :
      (cr : PoolCr) (result : PodExecutionResult) (error : Option Error) (s : Observed V W)
      → ((e : Error) → error ≡ some e → is_context_error e ≡ false)
      → (pods_reconciled pools retry quantities repo host translator tenants counters
          (some events)
          cr
          result
          error
          s).0
        ≡ ok two_seconds
  unfolding pods_reconciled ◌>>=◌ count aside
  pods_reconciled-requeues cr result none s h =
      elim (Bool-cases (
        ltb 0 result.created_host_pods
        || ltb 0 result.deleted_host_pods
        || ltb 0 result.synced_statuses)) [
          | inl some_done ↦ rw some_done refl
          | inr none_done ↦ rw none_done refl
        ]
  pods_reconciled-requeues cr result (some e) s h = rw (h e refl) refl

  sync_validated-requeues :
      (cr : PoolCr) (invalid : Option Error) (s : Observed V W)
      → invalid ≡ none
      → cr.deleting ≡ false
      → (sync_validated pools retry quantities repo host translator tenants counters
          (some events)
          cr
          invalid
          s).0
        ≡ ok (if cr.status.phase == pool_failed then three_seconds else two_seconds)
  unfolding sync_validated cr_to_pool_model answer aside
  sync_validated-requeues cr (some e) s v live = cc
  sync_validated-requeues cr none s v live =
      let Next : Result ℕ × Observed V W → Type 0 =
        λ (r, t). r ≡ ok (if cr.status.phase == pool_failed then three_seconds else two_seconds) in
      outcome_test Next cr.deleting _ _ s (λ gone. cc (gone, live))
        (λ _.
          outcome_test Next (cr.status.phase == pool_failed) _ _ s (λ failed. rw failed refl)
            (λ other. rw other (
              pods_reconciled-requeues cr _ _ _ (
                reconcile_pool-IsQuiet quantities repo host translator tenants quiet
                  (cr_to_pool_model cr) s.world))))

  -- Let no translation of a pod fail for a cancelled context. If `Reconcile`, with the recorder of events that
  -- the program gives it, reads a pool that is valid and not deleted, it returns no error and asks to be
  -- called again, after three seconds if the pool has failed and after two if not, whatever other call fails.
  pub sync_pool_cr-requeues :
      (ns name : String) (s : Observed V W) (cr : PoolCr)
      → (pools.get ns name s.world).0 ≡ ok cr
      → validate (cr_to_pool_model cr) ≡ none
      → cr.deleting ≡ false
      → (sync_pool_cr pools retry quantities repo host translator tenants counters
          (some events)
          ns
          name
          s).0
        ≡ ok (if cr.status.phase == pool_failed then three_seconds else two_seconds)
  unfolding sync_pool_cr aside
  sync_pool_cr-requeues ns name s cr got valid live =
      let Next : Result ℕ × Observed V W → Type 0 =
        λ (r, t). r ≡ ok (if cr.status.phase == pool_failed then three_seconds else two_seconds) in
      outcome_attempt Next _ _ _ s
        (λ read found.
          let same : cr ≡ read = cc (got, found) in
          subst
            (λ c. Next (
              sync_validated pools retry quantities repo host translator tenants counters
                (some events) c (validate (cr_to_pool_model c))
                (record s { world = (pools.get ns name s.world).1 })))
            same (sync_validated-requeues cr _ _ valid live))
        (λ e bad. cc (got, bad))
