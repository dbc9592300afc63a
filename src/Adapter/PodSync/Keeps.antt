-- ===== src/Adapter/PodSync/Keeps.antt =====
-- What a reconciliation of the pods of a pool keeps: whatever its calls keep.
use vnode.Base.{ℕ, String, Option, none, some, ◌≡◌, ◌==◌}
use vnode.Base.Errors.{Error, ok, is_not_found}
use vnode.Base.Exec.{Call, Action, answer}
use vnode.Base.Exec.Keeps.{Keeps, keeps_rules, Keeps-attempt, Keeps-test, Keeps-answer}
use vnode.Observability.{CounterLib, Observed, aside, count}
use vnode.Model.Pool.{TenantRef, validate, pool_failed}
use vnode.Kube.{Quantities, Clientset, TenantClients}
use vnode.Ports.{NodeRepository, ClusterClient, PodTranslator}
use vnode.Service.Execution.Host.Keeps.{HostKeeps, TenantKeeps, cleanup_pool_pods-Keeps}
use vnode.Service.Execution.Sync.{PodExecutionResult}
use vnode.Service.Execution.Sync.Keeps.{TranslatorKeeps, reconcile_pool-Keeps}
use vnode.Api.{PoolCr, PoolApi}
use vnode.Api.Retry.{Retries, retry-Keeps}
use vnode.Adapter.PoolReconciler.{cr_to_pool_model}
use vnode.Adapter.PodSync.{
  Recorder, write_execution_conditions, update_execution_conditions, normal_event, record_warning,
  pods_cleaned, pods_reconciled, sync_validated, sync_pool_cr,
}

-- An invariant of the world, of the world with the counters.
pub record Aside {V W : Type 0} (Inv : W → Type 0) (s : Observed V W) : Type 0 where
  pub holds : Inv s.world

-- Each call that a reconciliation of the pods of a pool makes keeps the invariant.
pub record SyncCallsKeep {Q W : Type 0} (Inv : W → Type 0) (pools : PoolApi W)
    (repo : NodeRepository W) (host : ClusterClient W) (translator : PodTranslator W)
    (tenants : TenantClients Q W) (events : Recorder W) : Type 0 where
  pub get : (ns name : String) → Keeps Inv (pools.get ns name)
  pub patch_status : (base cr : PoolCr) → Keeps Inv (pools.patch_status base cr)
  pub list_by_pool : (ns name : String) → Keeps Inv (repo.list_by_pool ns name)
  pub on_host : HostKeeps Inv host
  pub translating : TranslatorKeeps Inv translator
  pub client : (ref : TenantRef) → Keeps Inv (tenants.get ref)
  pub on_tenant :
      (ref : TenantRef) (s : W) (c : Clientset Q W)
      → (tenants.get ref s).0 ≡ ok c
      → TenantKeeps Inv c
  pub eventf :
      (cr : PoolCr) (type reason action note : String)
      → Keeps Inv (events.eventf cr type reason action note)

module _ {V W : Type 0} {Inv : W → Type 0} where
  pub Keeps-aside : {X : Type 0} (m : Call W X) → Keeps Inv m → Keeps (Aside {V = V} Inv) (aside m)
  unfolding aside
  Keeps-aside m k = record { at = λ s h. record { holds = k.at s.world h.holds } }

  Keeps-count :
      (lib : CounterLib V) (counter pool : String) (n : ℕ)
      → Keeps (Aside Inv) (count lib counter pool n)
  unfolding count
  Keeps-count lib counter pool n = record { at = λ s h. record { holds = h.holds } }

ruleset aside_rules = (keeps_rules, Keeps-aside, Keeps-count)

module _ {Q V W : Type 0} {Inv : W → Type 0} {pools : PoolApi W} {repo : NodeRepository W}
    {host : ClusterClient W} {translator : PodTranslator W} {tenants : TenantClients Q W}
    {events : Recorder W} (k : SyncCallsKeep Inv pools repo host translator tenants events)
    (quantities : Quantities Q) (counters : CounterLib V) {retry : Action W → Action W}
    (retries : Retries retry) where
  getting : (ns name : String) → Keeps Inv (pools.get ns name)
  getting = k.get

  patching : (base cr : PoolCr) → Keeps Inv (pools.patch_status base cr)
  patching = k.patch_status

  update_execution_conditions-Keeps :
      (ns name ready degraded reason text : String)
      → Keeps Inv (update_execution_conditions pools retry ns name ready degraded reason text)
  unfolding update_execution_conditions write_execution_conditions
  update_execution_conditions-Keeps ns name ready degraded reason text =
      retry-Keeps retries _ (search (keeps_rules, getting, patching))

  record_warning-Keeps :
      (cr : PoolCr) (reason : String) (e : Error)
      → Keeps (Aside {V = V} Inv) (record_warning (some events) cr reason e)
  unfolding record_warning aside answer
  record_warning-Keeps cr reason e = record {
    at = λ s h. record { holds = (k.eventf cr _ _ _ _).at s.world h.holds };
  }

  normal_event-Keeps :
      (cr : PoolCr) (reason action note : String)
      → Keeps (Aside {V = V} Inv) (normal_event (some events) cr reason action note)
  unfolding normal_event aside answer
  normal_event-Keeps cr reason action note = record {
    at = λ s h. record { holds = (k.eventf cr _ _ _ _).at s.world h.holds };
  }

  pods_cleaned-Keeps :
      (cr : PoolCr) (deleted : ℕ) (error : Option Error)
      → Keeps (Aside Inv) (
          pods_cleaned pools retry quantities repo host translator tenants counters
            (some events)
            cr
            deleted
            error)
  unfolding pods_cleaned
  pods_cleaned-Keeps cr deleted (some e) = search (aside_rules, record_warning-Keeps)
  pods_cleaned-Keeps cr deleted none = search (aside_rules, normal_event-Keeps)

  pods_reconciled-Keeps :
      (cr : PoolCr) (result : PodExecutionResult) (error : Option Error)
      → Keeps (Aside Inv) (
          pods_reconciled pools retry quantities repo host translator tenants counters
            (some events)
            cr
            result
            error)
  unfolding pods_reconciled
  pods_reconciled-Keeps cr result (some e) =
      search (aside_rules, record_warning-Keeps, update_execution_conditions-Keeps) depth 9
  pods_reconciled-Keeps cr result none =
      search (aside_rules, normal_event-Keeps, update_execution_conditions-Keeps) depth 9

  sync_validated-Keeps :
      (cr : PoolCr) (invalid : Option Error)
      → Keeps (Aside Inv) (
          sync_validated pools retry quantities repo host translator tenants counters
            (some events)
            cr
            invalid)
  unfolding sync_validated
  sync_validated-Keeps cr (some e) = Keeps-answer _
  sync_validated-Keeps cr none =
      let pool = cr_to_pool_model cr in
      let cleaning = Keeps-aside {V = V} _ (cleanup_pool_pods-Keeps k.on_host pool) in
      let running = Keeps-aside {V = V} _ (
        reconcile_pool-Keeps quantities repo k.on_host k.translating tenants k.list_by_pool k.client
          k.on_tenant pool) in
      Keeps-test cr.deleting _ _
        (record { at = λ s h. (pods_cleaned-Keeps cr _ _).at _ (cleaning.at s h) })
        (Keeps-test (pool.phase == pool_failed) _ _ (Keeps-answer _)
          (record { at = λ s h. (pods_reconciled-Keeps cr _ _).at _ (running.at s h) }))

  -- What each call keeps that a reconciliation of a pool's pods makes, the reconciliation keeps, wherever it
  -- stops.
  pub sync_pool_cr-Keeps :
      (ns name : String)
      → Keeps (Aside Inv) (
          sync_pool_cr pools retry quantities repo host translator tenants counters
            (some events)
            ns
            name)
  unfolding sync_pool_cr
  sync_pool_cr-Keeps ns name =
      Keeps-attempt _ _ _ (λ e. Keeps-test (is_not_found e) _ _ (Keeps-answer _) (Keeps-answer _))
        (λ cr. sync_validated-Keeps cr (validate (cr_to_pool_model cr)))
        (Keeps-aside _ (getting ns name))
