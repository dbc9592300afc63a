-- ===== src/Service/Execution/Sync.antt =====
-- internal/domain/service/execution_service.go: `ReconcilePool`.
pub mod Ends
pub mod Counts
pub mod Selection
pub mod Sweep
pub mod Cleaned
pub mod Exact
pub mod Keeps
use vnode.Base.{
  ℕ, zero, suc, ◌+◌, String, ◌<>◌, Bool, true, false, not, Option, none, some, List, [], ◌∷◌,
  length, is_some, ◌==◌, if◌then◌else◌,
}
use vnode.Base.Errors.{
  Error, Result, ok, err, wrap, is_not_found, is_context_error, is_pod_terminating,
}
use vnode.Base.Exec.{Call, Exec, Action, Reply, answer, pure, attempt, wrapping, ◌>>=◌, ◌>>◌}
use vnode.Base.Map.{Map, lookup, insert, get}
use vnode.Model.Pool.{VNodePool}
use vnode.Model.Node.{VNode, is_ready}
use vnode.Model.Pod.{PodSpec, PodStatus, PodTranslation, label_managed_by, label_managed_by_value}
use vnode.Kube.{Quantities, CorePod, Clientset, TenantClients}
use vnode.Ports.{NodeRepository, ClusterClient, PodTranslator}
use vnode.Service.Execution.Core.{pod_from_core, is_terminal_pod, with_status}
use vnode.Service.Execution.Host.{Ensured, ensure_host_pod, sync_pod_resources, pool_labels, place}

-- The counters are Go's `int`, and none passes the number of pods of a list in memory.
pub record PodExecutionResult : Type 0 where
  pub source_pods : ℕ
  pub created_host_pods : ℕ
  pub deleted_host_pods : ℕ
  pub synced_statuses : ℕ

abbrev pub no_result : PodExecutionResult
no_result = record {
  source_pods = 0;
  created_host_pods = 0;
  deleted_host_pods = 0;
  synced_statuses = 0;
}

abbrev pub count_created : PodExecutionResult → PodExecutionResult
count_created r = record r { created_host_pods = suc r.created_host_pods }

abbrev pub count_deleted : PodExecutionResult → PodExecutionResult
count_deleted r = record r { deleted_host_pods = suc r.deleted_host_pods }

abbrev pub count_synced : PodExecutionResult → PodExecutionResult
count_synced r = record r { synced_statuses = suc r.synced_statuses }

abbrev pub counted_if :
    Bool → (PodExecutionResult → PodExecutionResult) → PodExecutionResult → PodExecutionResult
counted_if b count r = if b then count r else r

abbrev pub key_for_pod : String → String → String
key_for_pod = place

-- The map `ready`, by the names of the nodes.
unfoldable pub ready_nodes : List VNode → Map VNode → Map VNode
ready_nodes [] ready = ready
ready_nodes (n ∷ ns) ready = ready_nodes ns (if is_ready n then insert n.name n ready else ready)

-- The loop of `listTenantPodsForNodes`.
unfoldable pub select_pods : {Q : Type 0} → Map VNode → List (CorePod Q) → List (CorePod Q)
select_pods ready [] = []
select_pods ready (pod ∷ pods) =
    let rest = select_pods ready pods in
    if get label_managed_by pod.labels == label_managed_by_value
    then rest
    else if pod.deleting
    then rest
    else if not (is_some (lookup pod.node_name ready))
    then rest
    else pod ∷ rest

module _ {Q S : Type 0} where
  unfoldable pub list_tenant_pods_for_nodes : Clientset Q S → Map VNode → Exec S (List (CorePod Q))
  unfolding select_pods
  list_tenant_pods_for_nodes clientset [] = pure []
  list_tenant_pods_for_nodes clientset (n ∷ ready) =
      wrapping "listing tenant pods" clientset.list_pods >>= λ items.
      pure (select_pods (n ∷ ready) items)

  unfoldable pub update_tenant_pod_status : Clientset Q S → String → String → PodStatus → Action S
  unfolding with_status
  update_tenant_pod_status clientset ns name status = clientset.get_pod ns name >>= λ current.
      clientset.update_pod_status ns (with_status current status)

abbrev pub Outcome : Type 0 → Type 0
Outcome S = Call S (Reply PodExecutionResult)

-- `if isIgnorableShutdownError(err) { return result, nil }; return result, wrapped`
abbrev pub stop : {S : Type 0} → PodExecutionResult → Error → Error → Outcome S
stop result e wrapped =
    answer (record { value = result; error = if is_context_error e then none else some wrapped })

abbrev pub fail : {S : Type 0} → PodExecutionResult → Error → Outcome S
fail result e = answer (record { value = result; error = some e })

module _ {Q S : Type 0} (quantities : Quantities Q) (clientset : Clientset Q S)
    (host : ClusterClient S) (translator : PodTranslator S) (pool : VNodePool) where
  abbrev at : CorePod Q → String
  at pod = place pod.namespace pod.name

  -- The rounds of the loop over the source pods are cut at the calls; `next` is the rest of the
  -- round, `skip` the next round. The counters are handed on.
  unfoldable pub ensured_step :
      Ensured
      → CorePod Q
      → PodExecutionResult
      → (PodExecutionResult → Outcome S)
      → (PodExecutionResult → Outcome S)
      → Outcome S
  ensured_step r pod result next skip = elim r.error [
    | some e ↦
        if is_pod_terminating e
        then skip (counted_if r.deleted count_deleted result)
        else stop result e (wrap ("ensuring host pod for " <> at pod) e)
    | none ↦ next (counted_if r.deleted count_deleted (counted_if r.created count_created result))
  ]

  unfoldable pub ensure_step :
      PodTranslation
      → CorePod Q
      → PodExecutionResult
      → (PodExecutionResult → Outcome S)
      → (PodExecutionResult → Outcome S)
      → Outcome S
  unfolding ensured_step
  ensure_step t pod result next skip = if is_terminal_pod pod then next result else λ s.
      let (r, s') = ensure_host_pod host t.target_pod s in ensured_step r pod result next skip s'

  unfoldable pub status_step :
      PodTranslation → CorePod Q → PodExecutionResult → (PodExecutionResult → Outcome S) → Outcome S
  status_step t pod result next =
      let target = place t.target_pod.namespace t.target_pod.name in
      attempt (host.get_pod_status t.target_pod.namespace t.target_pod.name)
        (λ e.
          if not (is_not_found e)
          then stop result e (wrap ("getting host pod status for " <> target) e)
          else next result)
        (λ host_status.
          attempt (translator.sync_status host_status)
            (λ e. stop result e (wrap ("syncing host status for " <> at pod) e))
            (λ synced.
              attempt (update_tenant_pod_status clientset pod.namespace pod.name synced)
                (λ e. stop result e (wrap ("updating tenant pod status for " <> at pod) e))
                (λ _. next (count_synced result))))

  unfoldable pub terminal_step :
      PodTranslation → CorePod Q → PodExecutionResult → (PodExecutionResult → Outcome S) → Outcome S
  terminal_step t pod result next =
      if is_terminal_pod pod
      then attempt (host.delete_pod t.target_pod.namespace t.target_pod.name)
          (λ e. stop result e (wrap ("deleting host pod for terminal source pod " <> at pod) e))
          (λ _. next (count_deleted result))
      else next result

  -- A round once the resources of the pod are synced.
  unfoldable pub checked_round :
      PodTranslation → CorePod Q → PodExecutionResult → (PodExecutionResult → Outcome S) → Outcome S
  unfolding ensure_step status_step terminal_step
  checked_round t pod result next_pod =
      ensure_step t pod result (λ r. status_step t pod r (λ r'. terminal_step t pod r' next_pod))
        next_pod

  -- The loop over the host pods that are left.
  unfoldable pub sweep : Map (Unit {0}) → List PodSpec → PodExecutionResult → Outcome S
  sweep desired [] result = answer (record { value = result; error = none })
  sweep desired (p ∷ pods) result =
      if is_some (lookup (key_for_pod p.namespace p.name) desired)
      then sweep desired pods result
      else attempt (host.delete_pod p.namespace p.name)
          (λ e. stop result e (wrap ("deleting orphaned host pod " <> place p.namespace p.name) e))
          (λ _. sweep desired pods (count_deleted result))

  unfoldable pub clean : Map (Unit {0}) → PodExecutionResult → Outcome S
  unfolding sweep
  clean desired result =
      attempt (host.list_pods_by_labels pool.namespace (pool_labels pool))
        (λ e. stop result e (wrap "listing host pods for cleanup" e))
        (λ pods. sweep desired pods result)

  -- What is left of `ReconcilePool` from a round of the loop on.
  unfoldable pub run_pods : List (CorePod Q) → Map (Unit {0}) → PodExecutionResult → Outcome S
  unfolding checked_round clean
  run_pods [] desired result = clean desired result
  run_pods (pod ∷ pods) desired result =
      attempt (translator.translate (pod_from_core quantities pod) pool pod.node_name)
        (λ e. fail result (wrap ("translating pod " <> at pod) e))
        (λ t.
          let key = key_for_pod t.target_pod.namespace t.target_pod.name in
          let next_pod : PodExecutionResult → Outcome S =
            λ r. run_pods pods (insert key tt desired) r in
          attempt (sync_pod_resources host clientset t pool)
            (λ e. stop result e (wrap ("syncing resources for pod " <> at pod) e))
            (λ _. checked_round t pod result next_pod))

module _ {Q S : Type 0} (quantities : Quantities Q) (repo : NodeRepository S)
    (host : ClusterClient S) (translator : PodTranslator S) (tenants : TenantClients Q S) where
  unfoldable pub reconcile_pool : VNodePool → Outcome S
  reconcile_pool pool =
      attempt (tenants.get pool.tenant_ref) (λ e. stop no_result e e)
        (λ clientset.
          attempt (repo.list_by_pool pool.namespace pool.name)
            (λ e. stop no_result e (wrap "listing pool nodes" e))
            (λ nodes.
              attempt (list_tenant_pods_for_nodes clientset (ready_nodes nodes []))
                (λ e. stop no_result e e)
                (λ pods.
                  run_pods quantities clientset host translator pool pods []
                    (record no_result { source_pods = length pods }))))
