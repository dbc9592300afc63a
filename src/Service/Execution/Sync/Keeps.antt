-- ===== src/Service/Execution/Sync/Keeps.antt =====
-- What `ReconcilePool` keeps: whatever each call of its keeps.
use vnode.Base.{String, Option, none, some, List, [], ◌∷◌, ◌≡◌, refl}
use vnode.Base.Errors.{Error, ok, is_pod_terminating}
use vnode.Base.Exec.Keeps.{
  Keeps, Keeps-attempt, Keeps-attempt_known, Keeps-test, Keeps-answer, Keeps-wrapping, Keeps-bind,
}
use vnode.Base.Map.{Map, insert}
use vnode.Model.Pool.{VNodePool, TenantRef}
use vnode.Model.Node.{VNode}
use vnode.Model.Pod.{PodSpec, PodStatus, PodTranslation}
use vnode.Kube.{Quantities, CorePod, Clientset, TenantClients}
use vnode.Ports.{NodeRepository, ClusterClient, PodTranslator}
use vnode.Service.Execution.Core.{is_terminal_pod}
use vnode.Service.Execution.Host.{Ensured, ensure_host_pod}
use vnode.Service.Execution.Host.Keeps.{
  HostKeeps, TenantKeeps, ensure_host_pod-Keeps, sync_pod_resources-Keeps,
}
use vnode.Service.Execution.Sync.{
  PodExecutionResult, Outcome, list_tenant_pods_for_nodes, update_tenant_pod_status, ensured_step,
  ensure_step, status_step, terminal_step, checked_round, sweep, clean, run_pods, reconcile_pool,
  key_for_pod,
}

-- The calls of a translator keep the invariant.
pub record TranslatorKeeps {S : Type 0} (Inv : S → Type 0) (translator : PodTranslator S)
    : Type 0 where
  pub translate :
      (p : PodSpec) (pool : VNodePool) (node : String)
      → Keeps Inv (translator.translate p pool node)
  pub sync_status : (status : PodStatus) → Keeps Inv (translator.sync_status status)

listing :
    {Q S : Type 0} {Inv : S → Type 0} {clientset : Clientset Q S}
    → TenantKeeps Inv clientset
    → (ready : Map VNode) → Keeps Inv (list_tenant_pods_for_nodes clientset ready)
unfolding list_tenant_pods_for_nodes
listing t [] = Keeps-answer _
listing t (n ∷ ready) = Keeps-bind _ _ (λ items. Keeps-answer _) (Keeps-wrapping _ _ t.list_pods)

module _ {Q S : Type 0} {Inv : S → Type 0} (quantities : Quantities Q) {clientset : Clientset Q S}
    (t : TenantKeeps Inv clientset) {host : ClusterClient S} (h : HostKeeps Inv host)
    {translator : PodTranslator S} (tr : TranslatorKeeps Inv translator) (pool : VNodePool) where
  abbrev Kept : Outcome S → Type 0
  Kept = Keeps Inv

  ensured_step-Keeps :
      (r : Ensured) (error : Option Error) (pod : CorePod Q) (result : PodExecutionResult)
      (next skip : PodExecutionResult → Outcome S)
      → r.error ≡ error
      → ((r : PodExecutionResult) → Kept (next r))
      → ((r : PodExecutionResult) → Kept (skip r))
      → Kept (ensured_step quantities clientset host translator pool r pod result next skip)
  unfolding ensured_step
  ensured_step-Keeps r none pod result next skip e n k = rw e (n _)
  ensured_step-Keeps r (some f) pod result next skip e n k =
      rw e (Keeps-test (is_pod_terminating f) _ _ (k _) (Keeps-answer _))

  status_step-Keeps :
      (tl : PodTranslation) (pod : CorePod Q) (result : PodExecutionResult)
      (next : PodExecutionResult → Outcome S)
      → ((r : PodExecutionResult) → Kept (next r))
      → Kept (status_step quantities clientset host translator pool tl pod result next)
  unfolding status_step update_tenant_pod_status
  status_step-Keeps tl pod result next n =
      Keeps-attempt _ _ _ (λ e. Keeps-test _ _ _ (Keeps-answer _) (n result))
        (λ status.
          Keeps-attempt _ _ _ (λ e. Keeps-answer _)
            (λ synced.
              Keeps-attempt _ _ _ (λ e. Keeps-answer _) (λ _. n _)
                (Keeps-bind _ _ (λ current. t.update_pod_status _ _) (t.get_pod _ _)))
            (tr.sync_status status))
        (h.get_pod_status _ _)

  terminal_step-Keeps :
      (tl : PodTranslation) (pod : CorePod Q) (result : PodExecutionResult)
      (next : PodExecutionResult → Outcome S)
      → ((r : PodExecutionResult) → Kept (next r))
      → Kept (terminal_step quantities clientset host translator pool tl pod result next)
  unfolding terminal_step
  terminal_step-Keeps tl pod result next n =
      Keeps-test _ _ _ (Keeps-attempt _ _ _ (λ e. Keeps-answer _) (λ _. n _) (h.delete_pod _ _))
        (n result)

  ensure_step-Keeps :
      (tl : PodTranslation) (pod : CorePod Q) (result : PodExecutionResult)
      (next skip : PodExecutionResult → Outcome S)
      → ((r : PodExecutionResult) → Kept (next r))
      → ((r : PodExecutionResult) → Kept (skip r))
      → Kept (ensure_step quantities clientset host translator pool tl pod result next skip)
  unfolding ensure_step
  ensure_step-Keeps tl pod result next skip n k =
      Keeps-test (is_terminal_pod pod) _ _ (n result) (record {
        at = λ s i.
            let (r, u) = ensure_host_pod host tl.target_pod s in
            (ensured_step-Keeps r r.error pod result next skip refl n k).at u
              ((ensure_host_pod-Keeps h tl.target_pod).at s i);
      })

  sweep-Keeps :
      (desired : Map (Unit {0})) (pods : List PodSpec) (result : PodExecutionResult)
      → Kept (sweep quantities clientset host translator pool desired pods result)
  unfolding sweep
  sweep-Keeps desired [] result = Keeps-answer _
  sweep-Keeps desired (p ∷ pods) result = Keeps-test _ _ _ (sweep-Keeps desired pods result) (
      Keeps-attempt _ _ _ (λ e. Keeps-answer _) (λ _. sweep-Keeps desired pods _)
        (h.delete_pod _ _))

  checked_round-Keeps :
      (tl : PodTranslation) (pod : CorePod Q) (result : PodExecutionResult)
      (next_pod : PodExecutionResult → Outcome S)
      → ((r : PodExecutionResult) → Kept (next_pod r))
      → Kept (checked_round quantities clientset host translator pool tl pod result next_pod)
  unfolding checked_round
  checked_round-Keeps tl pod result next_pod n =
      ensure_step-Keeps tl pod result _ next_pod
        (λ r. status_step-Keeps tl pod r _ (λ r'. terminal_step-Keeps tl pod r' next_pod n)) n

  run_pods-Keeps :
      (pods : List (CorePod Q)) (desired : Map (Unit {0})) (result : PodExecutionResult)
      → Kept (run_pods quantities clientset host translator pool pods desired result)
  unfolding run_pods clean
  run_pods-Keeps [] desired result =
      Keeps-attempt _ _ _ (λ e. Keeps-answer _) (λ pods. sweep-Keeps desired pods result)
        (h.list_pods _ _)
  run_pods-Keeps (pod ∷ pods) desired result =
      Keeps-attempt _ _ _ (λ e. Keeps-answer _)
        (λ tl.
          let key = key_for_pod tl.target_pod.namespace tl.target_pod.name in
          Keeps-attempt _ _ _ (λ e. Keeps-answer _)
            (λ _.
              checked_round-Keeps tl pod result
                (λ r.
                  run_pods quantities clientset host translator pool pods (insert key tt desired) r)
                (run_pods-Keeps pods (insert key tt desired)))
            (sync_pod_resources-Keeps h t tl pool))
        (tr.translate _ _ _)

module _ {Q S : Type 0} {Inv : S → Type 0} (quantities : Quantities Q) (repo : NodeRepository S)
    {host : ClusterClient S} (h : HostKeeps Inv host) {translator : PodTranslator S}
    (tr : TranslatorKeeps Inv translator) (tenants : TenantClients Q S) where
  -- What each call keeps that a round of `ReconcilePool` makes, on the pods of the host, on those of a tenant
  -- with any of the clients that are found, or on the nodes, the round keeps, wherever it stops.
  pub reconcile_pool-Keeps :
      ((ns name : String) → Keeps Inv (repo.list_by_pool ns name))
      → ((ref : TenantRef) → Keeps Inv (tenants.get ref))
      → ((ref : TenantRef) (s : S) (c : Clientset Q S)
          → (tenants.get ref s).0 ≡ ok c
          → TenantKeeps Inv c)
      → (pool : VNodePool) → Keeps Inv (reconcile_pool quantities repo host translator tenants pool)
  unfolding reconcile_pool
  reconcile_pool-Keeps lists gets found pool =
      Keeps-attempt_known (TenantKeeps Inv) _ _ _ (found pool.tenant_ref) (λ e. Keeps-answer _)
        (λ c t.
          Keeps-attempt _ _ _ (λ e. Keeps-answer _)
            (λ nodes.
              Keeps-attempt _ _ _ (λ e. Keeps-answer _)
                (λ pods. run_pods-Keeps quantities t h tr pool pods [] _) (listing t _))
            (lists _ _))
        (gets pool.tenant_ref)
