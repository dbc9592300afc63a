-- ===== src/Service/Node.antt =====
-- internal/domain/service/node_service.go: the life of a virtual node. Log lines are not modelled.
pub mod Coherence
pub mod Keeps
pub mod Lifecycle
pub mod Status
use vnode.Base.{
  ℕ, suc, ◌+◌, String, ◌<>◌, Bool, true, false, not, ◌&&◌, ◌||◌, none, some, List, [], ◌∷◌, length,
  ◌==◌, if◌then◌else◌,
}
use vnode.Base.Decimal.{show_ℕ}
use vnode.Base.Errors.{Error, wrap, message}
use vnode.Base.Exec.{
  Call, Exec, Action, Reply, answer, pure, raise, wrapping, attempt, unless_context, dropping_error,
  ◌>>=◌, ◌>>◌,
}
use vnode.Model.Resource.{no_resources}
use vnode.Model.Pool.{VNodePool, TenantRef}
use vnode.Model.Node.{
  VNode, NodeCondition, node_pending, node_ready, node_not_ready, node_terminating,
  condition_registered, condition_ready, condition_kubeconfig, condition_lease, condition_degraded,
  is_ready,
}
use vnode.Ports.{NodeRepository, NodeRegistrar, NodeLifecycle}
use vnode.Service.NodeMarks.{
  should_retry_registration, has_registered_condition, mark_ready, mark_registration_failed,
  mark_sync_failed, mark_terminating, no_node,
}

-- `vnode-{displayName}-{index}`
unfoldable pub node_name : VNodePool → ℕ → String
unfolding show_ℕ
node_name pool index =
    "vnode-"
    <> ((if pool.display_name == "" then pool.name else pool.display_name) <> ("-" <> show_ℕ index))

-- The pending node that `Provision` saves first.
unfoldable pub new_node : VNodePool → ℕ → VNode
new_node pool existing = record {
  id = "";
  name = node_name pool (existing + 1);
  namespace = pool.namespace;
  pool_name = pool.name;
  tenant_ref = pool.tenant_ref;
  taints = pool.taints;
  phase = node_pending;
  capacity = pool.per_node_resources;
  allocatable = pool.per_node_resources;
  conditions =
      record {
        type = condition_ready;
        status = false;
        reason = "Registering";
        message = "Waiting for tenant cluster node registration";
      }
      ∷ [];
}

abbrev pub failing : VNode → Error → Reply VNode
failing n e = record { value = n; error = some e }

abbrev pub is_nil {ℓ} : {A : Type ℓ} → List A → Bool
is_nil [] = true
is_nil (x ∷ xs) = false

module _ {S : Type 0} (repo : NodeRepository S) (registrar : NodeRegistrar S) where
  -- The last part of `Provision`, where the node has been registered.
  unfoldable pub confirm_node : VNode → Call S (Reply VNode)
  confirm_node node =
      let ready = mark_ready node in
      attempt (repo.save ready)
        (λ e. answer (failing ready (wrap ("updating node " <> (node.name <> " status")) e)))
        (λ _. answer (record { value = ready; error = none }))

  -- The error of saving the failed node is dropped.
  unfoldable pub registration_failed : VNode → Error → Call S (Reply VNode)
  registration_failed node e =
      let failed = mark_registration_failed node e in
      let result = failing failed (wrap ("registering node " <> (node.name <> " in vcluster")) e) in
      attempt (repo.save failed) (λ _. answer result) (λ _. answer result)

  -- The part of `Provision` after the number of nodes is known.
  unfoldable pub save_node : VNodePool → VNode → Call S (Reply VNode)
  save_node pool node =
      attempt (repo.save node)
        (λ e. answer (failing no_node (wrap ("saving node " <> node.name) e)))
        (λ _.
          attempt (registrar.register node pool.tenant_ref) (λ e. registration_failed node e)
            (λ _. confirm_node node))

  unfoldable pub provision : VNodePool → Call S (Reply VNode)
  provision pool =
      attempt (repo.list_by_pool pool.namespace pool.name)
        (λ e. answer (failing no_node (wrap "listing existing nodes" e)))
        (λ existing. save_node pool (new_node pool (length existing)))

  -- The node is deleted whether or not it could be deregistered.
  unfoldable pub deprovision : VNode → Action S
  deprovision n = do
    let node = mark_terminating n
    wrapping ("marking node " <> (node.name <> " as terminating")) (repo.save node)
    dropping_error (registrar.deregister node node.tenant_ref)
    wrapping ("deleting node " <> node.name) (repo.delete node.namespace node.name)

  unfoldable pub save_ready : VNode → Action S
  save_ready n = attempt (repo.save (mark_ready n)) (λ e. unless_context e (raise e)) pure

  -- The branch of `UpdateStatus` where a node is registered once more, and fails.
  unfoldable pub retry_failed : VNode → Error → Action S
  retry_failed n e =
      if not (n.phase == node_not_ready) || not (has_registered_condition n.conditions)
      then attempt (repo.save (mark_registration_failed n e))
          (λ f. unless_context f (
            raise (
              wrap ("updating node " <> (n.name <> " status after registration retry failure")) f)))
          (λ _. raise (wrap ("retrying tenant node registration for " <> n.name) e))
      else raise (wrap ("retrying tenant node registration for " <> n.name) e)

  unfoldable pub sync_failed : VNode → Error → Action S
  sync_failed n e =
      attempt (repo.save (mark_sync_failed n e))
        (λ f.
          unless_context f
            (raise (wrap ("updating node " <> (n.name <> " status after sync failure")) f)))
        (λ _. raise (wrap ("syncing tenant node status for " <> n.name) e))

  unfoldable pub update_status : VNode → Action S
  update_status n =
      if (n.phase == "") && is_nil n.conditions
      then pure tt
      else if should_retry_registration n
      then attempt (registrar.register n n.tenant_ref) (λ e. unless_context e (retry_failed n e))
          (λ _. save_ready n)
      else attempt (registrar.update_node_status n n.tenant_ref)
          (λ e. unless_context e (sync_failed n e))
          (λ _. if (n.phase == node_ready) && is_ready n then pure tt else save_ready n)

  abbrev pub node_lifecycle : NodeLifecycle S
  node_lifecycle = record {
    provision = provision;
    deprovision = deprovision;
    update_status = update_status;
  }
