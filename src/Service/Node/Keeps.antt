-- ===== src/Service/Node/Keeps.antt =====
-- What the operations on the life of a node keep: whatever the calls of their ports keep.
use vnode.Base.{String}
use vnode.Base.Errors.{Error}
use vnode.Base.Exec.Keeps.{Keeps, keeps_rules}
use vnode.Model.Pool.{VNodePool, TenantRef}
use vnode.Model.Node.{VNode}
use vnode.Ports.{NodeRepository, NodeRegistrar}
use vnode.Service.Node.{
  confirm_node, registration_failed, save_node, provision, deprovision, save_ready, retry_failed,
  sync_failed, update_status, node_lifecycle,
}
use vnode.Service.Pool.Keeps.{LifecycleKeeps}

-- Each call of a repository of nodes that the service makes, and each of a registrar.
pub record RepositoryKeeps {S : Type 0} (Inv : S → Type 0) (repo : NodeRepository S) : Type 0 where
  pub save : (n : VNode) → Keeps Inv (repo.save n)
  pub delete : (ns name : String) → Keeps Inv (repo.delete ns name)
  pub list_by_pool : (ns name : String) → Keeps Inv (repo.list_by_pool ns name)

pub record RegistrarKeeps {S : Type 0} (Inv : S → Type 0) (registrar : NodeRegistrar S)
    : Type 0 where
  pub register : (n : VNode) (t : TenantRef) → Keeps Inv (registrar.register n t)
  pub deregister : (n : VNode) (t : TenantRef) → Keeps Inv (registrar.deregister n t)
  pub update_node_status :
      (n : VNode) (t : TenantRef) → Keeps Inv (registrar.update_node_status n t)

module _ {S : Type 0} {Inv : S → Type 0} {repo : NodeRepository S} {registrar : NodeRegistrar S}
    (r : RepositoryKeeps Inv repo) (g : RegistrarKeeps Inv registrar) where
  saving : (n : VNode) → Keeps Inv (repo.save n)
  saving = r.save

  deleting : (ns name : String) → Keeps Inv (repo.delete ns name)
  deleting = r.delete

  listing : (ns name : String) → Keeps Inv (repo.list_by_pool ns name)
  listing = r.list_by_pool

  registering : (n : VNode) (t : TenantRef) → Keeps Inv (registrar.register n t)
  registering = g.register

  deregistering : (n : VNode) (t : TenantRef) → Keeps Inv (registrar.deregister n t)
  deregistering = g.deregister

  syncing : (n : VNode) (t : TenantRef) → Keeps Inv (registrar.update_node_status n t)
  syncing = g.update_node_status

  ruleset node_rules = (keeps_rules, saving, deleting, listing, registering, deregistering, syncing)

  registration_failed-Keeps :
      (n : VNode) (e : Error) → Keeps Inv (registration_failed repo registrar n e)
  unfolding registration_failed
  registration_failed-Keeps n e = search node_rules

  confirm_node-Keeps : (n : VNode) → Keeps Inv (confirm_node repo registrar n)
  unfolding confirm_node
  confirm_node-Keeps n = search node_rules

  save_node-Keeps : (pool : VNodePool) (n : VNode) → Keeps Inv (save_node repo registrar pool n)
  unfolding save_node
  save_node-Keeps pool n = search (node_rules, registration_failed-Keeps, confirm_node-Keeps)

  provision-Keeps : (pool : VNodePool) → Keeps Inv (provision repo registrar pool)
  unfolding provision
  provision-Keeps pool = search (node_rules, save_node-Keeps)

  deprovision-Keeps : (n : VNode) → Keeps Inv (deprovision repo registrar n)
  unfolding deprovision
  deprovision-Keeps n = search node_rules

  save_ready-Keeps : (n : VNode) → Keeps Inv (save_ready repo registrar n)
  unfolding save_ready
  save_ready-Keeps n = search node_rules

  retry_failed-Keeps : (n : VNode) (e : Error) → Keeps Inv (retry_failed repo registrar n e)
  unfolding retry_failed
  retry_failed-Keeps n e = search node_rules

  sync_failed-Keeps : (n : VNode) (e : Error) → Keeps Inv (sync_failed repo registrar n e)
  unfolding sync_failed
  sync_failed-Keeps n e = search node_rules

  update_status-Keeps : (n : VNode) → Keeps Inv (update_status repo registrar n)
  unfolding update_status
  update_status-Keeps n =
      search (node_rules, save_ready-Keeps, retry_failed-Keeps, sync_failed-Keeps) depth 12

  -- What each call keeps that the node service makes, its operations keep, wherever they stop.
  pub node_lifecycle-LifecycleKeeps : LifecycleKeeps Inv (node_lifecycle repo registrar)
  node_lifecycle-LifecycleKeeps = record {
    provision = provision-Keeps;
    deprovision = deprovision-Keeps;
    update_status = update_status-Keeps;
  }
