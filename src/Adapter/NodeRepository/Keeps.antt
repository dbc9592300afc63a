-- ===== src/Adapter/NodeRepository/Keeps.antt =====
-- What the repository of nodes keeps: whatever the calls on their resources keep.
use vnode.Base.{String}
use vnode.Base.Exec.{Action}
use vnode.Base.Exec.Keeps.{Keeps, keeps_rules}
use vnode.Base.Map.{Map}
use vnode.Model.Node.{VNode}
use vnode.Service.Node.Keeps.{RepositoryKeeps}
use vnode.Api.{VNodeCr, VNodeApi}
use vnode.Api.Retry.{Retries, retry-Keeps}
use vnode.Adapter.NodeRepository.{
  write_status, update_node_cr, write_annotations, create_node, save_existing, save, delete_cr,
  list_by_pool, node_repository,
}

-- Each call on the resources keeps the invariant.
pub record VNodeCallsKeep {S : Type 0} (Inv : S → Type 0) (api : VNodeApi S) : Type 0 where
  pub get : (ns name : String) → Keeps Inv (api.get ns name)
  pub create : (cr : VNodeCr) → Keeps Inv (api.create cr)
  pub update : (cr : VNodeCr) → Keeps Inv (api.update cr)
  pub update_status : (cr : VNodeCr) → Keeps Inv (api.update_status cr)
  pub delete : (ns name : String) → Keeps Inv (api.delete ns name)
  pub list : (ns : String) (labels : Map String) → Keeps Inv (api.list ns labels)

module _ {S : Type 0} {Inv : S → Type 0} {api : VNodeApi S} (k : VNodeCallsKeep Inv api)
    {retry : Action S → Action S} (retries : Retries retry) where
  getting : (ns name : String) → Keeps Inv (api.get ns name)
  getting = k.get

  creating : (cr : VNodeCr) → Keeps Inv (api.create cr)
  creating = k.create

  updating : (cr : VNodeCr) → Keeps Inv (api.update cr)
  updating = k.update

  restating : (cr : VNodeCr) → Keeps Inv (api.update_status cr)
  restating = k.update_status

  listing : (ns : String) (labels : Map String) → Keeps Inv (api.list ns labels)
  listing = k.list

  ruleset resource_rules = (keeps_rules, getting, creating, updating, restating, listing)

  update_node_cr-Keeps : (n : VNode) → Keeps Inv (update_node_cr api retry n)
  unfolding update_node_cr write_status
  update_node_cr-Keeps n = retry-Keeps retries _ (search resource_rules)

  annotating : (n : VNode) → Keeps Inv (retry (write_annotations api retry n))
  unfolding write_annotations
  annotating n = retry-Keeps retries _ (search resource_rules)

  create_node-Keeps : (n : VNode) → Keeps Inv (create_node api retry n)
  unfolding create_node
  create_node-Keeps n = search (resource_rules, update_node_cr-Keeps)

  save_existing-Keeps : (n : VNode) → Keeps Inv (save_existing api retry n)
  unfolding save_existing
  save_existing-Keeps n = search (resource_rules, update_node_cr-Keeps, annotating)

  save-Keeps : (n : VNode) → Keeps Inv (save api retry n)
  unfolding save
  save-Keeps n = search (resource_rules, create_node-Keeps, save_existing-Keeps)

  list_by_pool-Keeps : (ns name : String) → Keeps Inv (list_by_pool api retry ns name)
  unfolding list_by_pool
  list_by_pool-Keeps ns name = search resource_rules

  -- What each call on the resources keeps, the repository keeps, wherever it stops.
  pub node_repository-RepositoryKeeps : RepositoryKeeps Inv (node_repository api retry)
  unfolding node_repository delete_cr
  node_repository-RepositoryKeeps = record {
    save = save-Keeps;
    delete = k.delete;
    list_by_pool = list_by_pool-Keeps;
  }
