-- ===== src/Examples/Nodes.antt =====
-- The node service over the repository in memory.
use vnode.Base.{◌≡◌, refl, true, false, none, [], ◌∷◌}
use vnode.Base.Errors.{ok}
use vnode.Base.Exec.{attempt, ◌>>=◌}
use vnode.Model.Node.{VNode}
use vnode.Service.Node.{
  new_node, node_name, provision, save_node, confirm_node, deprovision, update_status,
}
use vnode.Service.NodeMarks.{mark_ready, mark_registration_failed}
use vnode.Service.Node.Coherence.{
  AllCoherent, provisions, deprovisions, here, next, NodeReach-AllCoherent,
}
use vnode.Service.Node.Lifecycle.{
  IsProvisioned, provision-IsProvisioned, deprovision_gone, NoNewKey, provision_name_taken,
}
use vnode.Service.Node.Status.{OnlyRewritten, update_status-OnlyRewritten}
use vnode.Examples.Memory.{
  World, find, repository, registrar, unreachable, repository-lawful, registrar-lawful,
}
use vnode.Examples.Pools.{pool_of}

abbrev empty : World
empty = record { nodes = []; reachable = true }

abbrev first : VNode
first = mark_ready (new_node (pool_of 1) 0)

-- A world with the node `vnode-p-1`, and one where the cluster of the tenant cannot be reached.
abbrev one : World
one = record { nodes = first ∷ []; reachable = true }

abbrev broken : VNode
broken = mark_registration_failed first unreachable

abbrev cut_off : World
cut_off = record { nodes = broken ∷ []; reachable = false }

name_of_tenth : node_name (pool_of 1) 10 ≡ "vnode-p-10"
unfolding node_name
name_of_tenth = refl

AllCoherent-empty : AllCoherent find empty
AllCoherent-empty = record { at = λ ns name n h. cc }

abbrev provisioned : World
provisioned = (provision repository registrar (pool_of 1) empty).1

NodeReach-AllCoherent_example :
    AllCoherent find (deprovision repository registrar first provisioned).1
NodeReach-AllCoherent_example =
    NodeReach-AllCoherent repository-lawful registrar-lawful AllCoherent-empty
      (next (next here (provisions (pool_of 1) refl)) (deprovisions first refl))

provision-IsProvisioned_example :
    IsProvisioned find
      (pool_of 1)
      (provision repository registrar (pool_of 1) empty).0.value
      provisioned
unfolding provision save_node confirm_node attempt ◌>>=◌
provision-IsProvisioned_example =
    provision-IsProvisioned registrar repository-lawful (pool_of 1) empty refl

deprovision_gone_example :
    ((deprovision repository registrar broken cut_off).0 ≡ ok tt)
    × (find (deprovision repository registrar broken cut_off).1 broken.namespace broken.name ≡ none)
deprovision_gone_example = deprovision_gone registrar repository-lawful broken cut_off refl refl

-- The pool lists no node, and a node of another pool has the next name.
abbrev foreign : World
foreign = record { nodes = record first { pool_name = "q" } ∷ []; reachable = true }

provision_name_taken_example :
    NoNewKey find foreign (provision repository registrar (pool_of 1) foreign).1
unfolding node_name new_node
provision_name_taken_example =
    provision_name_taken repository-lawful registrar-lawful foreign (pool_of 1) [] refl (λ e. cc e)

update_status-OnlyRewritten_example :
    OnlyRewritten find first one (update_status repository registrar first one).1
update_status-OnlyRewritten_example =
    update_status-OnlyRewritten repository-lawful registrar-lawful first one
