-- ===== src/Adapter/Registrar/Cluster.antt =====
-- The calls of the registrar on the cluster of one tenant leave the host cluster alone.
use vnode.Base.{String, ℕ}
use vnode.Base.Exec.{Call, Action}
use vnode.Base.Exec.Keeps.{
  Keeps, Keeps-answer, Keeps-test, Keeps-attempt, Keeps-bind, Keeps-wrapping, keeps_rules,
}
use vnode.Model.Node.{VNode}
use vnode.Kube.{Quantities, CoreNode, Lease, Clientset}
use vnode.Ports.Laws.{Seen, SameView, Leaves, Leaves-Keeps}
use vnode.Api.Retry.{Retries, retry-Keeps}
use vnode.Adapter.Registrar.{
  with_node_status, ensure_lease_namespace, upsert_node, write_node_status, upsert_lease_at,
  upsert_lease, sync_node, delete_found, remove_node,
}

-- The calls of a clientset on namespaces, nodes and leases are made on the cluster of a tenant, and change
-- nothing of what is found in the host cluster.
pub record Elsewhere {A Q W : Type 0} (find : Seen A W) (c : Clientset Q W) : Type 0 where
  pub get_namespace : (name : String) → Leaves find (c.get_namespace name)
  pub create_namespace : (name : String) → Leaves find (c.create_namespace name)
  pub get_lease : (ns name : String) → Leaves find (c.get_lease ns name)
  pub create_lease : (lease : Lease) → Leaves find (c.create_lease lease)
  pub update_lease : (ns : String) (lease : Lease) → Leaves find (c.update_lease ns lease)
  pub delete_lease : (ns name : String) → Leaves find (c.delete_lease ns name)
  pub get_node : (name : String) → Leaves find (c.get_node name)
  pub create_node : (node : CoreNode Q) → Leaves find (c.create_node node)
  pub update_node : (node : CoreNode Q) → Leaves find (c.update_node node)
  pub update_node_status : (node : CoreNode Q) → Leaves find (c.update_node_status node)
  pub delete_node : (name : String) → Leaves find (c.delete_node name)

-- The calls on one tenant's cluster.
module _ {A Q W : Type 0} (quantities : Quantities Q) (version : String) (now : Call W ℕ)
    {retry : Action W → Action W} (retries : Retries retry) (find : Seen A W)
    (clock : Leaves find now) (c : Clientset Q W) (elsewhere : Elsewhere find c) (s : W) where
  abbrev Same : W → Type 0
  Same = SameView find s

  pub ensure_lease_namespace-Keeps :
      Keeps Same (ensure_lease_namespace quantities version now retry c)
  unfolding ensure_lease_namespace
  ensure_lease_namespace-Keeps =
      Keeps-attempt _ _ _
        (λ e.
          Keeps-test _ _ _
            (Keeps-attempt _ _ _ (λ f. search keeps_rules) (λ u. Keeps-answer _)
              (Leaves-Keeps _ (elsewhere.create_namespace _)))
            (Keeps-answer _))
        (λ u. Keeps-answer _) (Leaves-Keeps _ (elsewhere.get_namespace _))

  pub upsert_node-Keeps :
      (node : VNode) → Keeps Same (upsert_node quantities version now retry c node)
  unfolding upsert_node
  upsert_node-Keeps node =
      Keeps-attempt _ _ _
        (λ e.
          Keeps-test _ _ _ (Keeps-wrapping _ _ (Leaves-Keeps _ (elsewhere.create_node _)))
            (Keeps-answer _))
        (λ current. Keeps-wrapping _ _ (Leaves-Keeps _ (elsewhere.update_node _)))
        (Leaves-Keeps _ (elsewhere.get_node _))

  -- A call that first reads the clock.
  at_now-Keeps :
      {X : Type 0} (m : ℕ → Call W X)
      → ((t : ℕ) → Keeps Same (m t))
      → Keeps Same (λ w. let (t, w') = now w in m t w')
  at_now-Keeps m k = record {
    at = λ w h. (k (now w).0).at (now w).1 ((Leaves-Keeps now clock).at w h);
  }

  write_node_status-Keeps :
      (node : VNode) → Keeps Same (write_node_status quantities version now retry c node)
  unfolding write_node_status
  write_node_status-Keeps node =
      Keeps-bind _ _
        (λ current.
          at_now-Keeps
            (λ t. c.update_node_status (with_node_status quantities version t current node))
            (λ t. Leaves-Keeps _ (elsewhere.update_node_status _)))
        (Keeps-wrapping _ _ (Leaves-Keeps _ (elsewhere.get_node _)))

  upsert_lease_at-Keeps :
      (name : String) (t : ℕ) → Keeps Same (upsert_lease_at quantities version now retry c name t)
  unfolding upsert_lease_at
  upsert_lease_at-Keeps name t =
      Keeps-attempt _ _ _
        (λ e.
          Keeps-test _ _ _ (Keeps-wrapping _ _ (Leaves-Keeps _ (elsewhere.create_lease _)))
            (Keeps-answer _))
        (λ current. Keeps-wrapping _ _ (Leaves-Keeps _ (elsewhere.update_lease _ _)))
        (Leaves-Keeps _ (elsewhere.get_lease _ _))

  upsert_lease-Keeps :
      (name : String) → Keeps Same (upsert_lease quantities version now retry c name)
  unfolding upsert_lease
  upsert_lease-Keeps name =
      at_now-Keeps (upsert_lease_at quantities version now retry c name)
        (upsert_lease_at-Keeps name)

  pub sync_node-Keeps : (node : VNode) → Keeps Same (sync_node quantities version now retry c node)
  unfolding sync_node
  sync_node-Keeps node =
      Keeps-bind _ _ (λ u. upsert_lease-Keeps node.name)
        (Keeps-wrapping _ _ (retry-Keeps retries _ (write_node_status-Keeps node)))

  delete_found-Keeps :
      (deletion : Action W) (text : String)
      → Keeps Same deletion
      → Keeps Same (delete_found quantities version now retry c deletion text)
  unfolding delete_found
  delete_found-Keeps deletion text k =
      Keeps-attempt _ _ _ (λ e. search keeps_rules) (λ u. Keeps-answer _) k

  pub remove_node-Keeps :
      (node : VNode) → Keeps Same (remove_node quantities version now retry c node)
  unfolding remove_node
  remove_node-Keeps node =
      Keeps-bind _ _ (λ u. delete_found-Keeps _ _ (Leaves-Keeps _ (elsewhere.delete_node _)))
        (delete_found-Keeps _ _ (Leaves-Keeps _ (elsewhere.delete_lease _ _)))
