-- ===== src/Adapter/Registrar/Host.antt =====
-- The registrar writes to the clusters of tenants, and leaves the host cluster alone.
use vnode.Base.{String, ℕ}
use vnode.Base.Errors.{Result}
use vnode.Base.Exec.{Call, Action}
use vnode.Base.Exec.Keeps.{Keeps, Keeps-answer, Keeps-test, Keeps-bind}
use vnode.Model.Node.{VNode}
use vnode.Model.Pool.{TenantRef}
use vnode.Kube.{Quantities, Clientset}
use vnode.Ports.{KubeconfigResolver}
use vnode.Ports.Laws.{Seen, View, SameView, Leaves, Keeps-Leaves, RegistrarLaws}
use vnode.Api.Retry.{Retries}
use vnode.Adapter.TenantClients.{TenantWorld}
use vnode.Adapter.TenantClients.Host.{on_host, on_world-Keeps, get_client-Keeps}
use vnode.Adapter.Registrar.{update_node_status, register, deregister, registrar}
use vnode.Adapter.Registrar.Cluster.{
  Elsewhere, ensure_lease_namespace-Keeps, upsert_node-Keeps, sync_node-Keeps, remove_node-Keeps,
}

module _ {A Q C W Config : Type 0} (quantities : Quantities Q) (version : String) (now : Call W ℕ)
    {retry : Action W → Action W} (retries : Retries retry) (find : Seen A W)
    (clock : Leaves find now) (api : C → Clientset Q W)
    (elsewhere : (c : C) → Elsewhere find (api c)) (resolver : KubeconfigResolver W)
    (resolving : (ns name : String) → Leaves find (resolver.resolve ns name))
    (rest_config : String → Result Config) (factory : Config → Result C) where
  module _ (s : TenantWorld C W) where
    abbrev SameHost : TenantWorld C W → Type 0
    SameHost = SameView (on_host find) s

    update_node_status-Keeps :
        (node : VNode) (tenant : TenantRef)
        → Keeps SameHost (
            update_node_status quantities version now retry api resolver rest_config factory node
              tenant)
    unfolding update_node_status
    update_node_status-Keeps node tenant = Keeps-test _ _ _ (Keeps-answer _) (
        Keeps-bind _ _
          (λ c. on_world-Keeps _ (
            sync_node-Keeps quantities version now retries find clock (api c) (elsewhere c) s.world
              node))
          (get_client-Keeps find resolver resolving rest_config factory s tenant))

    register-Keeps :
        (node : VNode) (tenant : TenantRef)
        → Keeps SameHost
            (register quantities version now retry api resolver rest_config factory node tenant)
    unfolding register
    register-Keeps node tenant =
        Keeps-bind _ _
          (λ c.
            Keeps-bind _ _
              (λ u.
                Keeps-bind _ _ (λ v. update_node_status-Keeps node tenant)
                  (on_world-Keeps _ (
                    upsert_node-Keeps quantities version now retries find clock (api c)
                      (elsewhere c) s.world node)))
              (on_world-Keeps _ (
                ensure_lease_namespace-Keeps quantities version now retries find clock (api c)
                  (elsewhere c) s.world)))
          (get_client-Keeps find resolver resolving rest_config factory s tenant)

    deregister-Keeps :
        (node : VNode) (tenant : TenantRef)
        → Keeps SameHost
            (deregister quantities version now retry api resolver rest_config factory node tenant)
    unfolding deregister
    deregister-Keeps node tenant = Keeps-test _ _ _ (Keeps-answer _) (
        Keeps-bind _ _
          (λ c. on_world-Keeps _ (
            remove_node-Keeps quantities version now retries find clock (api c) (elsewhere c)
              s.world node))
          (get_client-Keeps find resolver resolving rest_config factory s tenant))

  -- Whatever is seen of the host, the registrar leaves it.
  pub registrar-Leaves :
      let made = registrar quantities version now retry api resolver rest_config factory in
      ((n : VNode) (t : TenantRef) → Leaves (on_host find) (made.register n t))
      × ((n : VNode) (t : TenantRef) → Leaves (on_host find) (made.deregister n t))
      × ((n : VNode) (t : TenantRef) → Leaves (on_host find) (made.update_node_status n t))
  unfolding registrar
  registrar-Leaves = (
    λ n t. Keeps-Leaves _ (λ s. register-Keeps s n t),
    λ n t. Keeps-Leaves _ (λ s. deregister-Keeps s n t),
    λ n t. Keeps-Leaves _ (λ s. update_node_status-Keeps s n t),
  )

module _ {Q C W Config : Type 0} (quantities : Quantities Q) (version : String) (now : Call W ℕ)
    {retry : Action W → Action W} (retries : Retries retry) (find : View W)
    (clock : Leaves find now) (api : C → Clientset Q W)
    (elsewhere : (c : C) → Elsewhere find (api c)) (resolver : KubeconfigResolver W)
    (resolving : (ns name : String) → Leaves find (resolver.resolve ns name))
    (rest_config : String → Result Config) (factory : Config → Result C) where
  -- Let the calls on the clusters of tenants, the clock and the resolver change nothing of what is found
  -- in the host cluster. Then the registrar keeps the contract that the services rely on: its
  -- operations change nothing of what is found there.
  pub registrar-RegistrarLaws :
      RegistrarLaws
        (registrar quantities version now retry api resolver rest_config factory)
        (on_host find)
  registrar-RegistrarLaws =
      let (registers, deregisters, updates) =
        registrar-Leaves quantities version now retries find clock api elsewhere resolver resolving
          rest_config factory in
      record { register_keeps = registers; deregister_keeps = deregisters; update_keeps = updates }
