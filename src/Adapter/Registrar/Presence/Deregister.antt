-- ===== src/Adapter/Registrar/Presence/Deregister.antt =====
-- What the cluster of a tenant no longer holds after `Deregister`.
use vnode.Base.{◌≡◌, ◌≢◌, ◌∙◌, String, ◌<>◌, ℕ, true, ◌==◌, Option, none, some, eq_iff, arith}
use vnode.Base.Errors.{Error, Result, ok, err, is_not_found}
use vnode.Base.Exec.{Call, Action, answer, raise, ◌>>=◌}
use vnode.Base.Exec.Outcome.{outcome_attempt, outcome_test}
use vnode.Base.Map.{lookup}
use vnode.Model.Node.{VNode}
use vnode.Model.Pool.{TenantRef}
use vnode.Kube.{Quantities, CoreNode, Lease, Clientset}
use vnode.Ports.{KubeconfigResolver}
use vnode.Adapter.TenantClients.{TenantWorld, cache_key, on_world, get_client}
use vnode.Adapter.TenantClients.Cache.{get_client_keeps}
use vnode.Adapter.Registrar.{lease_namespace, delete_found, remove_node, deregister}

-- Documented behaviour of the API server of a tenant: what was deleted, or was not found, is not held, and a
-- deletion of a node leaves the leases.
pub record DeletionLaws {Q W : Type 0} (c : Clientset Q W)
    (node_at : W → String → Option (CoreNode Q)) (lease_at : W → String → String → Option Lease)
    : Type 0 where
  pub lease_ok :
      (ns name : String) (w : W)
      → (c.delete_lease ns name w).0 ≡ ok tt
      → lease_at (c.delete_lease ns name w).1 ns name ≡ none
  pub lease_missing :
      (ns name : String) (w : W) (e : Error)
      → (c.delete_lease ns name w).0 ≡ err e
      → is_not_found e ≡ true
      → lease_at (c.delete_lease ns name w).1 ns name ≡ none
  pub node_ok :
      (name : String) (w : W)
      → (c.delete_node name w).0 ≡ ok tt
      → node_at (c.delete_node name w).1 name ≡ none
  pub node_missing :
      (name : String) (w : W) (e : Error)
      → (c.delete_node name w).0 ≡ err e
      → is_not_found e ≡ true
      → node_at (c.delete_node name w).1 name ≡ none
  pub node_keeps :
      (name : String) (w : W) (j k : String)
      → lease_at (c.delete_node name w).1 j k ≡ lease_at w j k

-- The client that is kept for the tenant, whose cluster holds neither the node nor its lease.
pub record IsUnregistered {Q C W : Type 0} (node_at : C → W → String → Option (CoreNode Q))
    (lease_at : C → W → String → String → Option Lease) (node : VNode) (tenant : TenantRef)
    (s : TenantWorld C W) : Type 0 where
  pub client : C
  pub is_kept : lookup (cache_key tenant) s.clients ≡ some client
  pub no_node : node_at client s.world node.name ≡ none
  pub no_lease : lease_at client s.world lease_namespace node.name ≡ none

module _ {Q W : Type 0} (quantities : Quantities Q) (version : String) (now : Call W ℕ)
    (retry : Action W → Action W) (c : Clientset Q W) where
  -- A deletion that is taken for done has succeeded, or has found nothing.
  done_delete_found :
      (P : W → Type 0) (deletion : Action W) (text : String) (w : W)
      → ((deletion w).0 ≡ ok tt → P (deletion w).1)
      → ((e : Error) → (deletion w).0 ≡ err e → is_not_found e ≡ true → P (deletion w).1)
      → (delete_found quantities version now retry c deletion text w).0 ≡ ok tt
      → P (delete_found quantities version now retry c deletion text w).1
  unfolding delete_found answer
  done_delete_found P deletion text w gone missing =
      let Done : Result (Unit {0}) × W → Type 0 = λ (r, t). r ≡ ok tt → P t in
      outcome_attempt Done deletion _ _ w (λ u h _. gone h)
        (λ e bad. outcome_test Done (is_not_found e) _ _ _ (λ h _. missing e bad h) (λ _ h. cc (h)))

  module _ {node_at : W → String → Option (CoreNode Q)}
      {lease_at : W → String → String → Option Lease} (laws : DeletionLaws c node_at lease_at)
      (node : VNode) where
    abbrev Gone : W → Type 0
    Gone t = (node_at t node.name ≡ none) × (lease_at t lease_namespace node.name ≡ none)

    remove_node-Gone :
        (w : W)
        → (remove_node quantities version now retry c node w).0 ≡ ok tt
        → Gone (remove_node quantities version now retry c node w).1
    unfolding remove_node ◌>>=◌ answer
    remove_node-Gone w =
        let Done : Result (Unit {0}) × W → Type 0 = λ (r, t). r ≡ ok tt → Gone t in
        let leaving =
          delete_found quantities version now retry c (c.delete_lease lease_namespace node.name)
            ("deleting lease " <> node.name) in
        outcome_attempt Done leaving raise _ w
          (λ u first.
            let no_lease : lease_at (leaving w).1 lease_namespace node.name ≡ none =
              done_delete_found (λ t. lease_at t lease_namespace node.name ≡ none) _ _ w
                (laws.lease_ok lease_namespace node.name w)
                (laws.lease_missing lease_namespace node.name w) first in
            done_delete_found Gone _ _ (leaving w).1
              (λ h. (
                laws.node_ok node.name _ h,
                laws.node_keeps node.name _ lease_namespace node.name ∙ no_lease,
              ))
              (λ e bad h. (
                laws.node_missing node.name _ e bad h,
                laws.node_keeps node.name _ lease_namespace node.name ∙ no_lease,
              )))
          (λ e _ done. cc (done))

module _ {Q C W Config : Type 0} (quantities : Quantities Q) (version : String) (now : Call W ℕ)
    (retry : Action W → Action W) (api : C → Clientset Q W)
    {node_at : C → W → String → Option (CoreNode Q)}
    {lease_at : C → W → String → String → Option Lease}
    (laws : (c : C) → DeletionLaws (api c) (node_at c) (lease_at c))
    (resolver : KubeconfigResolver W) (rest_config : String → Result Config)
    (factory : Config → Result C) (node : VNode) (tenant : TenantRef) where
  -- For a tenant with a kubeconfig secret, let the server of each tenant's cluster keep its documented
  -- behaviour. If `Deregister` returns no error, a client is kept for the tenant, and the cluster of that
  -- client holds neither the node nor its lease in the namespace of leases, whether they were deleted now or were not there.
  pub deregister-IsUnregistered :
      (s : TenantWorld C W)
      → tenant.kubeconfig_secret ≢ ""
      → (deregister quantities version now retry api resolver rest_config factory node tenant s).0
        ≡ ok tt
      → IsUnregistered node_at lease_at node tenant
          (deregister quantities version now retry api resolver rest_config factory node tenant s).1
  unfolding deregister ◌>>=◌ on_world answer
  deregister-IsUnregistered s secret =
      let Done : Result (Unit {0}) × TenantWorld C W → Type 0 =
        λ (r, t). r ≡ ok tt → IsUnregistered node_at lease_at node tenant t in
      outcome_test Done (tenant.kubeconfig_secret == "") _ _ s
        (λ e. ground (arith, e, secret, eq_iff tenant.kubeconfig_secret ""))
        (λ _.
          outcome_attempt Done (get_client resolver rest_config factory tenant) raise _ s
            (λ c got done.
              let gone =
                remove_node-Gone quantities version now retry (api c) (laws c) node _ done in
              record {
                client = c;
                is_kept = get_client_keeps resolver rest_config factory tenant s c got;
                no_node = gone.0;
                no_lease = gone.1;
              })
            (λ e _ done. cc (done)))
