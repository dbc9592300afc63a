-- ===== src/Adapter/Registrar/Presence/Register.antt =====
-- What the cluster of a tenant holds after `Register`.
use vnode.Base.{◌≡◌, String, ℕ, Option, some}
use vnode.Base.Errors.{Result, ok}
use vnode.Base.Exec.{Call, Action}
use vnode.Base.Map.{lookup}
use vnode.Model.Node.{VNode}
use vnode.Model.Pool.{TenantRef}
use vnode.Kube.{Quantities, CoreNode, Lease, Clientset}
use vnode.Ports.{KubeconfigResolver}
use vnode.Api.Retry.{Retries}
use vnode.Adapter.TenantClients.{TenantWorld, cache_key}
use vnode.Adapter.Registrar.Presence.{ClusterLaws, IsPresent}

-- A client is kept for the tenant, and the node is present in the cluster of that client.
pub record IsRegistered {Q C W : Type 0} (quantities : Quantities Q)
    (node_at : C → W → String → Option (CoreNode Q))
    (lease_at : C → W → String → String → Option Lease) (node : VNode) (tenant : TenantRef)
    (s : TenantWorld C W) : Type 0 where
  pub client : C
  pub is_kept : lookup (cache_key tenant) s.clients ≡ some client
  pub present : IsPresent quantities (node_at client s.world) (lease_at client s.world) node

module _ {Q C W Config : Type 0} (quantities : Quantities Q) (version : String) (now : Call W ℕ)
    {retry : Action W → Action W} (retries : Retries retry) (api : C → Clientset Q W)
    {node_at : C → W → String → Option (CoreNode Q)}
    {lease_at : C → W → String → String → Option Lease}
    (laws : (c : C) → ClusterLaws (api c) (node_at c) (lease_at c))
    (clock : (c : C) (w : W) (k : String) → node_at c (now w).1 k ≡ node_at c w k)
    (resolver : KubeconfigResolver W) (rest_config : String → Result Config)
    (factory : Config → Result C) (node : VNode) (tenant : TenantRef) where
  abbrev Registered : TenantWorld C W → Type 0
  Registered t = IsRegistered quantities node_at lease_at node tenant t

  abbrev Done : Result (Unit {0}) × TenantWorld C W → Type 0
  Done (r, t) = r ≡ ok tt → Registered t
