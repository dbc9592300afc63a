-- ===== src/Adapter/TenantClients.antt =====
-- internal/adapter/outbound/virtualkubelet/registrar.go: `TenantClientManager`, which keeps the client of each
-- tenant. The map is read and written under a lock, so that each of its steps here is one of the code.
pub mod Cache
pub mod Interleaving
pub mod Host
use vnode.Base.{String, ◌<>◌, Option, none, some}
use vnode.Base.Errors.{Error, Result, ok, err, wrap}
use vnode.Base.Exec.{Call, Exec, Action, answer, pure, raise, attempt, ◌>>=◌, ◌>>◌}
use vnode.Base.Map.{Map, lookup, insert, erase}
use vnode.Model.Pool.{TenantRef}
use vnode.Kube.{Clientset, TenantClients}
use vnode.Ports.{KubeconfigResolver}

-- The clients that are kept, beside all the rest of the world. A client is a handle of a type `C`.
pub record TenantWorld (C W : Type 0) : Type 0 where
  pub clients : Map C
  pub world : W

unfoldable pub cache_key : TenantRef → String
cache_key tenant = tenant.vcluster_namespace <> ("/" <> tenant.kubeconfig_secret)

module _ {C W : Type 0} where
  -- A call that leaves the clients alone.
  unfoldable pub on_world : {X : Type 0} → Call W X → Call (TenantWorld C W) X
  on_world m s = let (x, w) = m s.world in (x, record s { world = w })

  unfoldable pub invalidate : TenantRef → Action (TenantWorld C W)
  invalidate tenant s = (ok tt, record s { clients = erase (cache_key tenant) s.clients })

  unfoldable pub keep_client : TenantRef → C → Exec (TenantWorld C W) C
  keep_client tenant c s = (ok c, record s { clients = insert (cache_key tenant) c s.clients })

  abbrev pub failing_get : TenantRef → Error → Exec (TenantWorld C W) C
  failing_get tenant e = invalidate tenant >> raise e

  -- The end of `Get`, given what the factory returned.
  unfoldable pub with_client : TenantRef → Result C → Exec (TenantWorld C W) C
  with_client tenant (err e) = failing_get tenant (wrap "building tenant clientset" e)
  with_client tenant (ok c) = keep_client tenant c

-- The clientset as one over the whole world.
unfoldable pub lifted : {Q C W : Type 0} → Clientset Q W → Clientset Q (TenantWorld C W)
lifted c = record {
  list_pods = on_world c.list_pods;
  get_pod = λ ns name. on_world (c.get_pod ns name);
  update_pod_status = λ ns pod. on_world (c.update_pod_status ns pod);
  get_config_map = λ ns name. on_world (c.get_config_map ns name);
  get_secret = λ ns name. on_world (c.get_secret ns name);
  get_namespace = λ name. on_world (c.get_namespace name);
  create_namespace = λ name. on_world (c.create_namespace name);
  get_lease = λ ns name. on_world (c.get_lease ns name);
  create_lease = λ lease. on_world (c.create_lease lease);
  update_lease = λ ns lease. on_world (c.update_lease ns lease);
  delete_lease = λ ns name. on_world (c.delete_lease ns name);
  get_node = λ name. on_world (c.get_node name);
  create_node = λ node. on_world (c.create_node node);
  update_node = λ node. on_world (c.update_node node);
  update_node_status = λ node. on_world (c.update_node_status node);
  delete_node = λ name. on_world (c.delete_node name);
}

-- `clientcmd.RESTConfigFromKubeConfig` and the factory are parameters.
module _ {C W Config : Type 0} (resolver : KubeconfigResolver W)
    (rest_config : String → Result Config) (factory : Config → Result C) where
  unfoldable pub with_config : TenantRef → Result Config → Exec (TenantWorld C W) C
  with_config tenant (err e) = failing_get tenant (wrap "building tenant rest config" e)
  with_config tenant (ok cfg) = with_client tenant (factory cfg)

  -- The part of `Get` after the client was not found in the map.
  unfoldable pub build_client : TenantRef → Exec (TenantWorld C W) C
  build_client tenant =
      attempt (on_world (resolver.resolve tenant.vcluster_namespace tenant.kubeconfig_secret))
        (λ e. failing_get tenant (wrap "resolving tenant kubeconfig" e))
        (λ kubeconfig. with_config tenant (rest_config kubeconfig))

  unfoldable pub cached_or : TenantRef → Option C → Exec (TenantWorld C W) C
  cached_or tenant (some c) = pure c
  cached_or tenant none = build_client tenant

  unfoldable pub get_client : TenantRef → Exec (TenantWorld C W) C
  get_client tenant s = cached_or tenant (lookup (cache_key tenant) s.clients) s

  abbrev pub tenant_clients : {Q : Type 0} → (C → Clientset Q W) → TenantClients Q (TenantWorld C W)
  tenant_clients api = record { get = λ tenant. get_client tenant >>= λ c. pure (lifted (api c)) }
