-- ===== src/Adapter/Deployed.antt =====
-- The node service over the repository of resources and the registrar, as cmd/vnode/main.go puts them together.
use vnode.Base.{ℕ, String}
use vnode.Base.Errors.{Result}
use vnode.Base.Exec.{Call, Action}
use vnode.Kube.{Quantities, Clientset}
use vnode.Ports.{KubeconfigResolver}
use vnode.Ports.Laws.{View, Leaves}
use vnode.Service.Node.Coherence.{AllCoherent, NodeReach, NodeReach-AllCoherent}
use vnode.Api.{VNodeApi}
use vnode.Api.NodeLaws.{VNodeApiLaws, NeverCancelled}
use vnode.Api.Retry.{Retries}
use vnode.Adapter.NodeRepository.{node_repository}
use vnode.Adapter.NodeRepository.Refines.{node_repository-RepositoryLaws}
use vnode.Adapter.TenantClients.{TenantWorld, on_world}
use vnode.Adapter.HostCalls.{host_api}
use vnode.Adapter.Registrar.{registrar}
use vnode.Adapter.Registrar.Cluster.{Elsewhere}
use vnode.Adapter.TenantClients.Host.{on_host}
use vnode.Adapter.Registrar.Host.{registrar-RegistrarLaws}

module _ {C W : Type 0} {api : VNodeApi W} where
  pub host_api-VNodeApiLaws :
      {find : View W} → VNodeApiLaws api find → VNodeApiLaws (host_api api) (on_host {C = C} find)
  unfolding on_world
  host_api-VNodeApiLaws laws = record {
    get_keeps = λ j k s. laws.get_keeps j k s.world;
    get_named = λ ns name s. laws.get_named ns name s.world;
    create_changes = λ cr s. laws.create_changes cr s.world;
    create_named = λ cr made s. laws.create_named cr made s.world;
    update_keeps = λ cr s. laws.update_keeps cr s.world;
    status_changes = λ cr s. laws.status_changes cr s.world;
    status_ok = λ cr s. laws.status_ok cr s.world;
    delete_changes = λ j k s. laws.delete_changes j k s.world;
    delete_ok = λ ns name s. laws.delete_ok ns name s.world;
    list_keeps = λ j labels s. laws.list_keeps j labels s.world;
  }

  pub host_api-NeverCancelled : NeverCancelled api → NeverCancelled (host_api {C = C} api)
  unfolding on_world
  host_api-NeverCancelled live = record {
    get = λ ns name s. live.get ns name s.world;
    update = λ cr s. live.update cr s.world;
    update_status = λ cr s. live.update_status cr s.world;
  }

module _ {Q C W Config : Type 0} (quantities : Quantities Q) (version : String) (now : Call W ℕ)
    {retry : Action W → Action W} (retries : Retries retry)
    {retry_host : Action (TenantWorld C W) → Action (TenantWorld C W)}
    (retries_host : Retries retry_host) (api : VNodeApi W) (find : View W)
    (clusters : C → Clientset Q W) (resolver : KubeconfigResolver W)
    (rest_config : String → Result Config) (factory : Config → Result C) where
  -- The node service is called over the repository of `VNode` resources and the registrar. Let the API server
  -- of the host keep its documented behaviour, no context be cancelled, and the calls on the clusters of
  -- tenants, the clock and the resolver change nothing of what is found in the host cluster. From
  -- resources in which `IsReady` says of each node what its phase says, any sequence of calls of `Provision`,
  -- `Deprovision` and `UpdateStatus`, failing or not, leads to such resources.
  pub deployed-AllCoherent :
      VNodeApiLaws api find
      → NeverCancelled api
      → Leaves find now
      → ((c : C) → Elsewhere find (clusters c))
      → ((ns name : String) → Leaves find (resolver.resolve ns name))
      → {s t : TenantWorld C W} → AllCoherent (on_host find) s
      → NodeReach
          (node_repository (host_api api) retry_host)
          (registrar quantities version now retry clusters resolver rest_config factory)
          s
          t
      → AllCoherent (on_host find) t
  deployed-AllCoherent laws live clock elsewhere resolving h steps =
      NodeReach-AllCoherent
        (node_repository-RepositoryLaws (host_api-VNodeApiLaws laws) retries_host
          (host_api-NeverCancelled live))
        (registrar-RegistrarLaws quantities version now retries find clock clusters elsewhere
          resolver resolving rest_config factory)
        h steps
