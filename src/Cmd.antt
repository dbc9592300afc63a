-- ===== src/Cmd.antt =====
-- cmd/vnode/main.go: the operator put together and started. What libraries do is a parameter: the manager, the
-- client of the host cluster, the clock, the retries and the counters. Log lines are not modelled.
pub mod SetUp
pub mod Laws
pub mod Keeps
pub mod Turns
pub mod Coherence
pub mod Release
use vnode.Base.{ℕ, String, Bool, Option, none, some, List, []}
use vnode.Base.Errors.{Error, Result}
use vnode.Base.Exec.{Call, Exec, Action, answer, attempt}
use vnode.Observability.{CounterLib, Observed, aside}
use vnode.Kube.{Quantities, Clientset, TenantClients, HostApi}
use vnode.Ports.{
  NodeRepository, ClusterClient, KubeconfigResolver, NodeRegistrar, NodeLifecycle, PoolManager,
  PodTranslator,
}
use vnode.Service.Node.{node_lifecycle}
use vnode.Service.Pool.{pool_manager}
use vnode.Service.Pod.{kata_adapter, pod_translator}
use vnode.Api.{VNodeApi, PoolApi, Finalizers}
use vnode.Adapter.NodeRepository.{node_repository}
use vnode.Adapter.PodClient.{pod_cluster_client}
use vnode.Adapter.Kubeconfig.{secret_kubeconfig_resolver}
use vnode.Adapter.TenantClients.{TenantWorld, on_world, tenant_clients}
use vnode.Adapter.Registrar.{registrar}
use vnode.Adapter.PoolReconciler.{reconcile_pool_cr}
use vnode.Adapter.VnodeReconciler.{reconcile_vnode}
use vnode.Adapter.PodSync.{Recorder, sync_pool_cr}
use vnode.Adapter.HostCalls.{host_api, pools_on_host, pods_on_host, events_on_host}
use vnode.Adapter.Controllers.{Controller, pool_controller, vnode_controller, pod_sync_controller}
use vnode.Config.{Config, default_config, validate_config}

-- The world of the operator: its counters, the clients of tenants that it keeps, and all the rest.
abbrev pub Operator : Type 0 → Type 0 → Type 0 → Type 0
Operator V C W = Observed V (TenantWorld C W)

-- What the program takes from libraries and from its build, other than the manager. The two retries are
-- `RetryOnConflict`, over the cluster of a tenant and over the host cluster.
pub record Libraries (Q V C W R : Type 0) : Type 0 where
  pub quantities : Quantities Q
  pub version : String
  pub now : Call W ℕ
  pub retry : Action W → Action W
  pub retry_host : Action (TenantWorld C W) → Action (TenantWorld C W)
  pub finalizers : Finalizers
  pub counters : CounterLib V
  pub clusters : C → Clientset Q W
  pub rest_config : String → Result R
  pub client_for : R → Result C

-- `ctrl.Options`, without the scheme.
pub record Options : Type 0 where
  pub metrics_bind_address : String
  pub health_probe_bind_address : String
  pub leader_election : Bool
  pub leader_election_id : String

-- `ctrl.Manager`: its client, as the calls on each sort of resource, and its methods. The client of pods needs
-- a clientset `K` beside it.
pub record Manager (Q V C W R K : Type 0) : Type 0 where
  pub config : R
  pub pools : PoolApi W
  pub vnodes : VNodeApi W
  pub host : K → HostApi Q W
  pub event_recorder : String → Recorder W
  pub complete : Controller (Operator V C W) → Action (Operator V C W)
  pub add_healthz_check : String → Action (Operator V C W)
  pub add_readyz_check : String → Action (Operator V C W)
  pub start : Action (Operator V C W)

-- `ctrl.GetConfigOrDie`, which ends the program itself if it fails, `ctrl.NewManager` and
-- `kubernetes.NewForConfig`.
pub record Startup (Q V C W R K : Type 0) : Type 0 where
  pub get_config : Exec (Operator V C W) R
  pub new_manager : R → Options → Exec (Operator V C W) (Manager Q V C W R K)
  pub new_clientset : R → Exec (Operator V C W) K

unfoldable pub options_of : Config → Options
options_of cfg = record {
  metrics_bind_address = cfg.metrics_addr;
  health_probe_bind_address = cfg.health_probe_addr;
  leader_election = cfg.leader_election;
  leader_election_id = cfg.leader_election_id;
}

module _ {V C W : Type 0} where
  -- `NewTenantClientManager`: no client is kept at first.
  unfoldable pub no_clients : {X : Type 0} → Call (Operator V C W) X → Call (Operator V C W) X
  no_clients m s = m (record s { world = record s.world { clients = [] } })

  abbrev pub exit : ℕ → Call (Operator V C W) ℕ
  exit status = answer status

  -- `if err := m; err != nil { os.Exit(1) }; k`
  abbrev or_exit : Action (Operator V C W) → Call (Operator V C W) ℕ → Call (Operator V C W) ℕ
  or_exit m k = attempt m (λ e. exit 1) (λ _. k)

module _ {Q V C W R K : Type 0} (libs : Libraries Q V C W R) where
  -- The adapters and the services, each made of those that it is given.
  module _ (mgr : Manager Q V C W R K) (host_clientset : K) (runtime_class : String) where
    abbrev pub node_repo : NodeRepository (TenantWorld C W)
    node_repo = node_repository (host_api mgr.vnodes) libs.retry_host

    abbrev pub host_pods : ClusterClient (TenantWorld C W)
    host_pods = pod_cluster_client libs.quantities (pods_on_host (mgr.host host_clientset))

    abbrev pub kubeconfig_resolver : KubeconfigResolver W
    kubeconfig_resolver = secret_kubeconfig_resolver (mgr.host host_clientset)

    abbrev pub tenants : TenantClients Q (TenantWorld C W)
    tenants = tenant_clients kubeconfig_resolver libs.rest_config libs.client_for libs.clusters

    abbrev pub node_registrar : NodeRegistrar (TenantWorld C W)
    node_registrar =
        registrar libs.quantities libs.version libs.now libs.retry libs.clusters kubeconfig_resolver
          libs.rest_config libs.client_for

    abbrev pub node_svc : NodeLifecycle (TenantWorld C W)
    node_svc = node_lifecycle node_repo node_registrar

    abbrev pub pool_svc : PoolManager (TenantWorld C W)
    pool_svc = pool_manager node_repo node_svc

    abbrev pub pod_svc : PodTranslator (TenantWorld C W)
    pod_svc = pod_translator (kata_adapter runtime_class)

    abbrev pub pool_reconciler : Controller (Operator V C W)
    pool_reconciler = pool_controller (λ ns name. aside (
        reconcile_pool_cr (pools_on_host mgr.pools) (host_api mgr.vnodes) libs.finalizers
          libs.retry_host pool_svc ns name))

    abbrev pub vnode_reconciler : Controller (Operator V C W)
    vnode_reconciler = vnode_controller (λ ns name.
        aside (reconcile_vnode (host_api mgr.vnodes).get (on_world libs.now) node_svc ns name))

    abbrev pub pod_sync_reconciler : Controller (Operator V C W)
    pod_sync_reconciler = pod_sync_controller (λ ns name.
        sync_pool_cr (pools_on_host mgr.pools) libs.retry_host libs.quantities node_repo host_pods
          pod_svc tenants libs.counters
          (some (events_on_host (mgr.event_recorder "vnode-pod-sync"))) ns name)

  -- The part of `main` after the clients of the host cluster are made.
  unfoldable pub run_manager : Manager Q V C W R K → K → String → Call (Operator V C W) ℕ
  unfolding no_clients
  run_manager mgr host_clientset runtime_class = no_clients (
      or_exit (mgr.complete (pool_reconciler mgr host_clientset runtime_class)) (
        or_exit (mgr.complete (vnode_reconciler mgr host_clientset runtime_class)) (
          or_exit (mgr.complete (pod_sync_reconciler mgr host_clientset runtime_class)) (
            or_exit (mgr.add_healthz_check "healthz")
              (or_exit (mgr.add_readyz_check "readyz") (or_exit mgr.start (exit 0)))))))

  -- The part of `main` after `Validate`.
  unfoldable pub start_up : Startup Q V C W R K → Config → Option Error → Call (Operator V C W) ℕ
  unfolding options_of run_manager
  start_up lib cfg (some e) = exit 1
  start_up lib cfg none =
      attempt lib.get_config (λ e. exit 1)
        (λ config.
          attempt (lib.new_manager config (options_of cfg)) (λ e. exit 1)
            (λ mgr.
              attempt (lib.new_clientset mgr.config) (λ e. exit 1)
                (λ host_clientset. run_manager mgr host_clientset cfg.default_runtime_class)))

  -- The status that the program exits with, given its environment.
  unfoldable pub main : Startup Q V C W R K → (String → String) → Call (Operator V C W) ℕ
  unfolding start_up
  main lib env = let cfg = default_config env in start_up lib cfg (validate_config cfg)
