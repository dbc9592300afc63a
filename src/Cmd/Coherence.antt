-- ===== src/Cmd/Coherence.antt =====
-- cmd/vnode/main.go: what the three reconcilers that it puts together keep of the virtual nodes.
use mathlib.Core.Path.{subst}
use vnode.Base.{sym, ◌∙◌, String}
use vnode.Base.Exec.{Call}
use vnode.Base.Exec.Keeps.{Keeps}
use vnode.Ports.Laws.{View, Leaves, RepositoryLaws, RegistrarLaws}
use vnode.Service.Node.Coherence.{
  AllCoherent, provision-AllCoherent, deprovision-AllCoherent, update_status-AllCoherent,
}
use vnode.Service.Pool.Keeps.{LifecycleKeeps, reconcile-Keeps}
use vnode.Adapter.NodeRepository.Refines.{node_repository-RepositoryLaws}
use vnode.Adapter.TenantClients.{TenantWorld, on_world}
use vnode.Adapter.TenantClients.Host.{on_host}
use vnode.Adapter.Registrar.Host.{registrar-RegistrarLaws}
use vnode.Adapter.PoolReconciler.Keeps.{PoolCallsKeep, reconcile_pool_cr-Keeps}
use vnode.Adapter.VnodeReconciler.Keeps.{reconcile_vnode-Keeps}
use vnode.Adapter.PodSync.Keeps.{Aside, Keeps-aside, sync_pool_cr-Keeps}
use vnode.Adapter.HostCalls.{host_api, pools_on_host}
use vnode.Adapter.Deployed.{host_api-VNodeApiLaws, host_api-NeverCancelled}
use vnode.Cmd.Laws.{ClusterLaws}
use vnode.Cmd.Keeps.{left_world, resolving, syncing-SyncCallsKeep}
use vnode.Cmd.Turns.{Turn, pool_turn, vnode_turn, pod_turn, other_turn, Turns, none_yet, then_one}
use vnode.Cmd.{
  Operator, Libraries, Manager, node_repo, kubeconfig_resolver, node_registrar, node_svc, pool_svc,
}

module _ {C W : Type 0} (find : View W) where
  -- The virtual nodes are coherent, in a world that holds clients.
  abbrev Coherently : TenantWorld C W → Type 0
  Coherently = AllCoherent (on_host find)

  left : {X : Type 0} (m : Call (TenantWorld C W) X) → Leaves (on_host find) m → Keeps Coherently m
  left m same = record {
    at = λ s h. record { at = λ ns name n found. h.at ns name n (sym (same s ns name) ∙ found) };
  }

module _ {Q V C W R K : Type 0} {find : View W} (libs : Libraries Q V C W R)
    (mgr : Manager Q V C W R K) (k : K) (runtime_class : String)
    (laws : ClusterLaws find libs mgr k) where
  abbrev Inv : TenantWorld C W → Type 0
  Inv = Coherently find

  here : {X : Type 0} (m : Call W X) → Leaves find m → Keeps Inv (on_world m)
  here m same = left_world (λ X. left find) m same

  nodes-RepositoryLaws : RepositoryLaws (node_repo libs mgr k runtime_class) (on_host find)
  nodes-RepositoryLaws =
      node_repository-RepositoryLaws (host_api-VNodeApiLaws laws.vnodes) laws.retries_host
        (host_api-NeverCancelled laws.live)

  nodes-RegistrarLaws : RegistrarLaws (node_registrar libs mgr k runtime_class) (on_host find)
  nodes-RegistrarLaws =
      registrar-RegistrarLaws libs.quantities libs.version libs.now laws.retries find laws.clock
        libs.clusters laws.nodes_elsewhere (kubeconfig_resolver libs mgr k runtime_class)
        (resolving (λ X. left find) libs mgr k runtime_class laws.host) libs.rest_config
        libs.client_for

  node_svc-LifecycleKeeps : LifecycleKeeps Inv (node_svc libs mgr k runtime_class)
  node_svc-LifecycleKeeps = record {
    provision = provision-AllCoherent nodes-RepositoryLaws nodes-RegistrarLaws;
    deprovision = deprovision-AllCoherent nodes-RepositoryLaws nodes-RegistrarLaws;
    update_status = update_status-AllCoherent nodes-RepositoryLaws nodes-RegistrarLaws;
  }

  listing :
      (ns name : String) → Keeps Inv ((node_repo libs mgr k runtime_class).list_by_pool ns name)
  listing ns name = left find _ (nodes-RepositoryLaws.list_keeps ns name)

  pools-PoolCallsKeep :
      PoolCallsKeep Inv
        (pools_on_host mgr.pools)
        (host_api mgr.vnodes)
        (pool_svc libs mgr k runtime_class)
  pools-PoolCallsKeep = record {
    get = λ ns name. here _ (laws.host.get_pool ns name);
    update = λ cr. here _ (laws.update_pool cr);
    patch_status = λ base cr. here _ (laws.host.patch_status base cr);
    list = λ ns labels. here _ (laws.vnodes.list_keeps ns labels);
    reconcile =
        reconcile-Keeps (node_repo libs mgr k runtime_class) node_svc-LifecycleKeeps listing;
  }

  Turn-AllCoherent :
      {s t : Operator V C W} → Turn find libs mgr k runtime_class s t → Aside Inv s → Aside Inv t
  Turn-AllCoherent {s} (pool_turn ns name e) h = subst (Aside Inv) (sym e) (
      (Keeps-aside _ (
          reconcile_pool_cr-Keeps pools-PoolCallsKeep libs.finalizers laws.retries_host ns name)).at
        s h)
  Turn-AllCoherent {s} (vnode_turn ns name e) h = subst (Aside Inv) (sym e) (
      (Keeps-aside _ (
          reconcile_vnode-Keeps (λ j l. here _ (laws.vnodes.get_keeps j l)) (here _ laws.clock)
            node_svc-LifecycleKeeps ns name)).at
        s h)
  Turn-AllCoherent {s} (pod_turn ns name e) h = subst (Aside Inv) (sym e) (
      (sync_pool_cr-Keeps
          (syncing-SyncCallsKeep (λ X. left find) libs mgr k runtime_class laws.host
            laws.pods_elsewhere listing)
          libs.quantities libs.counters laws.retries_host ns name).at
        s h)
  Turn-AllCoherent {s} {t} (other_turn same) h = record {
    holds = record { at = λ ns name n found. h.holds.at ns name n (sym (same.at ns name) ∙ found) };
  }

  -- Let the API server of the host keep its documented behaviour, no context be cancelled, and the calls on
  -- pools, on pods, on the clusters of tenants and on libraries leave the virtual nodes of the host alone. From
  -- virtual nodes of each of which `IsReady` says what its phase says, any reconciliations by the three
  -- controllers that the program puts together, in any order, on any keys, whichever of their calls fail,
  -- and anything else between them that leaves the virtual nodes, lead to such nodes.
  pub Turns-AllCoherent :
      {s t : Operator V C W}
      → AllCoherent (on_host find) s.world
      → Turns find libs mgr k runtime_class s t
      → AllCoherent (on_host find) t.world
  Turns-AllCoherent h none_yet = h
  Turns-AllCoherent h (then_one turns turn) =
      (Turn-AllCoherent turn (record { holds = Turns-AllCoherent h turns })).holds
