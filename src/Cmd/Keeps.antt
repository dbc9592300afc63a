-- ===== src/Cmd/Keeps.antt =====
-- cmd/vnode/main.go: an invariant that the calls on the clusters keep, the services and adapters keep that it
-- puts together.
use mathlib.Core.Path.{subst}
use vnode.Base.{◌≡◌, String}
use vnode.Base.Errors.{Result, ok}
use vnode.Base.Exec.{Call, answer, pure, raise, ◌>>=◌}
use vnode.Base.Exec.Keeps.{Keeps, Keeps-answer, Keeps-bind}
use vnode.Base.Exec.Outcome.{outcome_attempt}
use vnode.Model.Pool.{TenantRef}
use vnode.Kube.{Clientset}
use vnode.Ports.Laws.{Seen, Leaves}
use vnode.Service.Pod.{translate, sync_status}
use vnode.Service.Execution.Host.Keeps.{TenantKeeps}
use vnode.Adapter.Kubeconfig.{resolve}
use vnode.Adapter.PodClient.Keeps.{HostApiKeeps, pod_cluster_client-HostKeeps}
use vnode.Adapter.TenantClients.{TenantWorld, on_world, get_client, lifted}
use vnode.Adapter.TenantClients.Host.{on_host, get_client-Leaves}
use vnode.Adapter.PodSync.Keeps.{SyncCallsKeep}
use vnode.Adapter.HostCalls.{pools_on_host, pods_on_host, events_on_host}
use vnode.Cmd.Laws.{HostLeaves, PodsElsewhere}
use vnode.Cmd.{Libraries, Manager, node_repo, host_pods, kubeconfig_resolver, tenants, pod_svc}

-- The invariant is about what is seen of the host.
module _ {A C W : Type 0} {find : Seen A W} {Inv : TenantWorld C W → Type 0}
    (left : (X : Type 0) (m : Call (TenantWorld C W) X)
      → Leaves (on_host find) m
      → Keeps Inv m) where
  pub left_world : {X : Type 0} (m : Call W X) → Leaves find m → Keeps Inv (on_world m)
  unfolding on_world
  left_world {X} m same = left X (on_world m) (λ s ns name. same s.world ns name)

  module _ {Q V R K : Type 0} (libs : Libraries Q V C W R) (mgr : Manager Q V C W R K) (k : K)
      (runtime_class : String)
      (host : HostLeaves find mgr.pools (mgr.host k) (mgr.event_recorder "vnode-pod-sync")) where
    pub resolving :
        (ns name : String)
        → Leaves find ((kubeconfig_resolver libs mgr k runtime_class).resolve ns name)
    unfolding resolve answer
    resolving ns name s j l =
        outcome_attempt (λ (r : Result String × W). find r.1 j l ≡ find s j l) _ _ _ s
          (λ _ _. host.get_secret ns name s j l) (λ _ _. host.get_secret ns name s j l)

    on_host-HostApiKeeps : HostApiKeeps Inv (pods_on_host (mgr.host k))
    on_host-HostApiKeeps = record {
      create_pod = λ p. left_world _ (host.create_pod p);
      get_pod = λ ns name. left_world _ (host.get_pod ns name);
      delete_pod = λ ns name. left_world _ (host.delete_pod ns name);
      list_pods = λ ns labels. left_world _ (host.list_pods ns labels);
      get_config_map = λ ns name. left_world _ (host.get_config_map ns name);
      create_config_map = λ ns name cm. left_world _ (host.create_config_map ns name cm);
      update_config_map = λ ns name cm. left_world _ (host.update_config_map ns name cm);
      get_secret = λ ns name. left_world _ (host.get_secret ns name);
      create_secret = λ ns name secret. left_world _ (host.create_secret ns name secret);
      update_secret = λ ns name secret. left_world _ (host.update_secret ns name secret);
    }

    module _ (pods_elsewhere : (c : C) → PodsElsewhere find (libs.clusters c)) where
      lifted-TenantKeeps : (c : C) → TenantKeeps Inv (lifted (libs.clusters c))
      unfolding lifted
      lifted-TenantKeeps c =
          let pods = pods_elsewhere c in
          record {
            list_pods = left_world _ pods.list_pods;
            get_pod = λ ns name. left_world _ (pods.get_pod ns name);
            update_pod_status = λ ns p. left_world _ (pods.update_pod_status ns p);
            get_config_map = λ ns name. left_world _ (pods.get_config_map ns name);
            get_secret = λ ns name. left_world _ (pods.get_secret ns name);
          }

      -- Every clientset that is got is one of those of the tenants.
      got-TenantKeeps :
          (ref : TenantRef) (s : TenantWorld C W) (c : Clientset Q (TenantWorld C W))
          → ((tenants libs mgr k runtime_class).get ref s).0 ≡ ok c
          → TenantKeeps Inv c
      unfolding ◌>>=◌ answer
      got-TenantKeeps ref s c =
          outcome_attempt
            (λ (r : Result (Clientset Q (TenantWorld C W)) × TenantWorld C W).
              r.0 ≡ ok c → TenantKeeps Inv c)
            (get_client (kubeconfig_resolver libs mgr k runtime_class) libs.rest_config
              libs.client_for ref)
            raise (λ handle. pure (lifted (libs.clusters handle))) s
            (λ handle _ got.
              let same : lifted (libs.clusters handle) ≡ c = cc (got) in
              subst (TenantKeeps Inv) same (lifted-TenantKeeps handle))
            (λ e _ got. cc (got))

      pub syncing-SyncCallsKeep :
          ((ns name : String)
            → Keeps Inv ((node_repo libs mgr k runtime_class).list_by_pool ns name))
          → SyncCallsKeep Inv
              (pools_on_host mgr.pools)
              (node_repo libs mgr k runtime_class)
              (host_pods libs mgr k runtime_class)
              (pod_svc libs mgr k runtime_class)
              (tenants libs mgr k runtime_class)
              (events_on_host (mgr.event_recorder "vnode-pod-sync"))
      unfolding translate sync_status
      syncing-SyncCallsKeep listing = record {
        get = λ ns name. left_world _ (host.get_pool ns name);
        patch_status = λ base cr. left_world _ (host.patch_status base cr);
        list_by_pool = listing;
        on_host = pod_cluster_client-HostKeeps libs.quantities on_host-HostApiKeeps;
        translating = record {
          translate = λ p pool node. Keeps-answer _;
          sync_status = λ status. Keeps-answer _;
        };
        client = λ ref.
            Keeps-bind _ _ (λ c. Keeps-answer _)
              (left _ _ (
                get_client-Leaves find (kubeconfig_resolver libs mgr k runtime_class) resolving
                  libs.rest_config libs.client_for ref));
        on_tenant = got-TenantKeeps;
        eventf =
            λ cr type reason action note. left_world _ (host.eventf cr type reason action note);
      }
