-- ===== src/Examples/Execution.antt =====
-- A run of `ReconcilePool` over a tenant with one pod, and the theorems on it at concrete data.
use vnode.Base.{List, ◌≡◌, ◌↔◌, refl, String, false, none, [], ◌∷◌, Any, arith}
use vnode.Base.Errors.{Error, ok, err, leaf, wrap, plain, is_context_error}
use vnode.Base.Decimal.{show_ℤ}
use vnode.Base.Exec.{answer, attempt, ◌>>=◌}
use vnode.Base.Int.{pos}
use vnode.Base.Map.{Map}
use vnode.Model.Node.{is_ready, VNode, node_ready}
use vnode.Model.Pod.{resource_refs, translate_pod}
use vnode.Kube.{Quantities, CorePod, Clientset, TenantClients}
use vnode.Ports.{NodeRepository, PodTranslator, ClusterClient, IsolationRuntime}
use vnode.Service.Pod.{kata_adapter, translate, pod_translator}
use vnode.Service.Execution.Compare.{pod_specs_equal}
use vnode.Service.Execution.Compare.Laws.{Agrees, pod_specs_equal-Agrees}
use vnode.Service.Execution.Core.{pod_from_core, is_terminal_pod}
use vnode.Service.Execution.Host.{sync_pod_resources, ensure_host_pod}
use vnode.Service.Execution.Sync.{list_tenant_pods_for_nodes, ready_nodes, run_pods, reconcile_pool}
use vnode.Service.Execution.Sync.Selection.{IsSource, list_tenant_pods_for_nodes_iff}
use vnode.Service.Execution.Sync.Ends.{IsCounted}
use vnode.Service.Execution.Sync.Counts.{
  TranslatesQuietly, reconcile_pool-IsCounted, reconcile_pool-IsQuiet,
}
use vnode.Service.NodeMarks.{no_node}
use vnode.Examples.Pools.{pool_of}
use vnode.Examples.Pods.{pod}
use vnode.Service.Execution.Sync.{sweep, no_result}
use vnode.Service.Execution.Sync.Exact.{EndsExactly, run_pods_exact}
use vnode.Service.Execution.Host.Calm.{TenantCalm}
use vnode.Examples.Host.{
  two_pods, Pods, memory_host, no_pods, pods_view, memory_host-lawful, memory_host-DeletesOnly,
  memory_host-HostCalm,
}

abbrev runtime : IsolationRuntime Pods
runtime = kata_adapter "kata"

abbrev pub quantities : Quantities String
quantities = record {
  must_parse = λ t. t;
  string = λ q. q;
  value = λ q. pos 0;
  new_quantity = show_ℤ;
}

abbrev tenant_pod : CorePod String
tenant_pod = record {
  name = "web";
  namespace = "default";
  labels = ("app", "web") ∷ [];
  deleting = false;
  node_name = "vnode-p-1";
  service_account_name = "default";
  automount_service_account_token = none;
  runtime_class_name = none;
  node_selector = [];
  containers = [];
  volumes = [];
  status = record {
    phase = "Pending";
    pod_ip = "";
    message = "";
    reason = "";
    container_statuses = [];
  };
}

abbrev ready_node : VNode
ready_node = record no_node { name = "vnode-p-1"; phase = node_ready }

abbrev pub one_node : NodeRepository Pods
one_node = record {
  get = λ ns name w. (ok ready_node, w);
  save = λ n w. (ok tt, w);
  delete = λ ns name w. (ok tt, w);
  list_by_pool = λ ns name w. (ok (ready_node ∷ []), w);
}

abbrev tenant : Clientset String Pods
tenant = record {
  list_pods = λ w. (ok (tenant_pod ∷ []), w);
  get_pod = λ ns name w. (ok tenant_pod, w);
  update_pod_status = λ ns p w. (ok tt, w);
  get_config_map = λ ns name w. (err (leaf plain "none"), w);
  get_secret = λ ns name w. (err (leaf plain "none"), w);
  get_namespace = λ name w. (ok tt, w);
  create_namespace = λ name w. (ok tt, w);
  get_lease = λ ns name w. (err (leaf plain "none"), w);
  create_lease = λ l w. (ok tt, w);
  update_lease = λ ns l w. (ok tt, w);
  delete_lease = λ ns name w. (ok tt, w);
  get_node = λ name w. (err (leaf plain "none"), w);
  create_node = λ n w. (ok tt, w);
  update_node = λ n w. (ok tt, w);
  update_node_status = λ n w. (ok tt, w);
  delete_node = λ name w. (ok tt, w);
}

abbrev pub tenants : TenantClients String Pods
tenants = record { get = λ ref w. (ok tenant, w) }

abbrev refused : Error
refused = leaf plain "refused"

-- The same host, which cannot list pods.
abbrev unlisted_host : ClusterClient Pods
unlisted_host = record memory_host { list_pods_by_labels = λ ns labels w. (err refused, w) }

abbrev pub translator : PodTranslator Pods
translator = pod_translator runtime

pub translator-TranslatesQuietly : TranslatesQuietly translator
unfolding translate answer
translator-TranslatesQuietly p pool node w e h = ground (arith, h)

-- One pod is created on the host, and its status is not there to be synced.
runs_one_pod :
    (reconcile_pool quantities one_node memory_host translator tenants (pool_of 1) no_pods).0.value
    ≡ record { source_pods = 1; created_host_pods = 1; deleted_host_pods = 0; synced_statuses = 0 }
unfolding reconcile_pool translate ◌>>=◌ list_tenant_pods_for_nodes ready_nodes is_ready run_pods
    sync_pod_resources resource_refs translate_pod pod_from_core is_terminal_pod ensure_host_pod
runs_one_pod = refl

reconcile_pool-IsCounted_example :
    IsCounted
      (reconcile_pool quantities one_node memory_host translator tenants
        (pool_of 1)
        no_pods).0.value
reconcile_pool-IsCounted_example =
    reconcile_pool-IsCounted quantities one_node memory_host translator tenants
      translator-TranslatesQuietly (pool_of 1) no_pods

reconcile_pool-IsQuiet_example :
    is_context_error (wrap "listing host pods for cleanup" refused) ≡ false
unfolding reconcile_pool translate ◌>>=◌ list_tenant_pods_for_nodes ready_nodes is_ready run_pods
    sync_pod_resources resource_refs translate_pod pod_from_core is_terminal_pod ensure_host_pod
reconcile_pool-IsQuiet_example =
    reconcile_pool-IsQuiet quantities one_node unlisted_host translator tenants
      translator-TranslatesQuietly (pool_of 1) no_pods
      (wrap "listing host pods for cleanup" refused) refl

list_tenant_pods_for_nodes_iff_example :
    (pods : List (CorePod String)) × ((list_tenant_pods_for_nodes tenant
        (ready_nodes (ready_node ∷ no_node ∷ []) [])
        no_pods).0
      ≡ ok pods)
    × ((p : CorePod String)
        → Any (λ q. q ≡ p) pods
          ↔ Any (λ q. q ≡ p) (tenant_pod ∷ []) × IsSource (ready_node ∷ no_node ∷ []) p)
list_tenant_pods_for_nodes_iff_example =
    list_tenant_pods_for_nodes_iff tenant (ready_node ∷ no_node ∷ []) no_pods (tenant_pod ∷ []) refl

pod_specs_equal-Agrees_example : Agrees pod (record pod { service_account_name = "admin" })
unfolding pod_specs_equal
pod_specs_equal-Agrees_example =
    pod_specs_equal-Agrees pod (record pod { service_account_name = "admin" }) refl

tenant-TenantCalm : TenantCalm tenant
tenant-TenantCalm = record {
  get_pod = λ ns name. record { at = λ w e h. ground (arith, h) };
  update_pod_status = λ ns p. record { at = λ w e h. ground (arith, h) };
  get_config_map = λ ns name. record { at = λ w e h. cc (h) };
  get_secret = λ ns name. record { at = λ w e h. cc (h) };
}

-- The pod runs, and the two host pods that no pod of the tenant has are deleted.
run_pods_exact_example :
    EndsExactly quantities tenant memory_host runtime (pool_of 1) pods_view (tenant_pod ∷ []) (
      run_pods quantities tenant memory_host
        (pod_translator runtime)
        (pool_of 1)
        (tenant_pod ∷ [])
        []
        no_result
        two_pods)
unfolding translate run_pods attempt answer sync_pod_resources resource_refs translate_pod
    pod_from_core is_terminal_pod ensure_host_pod
run_pods_exact_example =
    run_pods_exact quantities tenant-TenantCalm memory_host-HostCalm runtime (pool_of 1) pods_view
      memory_host-lawful memory_host-DeletesOnly (tenant_pod ∷ []) no_result two_pods refl

abbrev desired_pods : Map (Unit {0})
desired_pods = ("default/web", tt) ∷ []

-- Of two host pods the sweep deletes the one that is not wanted.
sweeps_one :
    (sweep quantities tenant memory_host translator
        (pool_of 1)
        desired_pods
        (pod ∷ record pod { name = "api" } ∷ [])
        no_result
        two_pods).1
      "default" "api"
    ≡ none
unfolding sweep answer attempt
sweeps_one = refl
