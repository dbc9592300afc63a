-- ===== src/Examples/Clients.antt =====
-- The clients of the host cluster and the reconciler of nodes at concrete data.
use vnode.Base.{
  ℕ, suc, ◌+◌, ◌*◌, ◌^◌, ◌/◌, ◌≤◌, ◌≡◌, inl, inr, refl, String, true, false, none, some, [], ◌∷◌,
  ltb, arith, eq_iff, if◌then◌else◌,
}
use vnode.Base.Errors.{ok, err, leaf, plain}
use vnode.Base.Decimal.{show_ℤ}
use vnode.Base.Exec.{Exec, Call}
use vnode.Base.Int.{pos}
use vnode.Model.Resource.{ResourceList}
use vnode.Model.Node.{node_not_ready}
use vnode.Model.Pod.{Volume, Container, PodSpec, PodStatus}
use vnode.Kube.{Quantities, HostApi, Secret, CorePod}
use vnode.Ports.{NodeLifecycle}
use vnode.Service.NodeMarks.{no_node}
use vnode.Adapter.PodCodec.{pod_spec_to_k8s_pod, pod_to_spec}
use vnode.Adapter.PodCodec.RoundTrip.{IsExpressible, IsPlain, pod_to_spec-pod_spec_to_k8s_pod}
use vnode.Service.Execution.Core.{pod_from_core}
use vnode.Adapter.PodCodec.Agreement.{pod_to_spec-pod_from_core}
use vnode.Adapter.Kubeconfig.{resolve, IsFirstValue, resolve-IsFirstValue}
use vnode.Api.{VNodeCr}
use vnode.Adapter.VnodeReconciler.{backoff_loop, second, vnode_min_requeue}
use vnode.Adapter.VnodeReconciler.Backoff.{backoff_loop_enough}
use vnode.Examples.Pods.{pod}

abbrev pub quantities : Quantities String
quantities = record {
  must_parse = λ t. t;
  string = λ q. q;
  value = λ q. pos 0;
  new_quantity = show_ℤ;
}

abbrev some_resources : ResourceList
some_resources = record { cpu = "500m"; memory = ""; pods = pos 0 }

abbrev sized : Container
sized = record {
  name = "c";
  image = "nginx";
  command = "sh" ∷ [];
  args = [];
  env = record { name = "MODE"; value = "fast" } ∷ [];
  volume_mounts = [];
  resources = record { requests = some_resources; limits = some_resources };
}

abbrev scratch : Volume
scratch = record { name = "scratch"; type = "emptyDir"; source = "" }

abbrev pub wanted : PodSpec
wanted = record pod { containers = sized ∷ []; volumes = scratch ∷ []; runtime_class_name = "kata" }

pub sized-IsPlain : IsPlain quantities sized
sized-IsPlain = record {
  cpu_request = λ _. refl;
  memory_request = λ _. refl;
  cpu_limit = λ _. refl;
  memory_limit = λ _. refl;
  no_pods = (refl, refl);
}

pub scratch-IsExpressible : IsExpressible scratch
scratch-IsExpressible = record { known = inr (inr (inr (inr (inl refl)))); sourceless = λ _. refl }

pod_to_spec-pod_spec_to_k8s_pod_example :
    pod_to_spec quantities (pod_spec_to_k8s_pod quantities wanted) ≡ wanted
pod_to_spec-pod_spec_to_k8s_pod_example =
    pod_to_spec-pod_spec_to_k8s_pod quantities wanted refl (sized-IsPlain, tt)
      (scratch-IsExpressible, tt)

abbrev written : CorePod String
written = pod_spec_to_k8s_pod quantities wanted

pod_to_spec-pod_from_core_example :
    pod_from_core quantities written ≡ record (pod_to_spec quantities written) {
      automount_service_account_token = none;
      runtime_class_name = "";
      node_selector = [];
      deleting = false;
    }
pod_to_spec-pod_from_core_example = pod_to_spec-pod_from_core quantities written

abbrev running : PodStatus
running = record {
  phase = "Running";
  pod_ip = "10.0.0.7";
  container_statuses =
      record { name = "c"; ready = true; restart_count = pos 1; state = "running" } ∷ [];
  message = "";
  reason = "";
}

-- The world is one secret.
abbrev secrets : HostApi String Secret
secrets = record {
  create_pod = λ p s. (ok tt, s);
  get_pod = λ ns name s. (ok written, s);
  update_pod = λ p s. (ok tt, s);
  delete_pod = λ ns name s. (ok tt, s);
  list_pods = λ ns labels s. (ok [], s);
  get_config_map = λ ns name s. (err (leaf plain "none"), s);
  create_config_map = λ ns name cm s. (ok tt, s);
  update_config_map = λ ns name cm s. (ok tt, s);
  get_secret = λ ns name s. (ok s, s);
  create_secret = λ ns name secret s. (ok tt, secret);
  update_secret = λ ns name secret s. (ok tt, secret);
}

abbrev tenant_secret : Secret
tenant_secret = record {
  content = ("value", "b") ∷ ("config", "a") ∷ ("kubeconfig", "") ∷ [];
  labels = [];
}

resolves_config : (resolve secrets "ns" "kc" tenant_secret).0 ≡ ok "a"
unfolding resolve vnode.Base.Exec.attempt vnode.Base.Exec.answer
resolves_config = refl

resolve-IsFirstValue_example : IsFirstValue tenant_secret.content "a"
resolve-IsFirstValue_example =
    resolve-IsFirstValue secrets "ns" "kc" tenant_secret tenant_secret refl "a" resolves_config

backoff_loop_enough_example :
    backoff_loop 8 (1000 * second) (30 * second) vnode_min_requeue
    ≡ backoff_loop 5 (1000 * second) (30 * second) vnode_min_requeue
backoff_loop_enough_example = backoff_loop_enough 3 (1000 * second)

abbrev stuck : VNodeCr
stuck = record {
  uid = "u";
  name = "vnode-p-1";
  namespace = "ns";
  labels = [];
  annotations = ("vnode.kroderdev.io/vcluster-name", "vc") ∷ [];
  pool_ref = "p";
  capacity = some_resources;
  phase = node_not_ready;
  conditions = [];
  creation_timestamp = 10 * second;
}

-- The world is the clock.
abbrev read_stuck : String → String → Exec ℕ VNodeCr
read_stuck ns name t = (ok stuck, t)

abbrev read_clock : Call ℕ ℕ
read_clock t = (t, t)

abbrev idle_lifecycle : NodeLifecycle ℕ
idle_lifecycle = record {
  provision = λ pool t. (record { value = no_node; error = none }, t);
  deprovision = λ node t. (ok tt, t);
  update_status = λ node t. (ok tt, t);
}
