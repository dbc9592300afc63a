-- ===== src/Examples/Pools.antt =====
-- A pool of test data, and its validation.
use vnode.Base.{ℕ, ◌≡◌, refl, false, some, []}
use vnode.Base.Errors.{leaf, plain}
use vnode.Base.Int.{pos}
use vnode.Model.Pool.{VNodePool, validate}
use vnode.Model.Pool.Validation.{IsValid, validate_iff}

abbrev pub pool_of : ℕ → VNodePool
pool_of n = record {
  id = "";
  name = "p";
  display_name = "";
  namespace = "ns";
  tenant_ref = record { vcluster_name = "vc"; vcluster_namespace = "ns"; kubeconfig_secret = "kc" };
  mode = "shared";
  isolation_backend = "kata";
  runtime_class_name = "";
  node_count = pos n;
  per_node_resources = record { cpu = "4"; memory = "8Gi"; pods = pos 110 };
  node_selector = [];
  taints = [];
  tolerations = [];
  phase = "";
  ready_nodes = pos 0;
  nodes = [];
  deletion_pending = false;
}

validate_iff_example : IsValid (pool_of 3)
unfolding validate
validate_iff_example = (validate_iff (pool_of 3)).0 refl

-- A dedicated pool without a node selector is refused.
refuses_dedicated :
    validate (record (pool_of 3) { mode = "dedicated" })
    ≡ some (leaf plain "dedicated mode requires nodeSelector")
unfolding validate
refuses_dedicated = refl
