-- ===== src/Adapter/Registrar.antt =====
-- internal/adapter/outbound/virtualkubelet/registrar.go: `Registrar`, the virtual nodes as nodes of a tenant.
pub mod Cluster
pub mod Host
pub mod Presence
use vnode.Base.{
  ℕ, String, ◌<>◌, Bool, true, false, Option, none, some, List, [], ◌∷◌, ◌++◌, ◌==◌, if◌then◌else◌,
}
use vnode.Base.Errors.{Error, Result, ok, wrap, is_not_found, is_already_exists}
use vnode.Base.Exec.{Call, Exec, Action, answer, pure, raise, attempt, wrapping, ◌>>=◌, ◌>>◌}
use vnode.Base.Int.{ℤ, pos, ltb_ℤ}
use vnode.Base.Map.{Map}
use vnode.Model.Resource.{ResourceList}
use vnode.Model.Pool.{TenantRef, Taint}
use vnode.Model.Node.{NodeCondition, VNode}
use vnode.Kube.{
  Quantities, resource_cpu, resource_memory, resource_pods, CoreNodeCondition, NodeSystemInfo,
  CoreNode, Lease, Clientset,
}
use vnode.Ports.{NodeRegistrar, KubeconfigResolver}
use vnode.Adapter.TenantClients.{TenantWorld, on_world, get_client}

abbrev pub lease_namespace : String
lease_namespace = "kube-node-lease"

unfoldable pub node_labels : VNode → Map String
node_labels node =
    ("kubernetes.io/os", "linux")
    ∷ ("kubernetes.io/arch", "amd64")
    ∷ ("kubernetes.io/hostname", node.name)
    ∷ ("node.kubernetes.io/exclude-from-external-load-balancers", "true")
    ∷ ("node-role.kubernetes.io/worker", "")
    ∷ ("vnode.kroderdev.io/managed", "true")
    ∷ ("vnode.kroderdev.io/pool", node.pool_name)
    ∷ ("vnode.kroderdev.io/vnode", node.name)
    ∷ []

unfoldable pub node_annotations : VNode → Map String
node_annotations node =
    ("vnode.kroderdev.io/vcluster-name", node.tenant_ref.vcluster_name)
    ∷ ("vnode.kroderdev.io/vcluster-namespace", node.tenant_ref.vcluster_namespace)
    ∷ []

unfoldable pub map_node_taints : List Taint → List Taint
map_node_taints [] = []
map_node_taints (t ∷ ts) =
    record { key = t.key; value = t.value; effect = t.effect } ∷ map_node_taints ts

-- The constants `NodeConditionReady` and `corev1.NodeReady` are the same text.
unfoldable pub build_node_conditions : ℕ → List NodeCondition → List CoreNodeCondition
build_node_conditions now [] = []
build_node_conditions now (c ∷ cs) =
    record {
      type = c.type;
      status = if c.status then "True" else "False";
      reason = c.reason;
      message = c.message;
      last_heartbeat_time = now;
      last_transition_time = now;
    }
    ∷ build_node_conditions now cs

module _ {Q : Type 0} (quantities : Quantities Q) where
  abbrev text_entry : String → String → Map Q
  text_entry key text = if text == "" then [] else (key, quantities.must_parse text) ∷ []

  unfoldable pub build_resources : ResourceList → Map Q
  build_resources r =
      text_entry resource_cpu r.cpu
      ++ (text_entry resource_memory r.memory
          ++ (if ltb_ℤ (pos 0) r.pods
              then (resource_pods, quantities.new_quantity r.pods) ∷ []
              else []))

  -- The node that `upsertNode` creates.
  unfoldable pub new_core_node : VNode → CoreNode Q
  new_core_node node = record {
    name = node.name;
    labels = node_labels node;
    annotations = node_annotations node;
    taints = map_node_taints node.taints;
    capacity = [];
    allocatable = [];
    conditions = [];
    node_info = none;
  }

  unfoldable pub relabelled : CoreNode Q → VNode → CoreNode Q
  relabelled current node = record current {
    labels = node_labels node;
    annotations = node_annotations node;
    taints = map_node_taints node.taints;
  }

  unfoldable pub with_node_status : String → ℕ → CoreNode Q → VNode → CoreNode Q
  with_node_status version now current node = record current {
    capacity = build_resources node.capacity;
    allocatable = build_resources node.allocatable;
    conditions = build_node_conditions now node.conditions;
    node_info = some (record {
      kubelet_version = "vnode/" <> version;
      operating_system = "linux";
      architecture = "amd64";
      container_runtime_version = "vnode/" <> version;
    });
  }

unfoldable pub held_lease : ℕ → String → Lease → Lease
held_lease now name lease = record lease {
  holder_identity = some name;
  lease_duration_seconds = some (pos 40);
  renew_time = some now;
}

abbrev pub new_lease : String → Lease
new_lease name = record {
  name = name;
  namespace = lease_namespace;
  holder_identity = none;
  lease_duration_seconds = none;
  renew_time = none;
}

-- The calls on the cluster of one tenant.
module _ {Q W : Type 0} (quantities : Quantities Q) (version : String) (now : Call W ℕ)
    (retry : Action W → Action W) (c : Clientset Q W) where
  unfoldable pub ensure_lease_namespace : Action W
  ensure_lease_namespace =
      attempt (c.get_namespace lease_namespace)
        (λ e.
          if is_not_found e
          then attempt (c.create_namespace lease_namespace)
              (λ f.
                if is_already_exists f then pure tt else raise (wrap "creating lease namespace" f))
              pure
          else raise (wrap "getting lease namespace" e))
        pure

  unfoldable pub upsert_node : VNode → Action W
  upsert_node node =
      attempt (c.get_node node.name)
        (λ e.
          if is_not_found e
          then wrapping ("creating tenant node " <> node.name)
              (c.create_node (new_core_node quantities node))
          else raise (wrap ("getting tenant node " <> node.name) e))
        (λ current.
          wrapping ("updating tenant node " <> node.name)
            (c.update_node (relabelled quantities current node)))

  -- One attempt to write the status of the node.
  unfoldable pub write_node_status : VNode → Action W
  write_node_status node =
      wrapping ("getting tenant node " <> node.name) (c.get_node node.name) >>= λ current w.
      let (t, w') = now w in
      c.update_node_status (with_node_status quantities version t current node) w'

  -- `upsertLease` at the time `t`.
  unfoldable pub upsert_lease_at : String → ℕ → Action W
  upsert_lease_at name t =
      attempt (c.get_lease lease_namespace name)
        (λ e.
          if is_not_found e
          then wrapping ("creating node lease " <> name)
              (c.create_lease (held_lease t name (new_lease name)))
          else raise (wrap ("getting node lease " <> name) e))
        (λ current.
          wrapping ("updating node lease " <> name)
            (c.update_lease lease_namespace (held_lease t name current)))

  unfoldable pub upsert_lease : String → Action W
  upsert_lease name w = let (t, w') = now w in upsert_lease_at name t w'

  unfoldable pub sync_node : VNode → Action W
  sync_node node =
      wrapping ("updating tenant node " <> (node.name <> " status"))
        (retry (write_node_status node))
      >> upsert_lease node.name

  unfoldable pub delete_found : Action W → String → Action W
  delete_found deletion text =
      attempt deletion (λ e. if is_not_found e then pure tt else raise (wrap text e)) pure

  unfoldable pub remove_node : VNode → Action W
  remove_node node =
      delete_found (c.delete_lease lease_namespace node.name) ("deleting lease " <> node.name)
      >> delete_found (c.delete_node node.name) ("deleting tenant node " <> node.name)

-- The handles of clients are used through `api`.
module _ {Q C W Config : Type 0} (quantities : Quantities Q) (version : String) (now : Call W ℕ)
    (retry : Action W → Action W) (api : C → Clientset Q W) (resolver : KubeconfigResolver W)
    (rest_config : String → Result Config) (factory : Config → Result C) where
  unfoldable pub update_node_status : VNode → TenantRef → Action (TenantWorld C W)
  update_node_status node tenant =
      if tenant.kubeconfig_secret == ""
      then pure tt
      else get_client resolver rest_config factory tenant >>= λ c.
          on_world (sync_node quantities version now retry (api c) node)

  unfoldable pub register : VNode → TenantRef → Action (TenantWorld C W)
  register node tenant = get_client resolver rest_config factory tenant >>= λ c.
      on_world (ensure_lease_namespace quantities version now retry (api c))
      >> (on_world (upsert_node quantities version now retry (api c) node)
          >> update_node_status node tenant)

  unfoldable pub deregister : VNode → TenantRef → Action (TenantWorld C W)
  deregister node tenant =
      if tenant.kubeconfig_secret == ""
      then pure tt
      else get_client resolver rest_config factory tenant >>= λ c.
          on_world (remove_node quantities version now retry (api c) node)

  unfoldable pub registrar : NodeRegistrar (TenantWorld C W)
  registrar = record {
    register = register;
    deregister = deregister;
    update_node_status = update_node_status;
  }
