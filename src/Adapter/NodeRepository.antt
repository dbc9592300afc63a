-- ===== src/Adapter/NodeRepository.antt =====
-- internal/adapter/outbound/kubeclient/client.go: the nodes, kept as `VNode` resources.
pub mod Saves
pub mod Refines
pub mod Keeps
use vnode.Base.{String, Bool, List, [], ◌∷◌, ◌||◌, if◌then◌else◌}
use vnode.Base.Errors.{Error, wrap, is_not_found, is_conflict, is_context_error}
use vnode.Base.Exec.{
  Call, Exec, Action, answer, pure, raise, attempt, wrapping, unless_context, ◌>>=◌,
}
use vnode.Base.Map.{Map, get, insert}
use vnode.Model.Node.{NodeCondition, VNode}
use vnode.Ports.{NodeRepository}
use vnode.Api.{ApiCondition, VNodeCr, VNodeApi, conditions_of}

abbrev pub annotation_vcluster_name : String
annotation_vcluster_name = "vnode.kroderdev.io/vcluster-name"

abbrev pub annotation_vcluster_namespace : String
annotation_vcluster_namespace = "vnode.kroderdev.io/vcluster-namespace"

abbrev pub annotation_kubeconfig_secret : String
annotation_kubeconfig_secret = "vnode.kroderdev.io/kubeconfig-secret"

abbrev pub label_pool : String
label_pool = "vnode.kroderdev.io/pool"

unfoldable pub cr_to_node : VNodeCr → VNode
cr_to_node cr = record {
  id = cr.uid;
  name = cr.name;
  namespace = cr.namespace;
  pool_name = cr.pool_ref;
  tenant_ref = record {
    vcluster_name = get annotation_vcluster_name cr.annotations;
    vcluster_namespace = get annotation_vcluster_namespace cr.annotations;
    kubeconfig_secret = get annotation_kubeconfig_secret cr.annotations;
  };
  taints = [];
  phase = cr.phase;
  capacity = cr.capacity;
  allocatable = cr.capacity;
  conditions = conditions_of cr.conditions;
}

unfoldable pub crs_to_nodes : List VNodeCr → List VNode
crs_to_nodes [] = []
crs_to_nodes (cr ∷ crs) = cr_to_node cr ∷ crs_to_nodes crs

-- The loop of `applyNodeStatus`.
unfoldable pub conditions_to : List NodeCondition → List ApiCondition
conditions_to [] = []
conditions_to (c ∷ cs) =
    record {
      type = c.type;
      status = if c.status then "True" else "False";
      reason = c.reason;
      message = c.message;
    }
    ∷ conditions_to cs

unfoldable pub apply_node_status : VNodeCr → VNode → VNodeCr
apply_node_status cr node = record cr {
  phase = node.phase;
  conditions = conditions_to node.conditions;
}

-- The resource that `Save` creates: its status is not written yet.
unfoldable pub new_cr : VNode → VNodeCr
new_cr node = record {
  uid = "";
  name = node.name;
  namespace = node.namespace;
  labels = (label_pool, node.pool_name) ∷ [];
  annotations =
      (annotation_vcluster_name, node.tenant_ref.vcluster_name)
      ∷ (annotation_vcluster_namespace, node.tenant_ref.vcluster_namespace)
      ∷ (annotation_kubeconfig_secret, node.tenant_ref.kubeconfig_secret)
      ∷ [];
  pool_ref = node.pool_name;
  capacity = node.capacity;
  phase = "";
  conditions = [];
  creation_timestamp = 0;
}

unfoldable pub annotated : VNodeCr → VNode → VNodeCr
annotated cr node = record cr {
  annotations = insert annotation_kubeconfig_secret node.tenant_ref.kubeconfig_secret (
      insert annotation_vcluster_namespace node.tenant_ref.vcluster_namespace
        (insert annotation_vcluster_name node.tenant_ref.vcluster_name cr.annotations));
}

module _ {S : Type 0} (api : VNodeApi S) (retry : Action S → Action S) where
  -- One attempt of `updateStatus`.
  unfoldable pub write_status : VNode → Action S
  write_status node =
      attempt (api.get node.namespace node.name) (λ e. unless_context e (raise e))
        (λ current.
          attempt (api.update_status (apply_node_status current node))
            (λ e. unless_context e (raise e)) pure)

  unfoldable pub update_node_cr : VNode → Action S
  update_node_cr node = retry (write_status node)

  -- One attempt to write the annotations.
  unfoldable pub write_annotations : VNode → Action S
  write_annotations node =
      api.get node.namespace node.name >>= λ current. api.update (annotated current node)

  unfoldable pub create_node : VNode → Action S
  create_node node =
      attempt (api.create (new_cr node)) (λ e. raise (wrap "creating VNode CR" e))
        (λ made.
          attempt (api.update_status (apply_node_status made node))
            (λ e. if is_conflict e || is_not_found e then update_node_cr node else raise e) pure)

  unfoldable pub save_existing : VNode → Action S
  save_existing node =
      attempt (retry (write_annotations node)) (λ e. unless_context e (raise e))
        (λ _. update_node_cr node)

  -- The first read decides whether the resource is created.
  unfoldable pub save : VNode → Action S
  save node =
      attempt (api.get node.namespace node.name)
        (λ e. if is_not_found e then create_node node else raise e) (λ _. save_existing node)

  unfoldable pub get_node : String → String → Exec S VNode
  get_node ns name = api.get ns name >>= λ cr. pure (cr_to_node cr)

  unfoldable pub delete_cr : String → String → Action S
  delete_cr ns name = api.delete ns name

  unfoldable pub list_by_pool : String → String → Exec S (List VNode)
  list_by_pool ns pool_name =
      api.list ns ((label_pool, pool_name) ∷ []) >>= λ crs. pure (crs_to_nodes crs)

  unfoldable pub node_repository : NodeRepository S
  node_repository = record {
    get = get_node;
    save = save;
    delete = delete_cr;
    list_by_pool = list_by_pool;
  }
