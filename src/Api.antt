-- ===== src/Api.antt =====
-- api/v1alpha1: the custom resources, and the calls that the program makes on them. Of the metadata
-- the fields that the source names.
pub mod Retry
pub mod NodeLaws
use vnode.Base.{ℕ, String, Bool, Option, List, [], ◌∷◌, ◌==◌}
use vnode.Base.Int.{ℤ}
use vnode.Base.Map.{Map}
use vnode.Base.Exec.{Exec, Action}
use vnode.Model.Resource.{ResourceList}
use vnode.Model.Pool.{TenantRef, Taint, Toleration}
use vnode.Model.Node.{NodeCondition}

-- `metav1.Condition`, without the time of its last transition: the program writes the current time
-- there whenever it changes another field, and never reads it.
pub record ApiCondition : Type 0 where
  pub type : String
  pub status : String
  pub reason : String
  pub message : String

-- `v1alpha1.VNode`. `NodeResources` has the fields of the model's list of resources.
pub record VNodeCr : Type 0 where
  pub uid : String
  pub name : String
  pub namespace : String
  pub labels : Map String
  pub annotations : Map String
  pub pool_ref : String
  pub capacity : ResourceList
  pub phase : String
  pub conditions : List ApiCondition
  pub creation_timestamp : ℕ

-- `v1alpha1.VNodePoolStatus`
pub record PoolStatus : Type 0 where
  pub phase : String
  pub ready_nodes : ℤ
  pub total_nodes : ℤ
  pub conditions : List ApiCondition

-- `v1alpha1.VNodePool`, the fields of its specification among those of its metadata.
pub record PoolCr : Type 0 where
  pub uid : String
  pub name : String
  pub namespace : String
  pub finalizers : List String
  pub deleting : Bool
  pub tenant_ref : TenantRef
  pub node_count : ℤ
  pub per_node_resources : ResourceList
  pub mode : String
  pub isolation_backend : String
  pub runtime_class_name : String
  pub node_selector : Map String
  pub taints : List Taint
  pub tolerations : List Toleration
  pub display_name : String
  pub status : PoolStatus

-- The conditions of a resource as those of the model.
unfoldable pub conditions_of : List ApiCondition → List NodeCondition
conditions_of [] = []
conditions_of (c ∷ cs) =
    record { type = c.type; status = c.status == "True"; reason = c.reason; message = c.message }
    ∷ conditions_of cs

-- The client's calls on `VNode`s. `create` fills its argument with what the server made of it.
-- `update` writes all but the status, and `update_status` the status alone.
pub record VNodeApi (S : Type 0) : Type 0 where
  pub get : String → String → Exec S VNodeCr
  pub create : VNodeCr → Exec S VNodeCr
  pub update : VNodeCr → Action S
  pub update_status : VNodeCr → Action S
  pub delete : String → String → Action S
  pub list : String → Map String → Exec S (List VNodeCr)

-- The client's calls on `VNodePool`s. `update` writes all but the status, and returns what the server
-- made of it. `patch_status` is given the resource before and after the change.
pub record PoolApi (S : Type 0) : Type 0 where
  pub get : String → String → Exec S PoolCr
  pub update : PoolCr → Exec S PoolCr
  pub update_status : PoolCr → Action S
  pub patch_status : PoolCr → PoolCr → Action S
  pub list : Exec S (List PoolCr)

-- `controllerutil`: `ContainsFinalizer`, `AddFinalizer` and `RemoveFinalizer`, on the list of finalizers.
pub record Finalizers : Type 0 where
  pub contains : List String → String → Bool
  pub add : List String → String → List String
  pub remove : List String → String → List String
