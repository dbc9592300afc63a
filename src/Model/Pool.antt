-- ===== src/Model/Pool.antt =====
-- internal/domain/model/vnodepool.go: pools, their validation and the scaling decision. Go's modes and
-- phases are texts with named constants, and a CR may hold any text, so they are texts here too.
pub mod Validation
pub mod Scaling
use vnode.Base.{
  ℕ, String, ◌<>◌, Bool, true, false, ◌&&◌, ◌||◌, Option, none, some, List, [], ◌∷◌, ◌==◌,
  if◌then◌else◌,
}
use vnode.Base.Int.{ℤ, pos, ltb_ℤ, ◌-ℤ◌, wrap32}
use vnode.Base.Map.{Map}
use vnode.Base.Errors.{Error, errorf}
use vnode.Model.Resource.{ResourceList}

abbrev pub PoolMode : Type 0
PoolMode = String

abbrev pub mode_shared : PoolMode
mode_shared = "shared"

abbrev pub mode_dedicated : PoolMode
mode_dedicated = "dedicated"

abbrev pub mode_burstable : PoolMode
mode_burstable = "burstable"

abbrev pub PoolPhase : Type 0
PoolPhase = String

abbrev pub pool_pending : PoolPhase
pool_pending = "Pending"

abbrev pub pool_ready : PoolPhase
pool_ready = "Ready"

abbrev pub pool_scaling : PoolPhase
pool_scaling = "Scaling"

abbrev pub pool_failed : PoolPhase
pool_failed = "Failed"

abbrev pub pool_deleting : PoolPhase
pool_deleting = "Deleting"

pub record TenantRef : Type 0 where
  pub vcluster_name : String
  pub vcluster_namespace : String
  pub kubeconfig_secret : String

pub record Taint : Type 0 where
  pub key : String
  pub value : String
  pub effect : String

pub record Toleration : Type 0 where
  pub key : String
  pub operator : String
  pub value : String
  pub effect : String
  pub toleration_seconds : Option ℤ

pub record VNodePool : Type 0 where
  pub id : String
  pub name : String
  pub display_name : String
  pub namespace : String
  pub tenant_ref : TenantRef
  pub mode : PoolMode
  pub isolation_backend : String
  pub runtime_class_name : String
  pub node_count : ℤ
  pub per_node_resources : ResourceList
  pub node_selector : Map String
  pub taints : List Taint
  pub tolerations : List Toleration
  pub phase : PoolPhase
  pub ready_nodes : ℤ
  pub nodes : List String
  pub deletion_pending : Bool

-- `len(p.NodeSelector) == 0`
abbrev is_empty {ℓ} : {V : Type ℓ} → Map V → Bool
is_empty [] = true
is_empty (x ∷ m) = false

-- The early returns in the order of the code; `none` is a nil error.
unfoldable pub validate : VNodePool → Option Error
validate p =
    if p.name == ""
    then some (errorf "pool name is required")
    else if p.tenant_ref.kubeconfig_secret == ""
    then some (errorf "tenantRef.kubeconfigSecret is required")
    else if ltb_ℤ p.node_count (pos 0)
    then some (errorf "nodeCount must be >= 0")
    else if (p.mode == mode_dedicated) && is_empty p.node_selector
    then some (errorf "dedicated mode requires nodeSelector")
    else if (p.mode == mode_shared)
        || ((p.mode == mode_dedicated) || ((p.mode == mode_burstable) || (p.mode == "")))
    then none
    else some (errorf ("invalid pool mode: " <> p.mode))

-- The nodes to add and the nodes to remove. Each difference is one of `int32`.
unfoldable pub desired_scale_actions : VNodePool → ℤ → ℤ × ℤ
desired_scale_actions p current_nodes =
    if ltb_ℤ current_nodes p.node_count
    then (wrap32 (p.node_count -ℤ current_nodes), pos 0)
    else if ltb_ℤ p.node_count current_nodes
    then (pos 0, wrap32 (current_nodes -ℤ p.node_count))
    else (pos 0, pos 0)
