-- ===== src/Model/Node.antt =====
-- internal/domain/model/vnode.go
pub mod Readiness
use vnode.Base.{String, Bool, true, false, List, [], ◌∷◌, ◌==◌, if◌then◌else◌}
use vnode.Model.Resource.{ResourceList}
use vnode.Model.Pool.{TenantRef, Taint}

abbrev pub NodePhase : Type 0
NodePhase = String

abbrev pub node_pending : NodePhase
node_pending = "Pending"

abbrev pub node_ready : NodePhase
node_ready = "Ready"

abbrev pub node_not_ready : NodePhase
node_not_ready = "NotReady"

abbrev pub node_terminating : NodePhase
node_terminating = "Terminating"

abbrev pub NodeConditionType : Type 0
NodeConditionType = String

abbrev pub condition_registered : NodeConditionType
condition_registered = "Registered"

abbrev pub condition_ready : NodeConditionType
condition_ready = "Ready"

abbrev pub condition_kubeconfig : NodeConditionType
condition_kubeconfig = "KubeconfigResolved"

abbrev pub condition_lease : NodeConditionType
condition_lease = "LeaseActive"

abbrev pub condition_degraded : NodeConditionType
condition_degraded = "Degraded"

pub record NodeCondition : Type 0 where
  pub type : NodeConditionType
  pub status : Bool
  pub reason : String
  pub message : String

pub record VNode : Type 0 where
  pub id : String
  pub name : String
  pub namespace : String
  pub pool_name : String
  pub tenant_ref : TenantRef
  pub taints : List Taint
  pub phase : NodePhase
  pub capacity : ResourceList
  pub allocatable : ResourceList
  pub conditions : List NodeCondition

-- The loop of `IsReady`: the status of the first Ready condition.
ready_condition : List NodeCondition → Bool
ready_condition [] = false
ready_condition (c ∷ cs) =
    let rest = ready_condition cs in if c.type == condition_ready then c.status else rest

unfoldable pub is_ready : VNode → Bool
unfolding ready_condition
is_ready n = if n.phase == node_ready then true else ready_condition n.conditions
