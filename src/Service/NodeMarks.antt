-- ===== src/Service/NodeMarks.antt =====
-- internal/domain/service/node_service.go: the conditions and phases that a virtual node is marked with.
use vnode.Base.{Bool, true, false, not, ◌&&◌, ◌||◌, List, [], ◌∷◌, ◌==◌, if◌then◌else◌}
use vnode.Base.Errors.{Error, message}
use vnode.Model.Resource.{no_resources}
use vnode.Model.Node.{
  VNode, NodeCondition, node_pending, node_ready, node_not_ready, node_terminating,
  condition_registered, condition_ready, condition_kubeconfig, condition_lease, condition_degraded,
}

unfoldable pub ready_node_conditions : List NodeCondition
ready_node_conditions =
    record {
      type = condition_kubeconfig;
      status = true;
      reason = "KubeconfigResolved";
      message = "Tenant kubeconfig resolved";
    }
    ∷ record {
      type = condition_registered;
      status = true;
      reason = "RegistrationSucceeded";
      message = "Node registered in tenant cluster";
    }
    ∷ record {
      type = condition_lease;
      status = true;
      reason = "LeaseActive";
      message = "Node lease is active";
    }
    ∷ record { type = condition_ready; status = true; reason = "Ready"; message = "Node is ready" }
    ∷ record {
      type = condition_degraded;
      status = false;
      reason = "Healthy";
      message = "Node registration is healthy";
    }
    ∷ []

unfoldable pub registration_failed_conditions : Error → List NodeCondition
registration_failed_conditions e =
    record {
      type = condition_kubeconfig;
      status = false;
      reason = "RegistrationFailed";
      message = message e;
    }
    ∷ record {
      type = condition_registered;
      status = false;
      reason = "RegistrationFailed";
      message = message e;
    }
    ∷ record {
      type = condition_ready;
      status = false;
      reason = "RegistrationFailed";
      message = message e;
    }
    ∷ record {
      type = condition_degraded;
      status = true;
      reason = "RegistrationFailed";
      message = message e;
    }
    ∷ []

unfoldable pub sync_failed_conditions : Error → List NodeCondition
sync_failed_conditions e =
    record {
      type = condition_ready;
      status = false;
      reason = "StatusSyncFailed";
      message = message e;
    }
    ∷ record {
      type = condition_degraded;
      status = true;
      reason = "StatusSyncFailed";
      message = message e;
    }
    ∷ []

-- The loop of `shouldRetryRegistration`: the first Registered condition decides.
unregistered : List NodeCondition → Bool
unregistered [] = true
unregistered (c ∷ cs) =
    let rest = unregistered cs in if c.type == condition_registered then not c.status else rest

unfoldable pub should_retry_registration : VNode → Bool
unfolding unregistered
should_retry_registration n =
    ((n.phase == node_pending) || (n.phase == node_not_ready)) && unregistered n.conditions

unfoldable pub has_registered_condition : List NodeCondition → Bool
has_registered_condition [] = false
has_registered_condition (c ∷ cs) =
    let rest = has_registered_condition cs in if c.type == condition_registered then true else rest

abbrev pub mark_ready : VNode → VNode
mark_ready n = record n { phase = node_ready; conditions = ready_node_conditions }

abbrev pub mark_registration_failed : VNode → Error → VNode
mark_registration_failed n e = record n {
  phase = node_not_ready;
  conditions = registration_failed_conditions e;
}

abbrev pub mark_sync_failed : VNode → Error → VNode
mark_sync_failed n e = record n { phase = node_not_ready; conditions = sync_failed_conditions e }

unfoldable pub mark_terminating : VNode → VNode
mark_terminating n = record n {
  phase = node_terminating;
  conditions =
      record {
        type = condition_ready;
        status = false;
        reason = "Terminating";
        message = "Node is being removed";
      }
      ∷ [];
}

-- The zero value of the struct.
abbrev pub no_node : VNode
no_node = record {
  id = "";
  name = "";
  namespace = "";
  pool_name = "";
  tenant_ref = record { vcluster_name = ""; vcluster_namespace = ""; kubeconfig_secret = "" };
  taints = [];
  phase = "";
  capacity = no_resources;
  allocatable = no_resources;
  conditions = [];
}
