-- ===== src/Adapter/PodCodec/Status.antt =====
-- internal/adapter/outbound/kubeclient/pod_client.go: `podToStatus`, and statuses written to the API and read
-- back.
use vnode.Base.{◌≡◌, ◌⊎◌, refl, String, List, [], ◌∷◌, All, arith, eq_iff, if◌then◌else◌}
use vnode.Model.Pod.{ContainerStatus, PodStatus}
use vnode.Kube.{CoreContainerStatus, CorePod}
use vnode.Service.Execution.Core.{container_statuses_to_core, with_status}

-- The `switch` of `podToStatus`.
unfoldable pub state_of : CoreContainerStatus → String
state_of c =
    if c.running
    then "running"
    else if c.waiting
    then "waiting"
    else if c.terminated
    then "terminated"
    else ""

unfoldable pub container_statuses_from_core : List CoreContainerStatus → List ContainerStatus
unfolding state_of
container_statuses_from_core [] = []
container_statuses_from_core (c ∷ cs) =
    record { name = c.name; ready = c.ready; restart_count = c.restart_count; state = state_of c }
    ∷ container_statuses_from_core cs

unfoldable pub pod_to_status : {Q : Type 0} → CorePod Q → PodStatus
unfolding container_statuses_from_core
pod_to_status pod = record {
  phase = pod.status.phase;
  pod_ip = pod.status.pod_ip;
  container_statuses = container_statuses_from_core pod.status.container_statuses;
  message = pod.status.message;
  reason = pod.status.reason;
}

-- The states of a container that a status may name.
abbrev pub IsState : ContainerStatus → Type 0
IsState c =
    (c.state ≡ "running") ⊎ (c.state ≡ "waiting") ⊎ (c.state ≡ "terminated") ⊎ (c.state ≡ "")

statuses_back :
    (cs : List ContainerStatus)
    → All IsState cs
    → container_statuses_from_core (container_statuses_to_core cs) ≡ cs
unfolding container_statuses_from_core container_statuses_to_core state_of
statuses_back [] xs = refl
statuses_back (c ∷ cs) (x, xs) = ground (
  arith,
  statuses_back cs xs,
  x,
  eq_iff c.state "running",
  eq_iff c.state "waiting",
  eq_iff c.state "terminated",
  eq_iff "waiting" "running",
  eq_iff "terminated" "running",
  eq_iff "terminated" "waiting",
  eq_iff "" "running",
  eq_iff "" "waiting",
  eq_iff "" "terminated",
)

-- The status of the host pod that is written to the tenant's pod reads there as it was, if each container
-- is running, waiting, terminated or in no state.
pub pod_to_status-with_status :
    {Q : Type 0} (p : CorePod Q) (s : PodStatus)
    → All IsState s.container_statuses
    → pod_to_status (with_status p s) ≡ s
unfolding pod_to_status with_status
pod_to_status-with_status p s xs = cc (statuses_back s.container_statuses xs)
