-- ===== src/Lib.antt =====
-- vnode is an operator that keeps pools of virtual nodes: for a VNodePool of the host cluster it registers
-- nodes in the cluster of a tenant, and runs the pods that are scheduled to them as pods of the host.
--
-- Base: texts, numbers, maps, errors and calls. Base/Int.antt has `int32` as integers with the wrap-around
-- written out, Base/Map.antt Go's maps as association lists, Base/Errors.antt errors with the kind that
-- `errors.Is` and `apierrors` test for, Base/Exec.antt calls that change a world and may fail, with
-- the rules for their invariants in Base/Exec/Keeps.antt. Base/Decimal.antt is `%d`; a number is printed
-- on fuel, one more than the number, which is at least its number of digits.
-- Model: internal/domain/model, a file each for resource.go, vnodepool.go, vnode.go and pod.go, with the
-- proofs in the modules below. Modes, phases and types of volumes are texts, as in Go.
-- Ports: internal/domain/ports. An interface is a record of calls over an unknown world, and
-- Ports/Laws.antt says what the services rely on.
-- Service/Node.antt: internal/domain/service/node_service.go. `Provision` is `provision`, which is given
-- the repository and the registrar; its parts `save_node`, `registration_failed` and `confirm_node` are
-- the stretches between its early returns. `UpdateStatus` and `Deprovision` likewise. The conditions and
-- phases that they mark a node with are in Service/NodeMarks.antt.
-- Service/Pool.antt: internal/domain/service/pool_service.go. The two loops of `Reconcile` are `scale_up`
-- and `scale_down`, which recur on the rounds that are left, so no fuel is needed.
-- Service/Pod.antt: internal/domain/service/pod_service.go, and the adapter of
-- internal/adapter/outbound/runtime/kata.go that it is given.
-- Service/Execution: internal/domain/service/execution_service.go. Compare.antt has `podSpecsEqual`,
-- Core.antt the conversions of pods of the API, Host.antt `ensureHostPod`, `CleanupPoolPods` and
-- `syncPodResources`, and Sync.antt `ReconcilePool`: a round of its loop over the source pods is
-- `checked_round`, cut at the calls, with the counters handed on; the loops recur on their lists.
-- Kube.antt: the data of the Kubernetes API that these read and write, and the calls that they make.
-- Adapter: internal/adapter. PodClient.antt is outbound/kubeclient/pod_client.go, over a record of the API
-- calls that it makes, and PodCodec.antt its functions from and to the types of the API.
-- Kubeconfig.antt is outbound/kubeclient/kubeconfig.go. VnodeReconciler.antt is
-- inbound/reconciler/vnode_reconciler.go, whose loop of `requeueBackoff` runs on fuel five: the delay
-- doubles from 2 s and the loop ends once it is past 60 s.
-- NodeRepository.antt and PoolRepository.antt are outbound/kubeclient/client.go: `Save` is `save`, whose
-- branches are `create_node` and `save_existing`. TenantClients.antt and Registrar.antt are
-- outbound/virtualkubelet/registrar.go: a world has the clients that are kept beside all the rest.
-- PoolReconciler.antt is inbound/reconciler/vnodepool_reconciler.go, with the statuses that it writes in
-- PoolStatus.antt: `Reconcile` is `reconcile_pool_cr`, cut where a call returns. PodSync.antt is
-- inbound/reconciler/podsync_reconciler.go. Deployed.antt puts the node service on the repository and the
-- registrar, as cmd/vnode does.
-- Api.antt: api/v1alpha1, the resources and the calls on them; Api/NodeLaws.antt says what the API server
-- promises, and Api/Retry.antt what `RetryOnConflict` does. It is a parameter: no number of attempts is fixed.
-- Adapter/Controllers.antt has what the reconcilers tell the library's builder of controllers.
-- Config.antt: internal/config/config.go. Cmd.antt: cmd/vnode/main.go, with the manager and the other
-- libraries as parameters. Its result is the status that the program exits with; Cmd/Turns.antt has what
-- follows the start as steps, one reconciliation each, and Cmd/Laws.antt what is relied on of the clusters.
-- Examples: repositories and API calls in memory that meet the laws, runs, and the theorems at concrete data.
--
-- The clusters are parameters: what the API servers do is stated as laws of records of calls, never
-- defined. Contexts are not modelled; a cancelled one shows as an error of kind `canceled`. Log lines
-- are left out, and so are the panic of `resource.MustParse` on a text that is no quantity, and the time
-- of a condition's last transition. Not modelled are the registration of types with a scheme, and the
-- generated copies under api/v1alpha1: values are never shared here.
pub mod Base
pub mod Model
pub mod Observability
pub mod Ports
pub mod Kube
pub mod Api
pub mod Service
pub mod Adapter
pub mod Config
pub mod Cmd
mod Examples
