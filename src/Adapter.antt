-- ===== src/Adapter.antt =====
-- internal/adapter: the clients of the host cluster and of the tenants' clusters, and the reconcilers.
pub mod PodCodec
pub mod PodClient
pub mod Kubeconfig
pub mod VnodeReconciler
pub mod NodeRepository
pub mod PoolRepository
pub mod PoolStatus
pub mod PoolReconciler
pub mod PodSync
pub mod TenantClients
pub mod Registrar
pub mod HostCalls
pub mod Controllers
pub mod Deployed
