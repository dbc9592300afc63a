-- ===== src/Service/Execution.antt =====
-- internal/domain/service/execution_service.go: the pods of a tenant run as pods of the host.
pub mod Compare
pub mod Core
pub mod Host
pub mod Sync
