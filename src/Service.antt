-- ===== src/Service.antt =====
-- internal/domain/service: the services over their ports.
pub mod NodeMarks
pub mod Node
pub mod Pool
pub mod Pod
pub mod Execution
