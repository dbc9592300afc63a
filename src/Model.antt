-- ===== src/Model.antt =====
-- internal/domain/model: the data of the operator and the pure functions on it.
pub mod Resource
pub mod Pool
pub mod Node
pub mod Pod
