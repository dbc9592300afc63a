-- ===== src/Examples.antt =====
-- Runs at concrete data, over a world in memory, and the theorems at concrete data.
mod Memory
mod Metrics
mod Pools
mod Scaling
mod Pods
mod Nodes
mod Host
mod Copies
mod Execution
mod Clients
mod Resources
mod Reconcilers
mod Tenants
mod Cluster
mod Operator
mod Release
