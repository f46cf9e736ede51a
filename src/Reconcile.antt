-- ===== src/Reconcile.antt =====
-- The controllers under pkg/reconciler: what they read, create and update in the cluster.
pub mod Sync
pub mod Conditions
pub mod Resources
pub mod Horizon
mod Observability
pub mod Vsphere
