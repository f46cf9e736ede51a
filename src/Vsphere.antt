-- ===== src/Vsphere.antt =====
-- The vSphere event source: pkg/vsphere, the receive adapter that reads the vCenter event history.
pub mod Checkpoint
pub mod Events
pub mod Adapter
pub mod Client
pub mod Starting
