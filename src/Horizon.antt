-- ===== src/Horizon.antt =====
-- The Horizon event source: pkg/horizon, the receive adapter that polls the Horizon REST API.
pub mod Events
pub mod Api
pub mod Adapter
pub mod Rest
pub mod Starting
