-- ===== src/Failover.antt =====
-- mote-kernel/src/mote_kernel/failover/: the fixed failover policy of a Port, and its retry loop.
pub mod Contract
pub mod Plan
pub mod Policy
pub mod Assembly
pub mod Attempts
pub mod Backoff
pub mod Usage
pub mod Routing
mod Scenarios
