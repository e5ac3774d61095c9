-- ===== src/Execution.antt =====
-- mote-kernel/src/mote_kernel/execution/: the scoped identities of graph runs, the compiled graph
-- as its control plane reads it, and the engine: tasks, resource admission, routing, the snapshot
-- guard, planning, settlement and claims.
pub mod Identity
pub mod Graph
pub mod Task
pub mod Admission
pub mod Routing
pub mod Snapshot
pub mod Planner
pub mod Settlement
pub mod Claim
pub mod Scheduler
pub mod Scenarios
