-- ===== src/GraphState.antt =====
-- mote-kernel/src/mote_kernel/state/graph_state/: the authoritative, recoverable state of one graph
-- run and its pure transitions.
pub mod Identity
pub mod FrontierModel
pub mod ResourceModel
pub mod Model
pub mod Command
pub mod ResourceReducer
pub mod Validation
pub mod Transitions
pub mod Reducer
pub mod Scenarios
