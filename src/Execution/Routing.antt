-- ===== src/Execution/Routing.antt =====
-- mote-kernel/src/mote_kernel/execution/engine/routing.py: the control successors of one settled
-- frontier, and the admission of a state by the compiled graph.
pub mod Diagnosis
pub mod Contribution
pub mod Joins
pub mod Gates
pub mod Evaluation
pub mod Control
