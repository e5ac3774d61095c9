-- ===== src/GraphState/Reducer.antt =====
-- mote-kernel/src/mote_kernel/state/graph_state/reducer.py: the one entry point of the transitions,
-- and the admission of a confirmed successor.
pub mod Evolution
pub mod Leases
pub mod Terminal
pub mod Settlement
pub mod Ledger
pub mod Confirmation
pub mod Progress
pub mod Claiming
use motev.Base.{
  Error, List, Option, Result, [], err, if◌then◌else◌, is_some, list_eq, nat_eq, nat_ord, none, ok,
  option_eq, or_raise, raise_if, select, some, string_eq, string_ord, transition_error, ◌&&◌, ◌+◌,
  ◌/=◌, ◌==◌, ◌>>=◌, ◌>>◌, ◌∷◌,
}
use motev.GraphState.Command.{
  GraphNodeOutcome, GraphRunCommand, SettleGraphNode, Transition, abort_run, advance, claim,
  complete, expected_revision_of, fence, resume, settle, start, succeeded_outcome, transition,
}
use motev.GraphState.FrontierModel.{cause_eq, frontier_status_eq}
use motev.GraphState.Identity.{
  GraphNodeId, activation_eq, join_eq, occurrence_eq, occurrence_ord, reference_eq,
}
use motev.GraphState.Model.{
  GraphEvidenceCommitment, GraphPublicationSettlement, GraphRunState, admit_evidence, progress_eq,
  run_status_eq, state_eq, token_eq,
}
use motev.GraphState.ResourceModel.{snapshot_eq}
use motev.GraphState.Transitions.{
  abort_graph_run, advance_graph_frontier, claim_graph_execution, complete_graph_frontier,
  fence_graph_execution, start_graph_run,
}
use motev.GraphState.Transitions.Resume.{resume_graph_nodes}
use motev.GraphState.Transitions.Settle.{settle_graph_node}
use motev.GraphState.Validation.Run.{validate_graph_run_state, validated_graph_run_state}

-- The dispatch of `reduce_graph_run` on the command.
unfoldable pub apply_transition : GraphRunState → Transition → Result GraphRunState
apply_transition state (claim command) = claim_graph_execution state command
apply_transition state (fence command) = fence_graph_execution state command
apply_transition state (settle command) = settle_graph_node state command
apply_transition state (resume command) = resume_graph_nodes state command
apply_transition state (advance command) = advance_graph_frontier state command
apply_transition state (complete command) = complete_graph_frontier state command
apply_transition state (abort_run command) = abort_graph_run state command

-- `reduce_graph_run` on an existing run.
unfoldable pub reduce_transition : GraphRunState → Transition → Result GraphRunState
reduce_transition state command = do
  validate_graph_run_state state
  raise_if (expected_revision_of command /= state.revision)
      (transition_error "graph command was based on a stale revision")
  updated ← apply_transition state command
  validated_graph_run_state (record updated { revision = state.revision + 1 })

unfoldable pub reduce_graph_run : Option GraphRunState → GraphRunCommand → Result GraphRunState
unfolding reduce_transition
reduce_graph_run none (start command) = start_graph_run command
reduce_graph_run (some state) (start command) =
    err (transition_error "an existing graph run cannot be started again")
reduce_graph_run none (transition command) =
    err (transition_error "a graph run must be started before it can transition")
reduce_graph_run (some state) (transition command) = reduce_transition state command

abbrev pub not_exact : Error
not_exact = transition_error "confirmed graph state is not the exact reducer successor"

-- The publications of a node in the confirmed state's superstep.
unfoldable pub matching_publications : GraphRunState → GraphNodeId → List GraphPublicationSettlement
unfolding select
matching_publications confirmed node_id =
    select
      (λ item.
        item.reference.activation.run_id == confirmed.run_id
        && item.reference.activation.superstep == confirmed.superstep
        && item.reference.activation.node_id == node_id)
      confirmed.settled_publications

-- The commitment of the one matching publication, if the command carries none.
unfoldable pub single_evidence :
    List GraphPublicationSettlement
    → Option GraphEvidenceCommitment
    → Option GraphEvidenceCommitment
single_evidence (item ∷ []) none = item.evidence
single_evidence _ _ = none

unfoldable pub bind_settle : GraphRunState → SettleGraphNode → GraphNodeOutcome → Result Transition
unfolding matching_publications single_evidence admit_evidence
bind_settle confirmed command (succeeded_outcome node_id routing) = do
  commitment ←
      or_raise
        (single_evidence (matching_publications confirmed node_id) command.publication_evidence)
        not_exact
  evidence ← admit_evidence commitment
  ok (settle (record command { publication_evidence = some evidence }))
bind_settle confirmed command _ = err not_exact

unfoldable pub bind_transition : GraphRunState → Transition → Result Transition
unfolding bind_settle
bind_transition confirmed (settle command) = bind_settle confirmed command command.outcome
bind_transition confirmed _ = err not_exact

-- The command with the durable evidence that the confirmed state adds.
unfoldable pub bind_evidence : GraphRunState → GraphRunCommand → Result GraphRunCommand
unfolding bind_transition admit_evidence
bind_evidence confirmed (start command) = do
  commitment ← or_raise confirmed.graph_input_evidence not_exact
  raise_if (is_some command.graph_input_evidence) not_exact
  evidence ← admit_evidence commitment
  ok (start (record command { graph_input_evidence = some evidence }))
bind_evidence confirmed (transition command) = do
  bound ← bind_transition confirmed command
  ok (transition bound)

unfoldable pub admit_graph_run_confirmation :
    Option GraphRunState → GraphRunCommand → GraphRunState → Result GraphRunState
unfolding bind_evidence
admit_graph_run_confirmation state command confirmed = do
  validate_graph_run_state confirmed
  expected ← reduce_graph_run state command
  let refined = do
    bound ← bind_evidence confirmed command
    successor ← reduce_graph_run state bound
    raise_if (confirmed /= successor) not_exact
    ok confirmed
  if confirmed == expected then ok confirmed else refined
