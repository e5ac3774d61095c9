-- ===== src/GraphState/Transitions.antt =====
-- mote-kernel/src/mote_kernel/state/graph_state/execution_transitions.py,
-- recovery_transitions.py and lifecycle_transitions.py: one function per transition.
pub mod Activations
pub mod Joins
pub mod Settle
pub mod Resume
use motev.Base.{
  Error, Option, Result, String, [], err, is_empty, is_some, is_subset, length, list_eq, map,
  nat_eq, nat_ord, none, not, ok, on_resource_error, on_type_error, on_value_error, option_eq,
  raise_if, some, string_eq, string_ord, transition_error, ◌+◌, ◌/=◌, ◌>>=◌, ◌>>◌, ◌||◌,
}
use motev.GraphState.Command.{
  AbortGraphRun, AdvanceGraphFrontier, ClaimGraphExecution, CompleteGraphFrontier,
  FenceGraphExecution, StartGraphRun,
}
use motev.GraphState.FrontierModel.{
  GraphFrontierActivation, GraphFrontierNode, cause_eq, executable, frontier_status,
  frontier_status_eq, pending, pending_node_ids, settled, use_step_request_input,
}
use motev.GraphState.Identity.{activation_eq, join_eq, occurrence_eq, occurrence_ord, reference_eq}
use motev.GraphState.Model.{
  GraphConfigCursor, GraphExecutionToken, GraphRunState, aborted, admit_cursor,
  admit_optional_evidence, completed, new_cursor, progress_eq, run_status_eq, running, state_eq,
  token_eq,
}
use motev.GraphState.ResourceModel.{ResourceSnapshot, snapshot_eq}
use motev.GraphState.ResourceReducer.{validate_resource_snapshot}
use Activations.{start_activations, validate_next_activations}
use Joins.{current_successful_references, validate_join_consumption, validate_join_progress_delta}
use motev.GraphState.Validation.Run.{validated_graph_run_state}

-- `GraphFrontierNode(activation.node_id, PendingGraphNode(UseStepRequestInput()), activation.cause)`
unfoldable pub admitted_node : GraphFrontierActivation → GraphFrontierNode
admitted_node activation = record {
  node_id = activation.node_id;
  settlement = pending use_step_request_input;
  cause = activation.cause;
}

-- The Config cursor of a new run.
unfoldable pub start_cursor : StartGraphRun → Result GraphConfigCursor
unfolding new_cursor admit_cursor
start_cursor command =
    on_type_error
      (on_value_error
        (elim command.config_cursor [
          | none ↦ new_cursor command.definition_id command.definition_version 1 none
          | some cursor ↦ admit_cursor cursor
        ])
        malformed)
      malformed
  where
    malformed : String → Error
    malformed m = transition_error "graph start Config cursor is malformed"

unfoldable pub start_graph_run : StartGraphRun → Result GraphRunState
unfolding start_activations admitted_node start_cursor admit_optional_evidence
    validated_graph_run_state
start_graph_run command = do
  activations ← start_activations command.activations
  cursor ← start_cursor command
  evidence ←
      on_value_error (admit_optional_evidence command.graph_input_evidence)
        (λ m. transition_error "graph start input evidence is malformed")
  validated_graph_run_state (record {
    run_id = command.run_id;
    definition_id = command.definition_id;
    definition_version = command.definition_version;
    status = running;
    superstep = 0;
    frontier = record { nodes = map admitted_node activations };
    execution_sequence = 0;
    resume_input_codec = command.resume_input_codec;
    join_progress = [];
    graph_input_evidence = evidence;
    settled_publications = [];
    resources = none;
    execution = none;
    abort = none;
    parent = command.parent;
    revision = 0;
    completion_route = none;
    config_revision = cursor.revision;
    config_definition_id = cursor.definition_id;
    config_definition_version = cursor.definition_version;
    config_digest = cursor.digest;
  })

-- `_validate_claim_resources`
unfoldable pub validate_claim_resources :
    GraphRunState → Option ResourceSnapshot → Result (Unit {0})
unfolding validate_resource_snapshot pending_node_ids
validate_claim_resources state none = ok tt
validate_claim_resources state (some snapshot) = do
  on_resource_error (validate_resource_snapshot snapshot)
      (λ m. transition_error "claim resource snapshot is invalid")
  raise_if (is_empty snapshot.acquisitions)
      (transition_error "an active claim cannot persist an empty resource snapshot")
  raise_if
      (not
        (is_subset (map (λ a. a.node_id) snapshot.acquisitions) (pending_node_ids state.frontier)))
      (transition_error "claim resource participant is outside current pending nodes")

-- `_require_execution_lease`
unfoldable pub require_execution_lease : GraphRunState → GraphExecutionToken → Result (Unit {0})
require_execution_lease state token = elim state.execution [
  | none ↦ err (transition_error "graph command does not own the active execution lease")
  | some lease ↦
      raise_if (lease.token /= token)
        (transition_error "graph command does not own the active execution lease")
]

unfoldable pub claim_graph_execution : GraphRunState → ClaimGraphExecution → Result GraphRunState
unfolding frontier_status pending_node_ids validate_claim_resources
claim_graph_execution state command = do
  raise_if (state.status /= running || is_some state.execution || is_some state.resources)
      (transition_error "only a quiescent running graph can claim execution")
  derived ← frontier_status state.frontier
  raise_if (derived /= executable)
      (transition_error "only an executable frontier can claim execution")
  raise_if (is_empty (pending_node_ids state.frontier))
      (transition_error "an execution claim requires pending nodes")
  validate_claim_resources state command.resources
  ok (record state {
    execution_sequence = state.execution_sequence + 1;
    execution = some (record {
      token = record { generation = state.execution_sequence + 1; attempt_id = command.attempt_id };
    });
    resources = command.resources;
  })

unfoldable pub fence_graph_execution : GraphRunState → FenceGraphExecution → Result GraphRunState
unfolding require_execution_lease
fence_graph_execution state command = do
  raise_if (state.status /= running) (transition_error "only a running graph can fence execution")
  require_execution_lease state command.execution
  ok (record state { execution = none; resources = none })

-- `_resolution_base`
unfoldable pub resolution_base : GraphRunState → Result (Unit {0})
unfolding frontier_status
resolution_base state = do
  raise_if (state.status /= running)
      (transition_error "frontier resolution requires a running graph")
  derived ← frontier_status state.frontier
  raise_if (derived /= settled) (transition_error "frontier resolution requires a settled frontier")
  raise_if (is_some state.execution || is_some state.resources)
      (transition_error "a settled frontier must be quiescent")

unfoldable pub advance_graph_frontier : GraphRunState → AdvanceGraphFrontier → Result GraphRunState
unfolding resolution_base validate_next_activations validate_join_progress_delta admitted_node
advance_graph_frontier state command = do
  resolution_base state
  consumed ← validate_next_activations state command.activations
  validate_join_progress_delta state command.join_progress consumed command.consumed_join_progress
  ok (record state {
    superstep = state.superstep + 1;
    frontier = record { nodes = map admitted_node command.activations };
    join_progress = command.join_progress;
    completion_route = none;
  })

unfoldable pub complete_graph_frontier :
    GraphRunState → CompleteGraphFrontier → Result GraphRunState
unfolding resolution_base validate_join_consumption current_successful_references
complete_graph_frontier state command = do
  resolution_base state
  consumed ←
      validate_join_consumption state command.consumed_join_progress
        (current_successful_references state)
  raise_if (length consumed /= length state.join_progress)
      (transition_error "a completed graph cannot discard unresolved join progress")
  ok (record state {
    status = completed;
    frontier = record { nodes = [] };
    join_progress = [];
    completion_route = command.completion_route;
  })

-- lifecycle_transitions.py
unfoldable pub abort_graph_run : GraphRunState → AbortGraphRun → Result GraphRunState
abort_graph_run state command = do
  raise_if (state.status /= running || is_some state.execution)
      (transition_error "only a quiescent running graph can abort")
  ok (record state {
    status = aborted;
    resources = none;
    abort = some (record { reason = command.reason });
  })
