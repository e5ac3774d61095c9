-- ===== src/GraphState/Transitions/Settle.antt =====
-- execution_transitions.py: `settle_graph_node`.
use motev.Base.{
  Bool, List, Option, Result, [], any, false, if◌then◌else◌, is_empty, is_none, is_some, list_eq,
  map, nat_eq, nat_ord, none, not, ok, on_resource_error, on_type_error, on_value_error, option_eq,
  raise_if, some, sort_by, string_eq, string_ord, transition_error, ◌++◌, ◌+◌, ◌/=◌, ◌==◌, ◌>>=◌,
  ◌>>◌, ◌||◌, ◌∷◌,
}
use motev.GraphState.Command.{
  GraphNodeOutcome, SettleGraphNode, failed_outcome, interrupted_outcome, outcome_node_id,
  succeeded_outcome,
}
use motev.GraphState.FrontierModel.{
  GraphFrontierNode, GraphFrontierState, GraphFrontierStatus, GraphNodeSettlement, awaiting_resume,
  cause_eq, executable, failed_frontier, failed_node, frontier_node, frontier_status,
  frontier_status_eq, interrupted, is_pending, selected_route, settled, succeeded,
}
use motev.GraphState.Identity.{
  GraphNodeId, activation_eq, join_eq, new_activation, new_reference, occurrence_eq, occurrence_ord,
  reference_eq,
}
use motev.GraphState.Model.{
  GraphConfigCursor, GraphPublicationSettlement, GraphRunState, GraphRunStatus,
  compare_publications, config_cursor, failed, progress_eq, run_status_eq, running, state_eq,
  token_eq, transition_to,
}
use motev.GraphState.ResourceModel.{ResourceSnapshot, release_resources, snapshot_eq}
use motev.GraphState.ResourceReducer.{reduce_resources}
use motev.GraphState.Transitions.{require_execution_lease}

-- What an outcome settles a node as, and the publication ledger after it.
unfoldable pub settle_outcome :
    GraphRunState
    → SettleGraphNode
    → GraphNodeOutcome
    → Result (GraphNodeSettlement × List GraphPublicationSettlement)
unfolding new_activation new_reference selected_route any sort_by compare_publications
settle_outcome state command (succeeded_outcome node_id routing) = do
  activation ← new_activation state.run_id state.superstep node_id
  evidence ← new_reference activation (selected_route routing)
  raise_if (any (λ item. item.reference == evidence) state.settled_publications)
      (transition_error "node activation has already been committed as settled")
  ok (
    succeeded routing,
    sort_by compare_publications (
        state.settled_publications
        ++ record {
          reference = evidence;
          commit_revision = command.expected_revision + 1;
          execution = command.execution;
          evidence = command.publication_evidence;
        }
          ∷ []),
  )
settle_outcome state command (failed_outcome node_id failure) = do
  raise_if (is_some command.publication_evidence)
      (transition_error "failed node settlement cannot carry publication evidence")
  ok (failed_node failure, state.settled_publications)
settle_outcome state command (interrupted_outcome node_id identity payload) = do
  raise_if (is_some command.publication_evidence)
      (transition_error "interrupted node settlement cannot carry publication evidence")
  raise_if
      (identity.run_id /= state.run_id
        || identity.superstep /= state.superstep
        || identity.node_id /= node_id
        || identity.execution_generation /= command.execution.generation)
      (transition_error "interrupt outcome identity does not match the active execution")
  raise_if (is_none state.resume_input_codec)
      (transition_error "an interrupted node requires a resume input codec")
  ok (
    interrupted (record { identity = identity; request_payload = payload }),
    state.settled_publications,
  )

-- The Config cursor after a settlement; a refused transition becomes a transition error.
unfoldable pub settle_cursor : GraphRunState → Option GraphConfigCursor → Result GraphConfigCursor
unfolding config_cursor transition_to
settle_cursor state none = config_cursor state
settle_cursor state (some candidate) = do
  current ← config_cursor state
  on_value_error
      (on_type_error (transition_to current candidate)
        (λ m. transition_error "node settlement Config cursor is malformed"))
      transition_error

-- `settlement if node.node_id == node_id else node.settlement`
unfoldable pub settle_node :
    GraphNodeId → GraphNodeSettlement → GraphFrontierNode → GraphFrontierNode
settle_node node_id settlement node = record {
  node_id = node.node_id;
  settlement = if node.node_id == node_id then settlement else node.settlement;
  cause = node.cause;
}

-- The release of the node's acquisition; a snapshot without acquisitions becomes `None`.
unfoldable pub settle_release : GraphNodeId → ResourceSnapshot → Result (Option ResourceSnapshot)
unfolding reduce_resources
settle_release node_id snapshot = do
  released ←
      on_resource_error (reduce_resources snapshot (release_resources node_id))
        (λ m. transition_error "completed node cannot release its resource acquisition")
  if is_empty released.acquisitions then ok none else ok (some released)

-- The resources after the node gives up its acquisition, if it has one.
unfoldable pub settle_resources :
    GraphNodeId → Option ResourceSnapshot → Result (Option ResourceSnapshot)
unfolding settle_release any
settle_resources node_id none = ok none
settle_resources node_id (some snapshot) =
    if any (λ item. item.node_id == node_id) snapshot.acquisitions
    then settle_release node_id snapshot
    else ok (some snapshot)

-- The status after a settlement that leaves no pending node, or some.
unfoldable pub settled_status : GraphFrontierStatus → GraphRunStatus
settled_status executable = running
settled_status failed_frontier = failed
settled_status awaiting_resume = running
settled_status settled = running

-- The lease and the resources are kept while nodes are pending.
unfoldable pub keep_if_executable {ℓ} : {A : Type ℓ} → GraphFrontierStatus → Option A → Option A
keep_if_executable executable kept = kept
keep_if_executable failed_frontier kept = none
keep_if_executable awaiting_resume kept = none
keep_if_executable settled kept = none

unfoldable pub is_pending_node : Option GraphFrontierNode → Bool
unfolding is_pending
is_pending_node none = false
is_pending_node (some node) = is_pending node.settlement

unfoldable pub settle_graph_node : GraphRunState → SettleGraphNode → Result GraphRunState
unfolding require_execution_lease outcome_node_id frontier_node is_pending_node settle_outcome
    settle_cursor settle_node settle_resources frontier_status settled_status keep_if_executable
settle_graph_node state command = do
  raise_if (state.status /= running)
      (transition_error "only a running graph execution can settle a node")
  require_execution_lease state command.execution
  let node_id = outcome_node_id command.outcome
  raise_if (not (is_pending_node (frontier_node state.frontier node_id)))
      (transition_error "node settlement requires a current pending node")
  outcome ← settle_outcome state command command.outcome
  cursor ← settle_cursor state command.config_cursor
  let frontier : GraphFrontierState = record {
    nodes = map (settle_node node_id outcome.0) state.frontier.nodes;
  }
  resources ← settle_resources node_id state.resources
  derived ← frontier_status frontier
  ok (record state {
    status = settled_status derived;
    frontier = frontier;
    execution = keep_if_executable derived state.execution;
    resources = keep_if_executable derived resources;
    settled_publications = outcome.1;
    config_revision = cursor.revision;
    config_definition_id = cursor.definition_id;
    config_definition_version = cursor.definition_version;
    config_digest = cursor.digest;
  })
