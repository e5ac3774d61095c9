-- ===== src/GraphState/Validation/Run.antt =====
-- validation.py, continued: the frontier, and the state as a whole.
use motev.Base.{
  execution_error, failover_error, Bool, Error, List, Option, Result, [], contains, err, false,
  for_each, is_distinct, is_empty, is_none, is_some, is_subset, key_error, leb, length, list_eq,
  ltb, map, nat_eq, nat_ord, none, not, ok, on_resource_error, on_value_error, option_eq, raise_if,
  resource_error, same_set, set_of, some, sorted, string_eq, string_ord, transition_error, true,
  type_error, value_error, ℕ, ◌/=◌, ◌==◌, ◌>>=◌, ◌>>◌, ◌||◌, ◌∷◌,
}
use motev.GraphState.FrontierModel.{
  GraphActivationCause, GraphFrontierNode, GraphFrontierState, GraphNodeInterruptIdentity,
  GraphNodeSettlement, GraphResumeInputCodec, GraphRoutingContribution, cause_eq, continue_routing,
  failed_frontier, failed_node, frontier_status, frontier_status_eq, interrupted, override_input,
  pending, pending_node_ids, routed_cause, select_route, start_cause, succeeded,
  use_step_request_input,
}
use motev.GraphState.Identity.{
  ActivationReference, GraphActivationIdentity, GraphJoinOccurrenceIdentity, GraphNodeId,
  GraphRouteId, GraphRunId, activation_eq, child_graph_run_id, join_eq, occurrence_eq,
  occurrence_ord, reference_eq,
}
use motev.GraphState.Model.{
  GraphExecutionLease, GraphRunState, GraphRunStatus, aborted, admit_token, completed,
  config_cursor, failed, progress_eq, run_status_eq, running, state_eq, token_eq,
}
use motev.GraphState.ResourceModel.{ResourceSnapshot, snapshot_eq}
use motev.GraphState.ResourceReducer.{validate_resource_snapshot}
use motev.GraphState.Validation.{
  canonical_references, reference_activation, require_field, validate_completed_graph_provenance,
  validate_join_occurrence, validate_join_progress, validate_settled_publications,
}

-- `_validate_interrupt_identity`
unfoldable pub validate_interrupt_identity :
    GraphRunState → GraphNodeInterruptIdentity → Result (Unit {0})
validate_interrupt_identity state identity =
    raise_if
      (identity.run_id /= state.run_id
        || identity.superstep /= state.superstep
        || ltb identity.execution_generation 1
        || ltb state.execution_sequence identity.execution_generation)
      (transition_error "interrupt identity does not match its current activation")

-- `_validate_routing`
unfoldable pub validate_routing : GraphRoutingContribution → Result (Unit {0})
unfolding require_field
validate_routing continue_routing = ok tt
validate_routing (select_route route) = require_field route "graph route identity"

-- The check of one reference in `_validate_activation_cause`.
unfoldable pub validate_cause_reference : GraphRunState → ActivationReference → Result (Unit {0})
unfolding reference_activation
validate_cause_reference state reference = do
  activation ← reference_activation reference "routed activation cause"
  raise_if (activation.run_id /= state.run_id || leb state.superstep activation.superstep)
      (transition_error "routed activation cause references a non-predecessor activation")
  raise_if (not (contains reference (map (λ item. item.reference) state.settled_publications)))
      (transition_error "routed activation cause lacks committed settlement evidence")

-- The Join part of `_validate_activation_cause`.
unfoldable pub validate_cause_occurrence :
    GraphRunState
    → GraphNodeId
    → List ActivationReference
    → Option GraphJoinOccurrenceIdentity
    → Result (Unit {0})
unfolding validate_join_occurrence
validate_cause_occurrence state node_id references none =
    raise_if (length references /= 1)
      (transition_error "non-Join routed cause requires exactly one reference")
validate_cause_occurrence state node_id references (some occurrence) = do
  validate_join_occurrence state occurrence
  raise_if (occurrence.join.target /= node_id || occurrence.target_superstep /= state.superstep)
      (transition_error "routed Join cause does not match its target activation")
  let source_ids = map (λ (r : ActivationReference). r.activation.node_id) references
  raise_if (not (is_distinct source_ids) || not (same_set source_ids occurrence.join.sources))
      (transition_error "routed Join cause must exactly cover its occurrence sources")

-- `_validate_activation_cause`
unfoldable pub validate_activation_cause :
    GraphRunState → GraphNodeId → GraphActivationCause → Result (Unit {0})
unfolding canonical_references validate_cause_reference validate_cause_occurrence for_each
validate_activation_cause state node_id start_cause =
    raise_if (state.superstep /= 0)
      (transition_error "START activation cause is valid only at superstep zero")
validate_activation_cause state node_id (routed_cause references occurrence) = do
  raise_if (state.superstep == 0)
      (transition_error "initial frontier nodes must carry the START cause")
  raise_if (is_empty references)
      (transition_error "routed activation cause requires non-empty references")
  canonical_references references "routed activation cause references"
  for_each (validate_cause_reference state) references
  validate_cause_occurrence state node_id references occurrence

-- The match on the settlement in `validate_graph_frontier`; the result says whether the node
-- needs a resume input codec.
unfoldable pub validate_settlement : GraphRunState → GraphNodeId → GraphNodeSettlement → Result Bool
unfolding validate_routing require_field validate_interrupt_identity
validate_settlement state node_id (pending use_step_request_input) = ok false
validate_settlement state node_id (pending (override_input payload)) = ok true
validate_settlement state node_id (succeeded routing) = do validate_routing routing; ok false
validate_settlement state node_id (failed_node failure) = do
  require_field failure "graph failure"
  ok false
validate_settlement state node_id (interrupted interrupt) = do
  raise_if (interrupt.identity.node_id /= node_id)
      (transition_error "interrupt identity node does not match its frontier node")
  validate_interrupt_identity state interrupt.identity
  ok true

-- The loop of `validate_graph_frontier`.
unfoldable pub validate_nodes : GraphRunState → Bool → List GraphFrontierNode → Result Bool
unfolding require_field validate_activation_cause validate_settlement
validate_nodes state needs_codec [] = ok needs_codec
validate_nodes state needs_codec (node ∷ nodes) = do
  require_field node.node_id "frontier node identity"
  validate_activation_cause state node.node_id node.cause
  needed ← validate_settlement state node.node_id node.settlement
  validate_nodes state (needs_codec || needed) nodes

unfoldable pub validate_codec : Bool → Option GraphResumeInputCodec → Result (Unit {0})
unfolding require_field
validate_codec needs_codec none =
    raise_if needs_codec
      (transition_error "override or interrupt settlement requires a resume input codec")
validate_codec needs_codec (some codec) = do
  require_field codec.codec_id "resume input codec identity"
  raise_if (ltb codec.version 1) (transition_error "resume input codec version must be positive")

-- `validate_graph_frontier`
unfoldable pub validate_graph_frontier : GraphRunState → GraphFrontierState → Result (Unit {0})
unfolding validate_nodes validate_codec
validate_graph_frontier state frontier = do
  let node_ids = map (λ (node : GraphFrontierNode). node.node_id) frontier.nodes
  raise_if (node_ids /= sorted (set_of node_ids))
      (transition_error "frontier node identities must be distinct and canonical")
  needs_codec ← validate_nodes state false frontier.nodes
  validate_codec needs_codec state.resume_input_codec

-- The identities and counters at the head of `_validate_graph_run_state`.
unfoldable pub validate_identity : GraphRunState → Result (Unit {0})
unfolding require_field config_cursor
validate_identity state = do
  require_field state.run_id "graph run identity"
  require_field state.definition_id "graph definition identity"
  raise_if (ltb state.definition_version 1)
      (transition_error "graph definition version must be positive")
  _ ←
      on_value_error (config_cursor state)
        (λ m. transition_error "graph Config cursor is malformed")
  ok tt

unfoldable pub validate_completion_route : Option GraphRouteId → Result (Unit {0})
unfolding require_field
validate_completion_route none = ok tt
validate_completion_route (some route) = require_field route "graph completion route identity"

unfoldable pub validate_parent : GraphRunId → Option GraphActivationIdentity → Result (Unit {0})
unfolding require_field
validate_parent run_id none = ok tt
validate_parent run_id (some parent) = do
  require_field parent.run_id "parent graph run identity"
  require_field parent.node_id "parent graph node identity"
  raise_if (parent.run_id == run_id) (transition_error "parent graph activation is invalid")
  raise_if (run_id /= child_graph_run_id parent.run_id parent.superstep parent.node_id)
      (transition_error "child graph run identity does not match its parent activation")

unfoldable pub validate_resources :
    GraphFrontierState → Option GraphExecutionLease → Option ResourceSnapshot → Result (Unit {0})
unfolding validate_resource_snapshot pending_node_ids
validate_resources frontier execution none = ok tt
validate_resources frontier execution (some snapshot) = do
  on_resource_error (validate_resource_snapshot snapshot)
      (λ m. transition_error "graph resources state is invalid")
  raise_if (is_empty snapshot.acquisitions)
      (transition_error "authoritative graph resources cannot be empty")
  raise_if (is_none execution)
      (transition_error "graph resources require an active execution lease")
  raise_if (is_empty (pending_node_ids frontier))
      (transition_error "resource admission requires current pending nodes")
  raise_if
      (not (is_subset (map (λ a. a.node_id) snapshot.acquisitions) (pending_node_ids frontier)))
      (transition_error "resource participant is outside current pending nodes")

unfoldable pub validate_execution :
    GraphRunStatus → ℕ → GraphFrontierState → Option GraphExecutionLease → Result (Unit {0})
unfolding admit_token pending_node_ids
validate_execution status sequence frontier none = ok tt
validate_execution status sequence frontier (some lease) = do
  raise_if (status /= running)
      (transition_error "only a running graph may retain an execution lease")
  token ← on_value_error (admit_token lease.token) transition_error
  raise_if (token.generation /= sequence)
      (transition_error "execution lease generation must match the graph sequence")
  raise_if (is_empty (pending_node_ids frontier))
      (transition_error "an active execution lease requires pending nodes")

-- `frontier_status(frontier) is FAILED`
unfoldable pub is_failed_frontier : GraphFrontierState → Result Bool
unfolding frontier_status
is_failed_frontier frontier = do derived ← frontier_status frontier; ok (derived == failed_frontier)

-- The match on the status that ends `_validate_graph_run_state`.
unfoldable pub validate_status : GraphRunState → GraphRunStatus → Result (Unit {0})
unfolding is_failed_frontier require_field validate_completed_graph_provenance
validate_status state running = do
  raise_if (is_empty state.frontier.nodes)
      (transition_error "a running graph requires a non-empty frontier")
  has_failed ← is_failed_frontier state.frontier
  raise_if has_failed
      (transition_error "a quiescent failed frontier requires terminal failed status")
  raise_if (is_some state.abort) (transition_error "a running graph cannot retain an abort")
  raise_if (is_some state.completion_route)
      (transition_error "a running graph cannot retain a completion route")
validate_status state completed = do
  raise_if
      (not (is_empty state.frontier.nodes)
        || not (is_empty state.join_progress)
        || is_some state.resources)
      (transition_error "a completed graph must use the canonical empty position")
  raise_if (is_some state.abort) (transition_error "a completed graph cannot retain an abort")
  elim state.graph_input_evidence [
    | none ↦ ok tt
    | some evidence ↦ validate_completed_graph_provenance state
  ]
validate_status state failed = do
  raise_if (is_empty state.frontier.nodes)
      (transition_error "a failed graph must retain one quiescent failed diagnostic frontier")
  has_failed ← is_failed_frontier state.frontier
  raise_if
      (not has_failed
        || is_some state.resources
        || is_some state.execution
        || is_some state.abort
        || is_some state.completion_route)
      (transition_error "a failed graph must retain one quiescent failed diagnostic frontier")
validate_status state aborted = do
  raise_if
      (is_empty state.frontier.nodes
        || is_none state.abort
        || is_some state.resources
        || is_some state.completion_route)
      (transition_error "an aborted graph must retain one quiescent diagnostic frontier")
  elim state.abort [ none ↦ ok tt | some abort ↦ require_field abort.reason "graph abort reason" ]

-- `_validate_graph_run_state`
unfoldable pub validate_fields : GraphRunState → Result (Unit {0})
validate_fields state = do
  validate_identity state
  validate_settled_publications state
  validate_completion_route state.completion_route
  validate_parent state.run_id state.parent
  validate_join_progress state
  validate_graph_frontier state state.frontier
  validate_resources state.frontier state.execution state.resources
  validate_execution state.status state.execution_sequence state.frontier state.execution
  validate_status state state.status

-- `validate_graph_run_state`: another `ValueError` or `TypeError` becomes a transition error.
unfoldable pub validate_graph_run_state : GraphRunState → Result (Unit {0})
validate_graph_run_state state = elim (validate_fields state) [
  | ok done ↦ ok tt
  | err e ↦ err (readmit e)
]
  where
    readmit : Error → Error
    readmit (transition_error m) = transition_error m
    readmit (resource_error m) = transition_error "graph snapshot is malformed"
    readmit (failover_error m) = transition_error "graph snapshot is malformed"
    readmit (value_error m) = transition_error "graph snapshot is malformed"
    readmit (type_error m) = transition_error "graph snapshot is malformed"
    readmit (key_error m) = key_error m
    readmit (execution_error c m vs) = execution_error c m vs

unfoldable pub validated_graph_run_state : GraphRunState → Result GraphRunState
unfolding validate_graph_run_state
validated_graph_run_state state = do validate_graph_run_state state; ok state
