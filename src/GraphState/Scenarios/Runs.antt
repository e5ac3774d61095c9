-- ===== src/GraphState/Scenarios/Runs.antt =====
-- Runs of the reducer by evaluation.
use motev.Base.{
  Option, Result, all, any, collect, compare_list, contains, dict_of, enumerate_from, err,
  find_first, for_each, get, insert_sorted, is_distinct, is_subset, list_discrete, list_eq, nat_eq,
  nat_ord, none, ok, option_discrete, option_eq, put, put_all, refl, remove, resource_error,
  same_set, select, set_of, some, sort_by, sorted, string_discrete, string_eq, string_ord,
  ℕ_discrete, ◌>>=◌, ◌≡◌,
}
use motev.GraphState.Command.{
  GraphRunCommand, abort_run, claim, expected_revision_of, fence, outcome_node_id, settle, start,
  transition,
}
use motev.GraphState.FrontierModel.{
  bytes_discrete, cause_discrete, cause_eq, codec_discrete, frontier_discrete, frontier_node,
  frontier_node_discrete, frontier_status, frontier_status_discrete, frontier_status_eq,
  interrupted_node_ids, is_failed, is_interrupted, is_pending, is_succeeded, node_ids_where,
  pending_node_ids, routing_contributions, routing_contributions_of, routing_discrete,
  selected_route, settlement_discrete, settlements_status,
}
use motev.GraphState.Identity.{
  activation_discrete, activation_eq, child_graph_run_id, compare_occurrences, compare_references,
  graph_interrupt_id, is_canonical_identity, join_discrete, join_eq, join_fields, new_activation,
  new_join, new_occurrence, new_reference, occurrence_discrete, occurrence_eq, occurrence_ord,
  reference_discrete, reference_eq,
}
use motev.GraphState.Identity.Text.{
  decimal, decimal_within, digit, identity_field, is_space, lstrip, str_append, strip,
}
use motev.GraphState.Model.{
  GraphRunState, abort_discrete, admit_cursor, admit_evidence, admit_history,
  admit_optional_evidence, admit_publication, admit_token, compare_publications, config_cursor,
  digests_conflict, evidence_discrete, is_digest_ok, lease_discrete, new_cursor, progress_discrete,
  progress_eq, publication_discrete, run_status_discrete, run_status_eq, state_discrete, state_eq,
  token_discrete, token_eq, transition_cursor, transition_to,
}
use motev.GraphState.Reducer.{
  admit_graph_run_confirmation, apply_transition, bind_evidence, bind_settle, bind_transition,
  matching_publications, reduce_graph_run, reduce_transition, single_evidence,
}
use motev.GraphState.ResourceModel.{
  acquisition_discrete, is_admitted, lock_discrete, release_resources, snapshot_discrete,
  snapshot_eq,
}
use motev.GraphState.ResourceReducer.{
  acquire, acquire_some, advance_acquisition, advance_loop, apply_command, by_node_of, can_acquire,
  expected_waiting, free_all, initial_snapshot, is_in_order, lock_at, next_waiter, position_of,
  positions_of, reduce_resources, release, replay, require_identity, validate_acquisition,
  validate_lock, validate_participants, validate_resource_snapshot, validate_shape, waits_elsewhere,
  wake, wake_waiters,
}
use motev.GraphState.Scenarios.{
  abort_command, claim_command, contended, fence_command, run_aborted, run_claimed, run_fenced,
  run_half, run_started, settle_a, start_command,
}
use motev.GraphState.Transitions.{
  abort_graph_run, admitted_node, advance_graph_frontier, claim_graph_execution,
  complete_graph_frontier, fence_graph_execution, require_execution_lease, resolution_base,
  start_cursor, start_graph_run, validate_claim_resources,
}
use motev.GraphState.Transitions.Activations.{
  check_activations, check_cause, check_occurrence, check_source, index_from, index_join_progress,
  is_start_cause, split_references, start_activations, validate_activation_batch,
  validate_next_activations,
}
use motev.GraphState.Transitions.Joins.{
  check_consumption, check_consumptions, check_delta, current_successful_references,
  validate_join_consumption, validate_join_progress_delta,
}
use motev.GraphState.Transitions.Resume.{resume_graph_nodes, resume_nodes, resume_settlement}
use motev.GraphState.Transitions.Settle.{
  is_pending_node, keep_if_executable, settle_cursor, settle_graph_node, settle_node,
  settle_outcome, settle_release, settle_resources, settled_status,
}
use motev.GraphState.Validation.{
  canonical_references, canonical_references_of, compare_progress, current_route, publications_at,
  reference_activation, require_field, successful_references, validate_arrival,
  validate_completed_graph_provenance, validate_join_occurrence, validate_join_progress,
  validate_progress_from, validate_publication, validate_settled_publications,
}
use motev.GraphState.Validation.Run.{
  is_failed_frontier, validate_activation_cause, validate_cause_occurrence,
  validate_cause_reference, validate_codec, validate_completion_route, validate_execution,
  validate_fields, validate_graph_frontier, validate_graph_run_state, validate_identity,
  validate_interrupt_identity, validate_nodes, validate_parent, validate_resources,
  validate_routing, validate_settlement, validate_status, validated_graph_run_state,
}

-- The reducer, with all that it calls open to evaluation.
unfoldable pub evaluate : Option GraphRunState → GraphRunCommand → Result GraphRunState
unfolding get put remove put_all dict_of any all select find_first enumerate_from string_discrete
    ℕ_discrete option_discrete list_discrete contains set_of is_distinct is_subset same_set ◌>>=◌
    for_each collect compare_list insert_sorted sort_by sorted str_append is_space lstrip strip
    digit decimal_within decimal identity_field is_canonical_identity activation_discrete
    new_activation reference_discrete new_reference compare_references join_discrete
    occurrence_discrete compare_occurrences new_join new_occurrence join_fields graph_interrupt_id
    child_graph_run_id routing_discrete selected_route cause_discrete frontier_status_discrete
    is_pending is_succeeded is_failed is_interrupted settlements_status frontier_status
    frontier_node node_ids_where pending_node_ids interrupted_node_ids routing_contributions_of
    routing_contributions codec_discrete bytes_discrete settlement_discrete frontier_node_discrete
    frontier_discrete is_admitted lock_discrete acquisition_discrete snapshot_discrete is_digest_ok
    new_cursor admit_cursor digests_conflict transition_cursor transition_to admit_history
    run_status_discrete token_discrete admit_token admit_evidence admit_optional_evidence
    admit_publication compare_publications config_cursor evidence_discrete publication_discrete
    progress_discrete lease_discrete abort_discrete state_discrete outcome_node_id
    expected_revision_of require_identity positions_of position_of lock_at validate_lock is_in_order
    expected_waiting validate_acquisition by_node_of waits_elsewhere validate_participants
    validate_shape can_acquire advance_loop advance_acquisition acquire_some acquire free_all
    next_waiter wake wake_waiters release apply_command initial_snapshot replay
    validate_resource_snapshot reduce_resources require_field canonical_references_of
    canonical_references reference_activation current_route validate_publication publications_at
    successful_references validate_settled_publications validate_completed_graph_provenance
    validate_join_occurrence validate_arrival validate_progress_from compare_progress
    validate_join_progress validate_interrupt_identity validate_routing validate_cause_reference
    validate_cause_occurrence validate_activation_cause validate_settlement validate_nodes
    validate_codec validate_graph_frontier validate_identity validate_completion_route
    validate_parent validate_resources validate_execution is_failed_frontier validate_status
    validate_fields validate_graph_run_state validated_graph_run_state validate_activation_batch
    is_start_cause start_activations index_from index_join_progress check_source split_references
    check_occurrence check_cause check_activations validate_next_activations
    current_successful_references check_consumption check_consumptions validate_join_consumption
    check_delta validate_join_progress_delta admitted_node start_cursor start_graph_run
    validate_claim_resources require_execution_lease claim_graph_execution fence_graph_execution
    resolution_base advance_graph_frontier complete_graph_frontier abort_graph_run settle_outcome
    settle_cursor settle_node settle_release settle_resources settled_status keep_if_executable
    is_pending_node settle_graph_node resume_settlement resume_nodes resume_graph_nodes
    apply_transition reduce_transition reduce_graph_run matching_publications single_evidence
    bind_settle bind_transition bind_evidence admit_graph_run_confirmation
evaluate state command = reduce_graph_run state command

start_runs : reduce_graph_run none (start start_command) ≡ ok run_started
unfolding evaluate
start_runs = refl

pub claim_runs :
    reduce_graph_run (some run_started) (transition (claim claim_command)) ≡ ok run_claimed
unfolding evaluate
claim_runs = refl

pub settle_runs : reduce_graph_run (some run_claimed) (transition (settle settle_a)) ≡ ok run_half
unfolding evaluate
settle_runs = refl

pub fence_runs :
    reduce_graph_run (some run_claimed) (transition (fence fence_command)) ≡ ok run_fenced
unfolding evaluate
fence_runs = refl

pub abort_runs :
    reduce_graph_run (some run_fenced) (transition (abort_run abort_command)) ≡ ok run_aborted
unfolding evaluate
abort_runs = refl

pub contended_runs : validate_resource_snapshot contended ≡ ok tt
unfolding evaluate
contended_runs = refl

-- The admitted owner "a" cannot release: "b" would then hold "p" and wait for "q", while a replay
-- of the acquisitions gives "q" to "b".
release_refused :
    reduce_resources contended (release_resources "a")
    ≡ err (resource_error "resources snapshot does not match its replayed acquisition sequence")
unfolding evaluate
release_refused = refl
