-- ===== src/Execution/Scenarios/Steps.antt =====
-- The engine at the small graph, by evaluation.
use motev.Base.{
  In, List, Result, [], ap, get, inl, inr, list_eq, nat_eq, nat_ord, none, ok, option_eq,
  pair_discrete, pair_eq, refl, some, string_eq, string_ord, subst, sym, true, ◌∷◌, ◌≡◌,
}
use motev.Execution.Admission.{
  acquisition_for, admit_loop, admit_task, admit_tasks, claim_resource_snapshot, holds_resources,
  initial_resource_snapshot, is_selectable, place, resource_tasks_of, select_executable_tasks,
  select_loop,
}
use motev.Execution.Claim.{
  consume, issue, prepare_claim, project_claim_command, require_committed_claim_state,
}
use motev.Execution.Graph.{
  CompiledGraph, callable_node, compiled_join_discrete, compiled_join_eq, item_of,
  new_compiled_join, new_limits, occurrence_for, target_offset,
}
use motev.Execution.Identity.{
  ScopeRunCoordinate, child_scope_run, child_scope_run_for_activation, new_scope_run,
  new_stable_activation, parent_activation_for_child, root_scope_run, scope_run_discrete,
  scope_run_eq, stable_activation,
}
use motev.Execution.Planner.{pending_tasks, plan_tasks, task_at}
use motev.Execution.Routing.Contribution.{
  has_local_successor, require_route, route_targets, rules_of, settled_activation_admission_error,
  settled_reference_error, successor_targets_for_reference, validate_routing_contribution,
  validate_rules,
}
use motev.Execution.Routing.Control.{
  activate_target, arrive, compare_keys, completed_candidate_error, completion_error,
  completion_route_of, contribute, contributed_routes, progress_join, project_routing_facts,
  resolve_control, transition_admission_error,
}
use motev.Execution.Routing.Control.Successors.{reference_of}
use motev.Execution.Routing.Diagnosis.{append_at, first_refusal}
use motev.Execution.Routing.Evaluation.{
  RoutingFacts, add_targets, candidate_error, evaluate_history, evaluate_joins, evaluate_pending,
  expect_arrival, expect_arrivals, expectation_error, frontier_admission_error, no_facts,
  post_advance_error, prior_candidates, routed_causes, routing_evaluation,
}
use motev.Execution.Routing.Gates.{
  causal_input_source_for_cause, cause_error, cause_input_source, check_bindings, compare_sources,
  frontier_gate_error, gate_admits, gate_matches_cause, node_gate_error, occurrence_error,
  routed_input_source, start_input_source,
}
use motev.Execution.Routing.Joins.{
  any_misprojected, declare_join, declared_joins, fold, historical_join_arrivals, index_join,
  pending_arrival, pending_join_arrivals, record_arrival, record_settlement,
}
use motev.Execution.Scenarios.{
  granted, run_both, run_granted, small_graph, small_limits, task_a, task_b,
}
use motev.Execution.Settlement.{
  project_failure_settlement, project_interrupt_settlement, project_result,
  project_success_settlement, require_settlement_execution_token, settle_result, task_of,
  task_success,
}
use motev.Execution.Snapshot.{
  raise_refusal, require_acquisitions, require_resume_input_binding, require_running,
  require_scoped_snapshot_matches_graph, require_snapshot_matches_graph, require_valid,
  required_resources, same_dict,
}
use motev.Execution.Task.{
  GraphTask, compare_tasks, in_task_order, task_discrete, task_eq, task_identity,
}
use motev.GraphState.Command.{SettleGraphNode}
use motev.GraphState.FrontierModel.{
  GraphRoutingContribution, cause_eq, continue_routing, executable, frontier_status,
  frontier_status_eq, routed_cause, routing_contributions, selected_route,
}
use motev.GraphState.Identity.{
  GraphActivationIdentity, activation_eq, child_graph_run_id, is_canonical_identity, join_eq,
  occurrence_eq, occurrence_ord, reference_eq,
}
use motev.GraphState.Model.{
  GraphPublicationSettlement, GraphRunState, progress_eq, run_status_eq, state_eq, token_eq,
}
use motev.GraphState.Scenarios.{run_half, run_started, settle_a}
use motev.GraphState.Scenarios.Runs.{evaluate}

-- The engine, with all that it calls open to evaluation.
unfoldable pub plan : CompiledGraph → GraphRunState → Result (List GraphTask)
unfolding evaluate pair_discrete scope_run_discrete new_scope_run new_stable_activation
    root_scope_run stable_activation child_scope_run child_scope_run_for_activation
    parent_activation_for_child item_of compiled_join_discrete new_compiled_join target_offset
    occurrence_for new_limits task_identity compare_tasks in_task_order task_discrete
    initial_resource_snapshot acquisition_for place admit_task admit_loop admit_tasks
    resource_tasks_of claim_resource_snapshot holds_resources is_selectable select_loop
    select_executable_tasks first_refusal append_at rules_of has_local_successor validate_rules
    validate_routing_contribution settled_reference_error settled_activation_admission_error
    require_route route_targets successor_targets_for_reference declare_join index_join fold
    declared_joins any_misprojected pending_arrival pending_join_arrivals record_arrival
    record_settlement historical_join_arrivals compare_sources gate_admits gate_matches_cause
    start_input_source routed_input_source cause_input_source causal_input_source_for_cause
    check_bindings occurrence_error cause_error node_gate_error frontier_gate_error add_targets
    prior_candidates expect_arrival expect_arrivals routed_causes candidate_error expectation_error
    post_advance_error evaluate_history evaluate_pending evaluate_joins routing_evaluation
    frontier_admission_error arrive contribute progress_join activate_target compare_keys
    resolve_control contributed_routes completion_route_of completion_error
    completed_candidate_error transition_admission_error project_routing_facts raise_refusal
    require_resume_input_binding required_resources same_dict require_acquisitions require_valid
    require_running require_snapshot_matches_graph require_scoped_snapshot_matches_graph task_at
    pending_tasks plan_tasks task_of require_settlement_execution_token project_success_settlement
    project_failure_settlement project_interrupt_settlement project_result settle_result
    project_claim_command prepare_claim require_committed_claim_state consume issue
plan graph state = plan_tasks graph state small_limits

pub plan_runs : plan_tasks small_graph run_started small_limits ≡ ok (task_a ∷ task_b ∷ [])
unfolding plan
plan_runs = refl

pub claim_grants : claim_resource_snapshot small_graph (task_a ∷ task_b ∷ []) ≡ ok (some granted)
unfolding plan
claim_grants = refl

pub select_runs :
    select_executable_tasks small_graph (task_a ∷ task_b ∷ []) (some granted) small_limits 0 []
    ≡ ok (task_a ∷ [])
unfolding plan
select_runs = refl

abbrev pub settle_granted : SettleGraphNode
settle_granted = record settle_a { expected_revision = 1 }

pub settle_result_runs :
    settle_result small_graph run_granted (task_success task_a none none) ≡ ok settle_granted
unfolding plan
settle_result_runs = refl

abbrev pub facts_both : RoutingFacts
facts_both = record no_facts {
  activations =
      record {
        node_id = "c";
        cause = routed_cause (reference_of run_both "a" continue_routing ∷ []) none;
      }
      ∷ [];
}

pub resolve_runs : resolve_control small_graph run_both no_facts ≡ ok facts_both
unfolding plan
resolve_runs = refl

pub contribution_runs : validate_routing_contribution small_graph "a" continue_routing ≡ ok tt
unfolding plan
contribution_runs = refl

pub ready_runs : frontier_status run_started.frontier ≡ ok executable
unfolding plan
ready_runs = refl

pub named_runs : is_canonical_identity "x" ≡ true
unfolding plan
named_runs = refl

abbrev pub root_coordinate : ScopeRunCoordinate
root_coordinate = record { scope = []; graph_run_id = "run" }

abbrev pub parent_activation : GraphActivationIdentity
parent_activation = record { run_id = "run"; superstep = 2; node_id = "n" }

abbrev pub child_coordinate : ScopeRunCoordinate
child_coordinate = record { scope = "n" ∷ []; graph_run_id = child_graph_run_id "run" 2 "n" }

pub root_valid : new_scope_run [] "run" ≡ ok root_coordinate
unfolding plan
root_valid = refl

pub child_made :
    child_scope_run_for_activation root_coordinate parent_activation ≡ ok child_coordinate
unfolding plan
child_made = refl

pub ledger_runs :
    (settlement : GraphPublicationSettlement)
    → In settlement run_half.settled_publications
    → (contribution : GraphRoutingContribution) × (settlement.reference.route
        ≡ selected_route contribution)
      × (validate_routing_contribution small_graph settlement.reference.activation.node_id
            contribution
          ≡ ok tt)
unfolding selected_route
ledger_runs settlement (inl same) = (
  continue_routing,
  ap (λ (s : GraphPublicationSettlement). s.reference.route) same,
  subst
      (λ (s : GraphPublicationSettlement).
        validate_routing_contribution small_graph s.reference.activation.node_id continue_routing
        ≡ ok tt)
      (sym same) contribution_runs,
)
ledger_runs settlement (inr i) = absurd i

pub contributions_runs : In ("a", continue_routing) (routing_contributions run_both.frontier)
unfolding plan
contributions_runs = inl refl

pub targets_runs :
    successor_targets_for_reference small_graph (reference_of run_both "a" continue_routing)
    ≡ ok ("c" ∷ [])
unfolding plan
targets_runs = refl

pub node_a_runs : get small_graph.nodes "a" ≡ some (callable_node ("p" ∷ []) [])
unfolding plan
node_a_runs = refl
