-- ===== src/Execution/Scenarios/Witnesses.antt =====
-- The theorems of the engine, and of the identities that it derives, at concrete inputs.
use motev.Base.{
  In, List, String, [], arith, err, false, inl, list_eq, map, nat_eq, nat_ord, none, ok, option_eq,
  pair_eq, refl, some, string_eq, string_ord, tally, true, ℕ, ◌+◌, ◌<◌, ◌∷◌, ◌≡◌,
}
use motev.Execution.Admission.{select_executable_tasks}
use motev.Execution.Admission.Liveness.{claim_can_start}
use motev.Execution.Admission.Selection.{Selection, select_executable_tasks-Selection}
use motev.Execution.Claim.{PreparedExecutionClaim, consume, prepare_claim, project_claim_command}
use motev.Execution.Claim.Acceptance.{claimed_state, planned_claim_accepted, planned_claim_consumed}
use motev.Execution.Identity.{parent_activation_for_child, scope_run_eq}
use motev.Execution.Identity.Lineage.{
  child_scope_run_for_activation-inj, parent_activation_for_child-child_scope_run_for_activation,
}
use motev.Execution.Planner.{task_at}
use motev.Execution.Planner.Plans.{plan_tasks_bounds}
use motev.Execution.Routing.Contribution.{settled_activation_admission_error}
use motev.Execution.Routing.Contribution.Agreement.{settled_activation_admission_error-live}
use motev.Execution.Routing.Control.Successors.{reference_of, resolve_control-activates}
use motev.Execution.Routing.Evaluation.{no_facts}
use motev.Execution.Scenarios.{
  granted, run_both, run_granted, small_graph, small_limits, task_a, task_b,
}
use motev.Execution.Scenarios.Pool.{done_events, done_live, pool_history, pool_live}
use motev.Execution.Scenarios.Steps.{
  child_coordinate, child_made, claim_grants, contributions_runs, facts_both, ledger_runs,
  named_runs, node_a_runs, parent_activation, plan_runs, ready_runs, resolve_runs, root_coordinate,
  root_valid, select_runs, settle_granted, settle_result_runs, targets_runs,
}
use motev.Execution.Scheduler.{TaskEvent, TaskScheduler, event_id, idle_scheduler, next_completion}
use motev.Execution.Scheduler.Conservation.{completions_conserved, held, next_completion_yields}
use motev.Execution.Settlement.{collection_error, task_of, task_success}
use motev.Execution.Settlement.Results.{settle_result-current}
use motev.Execution.Task.{GraphTask, TaskId, task_eq}
use motev.Execution.Task.Injective.{task_identity-inj}
use motev.GraphState.Command.{claim, outcome_node_id, transition}
use motev.GraphState.FrontierModel.{
  GraphFrontierNode, cause_eq, continue_routing, frontier_node, frontier_status_eq, is_pending,
  pending_node_ids, routed_cause,
}
use motev.GraphState.Identity.{
  activation_eq, join_eq, join_fields, occurrence_eq, occurrence_ord, reference_eq,
}
use motev.GraphState.Identity.Fields.{read_fields, read_fields-join_fields}
use motev.GraphState.Identity.Injective.{child_graph_run_id-inj, graph_interrupt_id-inj}
use motev.GraphState.Identity.Text.{codes}
use motev.GraphState.Model.{GraphRunState, progress_eq, run_status_eq, state_eq, token_eq}
use motev.GraphState.Reducer.{reduce_graph_run}
use motev.GraphState.ResourceReducer.{by_node_of}
use motev.GraphState.Scenarios.{run_half, run_started}
use motev.GraphState.Transitions.{require_execution_lease}

read_fields-join_fields_example :
    read_fields 2 (codes (join_fields ("run" ∷ "a:b" ∷ []))) ≡ some (codes "run" ∷ codes "a:b" ∷ [])
read_fields-join_fields_example = read_fields-join_fields ("run" ∷ "a:b" ∷ [])

graph_interrupt_id-inj_example :
    (◌≡◌ {A = String} "run" "run")
    × (◌≡◌ {A = ℕ} 12 12)
    × (◌≡◌ {A = String} "a" "a")
    × (◌≡◌ {A = ℕ} 3 3)
graph_interrupt_id-inj_example = graph_interrupt_id-inj "run" "run" 12 12 "a" "a" 3 3 refl

child_graph_run_id-inj_example :
    (◌≡◌ {A = String} "run" "run") × (◌≡◌ {A = ℕ} 12 12) × (◌≡◌ {A = String} "a" "a")
child_graph_run_id-inj_example = child_graph_run_id-inj "run" "run" 12 12 "a" "a" refl

parent_activation_for_child-child_scope_run_for_activation_example :
    parent_activation_for_child child_coordinate parent_activation
    ≡ ok (record { scope_run = root_coordinate; superstep = 2; node_id = "n" })
parent_activation_for_child-child_scope_run_for_activation_example =
    parent_activation_for_child-child_scope_run_for_activation root_coordinate child_coordinate
      parent_activation root_valid child_made

child_scope_run_for_activation-inj_example :
    (root_coordinate ≡ root_coordinate) × (parent_activation ≡ parent_activation)
child_scope_run_for_activation-inj_example =
    child_scope_run_for_activation-inj root_coordinate root_coordinate child_coordinate
      parent_activation parent_activation child_made child_made

task_identity-inj_example :
    (◌≡◌ {A = String} "run" "run") × (◌≡◌ {A = ℕ} 12 12) × (◌≡◌ {A = String} "a" "a")
task_identity-inj_example = task_identity-inj "run" "run" 12 12 "a" "a" refl

select_executable_tasks-Selection_example :
    Selection small_graph
      (by_node_of granted.acquisitions)
      []
      2
      (task_a ∷ task_b ∷ [])
      (task_a ∷ [])
select_executable_tasks-Selection_example =
    select_executable_tasks-Selection small_graph (task_a ∷ task_b ∷ []) (some granted) small_limits
      0 [] (task_a ∷ []) select_runs

claim_can_start_example :
    (first : GraphTask) × (others : List GraphTask) × (select_executable_tasks small_graph
        (task_a ∷ task_b ∷ [])
        (some granted)
        small_limits
        0
        []
      ≡ ok (first ∷ others))
claim_can_start_example =
    claim_can_start small_graph (task_a ∷ task_b ∷ []) (some granted) small_limits task_a ("p" ∷ [])
      [] claim_grants (inl refl) node_a_runs (omega arith)

planned_claim_accepted_example :
    reduce_graph_run
      (some run_started)
      (transition (claim (project_claim_command run_started "x" (some granted))))
    ≡ ok (claimed_state run_started "x" (some granted))
planned_claim_accepted_example =
    planned_claim_accepted small_graph run_started small_limits (task_a ∷ task_b ∷ [])
      (some granted) "x" refl refl ready_runs named_runs plan_runs claim_grants

planned_claim_consumed_example :
    (used : PreparedExecutionClaim) × (consume
        (prepare_claim 7 run_started (task_a ∷ task_b ∷ []) (some granted) "x")
        7
        (claimed_state run_started "x" (some granted))
      ≡ ok (
        used,
        record {
          state = claimed_state run_started "x" (some granted);
          tasks = task_a ∷ task_b ∷ [];
          issued = false;
        },
      ))
    × ((other : ℕ) (later : GraphRunState)
        → consume used other later
          ≡ err (collection_error "execution claim has already been consumed"))
planned_claim_consumed_example =
    planned_claim_consumed small_graph run_started small_limits (task_a ∷ task_b ∷ [])
      (some granted) "x" 7 refl refl ready_runs named_runs plan_runs claim_grants

settled_activation_admission_error-live_example :
    settled_activation_admission_error small_graph run_half ≡ ok none
settled_activation_admission_error-live_example =
    settled_activation_admission_error-live small_graph run_half ledger_runs

resolve_control-activates_example :
    In
      (record {
        node_id = "c";
        cause = routed_cause (reference_of run_both "a" continue_routing ∷ []) none;
      })
      facts_both.activations
resolve_control-activates_example =
    resolve_control-activates small_graph run_both no_facts facts_both "a" continue_routing
      ("c" ∷ []) "c" resolve_runs contributions_runs targets_runs (inl refl)

plan_tasks_bounds_example :
    (run_started.superstep < 10)
    × (map (λ (task : GraphTask). task.node_id) (task_a ∷ task_b ∷ [])
        ≡ pending_node_ids run_started.frontier)
    × ((first second : GraphTask)
        → In first (task_a ∷ task_b ∷ [])
        → In second (task_a ∷ task_b ∷ [])
        → first.task_id ≡ second.task_id
        → first ≡ second)
plan_tasks_bounds_example =
    plan_tasks_bounds small_graph run_started small_limits (task_a ∷ task_b ∷ []) refl plan_runs

settle_result-current_example :
    (settle_granted.expected_revision ≡ run_granted.revision)
    × (require_execution_lease run_granted settle_granted.execution ≡ ok tt)
    × ((node : GraphFrontierNode) × (frontier_node run_granted.frontier
            (outcome_node_id settle_granted.outcome)
          ≡ some node)
        × (is_pending node.settlement ≡ true))
    × (task_of (task_success task_a none none)
        ≡ task_at run_granted (outcome_node_id settle_granted.outcome))
settle_result-current_example =
    settle_result-current small_graph run_granted (task_success task_a none none) settle_granted
      settle_result_runs

next_completion_yields_example :
    (t : TaskScheduler) × (event : TaskEvent) × (next_completion pool_live done_events
      ≡ ok (t, event))
    × ((id : TaskId) → tally id (event_id event ∷ []) + held id t ≡ held id pool_live)
next_completion_yields_example =
    next_completion_yields pool_live done_events done_live (omega arith)

completions_conserved_example :
    tally task_a.task_id (task_b.task_id ∷ task_a.task_id ∷ []) + held task_a.task_id idle_scheduler
    ≡ tally task_a.task_id (task_a.task_id ∷ task_b.task_id ∷ [])
completions_conserved_example =
    completions_conserved (task_a.task_id ∷ task_b.task_id ∷ [])
      (task_b.task_id ∷ task_a.task_id ∷ []) idle_scheduler task_a.task_id pool_history
