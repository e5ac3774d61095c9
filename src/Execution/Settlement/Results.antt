-- ===== src/Execution/Settlement/Results.antt =====
-- settlement.py: what the command of a task result says of the state that it settles.
use motev.Base.{
  >>-eq-ok, >>=-eq-ok, Ensures, Ensures-bind, Ensures-next, Ensures-ok, arith, eq_of_ne_test,
  list_eq, nat_eq, nat_ord, ne_test_of_eq, not, ok, option_eq, or-eq-false, or_raise, pair_eq,
  raise_if, raise_if-eq-ok, raise_if-not-ok, refl, some, string_eq, string_ord, subst, sym, true,
  ◌≡◌,
}
use motev.Execution.Graph.{CompiledGraph, compiled_join_eq}
use motev.Execution.Planner.{task_at}
use motev.Execution.Settlement.{
  TaskResult, project_failure_settlement, project_interrupt_settlement, project_result,
  project_success_settlement, require_settlement_execution_token, settle_result, task_failure,
  task_interrupt, task_of, task_success,
}
use motev.Execution.Snapshot.{require_snapshot_matches_graph}
use motev.Execution.Task.{GraphTask, task_eq, task_identity}
use motev.GraphState.Command.{SettleGraphNode, outcome_node_id}
use motev.GraphState.FrontierModel.{
  GraphFrontierNode, cause_eq, frontier_node, frontier_status_eq, is_pending,
}
use motev.GraphState.Identity.{
  GraphNodeId, activation_eq, join_eq, occurrence_eq, occurrence_ord, reference_eq,
}
use motev.GraphState.Model.{GraphRunState, progress_eq, run_status_eq, state_eq, token_eq}
use motev.GraphState.ResourceReducer.Admission.{or_raise-some}
use motev.GraphState.Transitions.{require_execution_lease}

-- What the projection of a result has used of the state.
record Projected (state : GraphRunState) (node_id : GraphNodeId) (command : SettleGraphNode)
    : Type 0 where
  fresh : command.expected_revision ≡ state.revision
  held : require_execution_lease state command.execution ≡ ok tt
  same_node : outcome_node_id command.outcome ≡ node_id

token_held :
    (state : GraphRunState)
    → Ensures
        (λ token. require_execution_lease state token ≡ ok tt)
        (require_settlement_execution_token state)
unfolding require_settlement_execution_token require_execution_lease
token_held state = Ensures-bind _ _ λ lease found. Ensures-ok _ (
    rw (or_raise-some state.execution _ lease found, ne_test_of_eq lease.token lease.token refl)
      refl)

project_result-Projected :
    (graph : CompiledGraph) (state : GraphRunState) (result : TaskResult)
    → Ensures (Projected state (task_of result).node_id) (project_result graph state result)
unfolding project_result project_success_settlement project_failure_settlement
    project_interrupt_settlement task_of outcome_node_id
project_result-Projected graph state (task_success task route cursor) = Ensures-next _ _ λ _.
    Ensures-bind _ _ λ token h.
      Ensures-ok _ (record { fresh = refl; held = (token_held state).at token h; same_node = refl })
project_result-Projected graph state (task_failure task failure) = Ensures-bind _ _ λ token h.
    Ensures-ok _ (record { fresh = refl; held = (token_held state).at token h; same_node = refl })
project_result-Projected graph state (task_interrupt task payload) = Ensures-next _ _ λ _.
    Ensures-bind _ _ λ token h.
      Ensures-ok _ (record { fresh = refl; held = (token_held state).at token h; same_node = refl })

-- A command that a task result makes is made for the state that it settles: it names the state's
-- revision and the holder of its lease, its node is pending, and the result's task is exactly the
-- task of that node at the state's superstep, so a stale result makes no command.
pub settle_result-current :
    (graph : CompiledGraph) (state : GraphRunState) (result : TaskResult)
    (command : SettleGraphNode)
    → settle_result graph state result ≡ ok command
    → (command.expected_revision ≡ state.revision)
      × (require_execution_lease state command.execution ≡ ok tt)
      × ((node : GraphFrontierNode) × (frontier_node state.frontier
              (outcome_node_id command.outcome)
            ≡ some node)
          × (is_pending node.settlement ≡ true))
      × (task_of result ≡ task_at state (outcome_node_id command.outcome))
unfolding settle_result task_at
settle_result-current graph state result command h =
    let (_, h1) = >>-eq-ok (require_snapshot_matches_graph graph state) _ h in
    let (_, _, h2) = >>=-eq-ok (require_settlement_execution_token state) _ h1 in
    let (coordinates, h3) = >>-eq-ok (raise_if _ _) _ h2 in
    let (node, found, h4) =
      >>=-eq-ok (or_raise (frontier_node state.frontier (task_of result).node_id) _) _ h3 in
    let (waiting, h5) = >>-eq-ok (raise_if (not (is_pending node.settlement)) _) _ h4 in
    let p = (project_result-Projected graph state result).at command h5 in
    let (at_place, ids) = or-eq-false _ _ (raise_if-eq-ok _ _ coordinates) in
    let (runs, supersteps) = or-eq-false _ _ at_place in
    (
      p.fresh,
      p.held,
      (
        node,
        subst (λ id. frontier_node state.frontier id ≡ some node) (sym p.same_node)
            (or_raise-some _ _ _ found),
        raise_if-not-ok _ _ waiting,
      ),
      subst (λ id. task_of result ≡ task_at state id) (sym p.same_node)
          (exact (task_of result) (eq_of_ne_test _ _ runs) (eq_of_ne_test _ _ supersteps)
            (eq_of_ne_test _ _ ids)),
    )
  where
    exact :
        (task : GraphTask)
        → task.run_id ≡ state.run_id
        → task.superstep ≡ state.superstep
        → task.task_id ≡ task_identity task.run_id task.superstep task.node_id
        → task ≡ task_at state task.node_id
    exact task runs supersteps ids = ground arith
