-- ===== src/Execution/Settlement.antt =====
-- mote-kernel/src/mote_kernel/execution/engine/settlement.py: the command of one task result.
pub mod Results
use motev.Base.{
  Error, Option, Result, String, [], execution_error, is_none, list_eq, nat_eq, nat_ord, none, not,
  ok, option_eq, or_raise, pair_eq, raise_if, result_collection_error, some, string_eq, string_ord,
  ◌/=◌, ◌>>=◌, ◌>>◌, ◌||◌,
}
use motev.Execution.Graph.{CompiledGraph, compiled_join_eq}
use motev.Execution.Planner.{task_at}
use motev.Execution.Routing.Contribution.{validate_routing_contribution}
use motev.Execution.Snapshot.{require_snapshot_matches_graph}
use motev.Execution.Task.{GraphTask, task_eq, task_identity}
use motev.GraphState.Command.{
  SettleGraphNode, failed_outcome, interrupted_outcome, succeeded_outcome,
}
use motev.GraphState.FrontierModel.{
  GraphRoutingContribution, cause_eq, continue_routing, frontier_node, frontier_status_eq,
  is_pending, select_route,
}
use motev.GraphState.Identity.{
  Bytes, GraphNodeId, GraphRouteId, activation_eq, join_eq, occurrence_eq, occurrence_ord,
  reference_eq,
}
use motev.GraphState.Model.{
  GraphConfigCursor, GraphExecutionToken, GraphRunState, config_cursor, progress_eq, run_status_eq,
  state_eq, token_eq,
}

abbrev pub collection_error : String → Error
collection_error message = execution_error result_collection_error message []

-- `TaskSuccess`, with its route and the Config cursor of its output's activation, `TaskFailure` and
-- `TaskInterrupt`
pub data TaskResult : Type 0 where
  task_success : GraphTask → Option GraphRouteId → Option GraphConfigCursor → TaskResult
  task_failure : GraphTask → String → TaskResult
  task_interrupt : GraphTask → Bytes → TaskResult

-- `result.task`
unfoldable pub task_of : TaskResult → GraphTask
task_of (task_success task route cursor) = task
task_of (task_failure task failure) = task
task_of (task_interrupt task payload) = task

unfoldable pub require_settlement_execution_token : GraphRunState → Result GraphExecutionToken
require_settlement_execution_token state = do
  lease ←
      or_raise state.execution (collection_error "settlement requires a committed execution lease")
  ok lease.token

-- `ContinueGraphRouting() if route is None else SelectGraphRoute(route)`
abbrev pub routing_of : Option GraphRouteId → GraphRoutingContribution
routing_of none = continue_routing
routing_of (some route) = select_route route

unfoldable pub project_success_settlement :
    CompiledGraph
    → GraphRunState
    → GraphNodeId
    → Option GraphRouteId
    → Option GraphConfigCursor
    → Result SettleGraphNode
unfolding validate_routing_contribution require_settlement_execution_token
project_success_settlement graph state node_id route config_cursor = do
  validate_routing_contribution graph node_id (routing_of route)
  token ← require_settlement_execution_token state
  ok (record {
    expected_revision = state.revision;
    execution = token;
    outcome = succeeded_outcome node_id (routing_of route);
    config_cursor = config_cursor;
    publication_evidence = none;
  })

unfoldable pub project_failure_settlement :
    GraphRunState → GraphNodeId → String → Option GraphConfigCursor → Result SettleGraphNode
unfolding require_settlement_execution_token
project_failure_settlement state node_id failure config_cursor = do
  token ← require_settlement_execution_token state
  ok (record {
    expected_revision = state.revision;
    execution = token;
    outcome = failed_outcome node_id failure;
    config_cursor = config_cursor;
    publication_evidence = none;
  })

unfoldable pub project_interrupt_settlement :
    CompiledGraph → GraphRunState → GraphNodeId → Bytes → Result SettleGraphNode
unfolding require_settlement_execution_token
project_interrupt_settlement graph state node_id request_payload = do
  raise_if (is_none graph.resume_input)
      (collection_error "node interrupt requires a resume input codec")
  token ← require_settlement_execution_token state
  ok (record {
    expected_revision = state.revision;
    execution = token;
    outcome =
        interrupted_outcome node_id
          (record {
            run_id = state.run_id;
            superstep = state.superstep;
            node_id = node_id;
            execution_generation = token.generation;
          })
          request_payload;
    config_cursor = none;
    publication_evidence = none;
  })

-- The command of a result whose task was checked.
unfoldable pub project_result : CompiledGraph → GraphRunState → TaskResult → Result SettleGraphNode
unfolding project_success_settlement project_failure_settlement project_interrupt_settlement
project_result graph state (task_success task route cursor) =
    project_success_settlement graph state task.node_id route cursor
project_result graph state (task_failure task failure) =
    project_failure_settlement state task.node_id failure none
project_result graph state (task_interrupt task payload) =
    project_interrupt_settlement graph state task.node_id payload

unfoldable pub settle_result : CompiledGraph → GraphRunState → TaskResult → Result SettleGraphNode
unfolding require_snapshot_matches_graph require_settlement_execution_token task_of task_at
    frontier_node is_pending project_result
settle_result graph state result =
    let task = task_of result in
    do
      require_snapshot_matches_graph graph state
      token ← require_settlement_execution_token state
      raise_if
          (task.run_id /= state.run_id
            || task.superstep /= state.superstep
            || task.task_id /= task_identity task.run_id task.superstep task.node_id)
          (collection_error "task result has invalid coordinates")
      node ←
          or_raise (frontier_node state.frontier task.node_id)
            (collection_error "task result does not reference a pending node")
      raise_if (not (is_pending node.settlement))
          (collection_error "task result does not reference a pending node")
      project_result graph state result
