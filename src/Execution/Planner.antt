-- ===== src/Execution/Planner.antt =====
-- mote-kernel/src/mote_kernel/execution/engine/planner.py: the tasks of the pending nodes.
pub mod Plans
use motev.Base.{
  List, Result, [], execution_error, execution_limit_error, if◌then◌else◌, leb, list_eq, map,
  nat_eq, nat_ord, ok, option_eq, pair_eq, raise_if, string_eq, string_ord, ◌/=◌, ◌>>◌,
}
use motev.Execution.Graph.{CompiledGraph, ExecutionLimits, compiled_join_eq}
use motev.Execution.Snapshot.{require_snapshot_matches_graph}
use motev.Execution.Task.{GraphTask, task_eq, task_identity}
use motev.GraphState.FrontierModel.{cause_eq, frontier_status_eq, pending_node_ids}
use motev.GraphState.Identity.{
  GraphNodeId, activation_eq, join_eq, occurrence_eq, occurrence_ord, reference_eq,
}
use motev.GraphState.Model.{GraphRunState, progress_eq, run_status_eq, running, state_eq, token_eq}

-- `GraphTask(task_identity(...), run_id, superstep, node_id)`
unfoldable pub task_at : GraphRunState → GraphNodeId → GraphTask
unfolding task_identity
task_at state node_id = record {
  task_id = task_identity state.run_id state.superstep node_id;
  run_id = state.run_id;
  superstep = state.superstep;
  node_id = node_id;
}

-- The tasks of all pending nodes.
unfoldable pub pending_tasks : GraphRunState → List GraphTask
unfolding task_at pending_node_ids
pending_tasks state = map (task_at state) (pending_node_ids state.frontier)

unfoldable pub plan_tasks :
    CompiledGraph → GraphRunState → ExecutionLimits → Result (List GraphTask)
unfolding require_snapshot_matches_graph pending_tasks
plan_tasks graph state limits = do
  require_snapshot_matches_graph graph state
  if state.status /= running then ok [] else do
    raise_if (leb limits.max_supersteps state.superstep)
        (execution_error execution_limit_error "graph run reached its superstep limit" [])
    ok (pending_tasks state)
