-- ===== src/Execution/Planner/Plans.antt =====
-- planner.py: what a plan guarantees of its tasks.
use motev.Base.{
  >>-eq-ok, In, List, Result, [], ap, arith, err, execution_error, execution_limit_error,
  failover_error, false, if◌then◌else◌, key_error, leb, list_eq, map, map-In, nat_eq, nat_ord,
  ne_test_of_eq, ok, option_eq, pair_eq, raise_if, raise_if-eq-ok, refl, resource_error, string_eq,
  string_ord, subst, sym, transition_error, type_error, value_error, ◌<◌, ◌>>◌, ◌∙◌, ◌∷◌, ◌≡◌,
}
use motev.Execution.Graph.{CompiledGraph, ExecutionLimits, compiled_join_eq}
use motev.Execution.Planner.{pending_tasks, plan_tasks, task_at}
use motev.Execution.Snapshot.{require_snapshot_matches_graph, require_valid}
use motev.Execution.Task.{GraphTask, task_eq}
use motev.Execution.Task.Injective.{task_identity-inj}
use motev.GraphState.FrontierModel.{cause_eq, frontier_status_eq, pending_node_ids}
use motev.GraphState.Identity.{
  GraphNodeId, activation_eq, join_eq, occurrence_eq, occurrence_ord, reference_eq,
}
use motev.GraphState.Model.{GraphRunState, progress_eq, run_status_eq, running, state_eq, token_eq}
use motev.GraphState.Validation.Run.{validate_graph_run_state}

valid_of_guard : (r : Result (Unit {0})) → require_valid r ≡ ok tt → r ≡ ok tt
unfolding require_valid
valid_of_guard (ok done) h = refl
valid_of_guard (err (transition_error m)) h = cc
valid_of_guard (err (resource_error m)) h = cc
valid_of_guard (err (failover_error m)) h = cc
valid_of_guard (err (value_error m)) h = cc
valid_of_guard (err (type_error m)) h = cc
valid_of_guard (err (key_error m)) h = cc
valid_of_guard (err (execution_error c m vs)) h = cc

-- What a plan of a running state has checked, and what it returns.
pub record Planned (graph : CompiledGraph) (state : GraphRunState) (limits : ExecutionLimits)
    (tasks : List GraphTask) : Type 0 where
  pub valid : validate_graph_run_state state ≡ ok tt
  pub all_pending : tasks ≡ pending_tasks state
  pub within : state.superstep < limits.max_supersteps

pub plan_tasks-Planned :
    (graph : CompiledGraph) (state : GraphRunState) (limits : ExecutionLimits)
    (tasks : List GraphTask)
    → state.status ≡ running
    → plan_tasks graph state limits ≡ ok tasks
    → Planned graph state limits tasks
unfolding plan_tasks require_snapshot_matches_graph
plan_tasks-Planned graph state limits tasks live h =
    let (guarded, h1) = >>-eq-ok (require_snapshot_matches_graph graph state) _ h in
    let (valid, _) = >>-eq-ok (require_valid (validate_graph_run_state state)) _ guarded in
    let h2 =
      subst
        (λ b.
          (if b
            then ok []
            else (raise_if (leb limits.max_supersteps state.superstep)
                  (execution_error execution_limit_error "graph run reached its superstep limit" [])
                >> ok (pending_tasks state)))
          ≡ ok tasks)
        (ne_test_of_eq _ _ live) h1 in
    let (below, made) = >>-eq-ok (raise_if (leb limits.max_supersteps state.superstep) _) _ h2 in
    record {
      valid = valid_of_guard _ valid;
      all_pending = of_ok made;
      within = below_of (raise_if-eq-ok _ _ below);
    }
  where
    of_ok : {x y : List GraphTask} → ok x ≡ ok y → y ≡ x
    of_ok e = cc

    below_of :
        leb limits.max_supersteps state.superstep ≡ false → state.superstep < limits.max_supersteps
    below_of e = ground arith

-- A plan of a running state stands below the limit of supersteps, has one task for each pending
-- node and no other, in their order, and no two different tasks share an identity.
pub plan_tasks_bounds :
    (graph : CompiledGraph) (state : GraphRunState) (limits : ExecutionLimits)
    (tasks : List GraphTask)
    → state.status ≡ running
    → plan_tasks graph state limits ≡ ok tasks
    → (state.superstep < limits.max_supersteps)
      × (map (λ task. task.node_id) tasks ≡ pending_node_ids state.frontier)
      × ((first second : GraphTask)
          → In first tasks
          → In second tasks
          → first.task_id ≡ second.task_id
          → first ≡ second)
unfolding pending_tasks task_at
plan_tasks_bounds graph state limits tasks live planned =
    let p = plan_tasks-Planned graph state limits tasks live planned in
    (
      p.within,
      ap (map (λ (task : GraphTask). task.node_id)) p.all_pending
          ∙ nodes_of (pending_node_ids state.frontier),
      λ first second i j same.
          let (a, _, at_a) =
            map-In (task_at state) first (pending_node_ids state.frontier)
              (subst (In first) p.all_pending i) in
          let (b, _, at_b) =
            map-In (task_at state) second (pending_node_ids state.frontier)
              (subst (In second) p.all_pending j) in
          let ids =
            sym (ap (λ (t : GraphTask). t.task_id) at_a)
            ∙ same
            ∙ ap (λ (t : GraphTask). t.task_id) at_b in
          let nodes = (task_identity-inj _ _ _ _ a b ids).2 in
          at_a ∙ ap (task_at state) nodes ∙ sym at_b,
    )
  where
    nodes_of :
        (ids : List GraphNodeId)
        → map (λ (task : GraphTask). task.node_id) (map (task_at state) ids) ≡ ids
    nodes_of [] = refl
    nodes_of (id ∷ ids) = ap (◌∷◌ id) (nodes_of ids)
