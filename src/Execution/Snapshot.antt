-- ===== src/Execution/Snapshot.antt =====
-- mote-kernel/src/mote_kernel/execution/engine/snapshot_guard.py: whether a state belongs to a
-- compiled graph.
use motev.Base.{
  Bool, Dict, Error, List, Option, Result, [], all, any, dict_of, err, execution_error, for_each,
  get, if◌then◌else◌, invalid_execution_snapshot_error, is_empty, is_none, is_some, last?, list_eq,
  map, nat_eq, nat_ord, none, not, ok, option_discrete, option_eq, pair_eq, put, raise_if, select,
  some, string_eq, string_ord, transition_error, ◌&&◌, ◌/=◌, ◌==◌, ◌>>=◌, ◌>>◌, ◌||◌, ◌∷◌,
}
use motev.Execution.Graph.{CompiledGraph, callable_resources, compiled_join_eq, item_of}
use motev.Execution.Identity.{ScopeRunCoordinate, mismatch, scope_run_eq}
use motev.Execution.Routing.Contribution.{
  settled_activation_admission_error, validate_routing_contribution,
}
use motev.Execution.Routing.Diagnosis.{Diagnosis}
use motev.Execution.Routing.Evaluation.{frontier_admission_error}
use motev.Execution.Routing.Joins.{declared_joins}
use motev.GraphState.FrontierModel.{
  GraphFrontierNode, cause_eq, codec_discrete, frontier_status_eq, is_pending,
  routing_contributions,
}
use motev.GraphState.Identity.{
  GraphActivationIdentity, GraphNodeId, activation_eq, join_eq, occurrence_eq, occurrence_ord,
  reference_eq,
}
use motev.GraphState.Model.{GraphRunState, progress_eq, run_status_eq, running, state_eq, token_eq}
use motev.GraphState.ResourceModel.{ResourceAcquisition, ResourceId, snapshot_eq}
use motev.GraphState.Validation.Run.{validate_graph_run_state}

abbrev pub invalid_snapshot : Diagnosis → Error
invalid_snapshot diagnosis =
    execution_error invalid_execution_snapshot_error diagnosis.0 diagnosis.1

-- `if error is not None: raise InvalidExecutionSnapshotError(error)`
unfoldable pub raise_refusal : Option Diagnosis → Result (Unit {0})
raise_refusal none = ok tt
raise_refusal (some diagnosis) = err (invalid_snapshot diagnosis)

-- resume_input.py
unfoldable pub require_resume_input_binding : CompiledGraph → GraphRunState → Result (Unit {0})
unfolding codec_discrete option_discrete
require_resume_input_binding graph state =
    elim (option_discrete codec_discrete graph.resume_input state.resume_input_codec) [
      | yes same ↦ ok tt
      | no differ ↦
          err (mismatch "compiled graph resume input codec does not match durable graph state")
    ]

-- The resources that the pending callable nodes require.
unfoldable pub required_resources :
    CompiledGraph → List GraphFrontierNode → Result (Dict GraphNodeId (List ResourceId))
unfolding item_of is_pending put
required_resources graph [] = ok []
required_resources graph (node ∷ nodes) =
    if is_pending node.settlement
    then (do
      definition ← item_of graph.nodes node.node_id
      rest ← required_resources graph nodes
      ok (elim (callable_resources definition) [
        | none ↦ rest
        | some resources ↦ if is_empty resources then rest else (node.node_id, resources) ∷ rest
      ]))
    else required_resources graph nodes

-- `acquisitions != required`, for dicts
unfoldable pub same_dict :
    Dict GraphNodeId (List ResourceId) → Dict GraphNodeId (List ResourceId) → Bool
unfolding get all
same_dict d e =
    all (λ entry. get e entry.0 == some entry.1) d && all (λ entry. get d entry.0 == some entry.1) e

-- The end of the guard: the resources of a state with a lease.
unfoldable pub require_acquisitions : CompiledGraph → GraphRunState → Result (Unit {0})
unfolding required_resources same_dict dict_of
require_acquisitions graph state = do
  required ← required_resources graph state.frontier.nodes
  if is_empty required
      then raise_if (is_some state.resources)
          (invalid_snapshot ("resource-free pending nodes cannot retain acquisitions", []))
      else elim state.resources [
        | none ↦ err (
            invalid_snapshot
              ("active resource participants require the compiled resource snapshot", []))
        | some resources ↦ do
          raise_if
              (map (λ lock. lock.resource_id) resources.resources
                /= graph.transition.resource_order)
              (invalid_snapshot
                ("active resource participants require the compiled resource snapshot", []))
          raise_if
              (not (
                same_dict
                  (dict_of (
                    map (λ (a : ResourceAcquisition). (a.node_id, a.required))
                      resources.acquisitions))
                  (dict_of required)))
              (invalid_snapshot
                ("resource acquisitions do not exactly match pending compiled requirements", []))
      ]

-- `except GraphStateTransitionError as error: raise InvalidExecutionSnapshotError(str(error))`
unfoldable pub require_valid : Result (Unit {0}) → Result (Unit {0})
require_valid (err (transition_error m)) = err (invalid_snapshot (m, []))
require_valid r = r

-- The guard of a running state.
unfoldable pub require_running : CompiledGraph → GraphRunState → Result (Unit {0})
unfolding declared_joins any get frontier_admission_error raise_refusal require_resume_input_binding
    for_each validate_routing_contribution routing_contributions require_acquisitions
require_running graph state = do
  raise_if
      (state.superstep == 0
        && map (λ node. node.node_id) state.frontier.nodes /= graph.transition.entries)
      (invalid_snapshot ("initial frontier does not exactly match the compiled graph entries", []))
  declared ← declared_joins graph
  raise_if (any (λ progress. is_none (get declared progress.occurrence.join)) state.join_progress)
      (invalid_snapshot ("snapshot references unknown join progress", []))
  refusal ← frontier_admission_error graph state
  raise_refusal refusal
  require_resume_input_binding graph state
  for_each (λ entry. validate_routing_contribution graph entry.0 entry.1)
      (routing_contributions state.frontier)
  if is_none state.execution then ok tt else require_acquisitions graph state

unfoldable pub require_snapshot_matches_graph : CompiledGraph → GraphRunState → Result (Unit {0})
unfolding validate_graph_run_state require_valid select get settled_activation_admission_error
    raise_refusal require_running
require_snapshot_matches_graph graph state = do
  require_valid (validate_graph_run_state state)
  raise_if (state.definition_id /= graph.definition_id || state.definition_version /= graph.version)
      (mismatch "graph run does not match the compiled graph identity and version")
  let unknown =
      select (λ node_id. is_none (get graph.nodes node_id))
        (map (λ node. node.node_id) state.frontier.nodes)
  raise_if (not (is_empty unknown))
      (invalid_snapshot ("snapshot frontier contains unknown nodes", unknown))
  if state.status /= running
      then (do refusal ← settled_activation_admission_error graph state; raise_refusal refusal)
      else require_running graph state

unfoldable pub require_scoped_snapshot_matches_graph :
    CompiledGraph → GraphRunState → ScopeRunCoordinate → Result (Unit {0})
unfolding require_snapshot_matches_graph
require_scoped_snapshot_matches_graph graph state scope_run = do
  require_snapshot_matches_graph graph state
  raise_if (state.run_id /= scope_run.graph_run_id)
      (mismatch "scope-run coordinate does not match its compiled graph state")
  if is_empty scope_run.scope
      then raise_if (is_some state.parent)
          (mismatch "root graph state cannot carry a parent activation")
      else raise_if (parent_node state.parent /= last? scope_run.scope)
          (mismatch "nested graph state does not match its runtime scope")
  where
    parent_node : Option GraphActivationIdentity → Option GraphNodeId
    parent_node none = none
    parent_node (some parent) = some parent.node_id
