-- ===== src/Execution/Routing/Control.antt =====
-- routing.py: the control successor of a settled frontier, and the command that it becomes.
pub mod Successors
use motev.Base.{
  List, Option, Ordering, Result, String, [], all, any, collect, contains, err, execution_error,
  get, if◌then◌else◌, invalid_routing_command_error, is_empty, is_some, join_progress_error, leb,
  list_eq, map, nat_eq, nat_ord, none, not, ok, option_eq, pair_eq, raise_if,
  routing_deadlock_error, same_set, select, some, sort_by, sorted, string_eq, string_ord, ◌++◌, ◌+◌,
  ◌/=◌, ◌==◌, ◌>>=◌, ◌>>◌, ◌||◌, ◌∷◌,
}
use motev.Execution.Graph.{
  CompiledGraph, CompiledJoin, compiled_join_eq, end_node, item_of, occurrence_for,
}
use motev.Execution.Routing.Contribution.{
  successor_targets_for_reference, validate_routing_contribution,
}
use motev.Execution.Routing.Diagnosis.{
  Diagnosis, append_at, attempt, caught, is_deadlock, is_invalid_command, is_join_progress,
  is_mismatch, join_error, or_empty, refuse, refuse_if, returned,
}
use motev.Execution.Routing.Evaluation.{Candidates, RoutingFacts, add_targets, routing_evaluation}
use motev.Execution.Routing.Joins.{Arrivals, fold, node_of}
use motev.GraphState.Command.{
  CompleteGraphFrontier, GraphRunCommand, Transition, abort_run, advance, complete, transition,
}
use motev.GraphState.FrontierModel.{
  GraphActivationCause, GraphFrontierActivation, GraphRoutingContribution, cause_eq,
  frontier_status_eq, new_frontier_activation, new_routed_cause, routing_contributions,
  selected_route,
}
use motev.GraphState.Identity.{
  ActivationReference, GraphActivationIdentity, GraphJoinOccurrenceIdentity, GraphNodeId,
  GraphRouteId, activation_eq, compare_occurrences, compare_references, join_eq, new_activation,
  new_reference, occurrence_eq, occurrence_ord, reference_eq,
}
use motev.GraphState.Identity.Text.{str_append}
use motev.GraphState.Model.{
  GraphJoinProgress, GraphRunState, completed, progress_eq, run_status_eq, state_eq, token_eq,
}

-- The variables of the first loop of `_resolve_control`.
pub record Resolution : Type 0 where
  pub arrivals : Arrivals
  pub candidates : Candidates

-- The innermost loop, over the Joins of a source.
unfoldable pub arrive :
    GraphActivationIdentity → ActivationReference → Arrivals → CompiledJoin → Result Arrivals
unfolding occurrence_for get any append_at
arrive activation reference arrivals plan = do
  occurrence ← occurrence_for plan activation
  raise_if (any (λ item. node_of item == activation.node_id) (or_empty (get arrivals occurrence)))
      (join_error "join source activation occurrence repeated")
  ok (append_at arrivals occurrence reference)

-- The body of the first loop of `_resolve_control`.
unfoldable pub contribute :
    CompiledGraph
    → GraphRunState
    → Resolution
    → GraphNodeId × GraphRoutingContribution
    → Result Resolution
unfolding validate_routing_contribution new_activation new_reference selected_route
    successor_targets_for_reference add_targets item_of fold arrive
contribute graph state resolution (node_id, contribution) = do
  validate_routing_contribution graph node_id contribution
  activation ← new_activation state.run_id state.superstep node_id
  reference ← new_reference activation (selected_route contribution)
  targets ← successor_targets_for_reference graph reference
  candidates ← add_targets reference resolution.candidates targets
  joins ← item_of graph.transition.joins_by_source node_id
  arrivals ← fold (arrive activation reference) resolution.arrivals joins
  ok (record { arrivals = arrivals; candidates = candidates })

-- The variables of the second loop of `_resolve_control`.
pub record Progression : Type 0 where
  pub candidates : Candidates
  pub remaining : List GraphJoinProgress
  pub consumed : List GraphJoinOccurrenceIdentity

-- The body of that loop.
unfoldable pub progress_join :
    GraphRunState
    → Progression
    → GraphJoinOccurrenceIdentity × List ActivationReference
    → Result Progression
unfolding sort_by same_set contains new_routed_cause append_at
progress_join state progression (occurrence, references) =
    let arrived = sort_by compare_references references in
    if same_set (map node_of arrived) occurrence.join.sources
    then (do
      raise_if (occurrence.target_superstep /= state.superstep + 1)
          (join_error "completed Join occurrence has the wrong target coordinate")
      if occurrence.join.target /= end_node
          then (do
            cause ← new_routed_cause arrived (some occurrence)
            ok (record progression {
              candidates = append_at progression.candidates occurrence.join.target cause;
            }))
          else if contains occurrence (map (λ item. item.occurrence) state.join_progress)
          then ok (record progression { consumed = progression.consumed ++ occurrence ∷ [] })
          else ok progression)
    else do
      raise_if (leb occurrence.target_superstep (state.superstep + 1))
          (join_error "partial Join occurrence cannot reach its target coordinate")
      ok (record progression {
        remaining =
            progression.remaining ++ record { occurrence = occurrence; arrived = arrived } ∷ [];
      })

-- The last loop of `_resolve_control`: one cause for each target.
unfoldable pub activate_target :
    GraphNodeId × List GraphActivationCause → Result GraphFrontierActivation
unfolding new_frontier_activation
activate_target (target, cause ∷ []) = new_frontier_activation target cause
activate_target (target, causes) = err (
    execution_error invalid_routing_command_error
      "target has several activation causes in one frontier" (target ∷ []))

unfoldable pub compare_keys :
    {A : Type 0} → GraphJoinOccurrenceIdentity × A → GraphJoinOccurrenceIdentity × A → Ordering
unfolding compare_occurrences
compare_keys a b = compare_occurrences a.0 b.0

-- `_resolve_control`
unfoldable pub resolve_control : CompiledGraph → GraphRunState → RoutingFacts → Result RoutingFacts
unfolding routing_contributions fold contribute sort_by compare_keys progress_join collect
    activate_target sorted
resolve_control graph state facts = do
  elim facts.pending_error [
    | none ↦ ok tt
    | some diagnosis ↦ err (execution_error join_progress_error diagnosis.0 diagnosis.1)
  ]
  resolution ←
      fold (contribute graph state)
        (record { arrivals = facts.pending_join_arrivals; candidates = [] })
        (routing_contributions state.frontier)
  progression ←
      fold (progress_join state)
        (record { candidates = resolution.candidates; remaining = []; consumed = [] })
        (sort_by compare_keys resolution.arrivals)
  activations ← collect activate_target progression.candidates
  ok (record facts {
    remaining_join_progress = progression.remaining;
    activations = sort_by (λ a b. string_ord.cmp a.node_id b.node_id) activations;
    consumed_join_progress = sorted progression.consumed;
  })

-- The loop of `_completion_route`.
unfoldable pub contributed_routes :
    CompiledGraph
    → List (GraphNodeId × GraphRoutingContribution)
    → Result (List (Option GraphRouteId))
unfolding validate_routing_contribution selected_route
contributed_routes graph [] = ok []
contributed_routes graph ((node_id, contribution) ∷ others) = do
  validate_routing_contribution graph node_id contribution
  routes ← contributed_routes graph others
  ok (selected_route contribution ∷ routes)

-- `_completion_route`
unfoldable pub completion_route_of : CompiledGraph → GraphRunState → Result (Option GraphRouteId)
unfolding contributed_routes routing_contributions all
completion_route_of graph state = do
  routes ← contributed_routes graph (routing_contributions state.frontier)
  elim routes [
    | [] ↦ err (
        execution_error routing_deadlock_error
          "a terminal frontier has no settled routing contribution" [])
    | route ∷ others ↦ do
      raise_if (not (all (λ other. other == route) others)) (
          execution_error routing_deadlock_error
            "terminal frontier exposes conflicting completion routes" [])
      ok route
  ]

-- `transition_admission_error` from the control of the prior state on
unfoldable pub completion_error :
    CompiledGraph → GraphRunState → CompleteGraphFrontier → RoutingFacts → Result (Option Diagnosis)
unfolding completion_route_of
completion_error graph previous command control =
    refuse_if (not (is_empty control.activations) || not (is_empty control.remaining_join_progress))
      "graph completion discarded a compiled successor or partial Join occurrence" []
      (refuse_if (control.consumed_join_progress /= command.consumed_join_progress)
        "graph completion consumed the wrong Join occurrences" []
        (do
          tried ←
              attempt (λ class. is_invalid_command class || is_deadlock class)
                (completion_route_of graph previous)
          elim tried [
            | caught diagnosis ↦ ok (some diagnosis)
            | returned expected ↦
                refuse_if (command.completion_route /= expected)
                  "graph completion route does not match the terminal frontier" [] (ok none)
          ]))

-- The part of `transition_admission_error` on a completed candidate.
unfoldable pub completed_candidate_error :
    CompiledGraph → Option GraphRunState → GraphRunCommand → Result (Option Diagnosis)
unfolding routing_evaluation resolve_control completion_error
completed_candidate_error graph (some previous) (transition (complete command)) = do
  facts ← routing_evaluation graph previous
  elim facts.admission_error [
    | some diagnosis ↦ ok (some diagnosis)
    | none ↦ do
      tried ←
          attempt (λ class. is_invalid_command class || is_join_progress class || is_mismatch class)
            (resolve_control graph previous facts)
      elim tried [
        | caught diagnosis ↦ ok (some diagnosis)
        | returned control ↦ completion_error graph previous command control
      ]
  ]
completed_candidate_error graph previous command =
    refuse "completed graph state lacks its admitted completion transition" []

unfoldable pub transition_admission_error :
    CompiledGraph
    → Option GraphRunState
    → GraphRunCommand
    → GraphRunState
    → Result (Option Diagnosis)
unfolding routing_evaluation completed_candidate_error
transition_admission_error graph previous_state command candidate_state = do
  facts ← routing_evaluation graph candidate_state
  if is_some facts.admission_error || candidate_state.status /= completed
      then ok facts.admission_error
      else completed_candidate_error graph previous_state command

-- `{unavailable_control!r}` stands in the reason of the abort as the nodes' text.
unfoldable pub project_routing_facts :
    (List GraphNodeId → String) → GraphRunState → RoutingFacts → Result Transition
unfolding select str_append
project_routing_facts shown state facts =
    let unavailable =
      map (λ target. target.node_id)
        (select (λ target. not (is_empty target.unavailable_inputs)) facts.required_targets) in
    if not (is_empty unavailable)
    then ok (
        abort_run (record {
          expected_revision = state.revision;
          reason =
              str_append "required values unavailable for controlled nodes " (shown unavailable);
        }))
    else if not (is_empty facts.required_targets)
    then ok (
        advance (record {
          expected_revision = state.revision;
          activations = facts.activations;
          join_progress = facts.remaining_join_progress;
          consumed_join_progress = facts.consumed_join_progress;
        }))
    else if not (is_empty facts.remaining_join_progress)
    then err (
        execution_error routing_deadlock_error
          "partial join progress has no next task able to complete it" [])
    else if not (is_empty facts.unavailable_graph_outputs)
    then ok (
        abort_run (record {
          expected_revision = state.revision;
          reason = "required graph output values are unavailable at completion";
        }))
    else ok (
        complete (record {
          expected_revision = state.revision;
          consumed_join_progress = facts.consumed_join_progress;
          completion_route = facts.completion_route;
        }))
