-- ===== src/Execution/Routing/Evaluation.antt =====
-- routing.py: the validated projection of one state, and its check against the prior frontier.
use motev.Base.{
  Dict, List, Option, Result, String, [], any, dict_of, get, if◌then◌else◌, is_empty, is_none,
  is_some, list_eq, ltb, map, nat_eq, nat_ord, none, not, ok, option_eq, pair_eq, put, same_set,
  select, some, sorted, string_eq, string_ord, ◌+◌, ◌/=◌, ◌==◌, ◌>>=◌, ◌||◌, ◌∷◌,
}
use motev.Execution.Graph.{CompiledGraph, compiled_join_eq, end_node}
use motev.Execution.Routing.Contribution.{
  settled_activation_admission_error, successor_targets_for_reference,
}
use motev.Execution.Routing.Diagnosis.{
  Attempt, Diagnosis, append_at, attempt, caught, first_refusal, is_invalid_command,
  is_join_progress, is_mismatch, refuse, refuse_if, returned,
}
use motev.Execution.Routing.Gates.{frontier_gate_error}
use motev.Execution.Routing.Joins.{
  declared_joins, pending_join_arrivals, historical_join_arrivals, Arrivals, Declared, node_of,
  settled_references,
}
use motev.GraphState.FrontierModel.{
  GraphActivationCause, GraphFrontierActivation, GraphFrontierNode, cause_eq, frontier_status_eq,
  new_routed_cause, routed_cause, start_cause,
}
use motev.GraphState.Identity.{
  ActivationReference, GraphJoinOccurrenceIdentity, GraphNodeId, GraphRouteId, activation_eq,
  join_eq, occurrence_eq, occurrence_ord, reference_eq,
}
use motev.GraphState.Model.{
  GraphJoinProgress, GraphRunState, completed, progress_eq, run_status_eq, state_eq, token_eq,
}

pub record RequiredTarget : Type 0 where
  pub node_id : GraphNodeId
  pub unavailable_inputs : List String

pub record RoutingFacts : Type 0 where
  pub declared_joins : Declared
  pub pending_join_arrivals : Arrivals
  pub historical_join_arrivals : Arrivals
  pub remaining_join_progress : List GraphJoinProgress
  pub activations : List GraphFrontierActivation
  pub consumed_join_progress : List GraphJoinOccurrenceIdentity
  pub required_targets : List RequiredTarget
  pub unavailable_graph_outputs : List String
  pub completion_route : Option GraphRouteId
  pub admission_error : Option Diagnosis
  pub pending_error : Option Diagnosis

abbrev pub Candidates : Type 0
Candidates = Dict GraphNodeId (List GraphActivationCause)

-- `for target in targets: candidates.setdefault(target, []).append(RoutedActivationCause(...))`
unfoldable pub add_targets : ActivationReference → Candidates → List GraphNodeId → Result Candidates
unfolding new_routed_cause append_at
add_targets reference candidates [] = ok candidates
add_targets reference candidates (target ∷ targets) = do
  cause ← new_routed_cause (reference ∷ []) none
  add_targets reference (append_at candidates target cause) targets

-- The loop of `_post_advance_error` over the prior settlements; the `try` is round the targets.
unfoldable pub prior_candidates :
    CompiledGraph → Candidates → List ActivationReference → Result (Attempt Candidates)
unfolding successor_targets_for_reference add_targets
prior_candidates graph candidates [] = ok (returned candidates)
prior_candidates graph candidates (reference ∷ references) = do
  tried ← attempt is_invalid_command (successor_targets_for_reference graph reference)
  elim tried [
    | caught diagnosis ↦ ok (caught diagnosis)
    | returned targets ↦ do
      following ← add_targets reference candidates targets
      prior_candidates graph following references
  ]

-- The variables of the loop of `_post_advance_error` over the historical arrivals.
pub record Expected : Type 0 where
  pub candidates : Candidates
  pub progress : Arrivals

-- The body of that loop.
unfoldable pub expect_arrival :
    GraphRunState
    → Expected
    → GraphJoinOccurrenceIdentity
    → List ActivationReference
    → Result (Attempt Expected)
unfolding same_set put append_at new_routed_cause
expect_arrival state expected occurrence arrivals =
    let complete = same_set (map node_of arrivals) occurrence.join.sources in
    if ltb occurrence.target_superstep state.superstep
    then (if complete
        then ok (returned expected)
        else ok (caught ("historical Join occurrence passed its target without every source", [])))
    else if complete
    then (if occurrence.target_superstep /= state.superstep
        then ok (caught ("Join occurrence completed before its target coordinate", []))
        else if occurrence.join.target /= end_node
        then (do
          cause ← new_routed_cause arrivals (some occurrence)
          ok (
              returned (record expected {
                candidates = append_at expected.candidates occurrence.join.target cause;
              })))
        else ok (returned expected))
    else if occurrence.target_superstep == state.superstep
    then ok (caught ("Join occurrence reached its target coordinate without every source", []))
    else ok (returned (record expected { progress = put expected.progress occurrence arrivals }))

unfoldable pub expect_arrivals : GraphRunState → Expected → Arrivals → Result (Attempt Expected)
unfolding expect_arrival
expect_arrivals state expected [] = ok (returned expected)
expect_arrivals state expected ((occurrence, arrivals) ∷ others) = do
  tried ← expect_arrival state expected occurrence arrivals
  elim tried [
    | caught diagnosis ↦ ok (caught diagnosis)
    | returned following ↦ expect_arrivals state following others
  ]

-- `{node.node_id: node.cause for node in state.frontier.nodes if ...}`
unfoldable pub routed_causes : List GraphFrontierNode → List (GraphNodeId × GraphActivationCause)
routed_causes [] = []
routed_causes (node ∷ nodes) =
    let rest = routed_causes nodes in
    elim node.cause [
      | start_cause ↦ rest
      | routed_cause references occurrence ↦ (node.node_id, node.cause) ∷ rest
    ]

-- The body of the loop of `_post_advance_error` over the candidates.
unfoldable pub candidate_error :
    Dict GraphNodeId GraphActivationCause
    → GraphNodeId × List GraphActivationCause
    → Result (Option Diagnosis)
unfolding get
candidate_error actual (target, cause ∷ []) =
    refuse_if (get actual target /= some cause)
      "frontier target does not match its compiled successor cause" (target ∷ []) (ok none)
candidate_error actual (target, causes) =
    refuse "target has several compiled activation causes" (target ∷ [])

-- The checks of `_post_advance_error` on what the prior frontier leads to.
unfoldable pub expectation_error : GraphRunState → Expected → Result (Option Diagnosis)
unfolding dict_of routed_causes same_set any get first_refusal candidate_error sorted select
expectation_error state expected =
    let actual = dict_of (routed_causes state.frontier.nodes) in
    let progress =
      dict_of
        (map (λ (item : GraphJoinProgress). (item.occurrence, item.arrived)) state.join_progress) in
    let unexpected = sorted (
      select (λ target. is_none (get expected.candidates target))
        (map (λ entry. entry.0) actual)) in
    refuse_if
      (not (same_set (map (λ entry. entry.0) progress) (map (λ entry. entry.0) expected.progress)))
      "frontier transition lost or invented Join progress" []
      (refuse_if (any (λ entry. get progress entry.0 /= some entry.1) expected.progress)
        "frontier transition changed Join progress without a proven arrival" []
        (do
          found ← first_refusal (candidate_error actual) expected.candidates
          elim found [
            | some diagnosis ↦ ok (some diagnosis)
            | none ↦
                refuse_if (not (is_empty unexpected))
                  "frontier contains an unproved successor target" unexpected (ok none)
          ]))

-- `_post_advance_error`
unfoldable pub post_advance_error :
    CompiledGraph → GraphRunState → Arrivals → Result (Option Diagnosis)
unfolding select prior_candidates expect_arrivals expectation_error
post_advance_error graph state historical =
    let previous =
      select (λ reference. reference.activation.superstep + 1 == state.superstep)
        (settled_references state) in
    refuse_if (is_empty previous) "non-initial frontier has no committed predecessor settlements" []
      (do
        tried ← prior_candidates graph [] previous
        elim tried [
          | caught diagnosis ↦ ok (some diagnosis)
          | returned candidates ↦ do
            expected ←
                expect_arrivals state (record { candidates = candidates; progress = [] }) historical
            elim expected [
              | caught diagnosis ↦ ok (some diagnosis)
              | returned following ↦ expectation_error state following
            ]
        ])

abbrev pub no_facts : RoutingFacts
no_facts = record {
  declared_joins = [];
  pending_join_arrivals = [];
  historical_join_arrivals = [];
  remaining_join_progress = [];
  activations = [];
  consumed_join_progress = [];
  required_targets = [];
  unavailable_graph_outputs = [];
  completion_route = none;
  admission_error = none;
  pending_error = none;
}

-- `replace(evaluation, admission_error=error)`
abbrev pub with_error : RoutingFacts → Option Diagnosis → RoutingFacts
with_error facts error = record facts { admission_error = error }

-- `_routing_evaluation` from the historical arrivals on
unfoldable pub evaluate_history : CompiledGraph → GraphRunState → RoutingFacts → Result RoutingFacts
unfolding historical_join_arrivals post_advance_error
evaluate_history graph state facts = do
  tried ←
      attempt (λ class. is_join_progress class || is_mismatch class)
        (historical_join_arrivals graph state)
  elim tried [
    | caught diagnosis ↦ ok (with_error facts (some diagnosis))
    | returned arrivals ↦ do
      found ← post_advance_error graph state arrivals
      ok (with_error (record facts { historical_join_arrivals = arrivals }) found)
  ]

-- `_routing_evaluation` from the pending arrivals on
unfoldable pub evaluate_pending :
    CompiledGraph → GraphRunState → Declared → RoutingFacts → Result RoutingFacts
unfolding pending_join_arrivals evaluate_history
evaluate_pending graph state declared facts = do
  tried ← attempt is_join_progress (pending_join_arrivals state declared)
  elim tried [
    | caught diagnosis ↦
        let failed = record facts { pending_error = some diagnosis } in
        ok (if ltb 0 state.superstep then with_error failed (some diagnosis) else failed)
    | returned arrivals ↦
        let following = record facts { pending_join_arrivals = arrivals } in
        if state.superstep == 0 then ok following else evaluate_history graph state following
  ]

-- `_routing_evaluation` from the declared Joins on
unfoldable pub evaluate_joins : CompiledGraph → GraphRunState → Result RoutingFacts
unfolding declared_joins frontier_gate_error evaluate_pending
evaluate_joins graph state = do
  tried ← attempt is_mismatch (declared_joins graph)
  elim tried [
    | caught diagnosis ↦ ok (with_error no_facts (some diagnosis))
    | returned declared ↦ do
      let facts : RoutingFacts = record no_facts { declared_joins = declared }
      found ← frontier_gate_error graph state declared
      elim found [
        | some diagnosis ↦ ok (with_error facts (some diagnosis))
        | none ↦ evaluate_pending graph state declared facts
      ]
  ]

-- `_routing_evaluation`
unfoldable pub routing_evaluation : CompiledGraph → GraphRunState → Result RoutingFacts
unfolding settled_activation_admission_error evaluate_joins
routing_evaluation graph state = do
  found ← settled_activation_admission_error graph state
  if is_some found || state.status == completed
      then ok (with_error no_facts found)
      else evaluate_joins graph state

unfoldable pub frontier_admission_error : CompiledGraph → GraphRunState → Result (Option Diagnosis)
unfolding routing_evaluation
frontier_admission_error graph state = do
  facts ← routing_evaluation graph state
  ok facts.admission_error
