-- ===== src/GraphState/Transitions/Activations.antt =====
-- execution_transitions.py: the admission of a batch of activations.
use motev.Base.{
  Bool, Dict, List, Option, Result, String, [], any, err, false, get, if◌then◌else◌, is_distinct,
  is_empty, is_some, length, list_eq, ltb, map, nat_eq, nat_ord, none, not, ok, option_eq, put,
  raise_if, same_set, set_of, some, sorted, string_eq, string_ord, transition_error, true, ◌++◌,
  ◌+◌, ◌/=◌, ◌>>=◌, ◌>>◌, ◌||◌, ◌∷◌,
}
use motev.GraphState.FrontierModel.{
  GraphActivationCause, GraphFrontierActivation, cause_eq, frontier_node, frontier_status_eq,
  routed_cause, start_cause,
}
use motev.GraphState.Identity.{
  ActivationReference, GraphJoinOccurrenceIdentity, GraphNodeId, activation_eq, join_eq,
  occurrence_eq, occurrence_ord, reference_eq,
}
use motev.GraphState.Identity.Text.{str_append}
use motev.GraphState.Model.{
  GraphJoinProgress, GraphRunState, progress_eq, run_status_eq, state_eq, token_eq,
}
use motev.GraphState.ResourceModel.{snapshot_eq}
use motev.GraphState.Validation.{current_route}

-- `_validate_activation_batch`
unfoldable pub validate_activation_batch : List GraphFrontierActivation → String → Result (Unit {0})
validate_activation_batch declared label = do
  raise_if (is_empty declared) (transition_error (str_append label " activations are malformed"))
  let node_ids = map (λ (a : GraphFrontierActivation). a.node_id) declared
  raise_if (node_ids /= sorted (set_of node_ids))
      (transition_error (str_append label " activations must use canonical node order"))

unfoldable pub is_start_cause : GraphActivationCause → Bool
is_start_cause start_cause = true
is_start_cause (routed_cause references occurrence) = false

-- `_start_activations`
unfoldable pub start_activations :
    List GraphFrontierActivation → Result (List GraphFrontierActivation)
unfolding validate_activation_batch any is_start_cause
start_activations declared = do
  validate_activation_batch declared "initial"
  raise_if (any (λ a. not (is_start_cause a.cause)) declared)
      (transition_error "initial activations must use the START cause")
  ok declared

-- `_index_join_progress`, from the entries indexed before.
unfoldable pub index_from :
    Dict GraphJoinOccurrenceIdentity GraphJoinProgress
    → List GraphJoinProgress
    → String
    → Result (Dict GraphJoinOccurrenceIdentity GraphJoinProgress)
unfolding get put
index_from indexed [] label = ok indexed
index_from indexed (item ∷ items) label = do
  raise_if (is_some (get indexed item.occurrence))
      (transition_error (str_append label " join progress repeats one join"))
  index_from (put indexed item.occurrence item) items label

unfoldable pub index_join_progress :
    List GraphJoinProgress → String → Result (Dict GraphJoinOccurrenceIdentity GraphJoinProgress)
unfolding index_from
index_join_progress progress label = index_from [] progress label

-- The check of one reference in `_validate_next_activations`: whether it is of the current
-- superstep.
unfoldable pub check_source : GraphRunState → ActivationReference → Result Bool
unfolding frontier_node current_route
check_source state reference = do
  raise_if
      (reference.activation.run_id /= state.run_id
        || ltb state.superstep reference.activation.superstep)
      (transition_error "next activation cause references the wrong frontier")
  if ltb reference.activation.superstep state.superstep
      then ok false
      else (elim (current_route (frontier_node state.frontier reference.activation.node_id)) [
        | none ↦ err (transition_error "next activation cause source is not a settled success")
        | some expected_route ↦ do
          raise_if (reference.route /= expected_route)
              (transition_error "next activation cause route does not match source settlement")
          ok true
      ])

-- The loop over the references: those of the current superstep, and the historical ones.
unfoldable pub split_references :
    GraphRunState
    → List ActivationReference
    → Result (List ActivationReference × List ActivationReference)
unfolding check_source
split_references state [] = ok ([], [])
split_references state (reference ∷ references) = do
  is_current ← check_source state reference
  rest ← split_references state references
  if is_current then ok (reference ∷ rest.0, rest.1) else ok (rest.0, reference ∷ rest.1)

-- The Join part of the loop of `_validate_next_activations`; the result is the pending occurrence
-- that the activation consumes.
unfoldable pub check_occurrence :
    GraphRunState
    → Dict GraphJoinOccurrenceIdentity GraphJoinProgress
    → GraphNodeId
    → List ActivationReference
    → List ActivationReference
    → Option GraphJoinOccurrenceIdentity
    → Result (List GraphJoinOccurrenceIdentity)
unfolding get
check_occurrence state indexed node_id references history none = do
  raise_if (not (is_empty history) || length references /= 1)
      (transition_error "non-Join activation cause must carry one current source")
  ok []
check_occurrence state indexed node_id references history (some occurrence) = do
  raise_if
      (occurrence.run_id /= state.run_id
        || occurrence.join.target /= node_id
        || occurrence.target_superstep /= state.superstep + 1
        || not (
            same_set (map (λ (r : ActivationReference). r.activation.node_id) references)
              occurrence.join.sources))
      (transition_error "next Join activation cause has the wrong occurrence identity")
  elim (get indexed occurrence) [
    | none ↦ do
      raise_if (not (is_empty history))
          (transition_error "historical Join references lack matching pending progress")
      ok []
    | some progress ↦ do
      raise_if (progress.arrived /= history)
          (transition_error "Join activation history does not match pending progress")
      ok (occurrence ∷ [])
  ]

-- The body of the loop of `_validate_next_activations`.
unfoldable pub check_cause :
    GraphRunState
    → Dict GraphJoinOccurrenceIdentity GraphJoinProgress
    → GraphNodeId
    → GraphActivationCause
    → Result (List GraphJoinOccurrenceIdentity)
unfolding split_references check_occurrence
check_cause state indexed node_id start_cause =
    err (transition_error "next frontier activations must carry routed causes")
check_cause state indexed node_id (routed_cause references occurrence) = do
  raise_if (not (is_distinct (map (λ (r : ActivationReference). r.activation.node_id) references)))
      (transition_error "next activation cause cannot repeat one source node")
  parts ← split_references state references
  raise_if (is_empty parts.0)
      (transition_error "next activation cause requires a current settled source")
  check_occurrence state indexed node_id references parts.1 occurrence

unfoldable pub check_activations :
    GraphRunState
    → Dict GraphJoinOccurrenceIdentity GraphJoinProgress
    → List GraphFrontierActivation
    → Result (List GraphJoinOccurrenceIdentity)
unfolding check_cause
check_activations state indexed [] = ok []
check_activations state indexed (activation ∷ activations) = do
  consumed ← check_cause state indexed activation.node_id activation.cause
  rest ← check_activations state indexed activations
  ok (consumed ++ rest)

-- `_validate_next_activations`
unfoldable pub validate_next_activations :
    GraphRunState → List GraphFrontierActivation → Result (List GraphJoinOccurrenceIdentity)
unfolding validate_activation_batch index_join_progress check_activations
validate_next_activations state declared = do
  validate_activation_batch declared "next frontier"
  indexed ← index_join_progress state.join_progress "state"
  consumed ← check_activations state indexed declared
  ok (set_of consumed)
