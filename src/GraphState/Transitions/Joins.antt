-- ===== src/GraphState/Transitions/Joins.antt =====
-- execution_transitions.py: what an advance or a completion may do to pending Join progress.
use motev.Base.{
  Dict, List, Result, [], all, any, contains, for_each, get, is_distinct, is_none, is_subset,
  list_eq, map, nat_eq, nat_ord, none, not, ok, option_eq, or_raise, raise_if, same_set, select,
  set_of, some, sorted, string_eq, string_ord, transition_error, ◌&&◌, ◌++◌, ◌+◌, ◌/=◌, ◌==◌, ◌>>=◌,
  ◌>>◌, ◌||◌, ◌∷◌,
}
use motev.GraphState.FrontierModel.{cause_eq, frontier_status_eq}
use motev.GraphState.Identity.{
  ActivationReference, GraphJoinOccurrenceIdentity, activation_eq, join_eq, occurrence_eq,
  occurrence_ord, reference_eq,
}
use motev.GraphState.Model.{
  GraphJoinProgress, GraphRunState, progress_eq, run_status_eq, state_eq, token_eq,
}
use motev.GraphState.ResourceModel.{snapshot_eq}
use motev.GraphState.Transitions.Activations.{index_join_progress}
use motev.GraphState.Validation.{successful_references}

-- `_current_successful_references`
unfoldable pub current_successful_references : GraphRunState → List ActivationReference
unfolding successful_references
current_successful_references state =
    set_of (successful_references state.run_id state.superstep state.frontier.nodes)

-- The body of the loop of `_validate_join_consumption`, with the occurrences consumed before.
unfoldable pub check_consumption :
    GraphRunState
    → Dict GraphJoinOccurrenceIdentity GraphJoinProgress
    → List ActivationReference
    → List GraphJoinOccurrenceIdentity
    → GraphJoinOccurrenceIdentity
    → Result (Unit {0})
unfolding get select
check_consumption state previous current consumed occurrence = do
  raise_if
      (not
        (occurrence.run_id == state.run_id && occurrence.target_superstep == state.superstep + 1))
      (transition_error "consumed join occurrence has the wrong target coordinate")
  raise_if (contains occurrence consumed)
      (transition_error "consumed join progress keys must be canonical and distinct")
  progress ←
      or_raise (get previous occurrence)
        (transition_error "consumed join progress does not exist in the current state")
  let current_arrivals = select (λ r. contains r.activation.node_id occurrence.join.sources) current
  let source_ids =
      map (λ (r : ActivationReference). r.activation.node_id) (progress.arrived ++ current_arrivals)
  raise_if (not (is_distinct source_ids))
      (transition_error "join progress repeats one source activation")
  raise_if (not (same_set source_ids occurrence.join.sources))
      (transition_error "consumed join progress is not complete")

unfoldable pub check_consumptions :
    GraphRunState
    → Dict GraphJoinOccurrenceIdentity GraphJoinProgress
    → List ActivationReference
    → List GraphJoinOccurrenceIdentity
    → List GraphJoinOccurrenceIdentity
    → Result (List GraphJoinOccurrenceIdentity)
unfolding check_consumption
check_consumptions state previous current consumed [] = ok consumed
check_consumptions state previous current consumed (occurrence ∷ declared) = do
  check_consumption state previous current consumed occurrence
  check_consumptions state previous current (occurrence ∷ consumed) declared

-- `_validate_join_consumption`
unfoldable pub validate_join_consumption :
    GraphRunState
    → List GraphJoinOccurrenceIdentity
    → List ActivationReference
    → Result (List GraphJoinOccurrenceIdentity)
unfolding index_join_progress check_consumptions
validate_join_consumption state declared current = do
  previous ← index_join_progress state.join_progress "state"
  consumed ← check_consumptions state previous current [] declared
  raise_if (sorted consumed /= declared)
      (transition_error "consumed join progress keys must use canonical order")
  ok consumed

-- The first loop of `_validate_join_progress_delta`, at one updated record.
unfoldable pub check_delta :
    Dict GraphJoinOccurrenceIdentity GraphJoinProgress
    → List ActivationReference
    → List GraphJoinOccurrenceIdentity
    → GraphJoinProgress
    → Result (Unit {0})
unfolding get
check_delta previous current consumable progress = elim (get previous progress.occurrence) [
  | none ↦
      raise_if (not (is_subset progress.arrived current))
        (transition_error "new join progress must contain only current settled successes")
  | some prior ↦ do
    raise_if (contains progress.occurrence consumable)
        (transition_error "consumed join progress cannot be retained")
    raise_if (not (is_subset prior.arrived progress.arrived))
        (transition_error "join progress cannot remove or replace historical arrivals")
    raise_if (not (all (λ r. contains r prior.arrived || contains r current) progress.arrived))
        (transition_error "join progress additions must be current settled successes")
]

-- `_validate_join_progress_delta`
unfoldable pub validate_join_progress_delta :
    GraphRunState
    → List GraphJoinProgress
    → List GraphJoinOccurrenceIdentity
    → List GraphJoinOccurrenceIdentity
    → Result (Unit {0})
unfolding index_join_progress current_successful_references validate_join_consumption check_delta
    for_each all any get
validate_join_progress_delta state declared consumed explicitly_consumed = do
  previous ← index_join_progress state.join_progress "state"
  updated ← index_join_progress declared "command"
  let current = current_successful_references state
  explicit ← validate_join_consumption state explicitly_consumed current
  raise_if (any (λ occurrence. contains occurrence explicit) consumed)
      (transition_error "one pending join cannot be consumed more than once")
  let consumable = consumed ++ explicit
  for_each (check_delta previous current consumable) declared
  for_each
      (λ (item : GraphJoinProgress).
        raise_if
          (is_none (get updated item.occurrence) && not (contains item.occurrence consumable))
          (transition_error "unrelated join progress cannot be discarded"))
      state.join_progress
