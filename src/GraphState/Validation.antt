-- ===== src/GraphState/Validation.antt =====
-- mote-kernel/src/mote_kernel/state/graph_state/validation.py: the invariants of a recovered
-- graph-run state. What it checks of the Python type of a value holds here by typing.
pub mod Run
pub mod Facts
pub mod Stable
use motev.Base.{
  List, Option, Ordering, Result, String, [], any, collect, contains, err, for_each, if◌then◌else◌,
  is_distinct, is_empty, is_subset, leb, length, list_eq, ltb, map, nat_eq, nat_ord, none, not, ok,
  on_value_error, option_eq, raise_if, same_set, select, set_of, some, sort_by, sorted, string_eq,
  string_ord, transition_error, ℕ, ◌&&◌, ◌/=◌, ◌==◌, ◌>>=◌, ◌>>◌, ◌||◌, ◌∷◌,
}
use motev.GraphState.FrontierModel.{
  GraphFrontierNode, cause_eq, frontier_node, frontier_status_eq, selected_route, succeeded,
}
use motev.GraphState.Identity.{
  ActivationReference, GraphActivationIdentity, GraphJoinOccurrenceIdentity, GraphRouteId,
  GraphRunId, activation_eq, compare_occurrences, compare_references, is_canonical_identity,
  join_eq, occurrence_eq, occurrence_ord, reference_eq,
}
use motev.GraphState.Identity.Text.{str_append}
use motev.GraphState.Model.{
  GraphJoinProgress, GraphPublicationSettlement, GraphRunState, admit_publication, completed,
  progress_eq, run_status_eq, state_eq, token_eq,
}
use motev.GraphState.ResourceModel.{snapshot_eq}

unfoldable pub require_field : String → String → Result (Unit {0})
require_field value field =
    raise_if (not (is_canonical_identity value))
      (transition_error (str_append field " must be non-empty and trimmed"))

-- `tuple(sorted(set(references), key=ActivationReference.canonical_key))`
unfoldable pub canonical_references_of : List ActivationReference → List ActivationReference
unfolding set_of sort_by compare_references
canonical_references_of references = sort_by compare_references (set_of references)

-- `_canonical_references`
unfoldable pub canonical_references : List ActivationReference → String → Result (Unit {0})
unfolding canonical_references_of
canonical_references references field =
    raise_if (references /= canonical_references_of references)
      (transition_error (str_append field " must be canonical and distinct"))

-- `_reference_activation`
unfoldable pub reference_activation : ActivationReference → String → Result GraphActivationIdentity
unfolding require_field
reference_activation reference field = do
  require_field reference.activation.run_id (str_append field " run identity")
  require_field reference.activation.node_id (str_append field " node identity")
  elim reference.route [
    | none ↦ ok tt
    | some route ↦ require_field route (str_append field " route identity")
  ]
  ok reference.activation

-- The success of a frontier node at a coordinate, with the route that it selected.
unfoldable pub current_route : Option GraphFrontierNode → Option (Option GraphRouteId)
unfolding selected_route
current_route none = none
current_route (some node) = elim node.settlement [
  | succeeded routing ↦ some (selected_route routing)
  | _ ↦ none
]

-- The last loop of `_validate_settled_publications`, at one record.
unfoldable pub validate_publication : GraphRunState → GraphPublicationSettlement → Result (Unit {0})
unfolding reference_activation current_route frontier_node
validate_publication state item = do
  activation ← reference_activation item.reference "settled publication evidence"
  raise_if (activation.run_id /= state.run_id || ltb state.superstep activation.superstep)
      (transition_error "settled publication evidence has an invalid coordinate")
  raise_if (ltb state.revision item.commit_revision)
      (transition_error "settled publication revision exceeds its authoritative state")
  raise_if (ltb state.execution_sequence item.execution.generation)
      (transition_error "settled publication execution exceeds its authoritative state")
  if activation.superstep == state.superstep && state.status /= completed
      then (elim (current_route (frontier_node state.frontier activation.node_id)) [
        | none ↦
            err (transition_error "current settled publication has no successful frontier node")
        | some selected ↦
            raise_if (item.reference.route /= selected)
              (transition_error "settled publication route does not match its frontier settlement")
      ])
      else ok tt

-- `{item.reference for item in admitted if item.reference.activation.superstep == superstep}`
unfoldable pub publications_at : ℕ → List GraphPublicationSettlement → List ActivationReference
unfolding select
publications_at superstep items =
    map (λ item. item.reference)
      (select (λ item. item.reference.activation.superstep == superstep) items)

-- The references of the successful nodes of a frontier.
unfoldable pub successful_references :
    GraphRunId → ℕ → List GraphFrontierNode → List ActivationReference
unfolding selected_route
successful_references run_id superstep [] = []
successful_references run_id superstep (node ∷ nodes) =
    let rest = successful_references run_id superstep nodes in
    elim node.settlement [
      | succeeded routing ↦
          record {
            activation = record { run_id = run_id; superstep = superstep; node_id = node.node_id };
            route = selected_route routing;
          }
          ∷ rest
      | _ ↦ rest
    ]

-- `_validate_settled_publications`
unfoldable pub validate_settled_publications : GraphRunState → Result (Unit {0})
unfolding canonical_references validate_publication publications_at successful_references
    admit_publication collect for_each
validate_settled_publications state = do
  admitted ←
      on_value_error (collect admit_publication state.settled_publications)
        (λ m. transition_error "settled publication evidence contains a malformed record")
  let references = map (λ (item : GraphPublicationSettlement). item.reference) admitted
  canonical_references references "settled publication evidence"
  raise_if (not (is_distinct (map (λ (r : ActivationReference). r.activation) references)))
      (transition_error "settled publication evidence repeats one activation")
  raise_if
      (not
        (is_distinct (map (λ (item : GraphPublicationSettlement). item.commit_revision) admitted)))
      (transition_error "settled publication evidence repeats one commit revision")
  for_each (validate_publication state) admitted
  raise_if
      (state.status /= completed
        && not (
            same_set (publications_at state.superstep admitted)
              (successful_references state.run_id state.superstep state.frontier.nodes)))
      (transition_error "current successful frontier and publication ledger disagree")

-- `_validate_completed_graph_provenance`; `tuple(dict.fromkeys(routes))` has one item.
unfoldable pub validate_completed_graph_provenance : GraphRunState → Result (Unit {0})
unfolding select set_of any
validate_completed_graph_provenance state = do
  let terminal =
      select (λ item. item.reference.activation.superstep == state.superstep)
        state.settled_publications
  raise_if (is_empty terminal)
      (transition_error "completed graph lacks terminal settlement provenance")
  raise_if (any (λ item. leb state.revision item.commit_revision) terminal)
      (transition_error "terminal settlement must precede the completed state revision")
  raise_if
      (set_of (map (λ (item : GraphPublicationSettlement). item.reference.route) terminal)
        /= state.completion_route ∷ [])
      (transition_error "completed graph route does not match terminal settlement provenance")

-- `_validate_join_occurrence`
unfoldable pub validate_join_occurrence :
    GraphRunState → GraphJoinOccurrenceIdentity → Result (Unit {0})
validate_join_occurrence state occurrence = do
  raise_if
      (ltb (length occurrence.join.sources) 2
        || any (λ source. not (is_canonical_identity source)) occurrence.join.sources
        || occurrence.join.sources /= sorted (set_of occurrence.join.sources))
      (transition_error "join definition sources must be distinct and canonical")
  raise_if
      (not (is_canonical_identity occurrence.join.target)
        || contains occurrence.join.target occurrence.join.sources)
      (transition_error "join definition target is invalid")
  raise_if (occurrence.run_id /= state.run_id || not (is_canonical_identity occurrence.run_id))
      (transition_error "join occurrence belongs to the wrong graph run")
  raise_if (ltb occurrence.target_superstep 1)
      (transition_error "join occurrence target superstep must be positive")

-- The check of one arrival in `_validate_join_progress`.
unfoldable pub validate_arrival :
    GraphRunState → GraphJoinOccurrenceIdentity → ActivationReference → Result (Unit {0})
unfolding reference_activation
validate_arrival state occurrence reference = do
  activation ← reference_activation reference "join progress arrivals"
  raise_if
      (activation.run_id /= occurrence.run_id
        || leb state.superstep activation.superstep
        || leb occurrence.target_superstep activation.superstep
        || not (contains activation.node_id occurrence.join.sources))
      (transition_error "join progress contains an invalid predecessor arrival")
  raise_if (not (contains reference (map (λ item. item.reference) state.settled_publications)))
      (transition_error "join progress arrival lacks committed settlement evidence")

-- The loop of `_validate_join_progress`; `seen` holds the occurrences before.
unfoldable pub validate_progress_from :
    GraphRunState → List GraphJoinOccurrenceIdentity → List GraphJoinProgress → Result (Unit {0})
unfolding canonical_references validate_arrival for_each
validate_progress_from state seen [] = ok tt
validate_progress_from state seen (join ∷ rest) = do
  raise_if (leb join.occurrence.target_superstep state.superstep)
      (transition_error "pending join occurrence must target a future superstep")
  raise_if (is_empty join.arrived)
      (transition_error "join progress arrivals must be canonical and distinct")
  canonical_references join.arrived "join progress arrivals"
  let arrived_sources = map (λ (r : ActivationReference). r.activation.node_id) join.arrived
  raise_if
      (not (is_distinct arrived_sources)
        || not (
            is_subset arrived_sources join.occurrence.join.sources
            && not (is_subset join.occurrence.join.sources arrived_sources)))
      (transition_error "join progress must contain partial arrivals")
  for_each (validate_arrival state join.occurrence) join.arrived
  raise_if (contains join.occurrence seen) (transition_error "graph state repeats join progress")
  validate_progress_from state (join.occurrence ∷ seen) rest

unfoldable pub compare_progress : GraphJoinProgress → GraphJoinProgress → Ordering
unfolding compare_occurrences
compare_progress a b = compare_occurrences a.occurrence b.occurrence

-- `_validate_join_progress`
unfoldable pub validate_join_progress : GraphRunState → Result (Unit {0})
unfolding validate_join_occurrence validate_progress_from compare_progress sort_by for_each
validate_join_progress state = do
  for_each (λ item. validate_join_occurrence state item.occurrence) state.join_progress
  raise_if (state.join_progress /= sort_by compare_progress state.join_progress)
      (transition_error "join progress must use canonical order")
  validate_progress_from state [] state.join_progress
