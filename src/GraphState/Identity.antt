-- ===== src/GraphState/Identity.antt =====
-- mote-kernel/src/mote_kernel/state/graph_state/identity.py: identities, activation coordinates,
-- and the projections that derive one identity from others.
pub mod Text
pub mod Fields
pub mod Injective
use motev.Base.{
  Bool, Eq, List, Option, Ord, Ordering, Result, String, [], any, compare_bool, compare_list,
  contains, is_empty, is_some, length, list_discrete, list_eq, ltb, nat_eq, nat_ord, none, not, ok,
  option_discrete, option_eq, raise_if, set_of, some, sorted, string_discrete, string_eq,
  string_ord, then_compare, value_error, ℕ, ℕ_discrete, ◌&&◌, ◌/=◌, ◌==◌, ◌>>=◌, ◌>>◌, ◌||◌, ◌∷◌,
}
use Text.{codes, decimal, identity_field, str_append, strip}

-- Python's `NewType`s over `str`.
abbrev pub GraphRunId : Type 0
GraphRunId = String

abbrev pub GraphDefinitionId : Type 0
GraphDefinitionId = String

abbrev pub GraphDefinitionVersion : Type 0
GraphDefinitionVersion = ℕ

abbrev pub GraphNodeId : Type 0
GraphNodeId = String

abbrev pub GraphRouteId : Type 0
GraphRouteId = String

abbrev pub GraphExecutionAttemptId : Type 0
GraphExecutionAttemptId = String

abbrev pub GraphInterruptId : Type 0
GraphInterruptId = String

abbrev pub Bytes : Type 0
Bytes = List ℕ

unfoldable pub is_canonical_identity : String → Bool
unfolding strip contains list_discrete ℕ_discrete
is_canonical_identity value =
    not (is_empty (codes value))
    && codes value == strip (codes value)
    && not (contains 10 (codes value))
    && not (contains 13 (codes value))

pub record GraphActivationIdentity : Type 0 where
  pub run_id : GraphRunId
  pub superstep : ℕ
  pub node_id : GraphNodeId

unfoldable pub activation_discrete : Discrete GraphActivationIdentity
unfolding string_discrete ℕ_discrete
activation_discrete = hlevel (string_discrete, ℕ_discrete)

instance abbrev pub activation_eq : Eq GraphActivationIdentity
activation_eq = record { dec = activation_discrete }

-- `GraphActivationIdentity(...)`: construction runs `__post_init__`.
unfoldable pub new_activation : GraphRunId → ℕ → GraphNodeId → Result GraphActivationIdentity
new_activation run_id superstep node_id = do
  raise_if (not (is_canonical_identity run_id))
      (value_error "graph activation run_id must be canonical")
  raise_if (not (is_canonical_identity node_id))
      (value_error "graph activation node_id must be canonical")
  ok (record { run_id = run_id; superstep = superstep; node_id = node_id })

pub record ActivationReference : Type 0 where
  pub activation : GraphActivationIdentity
  pub route : Option GraphRouteId

unfoldable pub reference_discrete : Discrete ActivationReference
unfolding activation_discrete option_discrete
reference_discrete = hlevel (activation_discrete, option_discrete string_discrete)

instance abbrev pub reference_eq : Eq ActivationReference
reference_eq = record { dec = reference_discrete }

unfoldable pub new_reference :
    GraphActivationIdentity → Option GraphRouteId → Result ActivationReference
new_reference activation route = do
  elim route [
    | none ↦ ok tt
    | some name ↦
        raise_if (not (is_canonical_identity name))
          (value_error "activation reference route must be canonical")
  ]
  ok (record { activation = activation; route = route })

-- The order of `canonical_key()`: the key tuples compare lexicographically.
unfoldable pub compare_references : ActivationReference → ActivationReference → Ordering
compare_references a b = then_compare (string_ord.cmp a.activation.run_id b.activation.run_id) (
    then_compare (nat_ord.cmp a.activation.superstep b.activation.superstep) (
      then_compare (string_ord.cmp a.activation.node_id b.activation.node_id) (
        then_compare (compare_bool (is_some a.route) (is_some b.route))
          (string_ord.cmp (route_text a.route) (route_text b.route)))))
  where
    route_text : Option GraphRouteId → String
    route_text none = ""
    route_text (some name) = name

pub record GraphJoinIdentity : Type 0 where
  pub sources : List GraphNodeId
  pub target : GraphNodeId

pub record GraphJoinOccurrenceIdentity : Type 0 where
  pub join : GraphJoinIdentity
  pub run_id : GraphRunId
  pub target_superstep : ℕ

unfoldable pub join_discrete : Discrete GraphJoinIdentity
unfolding string_discrete list_discrete
join_discrete = hlevel (string_discrete, list_discrete string_discrete)

instance abbrev pub join_eq : Eq GraphJoinIdentity
join_eq = record { dec = join_discrete }

unfoldable pub occurrence_discrete : Discrete GraphJoinOccurrenceIdentity
unfolding join_discrete ℕ_discrete
occurrence_discrete = hlevel (join_discrete, string_discrete, ℕ_discrete)

instance abbrev pub occurrence_eq : Eq GraphJoinOccurrenceIdentity
occurrence_eq = record { dec = occurrence_discrete }

-- `dataclass(order=True)`: the fields compare in the order of their declaration.
unfoldable pub compare_occurrences :
    GraphJoinOccurrenceIdentity → GraphJoinOccurrenceIdentity → Ordering
unfolding compare_list
compare_occurrences a b = then_compare (compare_list string_ord.cmp a.join.sources b.join.sources) (
    then_compare (string_ord.cmp a.join.target b.join.target) (
      then_compare (string_ord.cmp a.run_id b.run_id)
        (nat_ord.cmp a.target_superstep b.target_superstep)))

instance abbrev pub occurrence_ord : Ord GraphJoinOccurrenceIdentity
occurrence_ord = record { cmp = compare_occurrences }

-- The checks of `GraphJoinIdentity.__post_init__`.
unfoldable pub new_join : List GraphNodeId → GraphNodeId → Result GraphJoinIdentity
new_join sources target = do
  raise_if
      (ltb (length sources) 2
        || any (λ source. not (is_canonical_identity source)) sources
        || sources /= sorted (set_of sources))
      (value_error "graph Join sources must be distinct and canonical")
  raise_if (not (is_canonical_identity target) || contains target sources)
      (value_error "graph Join target must be canonical and distinct from its sources")
  ok (record { sources = sources; target = target })

unfoldable pub new_occurrence :
    GraphJoinIdentity → GraphRunId → ℕ → Result GraphJoinOccurrenceIdentity
new_occurrence join run_id target_superstep = do
  raise_if (not (is_canonical_identity run_id))
      (value_error "graph Join occurrence run_id must be canonical")
  raise_if (ltb target_superstep 1)
      (value_error "graph Join target superstep must be a positive integer")
  ok (record { join = join; run_id = run_id; target_superstep = target_superstep })

-- `"".join(_identity_field(value) for value in values)`
unfoldable pub join_fields : List String → String
join_fields [] = ""
join_fields (value ∷ values) = str_append (identity_field value) (join_fields values)

unfoldable pub graph_interrupt_id : GraphRunId → ℕ → GraphNodeId → ℕ → GraphInterruptId
graph_interrupt_id run_id superstep node_id execution_generation = join_fields (
    "mote.graph-node-interrupt.v1"
    ∷ run_id
    ∷ decimal superstep
    ∷ node_id
    ∷ decimal execution_generation
    ∷ [])

unfoldable pub child_graph_run_id : GraphRunId → ℕ → GraphNodeId → GraphRunId
child_graph_run_id parent_run_id parent_superstep parent_node_id =
    join_fields
      ("mote.child-graph-run.v1" ∷ parent_run_id ∷ decimal parent_superstep ∷ parent_node_id ∷ [])
