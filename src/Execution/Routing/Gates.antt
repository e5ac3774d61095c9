-- ===== src/Execution/Routing/Gates.antt =====
-- routing.py: the causes of a frontier's activations against the compiled activation gates.
use motev.Base.{
  Bool, List, Option, Ordering, Result, String, [], compare_bool, contains, err, false, for_each,
  get, if◌then◌else◌, is_none, is_some, is_subset, length, list_eq, ltb, map, nat_eq, nat_ord, none,
  not, ok, option_eq, or_raise, pair_eq, raise_if, select, some, sort_by, string_eq, string_ord,
  then_compare, true, ℕ, ◌&&◌, ◌-◌, ◌/=◌, ◌==◌, ◌>>=◌, ◌>>◌, ◌||◌, ◌∷◌,
}
use motev.Execution.Graph.{
  ActivationGate, CompiledGraph, CompiledPredecessorInput, NodeOutputPort, ResolvedInputBinding,
  compiled_join_eq, item_of, predecessor_input,
}
use motev.Execution.Routing.Diagnosis.{
  Diagnosis, attempt, caught, first_refusal, invalid_command, is_invalid_command, refuse, refuse_if,
  returned,
}
use motev.Execution.Routing.Joins.{Declared, any_misprojected, node_of, settled_references}
use motev.GraphState.FrontierModel.{
  GraphActivationCause, GraphFrontierNode, cause_eq, frontier_status_eq, routed_cause, start_cause,
}
use motev.GraphState.Identity.{
  ActivationReference, GraphActivationIdentity, GraphJoinOccurrenceIdentity, GraphNodeId,
  GraphRouteId, activation_eq, join_eq, new_activation, occurrence_eq, occurrence_ord, reference_eq,
}
use motev.GraphState.Model.{GraphRunState, progress_eq, run_status_eq, state_eq, token_eq}

-- The order of `(node_id, route is not None, route or "")`.
unfoldable pub compare_sources :
    GraphNodeId × Option GraphRouteId → GraphNodeId × Option GraphRouteId → Ordering
compare_sources a b = then_compare (string_ord.cmp a.0 b.0) (
    then_compare (compare_bool (is_some a.1) (is_some b.1))
      (string_ord.cmp (route_text a.1) (route_text b.1)))
  where
    route_text : Option GraphRouteId → String
    route_text none = ""
    route_text (some name) = name

-- The test of `_gate_matches_cause`, on the sources of the cause in their order.
unfoldable pub gate_admits : ActivationGate → List (GraphNodeId × Option GraphRouteId) → Bool
unfolding contains
gate_admits [] [] = true
gate_admits [] (actual ∷ others) = false
gate_admits (entry ∷ gate) [] = false
gate_admits (entry ∷ gate) (actual ∷ others) =
    entry.0 == actual.0 && contains actual.1 entry.1 && gate_admits gate others

-- `_gate_matches_cause`
unfoldable pub gate_matches_cause : ActivationGate → List ActivationReference → Bool
unfolding sort_by compare_sources gate_admits
gate_matches_cause gate references = gate_admits gate (
    sort_by compare_sources
      (map (λ (r : ActivationReference). (r.activation.node_id, r.route)) references))

-- `GraphInputPort | PredecessorSourceSelection`
pub data CausalSource : Type 0 where
  start_source : String → CausalSource
  predecessor_source : NodeOutputPort → GraphActivationIdentity → CausalSource

-- The part of `causal_input_source_for_cause` on a START cause.
unfoldable pub start_input_source :
    CompiledGraph → ℕ → CompiledPredecessorInput → GraphNodeId → String → Result CausalSource
unfolding contains
start_input_source graph target_superstep source node_id input_name =
    if target_superstep == 0
    then (do
      name ←
          or_raise source.start_input
            (invalid_command "predecessor-bound activation has an invalid target coordinate")
      raise_if (not (contains node_id graph.transition.entries) || name /= input_name)
          (invalid_command "causal START input does not belong to an initial graph activation")
      ok (start_source name))
    else err (invalid_command "predecessor-bound activation cannot carry the START cause")

-- The part on one non-Join predecessor.
unfoldable pub routed_input_source :
    GraphRunState → ℕ → CompiledPredecessorInput → ActivationReference → Result CausalSource
unfolding new_activation contains select
routed_input_source state target_superstep source reference = do
  expected ← new_activation state.run_id (target_superstep - 1) (node_of reference)
  raise_if (reference.activation /= expected || not (contains reference (settled_references state)))
      (invalid_command "predecessor activation lacks immediate committed settlement evidence")
  let sources = select (λ port. port.node_id == node_of reference) source.sources
  raise_if (length sources /= 1)
      (invalid_command "activation cause is not an allowed predecessor source")
  elim sources [
    | [] ↦ err (invalid_command "activation cause is not an allowed predecessor source")
    | port ∷ others ↦ ok (predecessor_source port reference.activation)
  ]

unfoldable pub cause_input_source :
    CompiledGraph
    → GraphRunState
    → ℕ
    → GraphActivationCause
    → CompiledPredecessorInput
    → GraphNodeId
    → String
    → Result CausalSource
unfolding start_input_source routed_input_source
cause_input_source graph state target_superstep start_cause source node_id input_name =
    start_input_source graph target_superstep source node_id input_name
cause_input_source graph state target_superstep (routed_cause references occurrence) source node_id
      input_name =
    do
      raise_if (ltb target_superstep 1)
          (invalid_command "predecessor-bound activation has an invalid target coordinate")
      raise_if (is_some occurrence || length references /= 1)
          (invalid_command "predecessor-bound activation requires one non-Join predecessor")
      elim references [
        | [] ↦
            err (invalid_command "predecessor-bound activation requires one non-Join predecessor")
        | reference ∷ others ↦ routed_input_source state target_superstep source reference
      ]

unfoldable pub causal_input_source_for_cause :
    CompiledGraph
    → GraphRunState
    → ℕ
    → GraphActivationCause
    → ResolvedInputBinding
    → Result CausalSource
unfolding cause_input_source
causal_input_source_for_cause graph state target_superstep cause binding = elim binding.source [
  | predecessor_input source ↦ do
    raise_if (source.target /= binding.node_id || source.input_name /= binding.local_name)
        (invalid_command "predecessor binding does not match its target input")
    cause_input_source graph state target_superstep cause source binding.node_id binding.local_name
  | _ ↦ err (invalid_command "causal source selection requires a predecessor-bound input")
]

-- The `try` of `_frontier_gate_error`.
unfoldable pub check_bindings :
    CompiledGraph → GraphRunState → GraphFrontierNode → Result (Unit {0})
unfolding item_of for_each causal_input_source_for_cause
check_bindings graph state node = do
  bindings ← item_of graph.transition.materializations node.node_id
  for_each
      (λ (binding : ResolvedInputBinding). elim binding.source [
        | predecessor_input source ↦ do
          found ← causal_input_source_for_cause graph state state.superstep node.cause binding
          ok tt
        | _ ↦ ok tt
      ])
      bindings

-- The check of a routed cause's Join occurrence.
unfoldable pub occurrence_error :
    GraphRunState
    → Declared
    → GraphNodeId
    → List ActivationReference
    → ActivationGate
    → Option GraphJoinOccurrenceIdentity
    → Result (Option Diagnosis)
unfolding get any_misprojected
occurrence_error state declared node_id references gate none =
    refuse_if (length gate /= 1) "frontier activation lacks its compiled Join occurrence"
      (node_id ∷ []) (ok none)
occurrence_error state declared node_id references gate (some occurrence) =
    elim (get declared occurrence.join) [
      | none ↦ refuse "frontier activation has an unknown Join occurrence" (node_id ∷ [])
      | some plan ↦
          refuse_if
            (occurrence.join.target /= node_id
              || occurrence.run_id /= state.run_id
              || occurrence.target_superstep /= state.superstep)
            "frontier activation has an unknown Join occurrence" (node_id ∷ [])
            (do
              misprojected ← any_misprojected plan occurrence references
              refuse_if misprojected "frontier activation has misprojected Join evidence"
                  (node_id ∷ []) (ok none))
    ]

-- The rest of the body of the loop of `_frontier_gate_error`, after the `try`.
unfoldable pub cause_error :
    CompiledGraph
    → GraphRunState
    → Declared
    → GraphNodeId
    → GraphActivationCause
    → Result (Option Diagnosis)
unfolding item_of contains select gate_matches_cause occurrence_error is_subset
cause_error graph state declared node_id start_cause =
    refuse_if (not (contains node_id graph.transition.entries))
      "START activation is not a compiled graph entry" (node_id ∷ []) (ok none)
cause_error graph state declared node_id (routed_cause references occurrence) = do
  gates ← item_of graph.transition.activation_gates node_id
  elim (select (λ gate. gate_matches_cause gate references) gates) [
    | gate ∷ [] ↦ do
      found ← occurrence_error state declared node_id references gate occurrence
      elim found [
        | some diagnosis ↦ ok (some diagnosis)
        | none ↦
            refuse_if (not (is_subset references (settled_references state)))
              "frontier activation lacks committed predecessor settlement evidence" (node_id ∷ [])
              (ok none)
      ]
    | _ ↦
        refuse "frontier activation does not match exactly one compiled activation gate"
          (node_id ∷ [])
  ]

unfoldable pub node_gate_error :
    CompiledGraph → GraphRunState → Declared → GraphFrontierNode → Result (Option Diagnosis)
unfolding get check_bindings cause_error
node_gate_error graph state declared node =
    refuse_if (is_none (get graph.nodes node.node_id)) "frontier activation references unknown node"
      (node.node_id ∷ [])
      (do
        tried ← attempt is_invalid_command (check_bindings graph state node)
        elim tried [
          | caught diagnosis ↦ ok (some diagnosis)
          | returned done ↦ cause_error graph state declared node.node_id node.cause
        ])

-- `_frontier_gate_error`
unfoldable pub frontier_gate_error :
    CompiledGraph → GraphRunState → Declared → Result (Option Diagnosis)
unfolding first_refusal node_gate_error
frontier_gate_error graph state declared =
    first_refusal (node_gate_error graph state declared) state.frontier.nodes
