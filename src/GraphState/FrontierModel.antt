-- ===== src/GraphState/FrontierModel.antt =====
-- mote-kernel/src/mote_kernel/state/graph_state/routing.py and frontier_model.py: the activations
-- and settlements of one frontier.
pub mod Status
use motev.Base.{
  Bool, Eq, List, Option, Result, String, [], all, any, err, false, find_first, if◌then◌else◌,
  is_distinct, is_empty, leb, length, list_discrete, list_eq, map, nat_eq, nat_ord, none, not, ok,
  option_discrete, option_eq, raise_if, same_set, select, set_of, some, sort_by, string_discrete,
  string_eq, string_ord, true, value_error, ℕ, ℕ_discrete, ◌&&◌, ◌/=◌, ◌==◌, ◌>>=◌, ◌>>◌, ◌||◌, ◌∷◌,
}
use motev.GraphState.Identity.{
  ActivationReference, Bytes, GraphJoinOccurrenceIdentity, GraphNodeId, GraphRouteId, GraphRunId,
  activation_eq, compare_references, is_canonical_identity, join_eq, occurrence_discrete,
  occurrence_eq, occurrence_ord, reference_discrete, reference_eq,
}

-- routing.py
pub data GraphRoutingContribution : Type 0 where
  continue_routing : GraphRoutingContribution
  select_route : GraphRouteId → GraphRoutingContribution

unfoldable pub routing_discrete : Discrete GraphRoutingContribution
unfolding string_discrete
routing_discrete = hlevel string_discrete

-- `routing.route if isinstance(routing, SelectGraphRoute) else None`
unfoldable pub selected_route : GraphRoutingContribution → Option GraphRouteId
selected_route continue_routing = none
selected_route (select_route route) = some route

-- `StartActivationCause` and `RoutedActivationCause`
pub data GraphActivationCause : Type 0 where
  start_cause : GraphActivationCause
  routed_cause :
      List ActivationReference → Option GraphJoinOccurrenceIdentity → GraphActivationCause

unfoldable pub cause_discrete : Discrete GraphActivationCause
unfolding reference_discrete occurrence_discrete list_discrete option_discrete
cause_discrete = hlevel (
  reference_discrete,
  list_discrete reference_discrete,
  occurrence_discrete,
  option_discrete occurrence_discrete,
)

instance abbrev pub cause_eq : Eq GraphActivationCause
cause_eq = record { dec = cause_discrete }

-- The part of `RoutedActivationCause.__post_init__` on a Join occurrence.
unfoldable pub check_join_cause :
    List ActivationReference → GraphJoinOccurrenceIdentity → Result (Unit {0})
check_join_cause references occurrence =
    let source_ids = map (λ (r : ActivationReference). r.activation.node_id) references in
    do
      raise_if (not (is_distinct source_ids) || not (same_set source_ids occurrence.join.sources))
          (value_error "routed Join cause must contain exactly one reference per source")
      raise_if
          (any
            (λ (r : ActivationReference).
              r.activation.run_id /= occurrence.run_id
              || leb occurrence.target_superstep r.activation.superstep)
            references)
          (value_error "routed Join cause references must precede their target coordinate")

-- The checks of `RoutedActivationCause.__post_init__`.
unfoldable pub new_routed_cause :
    List ActivationReference → Option GraphJoinOccurrenceIdentity → Result GraphActivationCause
new_routed_cause references join_occurrence = do
  raise_if (is_empty references)
      (value_error "routed activation cause requires at least one reference")
  raise_if (references /= sort_by compare_references (set_of references))
      (value_error "routed activation cause references must be canonical and distinct")
  elim join_occurrence [
    | none ↦
        raise_if (length references /= 1)
          (value_error "non-Join routed cause requires exactly one reference")
    | some occurrence ↦ check_join_cause references occurrence
  ]
  ok (routed_cause references join_occurrence)

pub record GraphFrontierActivation : Type 0 where
  pub node_id : GraphNodeId
  pub cause : GraphActivationCause

-- The checks of `GraphFrontierActivation.__post_init__`.
unfoldable pub new_frontier_activation :
    GraphNodeId → GraphActivationCause → Result GraphFrontierActivation
new_frontier_activation node_id cause = do
  raise_if (not (is_canonical_identity node_id))
      (value_error "frontier activation node_id must be canonical")
  ok (record { node_id = node_id; cause = cause })

pub data GraphFrontierStatus : Type 0 where
  executable failed_frontier awaiting_resume settled : GraphFrontierStatus

unfoldable pub frontier_status_discrete : Discrete GraphFrontierStatus
frontier_status_discrete = hlevel

instance abbrev pub frontier_status_eq : Eq GraphFrontierStatus
frontier_status_eq = record { dec = frontier_status_discrete }

pub record GraphResumeInputCodec : Type 0 where
  pub codec_id : String
  pub version : ℕ

-- `UseStepRequestInput` and `OverrideGraphNodeInput`
pub data GraphNodeInputBinding : Type 0 where
  use_step_request_input : GraphNodeInputBinding
  override_input : Bytes → GraphNodeInputBinding

pub record GraphNodeInterruptIdentity : Type 0 where
  pub run_id : GraphRunId
  pub superstep : ℕ
  pub node_id : GraphNodeId
  pub execution_generation : ℕ

pub record GraphNodeInterrupt : Type 0 where
  pub identity : GraphNodeInterruptIdentity
  pub request_payload : Bytes

-- `PendingGraphNode`, `SucceededGraphNode`, `FailedGraphNode` and `InterruptedGraphNode`
pub data GraphNodeSettlement : Type 0 where
  pending : GraphNodeInputBinding → GraphNodeSettlement
  succeeded : GraphRoutingContribution → GraphNodeSettlement
  failed_node : String → GraphNodeSettlement
  interrupted : GraphNodeInterrupt → GraphNodeSettlement

unfoldable pub is_pending : GraphNodeSettlement → Bool
is_pending (pending input) = true
is_pending (succeeded routing) = false
is_pending (failed_node failure) = false
is_pending (interrupted interrupt) = false

unfoldable pub is_succeeded : GraphNodeSettlement → Bool
is_succeeded (pending input) = false
is_succeeded (succeeded routing) = true
is_succeeded (failed_node failure) = false
is_succeeded (interrupted interrupt) = false

unfoldable pub is_failed : GraphNodeSettlement → Bool
is_failed (pending input) = false
is_failed (succeeded routing) = false
is_failed (failed_node failure) = true
is_failed (interrupted interrupt) = false

unfoldable pub is_interrupted : GraphNodeSettlement → Bool
is_interrupted (pending input) = false
is_interrupted (succeeded routing) = false
is_interrupted (failed_node failure) = false
is_interrupted (interrupted interrupt) = true

pub record GraphFrontierNode : Type 0 where
  pub node_id : GraphNodeId
  pub settlement : GraphNodeSettlement
  pub cause : GraphActivationCause

pub record GraphFrontierState : Type 0 where
  pub nodes : List GraphFrontierNode

-- The settlements in the kernel's fixed order of priority.
unfoldable pub settlements_status : List GraphNodeSettlement → Result GraphFrontierStatus
unfolding any all
settlements_status settlements =
    if any is_pending settlements
    then ok executable
    else if any is_failed settlements
    then ok failed_frontier
    else if any is_interrupted settlements
    then ok awaiting_resume
    else if not (is_empty settlements) && all is_succeeded settlements
    then ok settled
    else err (value_error "a graph frontier has no valid derived status")

unfoldable pub frontier_status : GraphFrontierState → Result GraphFrontierStatus
unfolding settlements_status
frontier_status frontier = settlements_status (map (λ node. node.settlement) frontier.nodes)

unfoldable pub frontier_node : GraphFrontierState → GraphNodeId → Option GraphFrontierNode
unfolding find_first
frontier_node frontier node_id = find_first (λ node. node.node_id == node_id) frontier.nodes

-- `_node_ids`, with the test that `isinstance` makes
unfoldable pub node_ids_where : GraphFrontierState → (GraphNodeSettlement → Bool) → List GraphNodeId
unfolding select
node_ids_where frontier test =
    map (λ node. node.node_id) (select (λ node. test node.settlement) frontier.nodes)

unfoldable pub pending_node_ids : GraphFrontierState → List GraphNodeId
unfolding node_ids_where is_pending
pending_node_ids frontier = node_ids_where frontier is_pending

unfoldable pub interrupted_node_ids : GraphFrontierState → List GraphNodeId
unfolding node_ids_where is_interrupted
interrupted_node_ids frontier = node_ids_where frontier is_interrupted

unfoldable pub routing_contributions_of :
    List GraphFrontierNode → List (GraphNodeId × GraphRoutingContribution)
routing_contributions_of [] = []
routing_contributions_of (node ∷ nodes) =
    let rest = routing_contributions_of nodes in
    elim node.settlement [ succeeded routing ↦ (node.node_id, routing) ∷ rest | _ ↦ rest ]

unfoldable pub routing_contributions :
    GraphFrontierState → List (GraphNodeId × GraphRoutingContribution)
unfolding routing_contributions_of
routing_contributions frontier = routing_contributions_of frontier.nodes

unfoldable pub codec_discrete : Discrete GraphResumeInputCodec
unfolding string_discrete ℕ_discrete
codec_discrete = hlevel (string_discrete, ℕ_discrete)

unfoldable pub bytes_discrete : Discrete Bytes
unfolding list_discrete ℕ_discrete
bytes_discrete = list_discrete ℕ_discrete

unfoldable pub settlement_discrete : Discrete GraphNodeSettlement
unfolding routing_discrete bytes_discrete string_discrete ℕ_discrete
settlement_discrete = hlevel (routing_discrete, bytes_discrete, string_discrete, ℕ_discrete)

unfoldable pub frontier_node_discrete : Discrete GraphFrontierNode
unfolding settlement_discrete cause_discrete
frontier_node_discrete = hlevel (settlement_discrete, cause_discrete, string_discrete)

unfoldable pub frontier_discrete : Discrete GraphFrontierState
unfolding frontier_node_discrete list_discrete
frontier_discrete = hlevel (list_discrete frontier_node_discrete)
