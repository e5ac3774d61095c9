-- ===== src/Execution/Routing/Contribution.antt =====
-- routing.py: the routes that a node may contribute, live and in the ledger of a state.
pub mod Agreement
use motev.Base.{
  Bool, List, Option, Result, String, [], contains, execution_error, false, get, if◌then◌else◌,
  is_empty, is_none, list_eq, nat_eq, nat_ord, none, not, ok, option_eq, pair_eq, raise_if, some,
  string_eq, string_ord, true, unknown_route_error, ◌&&◌, ◌++◌, ◌/=◌, ◌>>=◌, ◌>>◌, ◌∷◌,
}
use motev.Execution.Graph.{CompiledGraph, FrozenMap, compiled_join_eq, end_node, item_of}
use motev.Execution.Routing.Diagnosis.{Diagnosis, first_refusal, invalid_command, refuse, refuse_if}
use motev.GraphState.FrontierModel.{
  GraphRoutingContribution, cause_eq, continue_routing, frontier_status_eq, select_route,
}
use motev.GraphState.Identity.{
  ActivationReference, GraphNodeId, GraphRouteId, activation_eq, join_eq, occurrence_eq,
  occurrence_ord, reference_eq,
}
use motev.GraphState.Model.{GraphRunState, progress_eq, run_status_eq, state_eq, token_eq}

-- What the two checks of a route read of the plan of a node.
pub record RouteRules : Type 0 where
  pub conditional : FrozenMap GraphRouteId GraphNodeId
  pub options : List (Option GraphRouteId)

unfoldable pub rules_of : CompiledGraph → GraphNodeId → Result RouteRules
unfolding item_of
rules_of graph node_id = do
  conditional ← item_of graph.transition.conditional_targets node_id
  options ← item_of graph.transition.route_options node_id
  ok (record { conditional = conditional; options = options })

-- `graph.transition.direct_targets[node_id] or graph.transition.joins_by_source[node_id]`
unfoldable pub has_local_successor : CompiledGraph → GraphNodeId → Result Bool
unfolding item_of
has_local_successor graph node_id = do
  direct ← item_of graph.transition.direct_targets node_id
  if is_empty direct
      then (do joins ← item_of graph.transition.joins_by_source node_id; ok (not (is_empty joins)))
      else ok true

unfoldable pub validate_rules :
    CompiledGraph → GraphNodeId → RouteRules → GraphRoutingContribution → Result (Unit {0})
unfolding has_local_successor contains
validate_rules graph node_id rules continue_routing = do
  raise_if (not (is_empty rules.conditional))
      (invalid_command "a conditional node must select one declared route")
  raise_if (not (contains none rules.options))
      (invalid_command "a terminal node must select one declared exported route")
validate_rules graph node_id rules (select_route route) = do
  local ← if is_empty rules.conditional then has_local_successor graph node_id else ok false
  raise_if local
      (invalid_command "a route may be returned without conditional edges only by a terminal node")
  raise_if (not (contains (some route) rules.options)) (
      execution_error unknown_route_error
        (if is_empty rules.conditional
          then "node selected an undeclared exported route"
          else "node selected an unknown conditional route")
        [])

unfoldable pub validate_routing_contribution :
    CompiledGraph → GraphNodeId → GraphRoutingContribution → Result (Unit {0})
unfolding rules_of validate_rules get
validate_routing_contribution graph node_id contribution = do
  raise_if (is_none (get graph.nodes node_id))
      (invalid_command "routing contribution references an unknown node")
  rules ← rules_of graph node_id
  validate_rules graph node_id rules contribution

-- `{route!r}`
abbrev pub shown_route : Option GraphRouteId → String
shown_route none = "None"
shown_route (some route) = route

-- The body of the loop of `settled_activation_admission_error`.
unfoldable pub settled_reference_error :
    CompiledGraph → ActivationReference → Result (Option Diagnosis)
unfolding rules_of has_local_successor contains get
settled_reference_error graph reference =
    let node_id = reference.activation.node_id in
    refuse_if (is_none (get graph.nodes node_id)) "settled activation references unknown node"
      (node_id ∷ [])
      (do
        rules ← rules_of graph node_id
        refuse_if (is_none reference.route && not (is_empty rules.conditional))
            "conditional settled activation lacks its selected route" (node_id ∷ [])
            (if contains reference.route rules.options
              then ok none
              else refuse_if (not (is_empty rules.conditional))
                  "settled activation selected an unknown route"
                  (node_id ∷ shown_route reference.route ∷ [])
                  (do
                    local ← has_local_successor graph node_id
                    refuse_if local "non-terminal settled activation selected route"
                        (node_id ∷ shown_route reference.route ∷ [])
                        (refuse "settled activation selected an undeclared exported route"
                          (node_id ∷ shown_route reference.route ∷ [])))))

unfoldable pub settled_activation_admission_error :
    CompiledGraph → GraphRunState → Result (Option Diagnosis)
unfolding first_refusal settled_reference_error
settled_activation_admission_error graph state =
    first_refusal (λ settlement. settled_reference_error graph settlement.reference)
      state.settled_publications

-- The two tests of `_successor_targets_for_reference`.
unfoldable pub require_route :
    FrozenMap GraphRouteId GraphNodeId → Option GraphRouteId → Result (Unit {0})
unfolding get
require_route routes none =
    raise_if (not (is_empty routes))
      (invalid_command "conditional predecessor settlement lacks its selected route")
require_route routes (some route) =
    raise_if (not (is_empty routes) && is_none (get routes route))
      (invalid_command "predecessor settlement selected an unknown route")

-- The target that a selected route adds, unless it is the end.
unfoldable pub route_targets :
    FrozenMap GraphRouteId GraphNodeId → Option GraphRouteId → Result (List GraphNodeId)
unfolding item_of
route_targets routes none = ok []
route_targets routes (some route) =
    if is_empty routes
    then ok []
    else do target ← item_of routes route; ok (if target /= end_node then target ∷ [] else [])

-- `_successor_targets_for_reference`
unfoldable pub successor_targets_for_reference :
    CompiledGraph → ActivationReference → Result (List GraphNodeId)
unfolding item_of require_route route_targets
successor_targets_for_reference graph reference = do
  routes ← item_of graph.transition.conditional_targets reference.activation.node_id
  require_route routes reference.route
  direct ← item_of graph.transition.direct_targets reference.activation.node_id
  added ← route_targets routes reference.route
  ok (direct ++ added)
