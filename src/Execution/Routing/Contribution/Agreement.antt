-- ===== src/Execution/Routing/Contribution/Agreement.antt =====
-- routing.py: the check of a live contribution and the check of the ledger that it leads to.
use motev.Base.{
  >>-eq-ok, >>=-eq-ok, In, List, [], bind-eq, false, get, if◌then◌else◌, inl, inr, is_empty,
  is_none, list_eq, nat_eq, nat_ord, none, not, ok, option_eq, pair_eq, raise_if, raise_if-eq-ok,
  raise_if-not-ok, refl, string_eq, string_ord, subst, sym, ◌>>=◌, ◌∷◌, ◌≡◌,
}
use motev.Execution.Graph.{CompiledGraph, compiled_join_eq}
use motev.Execution.Routing.Contribution.{
  RouteRules, has_local_successor, rules_of, settled_activation_admission_error,
  settled_reference_error, validate_routing_contribution, validate_rules,
}
use motev.Execution.Routing.Diagnosis.{first_refusal}
use motev.GraphState.FrontierModel.{
  GraphRoutingContribution, cause_eq, continue_routing, frontier_status_eq, select_route,
  selected_route,
}
use motev.GraphState.Identity.{
  GraphActivationIdentity, activation_eq, join_eq, occurrence_eq, occurrence_ord, reference_eq,
}
use motev.GraphState.Model.{
  GraphPublicationSettlement, GraphRunState, progress_eq, run_status_eq, state_eq, token_eq,
}

contributed :
    (graph : CompiledGraph) (activation : GraphActivationIdentity) (rules : RouteRules)
    (contribution : GraphRoutingContribution)
    → is_none (get graph.nodes activation.node_id) ≡ false
    → rules_of graph activation.node_id ≡ ok rules
    → validate_rules graph activation.node_id rules contribution ≡ ok tt
    → settled_reference_error graph
        (record { activation = activation; route = selected_route contribution })
      ≡ ok none
unfolding validate_rules settled_reference_error selected_route ◌>>=◌
contributed graph activation rules continue_routing known found h =
    let (plain, open_end) = >>-eq-ok (raise_if (not (is_empty rules.conditional)) _) _ h in
    rw (known, found, raise_if-eq-ok _ _ plain, raise_if-not-ok _ _ open_end) refl
contributed graph activation rules (select_route route) known found h =
    let (local, _, h1) =
      >>=-eq-ok
        (if is_empty rules.conditional
          then has_local_successor graph activation.node_id
          else ok false)
        _ h in
    let (_, declared) = >>-eq-ok (raise_if local _) _ h1 in
    rw (known, found, raise_if-not-ok _ _ declared) refl

-- A contribution that the live check accepts is accepted in the ledger: a settled activation of
-- that node with the contributed route is no admission error.
pub live-settled :
    (graph : CompiledGraph) (activation : GraphActivationIdentity)
    (contribution : GraphRoutingContribution)
    → validate_routing_contribution graph activation.node_id contribution ≡ ok tt
    → settled_reference_error graph
        (record { activation = activation; route = selected_route contribution })
      ≡ ok none
unfolding validate_routing_contribution
live-settled graph activation contribution h =
    let (known, h1) = >>-eq-ok (raise_if (is_none (get graph.nodes activation.node_id)) _) _ h in
    let (rules, found, h2) = >>=-eq-ok (rules_of graph activation.node_id) _ h1 in
    contributed graph activation rules contribution (raise_if-eq-ok _ _ known) found h2

-- A ledger has no admission error if each of its entries carries the route of a contribution that
-- the live check accepts for the entry's node.
pub settled_activation_admission_error-live :
    (graph : CompiledGraph) (state : GraphRunState)
    → ((settlement : GraphPublicationSettlement)
        → In settlement state.settled_publications
        → (contribution : GraphRoutingContribution) × (settlement.reference.route
            ≡ selected_route contribution)
          × (validate_routing_contribution graph settlement.reference.activation.node_id
                contribution
              ≡ ok tt))
    → settled_activation_admission_error graph state ≡ ok none
unfolding settled_activation_admission_error first_refusal ◌>>=◌
settled_activation_admission_error-live graph state live = all_live state.settled_publications live
  where
    all_live :
        (items : List GraphPublicationSettlement)
        → ((settlement : GraphPublicationSettlement)
            → In settlement items
            → (contribution : GraphRoutingContribution) × (settlement.reference.route
                ≡ selected_route contribution)
              × (validate_routing_contribution graph settlement.reference.activation.node_id
                    contribution
                  ≡ ok tt))
        → first_refusal (λ settlement. settled_reference_error graph settlement.reference) items
          ≡ ok none
    all_live [] h = refl
    all_live (settlement ∷ items) h =
        let (contribution, route, accepted) = h settlement (inl refl) in
        let one : settled_reference_error graph settlement.reference ≡ ok none =
          subst
            (λ r.
              settled_reference_error graph
                (record { activation = settlement.reference.activation; route = r })
              ≡ ok none)
            (sym route)
            (live-settled graph settlement.reference.activation contribution accepted) in
        bind-eq _ _ one (all_live items (λ other i. h other (inr i)))
