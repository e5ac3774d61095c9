-- ===== src/GraphState/Reducer/Ledger.antt =====
-- execution_transitions.py: the ledger of settled publications.
use motev.Base.{
  sort_by-In, In-append_last, In-append_left, In-last, In-sort_by, Bool, Ensures, Ensures-bind,
  Ensures-next, Ensures-ok, In, List, Option, Ordering, [], arith, false, list_eq, nat_eq, nat_ord,
  ok, option_eq, refl, some, sort_by, string_eq, string_ord, subst, true, ℕ, ◌++◌, ◌+◌, ◌>>=◌, ◌∙◌,
  ◌∷◌, ◌≡◌, ◌⊎◌,
}
use motev.GraphState.Command.{
  GraphNodeOutcome, SettleGraphNode, Transition, abort_run, advance, claim, complete,
  expected_revision_of, failed_outcome, fence, interrupted_outcome, resume, settle,
  succeeded_outcome, transition,
}
use motev.GraphState.FrontierModel.{
  GraphNodeSettlement, GraphRoutingContribution, cause_eq, frontier_status_eq, selected_route,
}
use motev.GraphState.Identity.{
  ActivationReference, GraphActivationIdentity, GraphNodeId, GraphRouteId, GraphRunId,
  activation_eq, join_eq, new_activation, new_reference, occurrence_eq, occurrence_ord,
  reference_eq,
}
use motev.GraphState.Model.{
  GraphPublicationSettlement, GraphRunState, compare_publications, progress_eq, run_status_eq,
  state_eq, token_eq,
}
use motev.GraphState.Reducer.{apply_transition, reduce_graph_run}
use motev.GraphState.Reducer.Evolution.{reduce-Accepted}
use motev.GraphState.ResourceModel.{snapshot_eq}
use motev.GraphState.Transitions.{
  abort_graph_run, advance_graph_frontier, claim_graph_execution, complete_graph_frontier,
  fence_graph_execution,
}
use motev.GraphState.Transitions.Resume.{resume_graph_nodes}
use motev.GraphState.Transitions.Settle.{settle_graph_node, settle_outcome}

-- The record that a success is to leave in the ledger.
abbrev pub birth :
    GraphRunState
    → SettleGraphNode
    → GraphNodeId
    → GraphRoutingContribution
    → ℕ
    → GraphPublicationSettlement
birth s c node_id routing revision = record {
  reference = record {
    activation = record { run_id = s.run_id; superstep = s.superstep; node_id = node_id };
    route = selected_route routing;
  };
  commit_revision = revision;
  execution = c.execution;
  evidence = c.publication_evidence;
}

-- `ys` holds the items of `xs` and `x`, and nothing else.
pub record Adds (x : GraphPublicationSettlement) (xs ys : List GraphPublicationSettlement)
    : Type 0 where
  pub has_new : In x ys
  pub has_old : (p : GraphPublicationSettlement) → In p xs → In p ys
  pub no_other : (p : GraphPublicationSettlement) → In p ys → In p xs ⊎ (p ≡ x)

module _ (cmp : GraphPublicationSettlement → GraphPublicationSettlement → Ordering) where
  sort_by-Adds :
      (x : GraphPublicationSettlement) (xs : List GraphPublicationSettlement)
      → Adds x xs (sort_by cmp (xs ++ x ∷ []))
  sort_by-Adds x xs = record {
    has_new = In-sort_by cmp x _ (In-last x xs);
    has_old = λ p i. In-sort_by cmp p _ (In-append_left p xs _ i);
    no_other = λ p i. In-append_last p x xs (sort_by-In cmp p _ i);
  }

pub new_activation-fields :
    (run_id : GraphRunId) (superstep : ℕ) (node_id : GraphNodeId) (a : GraphActivationIdentity)
    → new_activation run_id superstep node_id ≡ ok a
    → a ≡ record { run_id = run_id; superstep = superstep; node_id = node_id }
unfolding new_activation ◌>>=◌
new_activation-fields run_id superstep node_id a h = ground arith

pub new_reference-fields :
    (a : GraphActivationIdentity) (route : Option GraphRouteId) (r : ActivationReference)
    → new_reference a route ≡ ok r
    → r ≡ record { activation = a; route = route }
unfolding new_reference ◌>>=◌
new_reference-fields a route r h = ground arith

settle_outcome-Adds :
    (s : GraphRunState) (c : SettleGraphNode) (node_id : GraphNodeId)
    (routing : GraphRoutingContribution)
    → Ensures
        (λ r. Adds (birth s c node_id routing (c.expected_revision + 1)) s.settled_publications r.1)
        (settle_outcome s c (succeeded_outcome node_id routing))
unfolding settle_outcome
settle_outcome-Adds s c node_id routing = Ensures-bind _ _ λ a made. Ensures-bind _ _ λ r referred.
    Ensures-next _ _ λ _. Ensures-ok _ (
      let ea = new_activation-fields s.run_id s.superstep node_id a made in
      let er = new_reference-fields a (selected_route routing) r referred in
      rw (er, ea) (sort_by-Adds compare_publications _ s.settled_publications))

abbrev pub is_success : GraphNodeOutcome → Bool
is_success (succeeded_outcome node_id routing) = true
is_success _ = false

settle_outcome-same :
    (s : GraphRunState) (c : SettleGraphNode) (o : GraphNodeOutcome)
    → is_success o ≡ false
    → Ensures (λ r. r.1 ≡ s.settled_publications) (settle_outcome s c o)
unfolding settle_outcome
settle_outcome-same s c (succeeded_outcome node_id routing) h = cc
settle_outcome-same s c (failed_outcome node_id failure) h = Ensures-next _ _ λ _. Ensures-ok _ refl
settle_outcome-same s c (interrupted_outcome node_id identity payload) h =
    Ensures-next _ _ λ _. Ensures-next _ _ λ _. Ensures-next _ _ λ _. Ensures-ok _ refl

settle-ledger :
    (s : GraphRunState) (c : SettleGraphNode)
    → Ensures
        (λ u.
          (r : GraphNodeSettlement × List GraphPublicationSettlement) × (settle_outcome s c
              c.outcome
            ≡ ok r)
          × (u.settled_publications ≡ r.1))
        (settle_graph_node s c)
unfolding settle_graph_node
settle-ledger s c = Ensures-next _ _ λ _. Ensures-next _ _ λ _. Ensures-next _ _ λ _.
    Ensures-bind _ _ λ r settled.
      Ensures-next _ _
        λ _. Ensures-next _ _ λ _. Ensures-next _ _ λ _. Ensures-ok _ (r, settled, refl)

-- An accepted success adds one record to the publication ledger and removes none: the record of
-- its own activation and route, committed at the revision that the settlement leads to, under the
-- execution token and with the evidence of the command.
pub reduce-Adds :
    (s t : GraphRunState) (c : SettleGraphNode) (node_id : GraphNodeId)
    (routing : GraphRoutingContribution)
    → c.outcome ≡ succeeded_outcome node_id routing
    → reduce_graph_run (some s) (transition (settle c)) ≡ ok t
    → Adds (birth s c node_id routing t.revision) s.settled_publications t.settled_publications
unfolding apply_transition expected_revision_of
reduce-Adds s t c node_id routing o e =
    let a = reduce-Accepted s (settle c) t e in
    let (r, made, same) = (settle-ledger s c).at a.updated a.applied in
    let adds =
      (settle_outcome-Adds s c node_id routing).at r
        (subst (λ x. settle_outcome s c x ≡ ok r) o made) in
    rw (a.result, same)
      (subst (λ n. Adds (birth s c node_id routing (n + 1)) s.settled_publications r.1) a.fresh
        adds)

abbrev pub is_success_settlement : Transition → Bool
is_success_settlement (settle c) = is_success c.outcome
is_success_settlement _ = false

apply_transition-ledger :
    (s : GraphRunState) (c : Transition)
    → is_success_settlement c ≡ false
    → Ensures (λ u. u.settled_publications ≡ s.settled_publications) (apply_transition s c)
unfolding apply_transition claim_graph_execution fence_graph_execution resume_graph_nodes
    advance_graph_frontier complete_graph_frontier abort_graph_run
apply_transition-ledger s (claim c) h = Ensures-next _ _ λ _.
    Ensures-next _ _
      λ _. Ensures-next _ _ λ _. Ensures-next _ _ λ _. Ensures-next _ _ λ _. Ensures-ok _ refl
apply_transition-ledger s (fence c) h =
    Ensures-next _ _ λ _. Ensures-next _ _ λ _. Ensures-ok _ refl
apply_transition-ledger s (settle c) h = record {
  at = λ u e.
      let (r, made, same) = (settle-ledger s c).at u e in
      same ∙ (settle_outcome-same s c c.outcome h).at r made;
}
apply_transition-ledger s (resume c) h =
    Ensures-next _ _
      λ _. Ensures-next _ _ λ _. Ensures-next _ _ λ _. Ensures-next _ _ λ _. Ensures-ok _ refl
apply_transition-ledger s (advance c) h =
    Ensures-next _ _ λ _. Ensures-next _ _ λ _. Ensures-next _ _ λ _. Ensures-ok _ refl
apply_transition-ledger s (complete c) h =
    Ensures-next _ _ λ _. Ensures-next _ _ λ _. Ensures-next _ _ λ _. Ensures-ok _ refl
apply_transition-ledger s (abort_run c) h = Ensures-next _ _ λ _. Ensures-ok _ refl

-- A transition that settles no success leaves the ledger of publications as it was.
pub reduce-ledger_same :
    (s t : GraphRunState) (c : Transition)
    → is_success_settlement c ≡ false
    → reduce_graph_run (some s) (transition c) ≡ ok t
    → t.settled_publications ≡ s.settled_publications
reduce-ledger_same s t c h e =
    let a = reduce-Accepted s c t e in
    rw a.result ((apply_transition-ledger s c h).at a.updated a.applied)
