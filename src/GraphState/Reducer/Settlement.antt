-- ===== src/GraphState/Reducer/Settlement.antt =====
-- execution_transitions.py: what a settlement does to the frontier and to the publication ledger.
use motev.Base.{
  Bool, Ensures, Ensures-bind, Ensures-next, Ensures-ok, List, Option, [], ap, arith, false,
  find_first, list_eq, map, nat_eq, nat_ord, none, not, ok, option_eq, raise_if-eq-ok, refl, some,
  string_eq, string_ord, true, ◌==◌, ◌∷◌, ◌≡◌, ◌≢◌,
}
use motev.GraphState.Command.{
  GraphNodeOutcome, SettleGraphNode, failed_outcome, interrupted_outcome, outcome_node_id, settle,
  succeeded_outcome, transition,
}
use motev.GraphState.FrontierModel.{
  GraphActivationCause, GraphFrontierNode, GraphNodeSettlement, cause_eq, failed_node,
  frontier_node, frontier_status_eq, interrupted, is_pending, succeeded,
}
use motev.GraphState.Identity.{
  GraphNodeId, activation_eq, join_eq, occurrence_eq, occurrence_ord, reference_eq,
}
use motev.GraphState.Model.{GraphRunState, progress_eq, run_status_eq, state_eq, token_eq}
use motev.GraphState.Reducer.{apply_transition, reduce_graph_run}
use motev.GraphState.Reducer.Evolution.{reduce-Accepted}
use motev.GraphState.ResourceModel.{snapshot_eq}
use motev.GraphState.Transitions.Settle.{
  is_pending_node, settle_graph_node, settle_node, settle_outcome,
}

abbrev node_ids : GraphRunState → List GraphNodeId
node_ids s = map (λ node. node.node_id) s.frontier.nodes

abbrev causes : GraphRunState → List GraphActivationCause
causes s = map (λ node. node.cause) s.frontier.nodes

-- What a node is settled as by an outcome.
abbrev SettledAs : GraphNodeOutcome → GraphNodeSettlement → Type 0
SettledAs (succeeded_outcome node_id routing) x = x ≡ succeeded routing
SettledAs (failed_outcome node_id failure) x = x ≡ failed_node failure
SettledAs (interrupted_outcome node_id identity payload) x =
    x ≡ interrupted (record { identity = identity; request_payload = payload })

settle_outcome-SettledAs :
    (s : GraphRunState) (c : SettleGraphNode) (o : GraphNodeOutcome)
    → Ensures (λ r. SettledAs o r.0) (settle_outcome s c o)
unfolding settle_outcome
settle_outcome-SettledAs s c (succeeded_outcome node_id routing) =
    Ensures-next _ _ λ _. Ensures-next _ _ λ _. Ensures-next _ _ λ _. Ensures-ok _ refl
settle_outcome-SettledAs s c (failed_outcome node_id failure) =
    Ensures-next _ _ λ _. Ensures-ok _ refl
settle_outcome-SettledAs s c (interrupted_outcome node_id identity payload) =
    Ensures-next _ _ λ _. Ensures-next _ _ λ _. Ensures-next _ _ λ _. Ensures-ok _ refl

module _ (n : GraphNodeId) (x : GraphNodeSettlement) where
  ids_kept :
      (nodes : List GraphFrontierNode)
      → map (λ node. node.node_id) (map (settle_node n x) nodes) ≡ map (λ node. node.node_id) nodes
  unfolding settle_node
  ids_kept [] = refl
  ids_kept (node ∷ nodes) = ap (◌∷◌ node.node_id) (ids_kept nodes)

  causes_kept :
      (nodes : List GraphFrontierNode)
      → map (λ node. node.cause) (map (settle_node n x) nodes) ≡ map (λ node. node.cause) nodes
  unfolding settle_node
  causes_kept [] = refl
  causes_kept (node ∷ nodes) = ap (◌∷◌ node.cause) (causes_kept nodes)

  others_kept :
      (m : GraphNodeId) (nodes : List GraphFrontierNode)
      → m ≢ n
      → find_first (λ node. node.node_id == m) (map (settle_node n x) nodes)
        ≡ find_first (λ node. node.node_id == m) nodes
  unfolding find_first settle_node
  others_kept m [] h = refl
  others_kept m (node ∷ nodes) h = ground (arith, others_kept m nodes h)

  target_settled :
      (old : GraphFrontierNode) (nodes : List GraphFrontierNode)
      → find_first (λ node. node.node_id == n) nodes ≡ some old
      → find_first (λ node. node.node_id == n) (map (settle_node n x) nodes)
        ≡ some (record { node_id = n; settlement = x; cause = old.cause })
  unfolding find_first settle_node
  target_settled old [] h = cc
  target_settled old (node ∷ nodes) h = ground (arith, target_settled old nodes)

-- What a settlement of the frontier of `s` that gives the frontier of `t` keeps and changes.
pub record Settles (s : GraphRunState) (o : GraphNodeOutcome) (t : GraphRunState) : Type 0 where
  pub old : GraphFrontierNode
  pub new : GraphNodeSettlement
  pub was_there : frontier_node s.frontier (outcome_node_id o) ≡ some old
  pub was_pending : is_pending old.settlement ≡ true
  pub now_there :
      frontier_node t.frontier (outcome_node_id o)
      ≡ some (record { node_id = outcome_node_id o; settlement = new; cause = old.cause })
  pub as_told : SettledAs o new
  pub same_ids : node_ids t ≡ node_ids s
  pub same_causes : causes t ≡ causes s
  pub others_same :
      (m : GraphNodeId)
      → m ≢ outcome_node_id o
      → frontier_node t.frontier m ≡ frontier_node s.frontier m

pending_there :
    (o : Option GraphFrontierNode)
    → is_pending_node o ≡ true
    → (node : GraphFrontierNode) × (o ≡ some node) × (is_pending node.settlement ≡ true)
unfolding is_pending_node
pending_there none h = cc
pending_there (some node) h = (node, refl, h)

not-eq-false : (b : Bool) → not b ≡ false → b ≡ true
not-eq-false b h = ground arith

settle-Settles :
    (s : GraphRunState) (c : SettleGraphNode)
    → Ensures (Settles s c.outcome) (settle_graph_node s c)
unfolding settle_graph_node frontier_node
settle-Settles s c =
    let n = outcome_node_id c.outcome in
    Ensures-next _ _ λ _. Ensures-next _ _ λ _. Ensures-bind _ _ λ _ guard.
      Ensures-bind _ _ λ outcome settled. Ensures-next _ _ λ _. Ensures-next _ _ λ _.
        Ensures-next _ _ λ derived. Ensures-ok _ (
          let (old, there, was) = pending_there _ (not-eq-false _ (raise_if-eq-ok _ _ guard)) in
          record {
            old = old;
            new = outcome.0;
            was_there = there;
            was_pending = was;
            now_there = target_settled n outcome.0 old s.frontier.nodes there;
            as_told = (settle_outcome-SettledAs s c c.outcome).at outcome settled;
            same_ids = ids_kept n outcome.0 s.frontier.nodes;
            same_causes = causes_kept n outcome.0 s.frontier.nodes;
            others_same = λ m h. others_kept n outcome.0 m s.frontier.nodes h;
          })

-- An accepted settlement turns exactly the named node, which was pending, into what its outcome
-- says; the nodes, their order and their causes stay, and so does every other node's settlement.
pub reduce-Settles :
    (s t : GraphRunState) (c : SettleGraphNode)
    → reduce_graph_run (some s) (transition (settle c)) ≡ ok t
    → Settles s c.outcome t
unfolding apply_transition
reduce-Settles s t c e =
    let a = reduce-Accepted s (settle c) t e in
    let r = (settle-Settles s c).at a.updated a.applied in
    rw a.result (record {
      old = r.old;
      new = r.new;
      was_there = r.was_there;
      was_pending = r.was_pending;
      now_there = r.now_there;
      as_told = r.as_told;
      same_ids = r.same_ids;
      same_causes = r.same_causes;
      others_same = r.others_same;
    })
