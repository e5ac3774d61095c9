-- ===== src/Execution/Routing/Joins.antt =====
-- routing.py: the declared Joins of a graph, and the arrivals at their occurrences.
use motev.Base.{
  Bool, Dict, List, Result, [], any, contains, err, execution_error, false, get, if◌then◌else◌,
  is_distinct, is_empty, is_none, is_some, is_subset, join_progress_error, leb, list_eq, map,
  nat_eq, nat_ord, none, not, ok, option_eq, or_raise, pair_eq, put, raise_if, same_set, some,
  sort_by, string_eq, string_ord, true, ◌&&◌, ◌/=◌, ◌>>=◌, ◌>>◌, ◌||◌, ◌∷◌,
}
use motev.Execution.Graph.{CompiledGraph, CompiledJoin, compiled_join_eq, item_of, occurrence_for}
use motev.Execution.Identity.{mismatch, scope_run_eq}
use motev.Execution.Routing.Diagnosis.{append_at, join_error, or_empty}
use motev.GraphState.Identity.{
  ActivationReference, GraphJoinIdentity, GraphJoinOccurrenceIdentity, GraphNodeId, activation_eq,
  compare_references, join_eq, occurrence_eq, occurrence_ord, reference_eq,
}
use motev.GraphState.Model.{
  GraphJoinProgress, GraphPublicationSettlement, GraphRunState, progress_eq, run_status_eq,
  state_eq, token_eq,
}

abbrev pub Declared : Type 0
Declared = Dict GraphJoinIdentity CompiledJoin

abbrev pub Arrivals : Type 0
Arrivals = Dict GraphJoinOccurrenceIdentity (List ActivationReference)

-- The variables of the loops of `_declared_joins`.
pub record JoinIndex : Type 0 where
  pub declared : Declared
  pub indexed_sources : Dict GraphJoinIdentity (List GraphNodeId)

-- `declared.setdefault(join.identity, join)`
unfoldable pub declare_join : Declared → CompiledJoin → Declared
unfolding get put
declare_join declared join =
    if is_none (get declared join.identity) then put declared join.identity join else declared

-- The body of the inner loop of `_declared_joins`.
unfoldable pub index_join : GraphNodeId → JoinIndex → CompiledJoin → Result JoinIndex
unfolding contains get put declare_join append_at
index_join source index join = do
  raise_if (not (contains source join.identity.sources))
      (mismatch "compiled Join is indexed under a non-source node")
  raise_if (get (declare_join index.declared join) join.identity /= some join)
      (mismatch "compiled Join identity has conflicting occurrence projections")
  ok (record {
    declared = declare_join index.declared join;
    indexed_sources = append_at index.indexed_sources join.identity source;
  })

-- `for x in xs`, with the variables that the loop changes
unfoldable pub fold {ℓ κ} : {A : Type ℓ} {S : Type κ} → (S → A → Result S) → S → List A → Result S
fold step s [] = ok s
fold step s (x ∷ xs) = do t ← step s x; fold step t xs

-- `_declared_joins`
unfoldable pub declared_joins : CompiledGraph → Result Declared
unfolding fold index_join any same_set get
declared_joins graph = do
  index ←
      fold (λ s entry. fold (index_join entry.0) s entry.1)
        (record { declared = []; indexed_sources = [] }) graph.transition.joins_by_source
  raise_if
      (any (λ entry. not (same_set (or_empty (get index.indexed_sources entry.0)) entry.0.sources))
        index.declared)
      (mismatch "compiled Join source index is incomplete")
  ok index.declared

abbrev pub node_of : ActivationReference → GraphNodeId
node_of reference = reference.activation.node_id

-- `frozenset(item.reference for item in state.settled_publications)`
abbrev pub settled_references : GraphRunState → List ActivationReference
settled_references state = map (λ item. item.reference) state.settled_publications

-- `any(plan.occurrence_for(reference.activation) != occurrence for reference in references)`
unfoldable pub any_misprojected :
    CompiledJoin → GraphJoinOccurrenceIdentity → List ActivationReference → Result Bool
unfolding occurrence_for
any_misprojected plan occurrence [] = ok false
any_misprojected plan occurrence (reference ∷ references) = do
  projected ← occurrence_for plan reference.activation
  if projected /= occurrence then ok true else any_misprojected plan occurrence references

-- The body of the loop of `_pending_join_arrivals`.
unfoldable pub pending_arrival :
    GraphRunState → Declared → Arrivals → GraphJoinProgress → Result Arrivals
unfolding get put is_subset same_set is_distinct any contains any_misprojected
pending_arrival state declared arrivals progress =
    let occurrence = progress.occurrence in
    let sources = map node_of progress.arrived in
    do
      plan ←
          or_raise (get declared occurrence.join)
            (join_error "snapshot contains invalid Join progress")
      raise_if
          (is_some (get arrivals occurrence)
            || occurrence.run_id /= state.run_id
            || leb occurrence.target_superstep state.superstep
            || is_empty progress.arrived
            || not (
                is_subset sources occurrence.join.sources
                && not (is_subset occurrence.join.sources sources)))
          (join_error "snapshot contains invalid Join progress")
      raise_if (not (is_distinct sources))
          (join_error "snapshot Join progress repeats one source activation")
      raise_if (not (is_subset progress.arrived (settled_references state)))
          (join_error "snapshot Join progress lacks committed settlement evidence")
      misprojected ← any_misprojected plan occurrence progress.arrived
      raise_if misprojected (join_error "snapshot Join progress has misprojected arrival evidence")
      ok (put arrivals occurrence progress.arrived)

-- `_pending_join_arrivals`
unfoldable pub pending_join_arrivals : GraphRunState → Declared → Result Arrivals
unfolding fold pending_arrival
pending_join_arrivals state declared = fold (pending_arrival state declared) [] state.join_progress

-- The variables of the loops of `_historical_join_arrivals`.
pub record History : Type 0 where
  pub arrivals : Arrivals
  pub seen_sources : Dict (GraphJoinOccurrenceIdentity × GraphNodeId) ActivationReference

-- The body of the inner loop of `_historical_join_arrivals`.
unfoldable pub record_arrival : ActivationReference → History → CompiledJoin → Result History
unfolding occurrence_for get put append_at
record_arrival reference history plan = do
  occurrence ← occurrence_for plan reference.activation
  let key : GraphJoinOccurrenceIdentity × GraphNodeId = (occurrence, node_of reference)
  elim (get history.seen_sources key) [
    | none ↦ ok tt
    | some existing ↦ err (
        join_error (
          if existing /= reference
          then "Join source activation occurrence selected two routes"
          else "Join source activation occurrence repeated"))
  ]
  ok (record {
    arrivals = append_at history.arrivals occurrence reference;
    seen_sources = put history.seen_sources key reference;
  })

-- The body of the outer loop of `_historical_join_arrivals`.
unfoldable pub record_settlement :
    CompiledGraph → GraphRunState → History → GraphPublicationSettlement → Result History
unfolding fold record_arrival item_of get
record_settlement graph state history settlement =
    let reference = settlement.reference in
    if leb state.superstep reference.activation.superstep then ok history else do
      raise_if (is_none (get graph.nodes (node_of reference))) (
          execution_error join_progress_error "settled activation references unknown node"
            (node_of reference ∷ []))
      joins ← item_of graph.transition.joins_by_source (node_of reference)
      fold (record_arrival reference) history joins

-- `_historical_join_arrivals`
unfoldable pub historical_join_arrivals : CompiledGraph → GraphRunState → Result Arrivals
unfolding fold record_settlement sort_by
historical_join_arrivals graph state = do
  history ←
      fold (record_settlement graph state) (record { arrivals = []; seen_sources = [] })
        state.settled_publications
  ok (map (λ entry. (entry.0, sort_by compare_references entry.1)) history.arrivals)
