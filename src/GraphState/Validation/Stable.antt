-- ===== src/GraphState/Validation/Stable.antt =====
-- validation.py: the checks that a change of lease, resources, status, abort or counters cannot
-- break. The counters only bound what they count, so they may grow.
use motev.Base.{
  >>-eq-ok, >>=-eq-ok, Bool, List, Option, [], arith, bind-eq, collect, false, for_each,
  is_distinct, list_eq, ltb, map, nat_eq, nat_ord, not, ok, on_value_error, option_eq, raise_if,
  raise_if-eq-ok, raise_if_ok, refl, set_of, sorted, string_eq, string_ord, transition_error, ℕ,
  ◌/=◌, ◌>>=◌, ◌||◌, ◌∷◌, ◌≡◌, ◌≤◌,
}
use motev.GraphState.FrontierModel.{
  GraphFrontierNode, GraphNodeSettlement, cause_eq, failed_node, frontier_status_eq, interrupted,
  override_input, pending, succeeded, use_step_request_input,
}
use motev.GraphState.Identity.{
  ActivationReference, GraphJoinOccurrenceIdentity, GraphNodeId, activation_eq, join_eq,
  occurrence_eq, occurrence_ord, reference_eq,
}
use motev.GraphState.Model.{
  GraphAbort, GraphExecutionLease, GraphJoinProgress, GraphPublicationSettlement, GraphRunState,
  GraphRunStatus, admit_publication, completed, progress_eq, run_status_eq, state_eq, token_eq,
}
use motev.GraphState.ResourceModel.{ResourceSnapshot, snapshot_eq}
use motev.GraphState.Validation.{
  canonical_references, reference_activation, require_field, validate_join_progress,
  validate_progress_from, validate_publication, validate_settled_publications,
}
use motev.GraphState.Validation.Facts.{Checked}
use motev.GraphState.Validation.Run.{
  validate_activation_cause, validate_execution, validate_graph_frontier, validate_identity,
  validate_interrupt_identity, validate_nodes, validate_resources, validate_settlement,
  validate_status,
}

-- The state with another lease, other resources, another status and abort, and counters as given.
abbrev pub with_lease :
    GraphRunState
    → ℕ
    → ℕ
    → Option GraphExecutionLease
    → Option ResourceSnapshot
    → GraphRunStatus
    → Option GraphAbort
    → GraphRunState
with_lease s new_revision new_sequence lease held new_status ended = record s {
  revision = new_revision;
  execution_sequence = new_sequence;
  execution = lease;
  resources = held;
  status = new_status;
  abort = ended;
}

module _ (s : GraphRunState) (r q : ℕ) (lease : Option GraphExecutionLease)
    (held : Option ResourceSnapshot) (st : GraphRunStatus) (ended : Option GraphAbort)
    (later : s.revision ≤ r) (counted : s.execution_sequence ≤ q)
    (alike : (s.status /= completed) ≡ (st /= completed)) where
  validate_publication-stable :
      (item : GraphPublicationSettlement)
      → validate_publication s item ≡ ok tt
      → validate_publication (with_lease s r q lease held st ended) item ≡ ok tt
  unfolding validate_publication
  validate_publication-stable item h =
      let (activation, e1, h1) =
        >>=-eq-ok (reference_activation item.reference "settled publication evidence") _ h in
      let (g1, h2) =
        >>-eq-ok
          (raise_if (activation.run_id /= s.run_id || ltb s.superstep activation.superstep) _) _
          h1 in
      let (g2, h3) = >>-eq-ok (raise_if (ltb s.revision item.commit_revision) _) _ h2 in
      let (g3, h4) =
        >>-eq-ok (raise_if (ltb s.execution_sequence item.execution.generation) _) _ h3 in
      bind-eq _ _ e1 (
        bind-eq _ _ g1 (
          bind-eq _ _ (raise_if_ok _ _ (ground (arith, raise_if-eq-ok _ _ g2))) (
            bind-eq _ _ (raise_if_ok _ _ (ground (arith, raise_if-eq-ok _ _ g3)))
              (rw (← alike) h4))))

  validate_publications-stable :
      (items : List GraphPublicationSettlement)
      → for_each (validate_publication s) items ≡ ok tt
      → for_each (validate_publication (with_lease s r q lease held st ended)) items ≡ ok tt
  unfolding for_each
  validate_publications-stable [] h = refl
  validate_publications-stable (item ∷ items) h =
      let (first, rest) = >>-eq-ok (validate_publication s item) _ h in
      bind-eq _ _ (validate_publication-stable item first) (validate_publications-stable items rest)

  settled_publications-stable :
      validate_settled_publications s ≡ ok tt
      → validate_settled_publications (with_lease s r q lease held st ended) ≡ ok tt
  unfolding validate_settled_publications
  settled_publications-stable h =
      let (admitted, e1, h1) =
        >>=-eq-ok
          (on_value_error (collect admit_publication s.settled_publications)
            (λ m. transition_error "settled publication evidence contains a malformed record"))
          _ h in
      let (g1, h2) =
        >>-eq-ok
          (canonical_references
            (map (λ (item : GraphPublicationSettlement). item.reference) admitted) _)
          _ h1 in
      let (g2, h3) =
        >>-eq-ok
          (raise_if
            (not (
              is_distinct (
                map (λ (x : ActivationReference). x.activation)
                  (map (λ (item : GraphPublicationSettlement). item.reference) admitted))))
            _)
          _ h2 in
      let (g3, h4) =
        >>-eq-ok
          (raise_if
            (not (
              is_distinct
                (map (λ (item : GraphPublicationSettlement). item.commit_revision) admitted)))
            _)
          _ h3 in
      let (g4, h5) = >>-eq-ok (for_each (validate_publication s) admitted) _ h4 in
      bind-eq _ _ e1 (
        bind-eq _ _ g1 (
          bind-eq _ _ g2 (
            bind-eq _ _ g3
              (bind-eq _ _ (validate_publications-stable admitted g4) (rw (← alike) h5)))))

  validate_settlement-stable :
      (n : GraphNodeId) (x : GraphNodeSettlement) (b : Bool)
      → validate_settlement s n x ≡ ok b
      → validate_settlement (with_lease s r q lease held st ended) n x ≡ ok b
  unfolding validate_settlement validate_interrupt_identity ◌>>=◌
  validate_settlement-stable n (pending use_step_request_input) b h = h
  validate_settlement-stable n (pending (override_input payload)) b h = h
  validate_settlement-stable n (succeeded routing) b h = h
  validate_settlement-stable n (failed_node failure) b h = h
  validate_settlement-stable n (interrupted interrupt) b h = ground arith

  validate_nodes-stable :
      (c b : Bool) (nodes : List GraphFrontierNode)
      → validate_nodes s c nodes ≡ ok b
      → validate_nodes (with_lease s r q lease held st ended) c nodes ≡ ok b
  unfolding validate_nodes
  validate_nodes-stable c b [] h = h
  validate_nodes-stable c b (node ∷ nodes) h =
      let (named, h1) = >>-eq-ok (require_field node.node_id "frontier node identity") _ h in
      let (caused, h2) = >>-eq-ok (validate_activation_cause s node.node_id node.cause) _ h1 in
      let (needed, e, h3) = >>=-eq-ok (validate_settlement s node.node_id node.settlement) _ h2 in
      bind-eq _ _ named (
        bind-eq _ _ caused (
          bind-eq _ _ (validate_settlement-stable node.node_id node.settlement needed e)
            (validate_nodes-stable (c || needed) b nodes h3)))

  graph_frontier-stable :
      validate_graph_frontier s s.frontier ≡ ok tt
      → validate_graph_frontier (with_lease s r q lease held st ended) s.frontier ≡ ok tt
  unfolding validate_graph_frontier
  graph_frontier-stable h =
      let (ordered, h1) =
        >>-eq-ok
          (raise_if
            (map (λ (node : GraphFrontierNode). node.node_id) s.frontier.nodes
              /= sorted
                  (set_of (map (λ (node : GraphFrontierNode). node.node_id) s.frontier.nodes)))
            _)
          _ h in
      let (needs_codec, e, h2) = >>=-eq-ok (validate_nodes s false s.frontier.nodes) _ h1 in
      bind-eq _ _ ordered
        (bind-eq _ _ (validate_nodes-stable false needs_codec s.frontier.nodes e) h2)

  progress_from-stable :
      (seen : List GraphJoinOccurrenceIdentity) (items : List GraphJoinProgress)
      → validate_progress_from (with_lease s r q lease held st ended) seen items
        ≡ validate_progress_from s seen items
  unfolding validate_progress_from
  progress_from-stable seen [] = refl
  progress_from-stable seen (join ∷ rest) = rw (progress_from-stable (join.occurrence ∷ seen) rest)

  join_progress-stable :
      validate_join_progress s ≡ ok tt
      → validate_join_progress (with_lease s r q lease held st ended) ≡ ok tt
  unfolding validate_join_progress
  join_progress-stable h = rw (progress_from-stable [] s.join_progress) h

  identity-stable :
      validate_identity s ≡ ok tt → validate_identity (with_lease s r q lease held st ended) ≡ ok tt
  unfolding validate_identity
  identity-stable h = h

  -- A checked state stays checked, if the new lease, resources, status and abort pass their own
  -- checks.
  pub Checked-stable :
      Checked s
      → validate_resources s.frontier lease held ≡ ok tt
      → validate_execution st q s.frontier lease ≡ ok tt
      → validate_status (with_lease s r q lease held st ended) st ≡ ok tt
      → Checked (with_lease s r q lease held st ended)
  Checked-stable c holds leased standing = record {
    identity = identity-stable c.identity;
    publications = settled_publications-stable c.publications;
    route = c.route;
    parent = c.parent;
    progress = join_progress-stable c.progress;
    frontier = graph_frontier-stable c.frontier;
    resources = holds;
    execution = leased;
    status = standing;
  }
