-- ===== src/GraphState/Reducer/Claiming.antt =====
-- reducer.py: the acceptance of claims.
use motev.GraphState.Validation.Run.{validate_resources}
use motev.Base.{
  >>-eq-ok, Bool-cases, List, Option, Result, [], any, arith, bind-eq, err, execution_error,
  failover_error, false, inl, inr, is_empty, key_error, list_eq, map, nat_eq, nat_ord,
  ne_test_of_eq, none, ok, on_resource_error, option_eq, raise_if, raise_if-eq-ok, raise_if_ok,
  refl, resource_error, select, some, string_eq, string_ord, subst, transition_error, true,
  type_error, value_error, ◌+◌, ◌∷◌, ◌≡◌,
}
use motev.GraphState.Command.{ClaimGraphExecution, claim, expected_revision_of, transition}
use motev.GraphState.FrontierModel.{
  GraphFrontierNode, GraphFrontierState, GraphNodeSettlement, cause_eq, executable, frontier_status,
  frontier_status_eq, is_pending, pending_node_ids, settlements_status,
}
use motev.GraphState.Identity.{
  activation_eq, is_canonical_identity, join_eq, occurrence_eq, occurrence_ord, reference_eq,
}
use motev.GraphState.Model.{
  GraphExecutionLease, GraphRunState, progress_eq, run_status_eq, running, state_eq, token_eq,
}
use motev.GraphState.Reducer.{validate_graph_run_state, apply_transition, reduce_graph_run}
use motev.GraphState.Reducer.Progress.{
  facts_of_running, reduce_of_parts, resources_none, running-stable,
}
use motev.GraphState.ResourceModel.{ResourceSnapshot, snapshot_eq}
use motev.GraphState.ResourceReducer.{validate_resource_snapshot}
use motev.GraphState.Transitions.{claim_graph_execution, validate_claim_resources}
use motev.GraphState.Validation.Facts.{LeaseFacts-ok, valid-Checked}
use motev.GraphState.Validation.Stable.{Checked-stable}

pending_listed :
    (nodes : List GraphFrontierNode)
    → any is_pending (map (λ node. node.settlement) nodes) ≡ true
    → is_empty (map (λ node. node.node_id) (select (λ node. is_pending node.settlement) nodes))
      ≡ false
unfolding any select
pending_listed [] h = cc
pending_listed (node ∷ nodes) h = elim (Bool-cases (is_pending node.settlement)) [
  | inl now ↦ rw now refl
  | inr later ↦ rw later (pending_listed nodes (rw later at h))
]

executable_any :
    (xs : List GraphNodeSettlement)
    → settlements_status xs ≡ ok executable
    → any is_pending xs ≡ true
unfolding settlements_status
executable_any xs h = ground arith

executable_pending :
    (f : GraphFrontierState)
    → frontier_status f ≡ ok executable
    → is_empty (pending_node_ids f) ≡ false
unfolding frontier_status pending_node_ids
executable_pending f h =
    pending_listed f.nodes (executable_any (map (λ node. node.settlement) f.nodes) h)

claim_applies :
    (s : GraphRunState) (c : ClaimGraphExecution)
    → s.status ≡ running
    → s.execution ≡ none
    → s.resources ≡ none
    → frontier_status s.frontier ≡ ok executable
    → validate_claim_resources s c.resources ≡ ok tt
    → claim_graph_execution s c
      ≡ ok (record s {
        execution_sequence = s.execution_sequence + 1;
        execution = some (record {
          token = record { generation = s.execution_sequence + 1; attempt_id = c.attempt_id };
        });
        resources = c.resources;
      })
unfolding claim_graph_execution
claim_applies s c live idle free ready granted = bind-eq _ _ (raise_if_ok _ _ (ground arith)) (
    bind-eq _ _ ready (
      bind-eq _ _ (raise_if_ok _ _ (ne_test_of_eq executable executable refl)) (
        bind-eq _ _ (raise_if_ok _ _ (executable_pending s.frontier ready))
          (bind-eq _ _ granted refl))))

-- The resources that a claim may ask for are those that a state with a lease may hold.
granted_held :
    (s : GraphRunState) (lease : GraphExecutionLease) (held : Option ResourceSnapshot)
    → validate_claim_resources s held ≡ ok tt
    → is_empty (pending_node_ids s.frontier) ≡ false
    → validate_resources s.frontier (some lease) held ≡ ok tt
unfolding validate_claim_resources validate_resources
granted_held s lease none h some_pending = refl
granted_held s lease (some snapshot) h some_pending =
    let (valid, h1) = >>-eq-ok (on_resource_error (validate_resource_snapshot snapshot) _) _ h in
    let (some_acquisitions, h2) = >>-eq-ok (raise_if (is_empty snapshot.acquisitions) _) _ h1 in
    bind-eq _ _ (same_check (validate_resource_snapshot snapshot) valid) (
      bind-eq _ _ (raise_if_ok _ _ (raise_if-eq-ok _ _ some_acquisitions)) (
        bind-eq _ _ refl
          (bind-eq _ _ (raise_if_ok _ _ some_pending) (raise_if_ok _ _ (raise_if-eq-ok _ _ h2)))))
  where
    same_check :
        (r : Result (Unit {0}))
        → on_resource_error r (λ m. transition_error "claim resource snapshot is invalid") ≡ ok tt
        → on_resource_error r (λ m. transition_error "graph resources state is invalid") ≡ ok tt
    same_check (ok done) e = refl
    same_check (err (resource_error m)) e = cc
    same_check (err (transition_error m)) e = cc
    same_check (err (failover_error m)) e = cc
    same_check (err (value_error m)) e = cc
    same_check (err (type_error m)) e = cc
    same_check (err (key_error m)) e = cc
    same_check (err (execution_error c m vs)) e = cc

-- A valid running state with no lease and an executable frontier accepts a claim at its revision by
-- a canonical attempt, when the resources that the claim asks for pass the claim's check.
pub granted_claim_accepted :
    (s : GraphRunState) (c : ClaimGraphExecution)
    → validate_graph_run_state s ≡ ok tt
    → s.status ≡ running
    → s.execution ≡ none
    → frontier_status s.frontier ≡ ok executable
    → c.expected_revision ≡ s.revision
    → validate_claim_resources s c.resources ≡ ok tt
    → is_canonical_identity c.attempt_id ≡ true
    → reduce_graph_run (some s) (transition (claim c))
      ≡ ok (record s {
        execution_sequence = s.execution_sequence + 1;
        execution = some (record {
          token = record { generation = s.execution_sequence + 1; attempt_id = c.attempt_id };
        });
        resources = c.resources;
        revision = s.revision + 1;
      })
unfolding expected_revision_of apply_transition validate_resources
granted_claim_accepted s c valid live idle ready fresh granted named =
    let checked = valid-Checked s valid in
    let free =
      resources_none s.frontier s.resources
        (subst (λ x. validate_resources s.frontier x s.resources ≡ ok tt) idle checked.resources) in
    let some_pending = executable_pending s.frontier ready in
    reduce_of_parts s (claim c) _ valid fresh (claim_applies s c live idle free ready granted) (
      Checked-stable s (s.revision + 1) (s.execution_sequence + 1) _ c.resources s.status s.abort
        (omega arith) (omega arith) refl checked
        (granted_held s
          (record {
            token = record { generation = s.execution_sequence + 1; attempt_id = c.attempt_id };
          })
          c.resources granted some_pending)
        (LeaseFacts-ok _ _ _ _ (record {
          is_running = live;
          current = refl;
          positive = omega arith;
          canonical = named;
          has_pending = some_pending;
        }))
        (running-stable s _ _ _ _ (facts_of_running s checked live) live))

-- A valid running state with no lease and an executable frontier can always be claimed, at its
-- revision, by a canonical attempt that asks for no resources: the lease goes to the attempt under
-- the next number of the execution sequence.
pub claim_accepted :
    (s : GraphRunState) (c : ClaimGraphExecution)
    → validate_graph_run_state s ≡ ok tt
    → s.status ≡ running
    → s.execution ≡ none
    → frontier_status s.frontier ≡ ok executable
    → c.expected_revision ≡ s.revision
    → c.resources ≡ none
    → is_canonical_identity c.attempt_id ≡ true
    → reduce_graph_run (some s) (transition (claim c))
      ≡ ok (record s {
        execution_sequence = s.execution_sequence + 1;
        execution = some (record {
          token = record { generation = s.execution_sequence + 1; attempt_id = c.attempt_id };
        });
        resources = c.resources;
        revision = s.revision + 1;
      })
unfolding validate_claim_resources
claim_accepted s c valid live idle ready fresh bare named =
    granted_claim_accepted s c valid live idle ready fresh (rw bare refl) named
