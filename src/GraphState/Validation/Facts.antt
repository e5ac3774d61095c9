-- ===== src/GraphState/Validation/Facts.antt =====
-- validation.py: what an accepted state is known to satisfy, check by check.
use motev.Base.{
  >>-eq-ok, arith, false, is_empty, list_eq, nat_eq, nat_ord, ok, option_eq, some, string_eq,
  string_ord, true, ℕ, ◌<◌, ◌>>=◌, ◌≡◌,
}
use motev.GraphState.FrontierModel.{
  GraphFrontierState, cause_eq, frontier_status_eq, pending_node_ids,
}
use motev.GraphState.Identity.{
  activation_eq, is_canonical_identity, join_eq, occurrence_eq, occurrence_ord, reference_eq,
}
use motev.GraphState.Model.{
  GraphExecutionLease, GraphRunState, GraphRunStatus, admit_token, progress_eq, run_status_eq,
  running, state_eq, token_eq,
}
use motev.GraphState.ResourceModel.{snapshot_eq}
use motev.GraphState.Validation.{validate_join_progress, validate_settled_publications}
use motev.GraphState.Validation.Run.{
  validate_completion_route, validate_execution, validate_fields, validate_graph_frontier,
  validate_graph_run_state, validate_identity, validate_parent, validate_resources, validate_status,
}

-- The checks of `validate_fields`, each passed.
pub record Checked (s : GraphRunState) : Type 0 where
  pub identity : validate_identity s ≡ ok tt
  pub publications : validate_settled_publications s ≡ ok tt
  pub route : validate_completion_route s.completion_route ≡ ok tt
  pub parent : validate_parent s.run_id s.parent ≡ ok tt
  pub progress : validate_join_progress s ≡ ok tt
  pub frontier : validate_graph_frontier s s.frontier ≡ ok tt
  pub resources : validate_resources s.frontier s.execution s.resources ≡ ok tt
  pub execution : validate_execution s.status s.execution_sequence s.frontier s.execution ≡ ok tt
  pub status : validate_status s s.status ≡ ok tt

fields_of_valid :
    (s : GraphRunState) → validate_graph_run_state s ≡ ok tt → validate_fields s ≡ ok tt
unfolding validate_graph_run_state
fields_of_valid s h = ground arith

pub valid_of_fields :
    (s : GraphRunState) → validate_fields s ≡ ok tt → validate_graph_run_state s ≡ ok tt
unfolding validate_graph_run_state
valid_of_fields s h = rw (h, validate_graph_run_state)

pub valid-Checked : (s : GraphRunState) → validate_graph_run_state s ≡ ok tt → Checked s
unfolding validate_fields
valid-Checked s h =
    let h0 = fields_of_valid s h in
    let (c1, h1) = >>-eq-ok (validate_identity s) _ h0 in
    let (c2, h2) = >>-eq-ok (validate_settled_publications s) _ h1 in
    let (c3, h3) = >>-eq-ok (validate_completion_route s.completion_route) _ h2 in
    let (c4, h4) = >>-eq-ok (validate_parent s.run_id s.parent) _ h3 in
    let (c5, h5) = >>-eq-ok (validate_join_progress s) _ h4 in
    let (c6, h6) = >>-eq-ok (validate_graph_frontier s s.frontier) _ h5 in
    let (c7, h7) = >>-eq-ok (validate_resources s.frontier s.execution s.resources) _ h6 in
    let (c8, h8) =
      >>-eq-ok (validate_execution s.status s.execution_sequence s.frontier s.execution) _ h7 in
    record {
      identity = c1;
      publications = c2;
      route = c3;
      parent = c4;
      progress = c5;
      frontier = c6;
      resources = c7;
      execution = c8;
      status = h8;
    }

pub Checked-valid : (s : GraphRunState) → Checked s → validate_graph_run_state s ≡ ok tt
unfolding validate_fields
Checked-valid s c = valid_of_fields s (
    rw
      (
        c.identity, c.publications, c.route, c.parent, c.progress, c.frontier, c.resources,
        c.execution,
      )
      (unfold ◌>>=◌ in c.status))

-- A lease that passed is of a running graph, under the current number of the sequence, with a
-- positive generation and a canonical attempt, and some node is pending.
pub record LeaseFacts (status : GraphRunStatus) (sequence : ℕ) (frontier : GraphFrontierState)
    (lease : GraphExecutionLease) : Type 0 where
  pub is_running : status ≡ running
  pub current : lease.token.generation ≡ sequence
  pub positive : 0 < sequence
  pub canonical : is_canonical_identity lease.token.attempt_id ≡ true
  pub has_pending : is_empty (pending_node_ids frontier) ≡ false

pub lease_facts :
    (status : GraphRunStatus) (sequence : ℕ) (frontier : GraphFrontierState)
    (lease : GraphExecutionLease)
    → validate_execution status sequence frontier (some lease) ≡ ok tt
    → LeaseFacts status sequence frontier lease
unfolding validate_execution admit_token ◌>>=◌
lease_facts status sequence frontier lease h = ground arith

pub LeaseFacts-ok :
    (status : GraphRunStatus) (sequence : ℕ) (frontier : GraphFrontierState)
    (lease : GraphExecutionLease)
    → LeaseFacts status sequence frontier lease
    → validate_execution status sequence frontier (some lease) ≡ ok tt
unfolding validate_execution admit_token ◌>>=◌
LeaseFacts-ok status sequence frontier lease f = ground arith
