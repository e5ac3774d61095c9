-- ===== src/GraphState/Reducer/Evolution.antt =====
-- reducer.py: what every accepted transition keeps, and how far it moves the counters.
use motev.Base.{
  In-append_left, In-sort_by, >>-eq-ok, >>=-eq-ok, Ensures, Ensures-bind, Ensures-next, Ensures-ok,
  In, Option, ap, arith, eq_of_ne_test, list_eq, nat_eq, nat_ord, none, ok, option_eq, raise_if,
  raise_if-eq-ok, refl, some, string_eq, string_ord, ◌+◌, ◌/=◌, ◌>>=◌, ◌∙◌, ◌≡◌, ◌≤◌,
}
use motev.GraphState.Command.{
  AbortGraphRun, AdvanceGraphFrontier, ClaimGraphExecution, CompleteGraphFrontier,
  FenceGraphExecution, GraphNodeOutcome, ResumeGraphNodes, SettleGraphNode, Transition, abort_run,
  advance, claim, complete, expected_revision_of, failed_outcome, fence, interrupted_outcome,
  resume, settle, succeeded_outcome, transition,
}
use motev.GraphState.FrontierModel.{cause_eq, frontier_status_eq}
use motev.GraphState.Identity.{activation_eq, join_eq, occurrence_eq, occurrence_ord, reference_eq}
use motev.GraphState.Model.{
  GraphConfigCursor, GraphPublicationSettlement, GraphRunState, admit_cursor, config_cursor,
  progress_eq, run_status_eq, state_eq, token_eq, transition_cursor, transition_to,
}
use motev.GraphState.Reducer.{apply_transition, reduce_graph_run}
use motev.GraphState.ResourceModel.{snapshot_eq}
use motev.GraphState.Transitions.{
  abort_graph_run, advance_graph_frontier, claim_graph_execution, complete_graph_frontier,
  fence_graph_execution,
}
use motev.GraphState.Transitions.Resume.{resume_graph_nodes}
use motev.GraphState.Transitions.Settle.{settle_cursor, settle_graph_node, settle_outcome}
use motev.GraphState.Validation.Run.{validate_graph_run_state, validated_graph_run_state}

-- The changes that one step of a run may make, whatever the command; the revision is apart.
pub record Moves (s t : GraphRunState) : Type 0 where
  pub same_run : t.run_id ≡ s.run_id
  pub same_definition : t.definition_id ≡ s.definition_id
  pub same_version : t.definition_version ≡ s.definition_version
  pub same_parent : t.parent ≡ s.parent
  pub same_codec : t.resume_input_codec ≡ s.resume_input_codec
  pub same_input : t.graph_input_evidence ≡ s.graph_input_evidence
  pub same_config : t.config_definition_id ≡ s.config_definition_id
  pub same_config_version : t.config_definition_version ≡ s.config_definition_version
  pub config_forward : s.config_revision ≤ t.config_revision
  pub config_once : t.config_revision ≤ s.config_revision + 1
  pub superstep_forward : s.superstep ≤ t.superstep
  pub superstep_once : t.superstep ≤ s.superstep + 1
  pub sequence_forward : s.execution_sequence ≤ t.execution_sequence
  pub sequence_once : t.execution_sequence ≤ s.execution_sequence + 1
  pub ledger_kept :
      (p : GraphPublicationSettlement) → In p s.settled_publications → In p t.settled_publications

settle_outcome-ledger :
    (s : GraphRunState) (c : SettleGraphNode) (o : GraphNodeOutcome)
    (p : GraphPublicationSettlement)
    → In p s.settled_publications
    → Ensures (λ r. In p r.1) (settle_outcome s c o)
unfolding settle_outcome
settle_outcome-ledger s c (succeeded_outcome node_id routing) p i = Ensures-next _ _ λ activation.
    Ensures-next _ _ λ evidence.
      Ensures-next _ _
        λ _. Ensures-ok _ (In-sort_by _ p _ (In-append_left p s.settled_publications _ i))
settle_outcome-ledger s c (failed_outcome node_id failure) p i =
    Ensures-next _ _ λ _. Ensures-ok _ i
settle_outcome-ledger s c (interrupted_outcome node_id identity payload) p i =
    Ensures-next _ _ λ _. Ensures-next _ _ λ _. Ensures-next _ _ λ _. Ensures-ok _ i

-- A cursor that a state may settle with: the same Config, at most one revision on.
pub record Follows (c d : GraphConfigCursor) : Type 0 where
  pub same_id : d.definition_id ≡ c.definition_id
  pub same_version : d.definition_version ≡ c.definition_version
  pub forward : c.revision ≤ d.revision
  pub once : d.revision ≤ c.revision + 1

transition_cursor-Follows :
    (c candidate d : GraphConfigCursor) → transition_cursor c candidate ≡ ok d → Follows c d
unfolding transition_cursor ◌>>=◌
transition_cursor-Follows c candidate d h = ground arith

transition_to-Follows :
    (c candidate d : GraphConfigCursor) → transition_to c candidate ≡ ok d → Follows c d
unfolding transition_to
transition_to-Follows c candidate d h =
    let (admitted, _, e) = >>=-eq-ok (admit_cursor candidate) (transition_cursor c) h in
    transition_cursor-Follows c admitted d e

-- The cursor of a state, as its fields read.
abbrev Reads : GraphRunState → GraphConfigCursor → Type 0
Reads s c =
    (c.definition_id ≡ s.config_definition_id)
    × (c.definition_version ≡ s.config_definition_version)
    × (c.revision ≡ s.config_revision)

config_cursor-Reads :
    (s : GraphRunState) (c : GraphConfigCursor) → config_cursor s ≡ ok c → Reads s c
unfolding config_cursor ◌>>=◌
config_cursor-Reads s c h = ground arith

claim-Moves :
    (s : GraphRunState) (c : ClaimGraphExecution) → Ensures (Moves s) (claim_graph_execution s c)
unfolding claim_graph_execution
claim-Moves s c = Ensures-next _ _ λ _. Ensures-next _ _ λ _.
    Ensures-next _ _ λ _. Ensures-next _ _ λ _. Ensures-next _ _ λ _. Ensures-ok _ (ground arith)

fence-Moves :
    (s : GraphRunState) (c : FenceGraphExecution) → Ensures (Moves s) (fence_graph_execution s c)
unfolding fence_graph_execution
fence-Moves s c = Ensures-next _ _ λ _. Ensures-next _ _ λ _. Ensures-ok _ (ground arith)

abort-Moves : (s : GraphRunState) (c : AbortGraphRun) → Ensures (Moves s) (abort_graph_run s c)
unfolding abort_graph_run
abort-Moves s c = Ensures-next _ _ λ _. Ensures-ok _ (ground arith)

advance-Moves :
    (s : GraphRunState) (c : AdvanceGraphFrontier) → Ensures (Moves s) (advance_graph_frontier s c)
unfolding advance_graph_frontier
advance-Moves s c =
    Ensures-next _ _ λ _. Ensures-next _ _ λ _. Ensures-next _ _ λ _. Ensures-ok _ (ground arith)

complete-Moves :
    (s : GraphRunState) (c : CompleteGraphFrontier)
    → Ensures (Moves s) (complete_graph_frontier s c)
unfolding complete_graph_frontier
complete-Moves s c =
    Ensures-next _ _ λ _. Ensures-next _ _ λ _. Ensures-next _ _ λ _. Ensures-ok _ (ground arith)

resume-Moves :
    (s : GraphRunState) (c : ResumeGraphNodes) → Ensures (Moves s) (resume_graph_nodes s c)
unfolding resume_graph_nodes
resume-Moves s c = Ensures-next _ _ λ _.
    Ensures-next _ _ λ _. Ensures-next _ _ λ _. Ensures-next _ _ λ _. Ensures-ok _ (ground arith)

settle_cursor-Follows :
    (s : GraphRunState) (candidate : Option GraphConfigCursor) (d : GraphConfigCursor)
    → settle_cursor s candidate ≡ ok d
    → (c : GraphConfigCursor) × Reads s c × Follows c d
unfolding settle_cursor
settle_cursor-Follows s none d h = (d, config_cursor-Reads s d h, ground arith)
settle_cursor-Follows s (some candidate) d h =
    let (c, read, e) = >>=-eq-ok (config_cursor s) _ h in
    (c, config_cursor-Reads s c read, transition_to-Follows c candidate d (ground arith))

settle-Moves : (s : GraphRunState) (c : SettleGraphNode) → Ensures (Moves s) (settle_graph_node s c)
unfolding settle_graph_node
settle-Moves s c = Ensures-next _ _ λ _. Ensures-next _ _ λ _. Ensures-next _ _ λ _.
    Ensures-bind _ _ λ outcome settled. Ensures-bind _ _ λ d moved. Ensures-next _ _ λ _.
      Ensures-next _ _ λ derived. Ensures-ok _ (
        let (cursor, read, follows) = settle_cursor-Follows s c.config_cursor d moved in
        record {
          same_run = refl;
          same_definition = refl;
          same_version = refl;
          same_parent = refl;
          same_codec = refl;
          same_input = refl;
          same_config = follows.same_id ∙ read.0;
          same_config_version = follows.same_version ∙ read.1;
          config_forward = ground arith;
          config_once = ground arith;
          superstep_forward = omega arith;
          superstep_once = omega arith;
          sequence_forward = omega arith;
          sequence_once = omega arith;
          ledger_kept = λ p i. (settle_outcome-ledger s c c.outcome p i).at outcome settled;
        })

apply_transition-Moves :
    (s : GraphRunState) (c : Transition) → Ensures (Moves s) (apply_transition s c)
unfolding apply_transition
apply_transition-Moves s (claim c) = claim-Moves s c
apply_transition-Moves s (fence c) = fence-Moves s c
apply_transition-Moves s (settle c) = settle-Moves s c
apply_transition-Moves s (resume c) = resume-Moves s c
apply_transition-Moves s (advance c) = advance-Moves s c
apply_transition-Moves s (complete c) = complete-Moves s c
apply_transition-Moves s (abort_run c) = abort-Moves s c

-- What a transition that `reduce_graph_run` accepted has gone through.
pub record Accepted (s : GraphRunState) (c : Transition) (t : GraphRunState) : Type 0 where
  pub valid_before : validate_graph_run_state s ≡ ok tt
  pub fresh : expected_revision_of c ≡ s.revision
  pub updated : GraphRunState
  pub applied : apply_transition s c ≡ ok updated
  pub result : t ≡ record updated { revision = s.revision + 1 }
  pub valid_after : validate_graph_run_state t ≡ ok tt

pub reduce-Accepted :
    (s : GraphRunState) (c : Transition) (t : GraphRunState)
    → reduce_graph_run (some s) (transition c) ≡ ok t
    → Accepted s c t
unfolding reduce_graph_run validated_graph_run_state
reduce-Accepted s c t h =
    let (valid, h1) = >>-eq-ok (validate_graph_run_state s) _ h in
    let (fresh, h2) = >>-eq-ok (raise_if (expected_revision_of c /= s.revision) _) _ h1 in
    let (u, applied, h3) = >>=-eq-ok (apply_transition s c) _ h2 in
    let (after, h4) =
      >>-eq-ok (validate_graph_run_state (record u { revision = s.revision + 1 })) _ h3 in
    let e : t ≡ record u { revision = s.revision + 1 } = cc in
    record {
      valid_before = valid;
      fresh = eq_of_ne_test _ _ (raise_if-eq-ok _ _ fresh);
      updated = u;
      applied = applied;
      result = e;
      valid_after = rw e after;
    }

-- Every transition that the reducer accepts was based on the state's revision and leads to the
-- next one. It changes neither the run's identity, its definition, its parent, its input codec,
-- its input evidence nor the identity and version of its Config; it moves the Config revision, the
-- superstep and the execution sequence by at most one, never backwards; and every publication
-- that was settled stays settled.
pub reduce-Moves :
    (s : GraphRunState) (c : Transition) (t : GraphRunState)
    → reduce_graph_run (some s) (transition c) ≡ ok t
    → Moves s t × (expected_revision_of c ≡ s.revision) × (t.revision ≡ s.revision + 1)
reduce-Moves s c t h =
    let a = reduce-Accepted s c t h in
    let m = (apply_transition-Moves s c).at a.updated a.applied in
    (
      rw a.result (record {
        same_run = m.same_run;
        same_definition = m.same_definition;
        same_version = m.same_version;
        same_parent = m.same_parent;
        same_codec = m.same_codec;
        same_input = m.same_input;
        same_config = m.same_config;
        same_config_version = m.same_config_version;
        config_forward = m.config_forward;
        config_once = m.config_once;
        superstep_forward = m.superstep_forward;
        superstep_once = m.superstep_once;
        sequence_forward = m.sequence_forward;
        sequence_once = m.sequence_once;
        ledger_kept = m.ledger_kept;
      }),
      a.fresh,
      ap (λ (x : GraphRunState). x.revision) a.result,
    )
