-- ===== src/GraphState/Reducer/Progress.antt =====
-- reducer.py: the acceptance of transitions. The reducer validates its own result, so an
-- accepted transition needs a new state that passes every check again.
use motev.Base.{
  >>-eq-ok, >>=-eq-ok, List, Option, String, [], ap, arith, bind-eq, false, is_empty, is_some,
  is_some-none, list_eq, nat_eq, nat_ord, ne_test_of_eq, none, not, ok, on_resource_error,
  option_eq, raise_if, raise_if-eq-ok, raise_if_ok, refl, some, string_eq, string_ord, subst, sym,
  true, ℕ, ◌+◌, ◌∙◌, ◌∷◌, ◌≡◌,
}
use motev.GraphState.Command.{
  AbortGraphRun, FenceGraphExecution, Transition, abort_run, expected_revision_of, fence,
  transition,
}
use motev.GraphState.FrontierModel.{GraphFrontierState, cause_eq, frontier_status_eq}
use motev.GraphState.Identity.{
  activation_eq, is_canonical_identity, join_eq, occurrence_eq, occurrence_ord, reference_eq,
}
use motev.GraphState.Model.{
  GraphExecutionLease, GraphExecutionToken, GraphRunState, aborted, progress_eq,
  run_status_discrete, run_status_eq, running, state_eq, token_eq,
}
use motev.GraphState.Reducer.{apply_transition, reduce_graph_run}
use motev.GraphState.Reducer.Evolution.{reduce-Accepted}
use motev.GraphState.Reducer.Leases.{History, here, next}
use motev.GraphState.ResourceModel.{ResourceSnapshot, snapshot_eq}
use motev.GraphState.ResourceReducer.{validate_resource_snapshot}
use motev.GraphState.Transitions.{abort_graph_run, fence_graph_execution, require_execution_lease}
use motev.GraphState.Validation.Facts.{
  Checked, Checked-valid, LeaseFacts, lease_facts, valid-Checked,
}
use motev.GraphState.Validation.Run.{
  is_failed_frontier, validate_execution, validate_graph_run_state, validate_resources,
  validate_status, validated_graph_run_state,
}
use motev.GraphState.Validation.Stable.{Checked-stable, with_lease}

-- `reduce_graph_run` from its parts.
pub reduce_of_parts :
    (s : GraphRunState) (c : Transition) (u : GraphRunState)
    → validate_graph_run_state s ≡ ok tt
    → expected_revision_of c ≡ s.revision
    → apply_transition s c ≡ ok u
    → Checked (record u { revision = s.revision + 1 })
    → reduce_graph_run (some s) (transition c) ≡ ok (record u { revision = s.revision + 1 })
unfolding reduce_graph_run validated_graph_run_state
reduce_of_parts s c u valid fresh applied checked = bind-eq _ _ valid (
    bind-eq _ _ (raise_if_ok _ _ (ne_test_of_eq _ _ fresh))
      (bind-eq _ _ applied (bind-eq _ _ (Checked-valid _ checked) refl)))

execution_lemma :
    (s : GraphRunState) (lease : GraphExecutionLease)
    → Checked s
    → s.execution ≡ some lease
    → LeaseFacts s.status s.execution_sequence s.frontier lease
execution_lemma s lease c held = lease_facts s.status s.execution_sequence s.frontier lease (
    subst (λ x. validate_execution s.status s.execution_sequence s.frontier x ≡ ok tt) held
      c.execution)

pub resources_none :
    (f : GraphFrontierState) (held : Option ResourceSnapshot)
    → validate_resources f none held ≡ ok tt
    → held ≡ none
unfolding validate_resources
resources_none f none h = refl
resources_none f (some snapshot) h =
    let (_, h1) = >>-eq-ok (on_resource_error (validate_resource_snapshot snapshot) _) _ h in
    let (_, h2) = >>-eq-ok (raise_if (is_empty snapshot.acquisitions) _) _ h1 in
    let (never, _) = >>-eq-ok (raise_if true _) _ h2 in cc

-- What a running status has checked.
pub record RunningFacts (s : GraphRunState) : Type 0 where
  pub has_nodes : is_empty s.frontier.nodes ≡ false
  pub no_failure : is_failed_frontier s.frontier ≡ ok false
  pub no_abort : s.abort ≡ none
  pub no_route : s.completion_route ≡ none

running_facts : (s : GraphRunState) → validate_status s running ≡ ok tt → RunningFacts s
unfolding validate_status
running_facts s h =
    let (g1, h1) = >>-eq-ok (raise_if (is_empty s.frontier.nodes) _) _ h in
    let (b, e, h2) = >>=-eq-ok (is_failed_frontier s.frontier) _ h1 in
    let (g2, h3) = >>-eq-ok (raise_if b _) _ h2 in
    let (g3, h4) = >>-eq-ok (raise_if (is_some s.abort) _) _ h3 in
    record {
      has_nodes = raise_if-eq-ok _ _ g1;
      no_failure = e ∙ ap ok (raise_if-eq-ok _ _ g2);
      no_abort = is_some-none s.abort (raise_if-eq-ok _ _ g3);
      no_route = is_some-none s.completion_route (raise_if-eq-ok _ _ h4);
    }

RunningFacts-ok : (s : GraphRunState) → RunningFacts s → validate_status s running ≡ ok tt
unfolding validate_status
RunningFacts-ok s f = bind-eq _ _ (raise_if_ok _ _ f.has_nodes) (
    bind-eq _ _ f.no_failure (
      bind-eq _ _ refl (
        bind-eq _ _ (raise_if_ok _ _ (ap is_some f.no_abort))
          (raise_if_ok _ _ (ap is_some f.no_route)))))

pub facts_of_running : (s : GraphRunState) → Checked s → s.status ≡ running → RunningFacts s
facts_of_running s c live = running_facts s (subst (λ x. validate_status s x ≡ ok tt) live c.status)

holder_passes :
    (s : GraphRunState) (token : GraphExecutionToken)
    → s.execution ≡ some (record { token = token })
    → require_execution_lease s token ≡ ok tt
unfolding require_execution_lease
holder_passes s token held = ground arith

fence_applies :
    (s : GraphRunState) (c : FenceGraphExecution)
    → s.status ≡ running
    → s.execution ≡ some (record { token = c.execution })
    → fence_graph_execution s c ≡ ok (record s { execution = none; resources = none })
unfolding fence_graph_execution
fence_applies s c live held =
    bind-eq _ _ (raise_if_ok _ _ (ne_test_of_eq _ _ live))
      (bind-eq _ _ (holder_passes s c.execution held) refl)

-- A running status that was checked passes with other leases, resources and counters.
pub running-stable :
    (s : GraphRunState) (r q : ℕ) (lease : Option GraphExecutionLease)
    (held : Option ResourceSnapshot)
    → RunningFacts s
    → s.status ≡ running
    → validate_status (with_lease s r q lease held s.status s.abort) s.status ≡ ok tt
running-stable s r q lease held f live =
    subst (λ x. validate_status (with_lease s r q lease held s.status s.abort) x ≡ ok tt) (sym live)
      (RunningFacts-ok _ (record {
        has_nodes = f.has_nodes;
        no_failure = f.no_failure;
        no_abort = f.no_abort;
        no_route = f.no_route;
      }))

-- The holder of the lease of a valid state can always fence it, at the state's revision: the
-- lease and the resources go, and nothing else but the revision changes.
pub fence_accepted :
    (s : GraphRunState) (c : FenceGraphExecution)
    → validate_graph_run_state s ≡ ok tt
    → s.execution ≡ some (record { token = c.execution })
    → c.expected_revision ≡ s.revision
    → reduce_graph_run (some s) (transition (fence c))
      ≡ ok (record s { execution = none; resources = none; revision = s.revision + 1 })
unfolding expected_revision_of apply_transition validate_resources validate_execution
fence_accepted s c valid held fresh =
    let checked = valid-Checked s valid in
    let live = (execution_lemma s (record { token = c.execution }) checked held).is_running in
    reduce_of_parts s (fence c) (record s { execution = none; resources = none }) valid fresh
      (fence_applies s c live held)
      (Checked-stable s (s.revision + 1) s.execution_sequence none none s.status s.abort
        (omega arith) (omega arith) refl checked refl refl
        (running-stable s _ _ none none (facts_of_running s checked live) live))

abort_applies :
    (s : GraphRunState) (c : AbortGraphRun)
    → s.status ≡ running
    → s.execution ≡ none
    → abort_graph_run s c
      ≡ ok (record s {
        status = aborted;
        resources = none;
        abort = some (record { reason = c.reason });
      })
unfolding abort_graph_run
abort_applies s c live idle = bind-eq _ _ (raise_if_ok _ _ (ground arith)) refl

aborted_facts :
    (s : GraphRunState) (r : ℕ) (reason : String)
    → RunningFacts s
    → s.execution ≡ none
    → is_canonical_identity reason ≡ true
    → validate_status
        (with_lease s r s.execution_sequence s.execution none aborted
          (some (record { reason = reason })))
        aborted
      ≡ ok tt
unfolding validate_status
aborted_facts s r reason f idle named =
    bind-eq _ _ (raise_if_ok _ _ (ground (arith, f.has_nodes, f.no_route)))
      (raise_if_ok _ _ (ap not named))

-- A valid running state with no lease can always be aborted, at its revision and for a canonical
-- reason: the run ends as aborted, for that reason, and keeps its frontier.
pub abort_accepted :
    (s : GraphRunState) (c : AbortGraphRun)
    → validate_graph_run_state s ≡ ok tt
    → s.status ≡ running
    → s.execution ≡ none
    → c.expected_revision ≡ s.revision
    → is_canonical_identity c.reason ≡ true
    → reduce_graph_run (some s) (transition (abort_run c))
      ≡ ok (record s {
        status = aborted;
        resources = none;
        abort = some (record { reason = c.reason });
        revision = s.revision + 1;
      })
unfolding expected_revision_of apply_transition validate_resources validate_execution
abort_accepted s c valid live idle fresh named =
    let checked = valid-Checked s valid in
    reduce_of_parts s (abort_run c) _ valid fresh (abort_applies s c live idle) (
      Checked-stable s (s.revision + 1) s.execution_sequence s.execution none aborted
        (some (record { reason = c.reason })) (omega arith) (omega arith)
        (rw live (unfold run_status_discrete in refl)) checked refl (rw idle refl)
        (aborted_facts s _ c.reason (facts_of_running s checked live) idle named))

-- The commands that stop a run for a reason: a fence of its lease, if one is held, and an abort.
abbrev pub stop_commands : ℕ → Option GraphExecutionLease → String → List Transition
stop_commands revision none reason =
    abort_run (record { expected_revision = revision; reason = reason }) ∷ []
stop_commands revision (some lease) reason =
    abort_run (record { expected_revision = revision + 1; reason = reason })
    ∷ fence (record { expected_revision = revision; execution = lease.token })
    ∷ []

-- What the stopping leads to.
abbrev pub Stopped : GraphRunState → Option GraphExecutionLease → String → Type 0
Stopped s held reason =
    (t : GraphRunState) × History s (stop_commands s.revision held reason) t
    × (t.status ≡ aborted)
    × (t.abort ≡ some (record { reason = reason }))
    × (t.frontier ≡ s.frontier)
    × (t.settled_publications ≡ s.settled_publications)

fence_valid :
    (s t : GraphRunState) (c : Transition)
    → reduce_graph_run (some s) (transition c) ≡ ok t
    → validate_graph_run_state t ≡ ok tt
fence_valid s t c e = (reduce-Accepted s c t e).valid_after

stop_from :
    (s : GraphRunState) (reason : String) (held : Option GraphExecutionLease)
    → s.execution ≡ held
    → validate_graph_run_state s ≡ ok tt
    → s.status ≡ running
    → is_canonical_identity reason ≡ true
    → Stopped s held reason
stop_from s reason none e valid live named =
    let c : AbortGraphRun = record { expected_revision = s.revision; reason = reason } in
    let step = abort_accepted s c valid live e refl named in
    (
      record s {
        status = aborted;
        resources = none;
        abort = some (record { reason = reason });
        revision = s.revision + 1;
      },
      next here step,
      refl,
      refl,
      refl,
      refl,
    )
stop_from s reason (some lease) e valid live named =
    let f : FenceGraphExecution = record {
      expected_revision = s.revision;
      execution = lease.token;
    } in
    let fenced = fence_accepted s f valid e refl in
    let u : GraphRunState = record s {
      execution = none;
      resources = none;
      revision = s.revision + 1;
    } in
    let c : AbortGraphRun = record { expected_revision = s.revision + 1; reason = reason } in
    let step = abort_accepted u c (fence_valid s u (fence f) fenced) live refl refl named in
    (
      record u {
        status = aborted;
        resources = none;
        abort = some (record { reason = reason });
        revision = u.revision + 1;
      },
      next (next here fenced) step,
      refl,
      refl,
      refl,
      refl,
    )

-- Every valid running run can be stopped for any canonical reason, by an abort, preceded by a fence
-- where a lease is held: the reducer accepts these commands, the run ends as aborted for that
-- reason, and the frontier and the publications stay.
pub can_stop :
    (s : GraphRunState) (reason : String)
    → validate_graph_run_state s ≡ ok tt
    → s.status ≡ running
    → is_canonical_identity reason ≡ true
    → Stopped s s.execution reason
can_stop s reason valid live named = stop_from s reason s.execution refl valid live named
