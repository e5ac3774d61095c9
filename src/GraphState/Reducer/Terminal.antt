-- ===== src/GraphState/Reducer/Terminal.antt =====
-- reducer.py: the status of a run over its transitions, and its end.
use motev.Base.{
  >>-eq-ok, Bool, Ensures, Ensures-bind, Ensures-next, Ensures-ok, Result, eq_of_ne_test, false,
  inl, inr, is_some, list_eq, nat_eq, nat_ord, ok, option_eq, or-eq-false, raise_if, raise_if-eq-ok,
  refl, some, string_eq, string_ord, subst, sym, ◌/=◌, ◌||◌, ◌∙◌, ◌≡◌, ◌≢◌, ◌⊎◌,
}
use motev.GraphState.Command.{
  AbortGraphRun, CompleteGraphFrontier, GraphRunCommand, SettleGraphNode, Transition, abort_run,
  advance, claim, complete, fence, resume, settle, start, transition,
}
use motev.GraphState.FrontierModel.{
  GraphFrontierStatus, awaiting_resume, cause_eq, executable, failed_frontier, frontier_status_eq,
  settled,
}
use motev.GraphState.Identity.{activation_eq, join_eq, occurrence_eq, occurrence_ord, reference_eq}
use motev.GraphState.Model.{
  GraphRunState, GraphRunStatus, aborted, completed, failed, progress_eq, run_status_eq, running,
  state_eq, token_eq,
}
use motev.GraphState.Reducer.{apply_transition, reduce_graph_run}
use motev.GraphState.Reducer.Evolution.{reduce-Accepted}
use motev.GraphState.ResourceModel.{snapshot_eq}
use motev.GraphState.Transitions.{
  abort_graph_run, advance_graph_frontier, claim_graph_execution, complete_graph_frontier,
  fence_graph_execution, resolution_base,
}
use motev.GraphState.Transitions.Resume.{resume_graph_nodes}
use motev.GraphState.Transitions.Settle.{settle_graph_node, settled_status}

-- What `status is not RUNNING` guards.
running_of_guard :
    (s : GraphRunState) (b : Bool) → (s.status /= running || b) ≡ false → s.status ≡ running
running_of_guard s b h = eq_of_ne_test _ _ (or-eq-false (s.status /= running) b h).0

abbrev NeedsRunning : GraphRunState → Result GraphRunState → Type 0
NeedsRunning s r = Ensures (λ _. s.status ≡ running) r

resolution_base-running : (s : GraphRunState) → resolution_base s ≡ ok tt → s.status ≡ running
unfolding resolution_base
resolution_base-running s h =
    eq_of_ne_test _ _ (raise_if-eq-ok _ _ (>>-eq-ok (raise_if (s.status /= running) _) _ h).0)

apply_transition-NeedsRunning :
    (s : GraphRunState) (c : Transition) → NeedsRunning s (apply_transition s c)
unfolding apply_transition claim_graph_execution fence_graph_execution settle_graph_node
    resume_graph_nodes advance_graph_frontier complete_graph_frontier abort_graph_run
apply_transition-NeedsRunning s (claim c) = Ensures-bind _ _ λ _ guard. record {
  at = λ _ _.
      running_of_guard s (is_some s.execution)
        (or-eq-false (s.status /= running || is_some s.execution) (is_some s.resources)
          (raise_if-eq-ok _ _ guard)).0;
}
apply_transition-NeedsRunning s (fence c) =
    Ensures-bind _ _ λ _ guard. record { at = λ _ _. eq_of_ne_test _ _ (raise_if-eq-ok _ _ guard) }
apply_transition-NeedsRunning s (settle c) =
    Ensures-bind _ _ λ _ guard. record { at = λ _ _. eq_of_ne_test _ _ (raise_if-eq-ok _ _ guard) }
apply_transition-NeedsRunning s (resume c) = Ensures-bind _ _ λ _ guard. record {
  at = λ _ _.
      running_of_guard s (is_some s.execution)
        (or-eq-false (s.status /= running || is_some s.execution) (is_some s.resources)
          (raise_if-eq-ok _ _ guard)).0;
}
apply_transition-NeedsRunning s (advance c) =
    Ensures-bind _ _ λ _ base. record { at = λ _ _. resolution_base-running s base }
apply_transition-NeedsRunning s (complete c) =
    Ensures-bind _ _ λ _ base. record { at = λ _ _. resolution_base-running s base }
apply_transition-NeedsRunning s (abort_run c) = Ensures-bind _ _ λ _ guard. record {
  at = λ _ _. running_of_guard s (is_some s.execution) (raise_if-eq-ok _ _ guard);
}

-- A run that is completed, failed or aborted accepts no command at all.
pub terminal_refused :
    (s t : GraphRunState) (command : GraphRunCommand)
    → s.status ≢ running
    → reduce_graph_run (some s) command ≢ ok t
unfolding reduce_graph_run
terminal_refused s t (start c) ended e = cc
terminal_refused s t (transition c) ended e =
    let a = reduce-Accepted s c t e in
    ended ((apply_transition-NeedsRunning s c).at a.updated a.applied)

-- How a run may end: by a settlement that leaves no pending node and a failed one, by a
-- completion, or by an abort.
pub data Ends : Transition → GraphRunStatus → Type 0 where
  by_settlement : (c : SettleGraphNode) → Ends (settle c) failed
  by_completion : (c : CompleteGraphFrontier) → Ends (complete c) completed
  by_abort : (c : AbortGraphRun) → Ends (abort_run c) aborted

abbrev StatusMove : GraphRunState → Transition → GraphRunState → Type 0
StatusMove s c u = (u.status ≡ s.status) ⊎ (u.status ≡ running) ⊎ Ends c u.status

settled_status-cases :
    (d : GraphFrontierStatus) → (settled_status d ≡ running) ⊎ (settled_status d ≡ failed)
unfolding settled_status
settled_status-cases executable = inl refl
settled_status-cases failed_frontier = inr refl
settled_status-cases awaiting_resume = inl refl
settled_status-cases settled = inl refl

apply_transition-StatusMove :
    (s : GraphRunState) (c : Transition) → Ensures (StatusMove s c) (apply_transition s c)
unfolding apply_transition claim_graph_execution fence_graph_execution settle_graph_node
    resume_graph_nodes advance_graph_frontier complete_graph_frontier abort_graph_run
apply_transition-StatusMove s (claim c) = Ensures-next _ _ λ _.
    Ensures-next _ _
      λ _. Ensures-next _ _ λ _. Ensures-next _ _ λ _. Ensures-next _ _ λ _. Ensures-ok _ (inl refl)
apply_transition-StatusMove s (fence c) =
    Ensures-next _ _ λ _. Ensures-next _ _ λ _. Ensures-ok _ (inl refl)
apply_transition-StatusMove s (settle c) = Ensures-next _ _ λ _. Ensures-next _ _ λ _.
    Ensures-next _ _ λ _. Ensures-next _ _ λ _. Ensures-next _ _ λ _. Ensures-next _ _ λ _.
      Ensures-next _ _ λ derived. Ensures-ok _ (elim (settled_status-cases derived) [
        | inl e ↦ inr (inl e)
        | inr e ↦ inr (inr (subst (Ends (settle c)) (sym e) (by_settlement c)))
      ])
apply_transition-StatusMove s (resume c) =
    Ensures-next _ _
      λ _. Ensures-next _ _ λ _. Ensures-next _ _ λ _. Ensures-next _ _ λ _. Ensures-ok _ (inl refl)
apply_transition-StatusMove s (advance c) =
    Ensures-next _ _ λ _. Ensures-next _ _ λ _. Ensures-next _ _ λ _. Ensures-ok _ (inl refl)
apply_transition-StatusMove s (complete c) =
    Ensures-next _ _
      λ _. Ensures-next _ _ λ _. Ensures-next _ _ λ _. Ensures-ok _ (inr (inr (by_completion c)))
apply_transition-StatusMove s (abort_run c) =
    Ensures-next _ _ λ _. Ensures-ok _ (inr (inr (by_abort c)))

-- An accepted transition starts from a running state and leaves that status in three ways only: a
-- settlement ends the run as failed, a completion as completed, an abort as aborted.
pub reduce-Ends :
    (s t : GraphRunState) (c : Transition)
    → reduce_graph_run (some s) (transition c) ≡ ok t
    → (s.status ≡ running) × ((t.status ≡ running) ⊎ Ends c t.status)
reduce-Ends s t c e =
    let a = reduce-Accepted s c t e in
    let was_running = (apply_transition-NeedsRunning s c).at a.updated a.applied in
    (
      was_running,
      rw a.result (elim ((apply_transition-StatusMove s c).at a.updated a.applied) [
        | inl same ↦ inl (same ∙ was_running)
        | inr (inl again) ↦ inl again
        | inr (inr ended) ↦ inr ended
      ]),
    )
