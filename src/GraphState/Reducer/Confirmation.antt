-- ===== src/GraphState/Reducer/Confirmation.antt =====
-- reducer.py: `admit_graph_run_confirmation`.
use motev.Base.{
  >>-eq-ok, >>=-eq-ok, Bool-cases, Ensures, Ensures-bind, Ensures-err, Ensures-next, Ensures-ok,
  Error, List, Option, Result, [], ap, eq_of_ne_test, eq_of_test, inl, inr, is_some-none, list_eq,
  nat_eq, nat_ord, none, ok, option_eq, or_raise, raise_if, raise_if-eq-ok, refl, some, string_eq,
  string_ord, sym, ◌/=◌, ◌==◌, ◌>>=◌, ◌>>◌, ◌∙◌, ◌∷◌, ◌≡◌,
}
use motev.GraphState.Command.{
  GraphNodeOutcome, GraphRunCommand, SettleGraphNode, StartGraphRun, Transition, abort_run, advance,
  claim, complete, failed_outcome, fence, interrupted_outcome, resume, settle, start,
  succeeded_outcome, transition,
}
use motev.GraphState.FrontierModel.{cause_eq, frontier_status_eq}
use motev.GraphState.Identity.{activation_eq, join_eq, occurrence_eq, occurrence_ord, reference_eq}
use motev.GraphState.Model.{
  GraphEvidenceCommitment, GraphPublicationSettlement, GraphRunState, progress_eq, run_status_eq,
  state_eq, token_eq,
}
use motev.GraphState.Reducer.{
  admit_graph_run_confirmation, bind_evidence, bind_settle, bind_transition, not_exact,
  reduce_graph_run, single_evidence,
}
use motev.GraphState.ResourceModel.{snapshot_eq}
use motev.GraphState.Validation.Run.{validate_graph_run_state}

-- The command that a confirmation may stand for: the given one, or the given one with a durable
-- evidence commitment where it carried none.
pub data Refines : GraphRunCommand → GraphRunCommand → Type 0 where
  exact : (command : GraphRunCommand) → Refines command command
  with_input :
      (c : StartGraphRun) (evidence : GraphEvidenceCommitment)
      → c.graph_input_evidence ≡ none
      → Refines (start c) (start (record c { graph_input_evidence = some evidence }))
  with_publication :
      (c : SettleGraphNode) (evidence : GraphEvidenceCommitment)
      → c.publication_evidence ≡ none
      → Refines
          (transition (settle c))
          (transition (settle (record c { publication_evidence = some evidence })))

single_evidence-none :
    (items : List GraphPublicationSettlement) (carried : Option GraphEvidenceCommitment)
    (e : GraphEvidenceCommitment)
    → single_evidence items carried ≡ some e
    → carried ≡ none
unfolding single_evidence
single_evidence-none [] none e h = refl
single_evidence-none [] (some c) e h = cc
single_evidence-none (x ∷ []) none e h = refl
single_evidence-none (x ∷ []) (some c) e h = cc
single_evidence-none (x ∷ y ∷ items) none e h = refl
single_evidence-none (x ∷ y ∷ items) (some c) e h = cc

some_of_or_raise {ℓ} :
    {A : Type ℓ} (o : Option A) (e : Error) {a : A} → or_raise o e ≡ ok a → o ≡ some a
some_of_or_raise none e h = cc
some_of_or_raise (some a) e h = cc

bind_settle-Refines :
    (confirmed : GraphRunState) (c : SettleGraphNode) (o : GraphNodeOutcome)
    → Ensures
        (λ bound. Refines (transition (settle c)) (transition bound))
        (bind_settle confirmed c o)
unfolding bind_settle
bind_settle-Refines confirmed c (succeeded_outcome node_id routing) =
    Ensures-bind _ _ λ commitment found. Ensures-next _ _ λ evidence. Ensures-ok _ (
      with_publication c evidence
        (single_evidence-none _ _ commitment (some_of_or_raise _ _ found)))
bind_settle-Refines confirmed c (failed_outcome node_id failure) = Ensures-err _
bind_settle-Refines confirmed c (interrupted_outcome node_id identity payload) = Ensures-err _

bind_transition-Refines :
    (confirmed : GraphRunState) (c : Transition)
    → Ensures (λ bound. Refines (transition c) (transition bound)) (bind_transition confirmed c)
unfolding bind_transition
bind_transition-Refines confirmed (settle c) = bind_settle-Refines confirmed c c.outcome
bind_transition-Refines confirmed (claim c) = Ensures-err _
bind_transition-Refines confirmed (fence c) = Ensures-err _
bind_transition-Refines confirmed (resume c) = Ensures-err _
bind_transition-Refines confirmed (advance c) = Ensures-err _
bind_transition-Refines confirmed (complete c) = Ensures-err _
bind_transition-Refines confirmed (abort_run c) = Ensures-err _

bind_evidence-Refines :
    (confirmed : GraphRunState) (command : GraphRunCommand)
    → Ensures (Refines command) (bind_evidence confirmed command)
unfolding bind_evidence
bind_evidence-Refines confirmed (start c) = Ensures-next _ _ λ commitment.
    Ensures-bind _ _ λ _ absent. Ensures-next _ _ λ evidence.
      Ensures-ok _
        (with_input c evidence (is_some-none c.graph_input_evidence (raise_if-eq-ok _ _ absent)))
bind_evidence-Refines confirmed (transition c) =
    Ensures-bind _ _
      λ bound made. Ensures-ok _ ((bind_transition-Refines confirmed c).at bound made)

-- What an admitted confirmation is.
pub record Confirmed (state : Option GraphRunState) (command : GraphRunCommand)
    (confirmed t : GraphRunState) : Type 0 where
  pub bound : GraphRunCommand
  pub refines : Refines command bound
  pub successor : reduce_graph_run state bound ≡ ok t
  pub same : t ≡ confirmed

admitted_refined :
    (state : Option GraphRunState) (command : GraphRunCommand) (confirmed t : GraphRunState)
    (made : Result GraphRunCommand)
    → made ≡ bind_evidence confirmed command
    → (do
      bound ← made
      successor ← reduce_graph_run state bound
      raise_if (confirmed /= successor) not_exact
      ok confirmed)
      ≡ ok t
    → Confirmed state command confirmed t
admitted_refined state command confirmed t made same h =
    let (bound, e, h1) = >>=-eq-ok made _ h in
    let (successor, reduced, h2) = >>=-eq-ok (reduce_graph_run state bound) _ h1 in
    let (equal, h3) = >>-eq-ok (raise_if (confirmed /= successor) not_exact) _ h2 in
    let es : confirmed ≡ successor = eq_of_ne_test _ _ (raise_if-eq-ok _ _ equal) in
    let et : t ≡ confirmed = cc in
    record {
      bound = bound;
      refines = (bind_evidence-Refines confirmed command).at bound (sym same ∙ e);
      successor = reduced ∙ ap ok (sym (et ∙ es));
      same = et;
    }

-- A confirmed state is admitted only as itself, and only if it is the reducer's successor of the
-- prior state under the given command, or under the given start or success settlement with an
-- evidence commitment that the command did not carry.
pub admit-Confirmed :
    (state : Option GraphRunState) (command : GraphRunCommand) (confirmed t : GraphRunState)
    → admit_graph_run_confirmation state command confirmed ≡ ok t
    → Confirmed state command confirmed t
unfolding admit_graph_run_confirmation
admit-Confirmed state command confirmed t h =
    let (_, h1) = >>-eq-ok (validate_graph_run_state confirmed) _ h in
    let (expected, reduced, h2) = >>=-eq-ok (reduce_graph_run state command) _ h1 in
    elim (Bool-cases (confirmed == expected)) [
      | inl equal ↦
          let es : confirmed ≡ expected = eq_of_test _ _ equal in
          let k : ok confirmed ≡ ok t = rw equal at h2 in
          let et : t ≡ confirmed = cc in
          record {
            bound = command;
            refines = exact command;
            successor = reduced ∙ ap ok (sym (et ∙ es));
            same = et;
          }
      | inr other ↦ admitted_refined state command confirmed t _ refl (rw other at h2)
    ]
