-- ===== src/GraphState/Reducer/Leases.antt =====
-- reducer.py and execution_transitions.py: the execution lease over a run's history.
use motev.Base.{
  Ensures, Ensures-bind, Ensures-next, Ensures-ok, List, Option, [], arith, eq_of_ne_test, false,
  inl, inr, is_some, is_some-none, list_eq, nat_eq, nat_ord, none, ok, option_eq, or-eq-false,
  raise_if-eq-ok, refl, some, string_eq, string_ord, subst, sym, ◌+◌, ◌/=◌, ◌||◌, ◌∙◌, ◌∷◌, ◌≡◌,
  ◌≢◌, ◌≤◌, ◌⊎◌,
}
use motev.GraphState.Command.{
  ClaimGraphExecution, FenceGraphExecution, SettleGraphNode, Transition, abort_run, advance, claim,
  complete, fence, resume, settle, transition,
}
use motev.GraphState.FrontierModel.{
  GraphFrontierStatus, awaiting_resume, cause_eq, executable, failed_frontier, frontier_status_eq,
  settled,
}
use motev.GraphState.Identity.{activation_eq, join_eq, occurrence_eq, occurrence_ord, reference_eq}
use motev.GraphState.Model.{
  GraphExecutionToken, GraphRunState, progress_eq, run_status_eq, running, state_eq, token_eq,
}
use motev.GraphState.Reducer.{apply_transition, reduce_graph_run}
use motev.GraphState.Reducer.Evolution.{reduce-Accepted}
use motev.GraphState.ResourceModel.{snapshot_eq}
use motev.GraphState.Transitions.{
  abort_graph_run, advance_graph_frontier, claim_graph_execution, complete_graph_frontier,
  fence_graph_execution, require_execution_lease,
}
use motev.GraphState.Transitions.Resume.{resume_graph_nodes}
use motev.GraphState.Transitions.Settle.{keep_if_executable, settle_graph_node}

-- A run of the reducer over transitions, the latest first.
pub data History (s : GraphRunState) : List Transition → GraphRunState → Type 0 where
  here : History s [] s
  next :
      {cs : List Transition} {t u : GraphRunState} {c : Transition}
      → History s cs t
      → reduce_graph_run (some t) (transition c) ≡ ok u
      → History s (c ∷ cs) u

-- What one transition does to the lease: it keeps it, drops it, or takes a new one under the next
-- number of the execution sequence.
pub data LeaseMove (s u : GraphRunState) : Type 0 where
  kept : u.execution ≡ s.execution → u.execution_sequence ≡ s.execution_sequence → LeaseMove s u
  dropped : u.execution ≡ none → u.execution_sequence ≡ s.execution_sequence → LeaseMove s u
  taken :
      (token : GraphExecutionToken)
      → s.execution ≡ none
      → u.execution ≡ some (record { token = token })
      → token.generation ≡ s.execution_sequence + 1
      → u.execution_sequence ≡ s.execution_sequence + 1
      → LeaseMove s u

-- The first guard of a claim or a resume: the state is running and quiescent.
quiescent_of_guard :
    (s : GraphRunState)
    → (s.status /= running || is_some s.execution || is_some s.resources) ≡ false
    → (s.status ≡ running) × (s.execution ≡ none) × (s.resources ≡ none)
quiescent_of_guard s h =
    let (a, b) = or-eq-false (s.status /= running || is_some s.execution) (is_some s.resources) h in
    let (c, d) = or-eq-false (s.status /= running) (is_some s.execution) a in
    (eq_of_ne_test _ _ c, is_some-none s.execution d, is_some-none s.resources b)

claim-LeaseMove :
    (s : GraphRunState) (c : ClaimGraphExecution)
    → Ensures (LeaseMove s) (claim_graph_execution s c)
unfolding claim_graph_execution
claim-LeaseMove s c = Ensures-bind _ _ λ _ guard. Ensures-next _ _ λ _. Ensures-next _ _ λ _.
    Ensures-next _ _ λ _.
      Ensures-next _ _ λ _.
        Ensures-ok _ (taken _ (quiescent_of_guard s (raise_if-eq-ok _ _ guard)).1 refl refl refl)

keep_if_executable-cases {ℓ} :
    {A : Type ℓ} (d : GraphFrontierStatus) (o : Option A)
    → (keep_if_executable d o ≡ o) ⊎ (keep_if_executable d o ≡ none)
unfolding keep_if_executable
keep_if_executable-cases executable o = inl refl
keep_if_executable-cases failed_frontier o = inr refl
keep_if_executable-cases awaiting_resume o = inr refl
keep_if_executable-cases settled o = inr refl

settle-LeaseMove :
    (s : GraphRunState) (c : SettleGraphNode) → Ensures (LeaseMove s) (settle_graph_node s c)
unfolding settle_graph_node
settle-LeaseMove s c = Ensures-next _ _ λ _. Ensures-next _ _ λ _. Ensures-next _ _ λ _.
    Ensures-next _ _ λ _. Ensures-next _ _ λ _. Ensures-next _ _ λ _. Ensures-next _ _ λ derived.
      Ensures-ok _ (elim (keep_if_executable-cases derived s.execution) [
        | inl e ↦ kept e refl
        | inr e ↦ dropped e refl
      ])

apply_transition-LeaseMove :
    (s : GraphRunState) (c : Transition) → Ensures (LeaseMove s) (apply_transition s c)
unfolding apply_transition fence_graph_execution resume_graph_nodes advance_graph_frontier
    complete_graph_frontier abort_graph_run
apply_transition-LeaseMove s (claim c) = claim-LeaseMove s c
apply_transition-LeaseMove s (settle c) = settle-LeaseMove s c
apply_transition-LeaseMove s (fence c) =
    Ensures-next _ _ λ _. Ensures-next _ _ λ _. Ensures-ok _ (dropped refl refl)
apply_transition-LeaseMove s (resume c) = Ensures-next _ _ λ _.
    Ensures-next _ _ λ _. Ensures-next _ _ λ _. Ensures-next _ _ λ _. Ensures-ok _ (kept refl refl)
apply_transition-LeaseMove s (advance c) =
    Ensures-next _ _ λ _. Ensures-next _ _ λ _. Ensures-next _ _ λ _. Ensures-ok _ (kept refl refl)
apply_transition-LeaseMove s (complete c) =
    Ensures-next _ _ λ _. Ensures-next _ _ λ _. Ensures-next _ _ λ _. Ensures-ok _ (kept refl refl)
apply_transition-LeaseMove s (abort_run c) = Ensures-next _ _ λ _. Ensures-ok _ (kept refl refl)

-- Every accepted transition keeps the lease, drops it, or takes a new one: only where there was
-- none, and numbered with the next execution sequence.
pub reduce-LeaseMove :
    (s : GraphRunState) (c : Transition) (t : GraphRunState)
    → reduce_graph_run (some s) (transition c) ≡ ok t
    → LeaseMove s t
reduce-LeaseMove s c t h =
    let a = reduce-Accepted s c t h in
    rw a.result (moved a.updated ((apply_transition-LeaseMove s c).at a.updated a.applied))
  where
    moved :
        (u : GraphRunState) → LeaseMove s u → LeaseMove s (record u { revision = s.revision + 1 })
    moved u (kept e f) = kept e f
    moved u (dropped e f) = dropped e f
    moved u (taken token e f g h) = taken token e f g h

-- A token that was issued, and that the state does not hold.
pub record Retired (token : GraphExecutionToken) (s : GraphRunState) : Type 0 where
  pub issued : token.generation ≤ s.execution_sequence
  pub not_held : ¬ (s.execution ≡ some (record { token = token }))

Retired-LeaseMove :
    (token : GraphExecutionToken) (s t : GraphRunState)
    → Retired token s
    → LeaseMove s t
    → Retired token t
Retired-LeaseMove token s t r (kept e f) = record {
  issued = omega arith;
  not_held = λ h. r.not_held (sym e ∙ h);
}
Retired-LeaseMove token s t r (dropped e f) = record { issued = omega arith; not_held = λ h. cc }
Retired-LeaseMove token s t r (taken new e f g h) = record {
  issued = omega arith;
  not_held = λ held. absurd (omega (arith, same_generation held));
}
  where
    same_generation :
        t.execution ≡ some (record { token = token }) → token.generation ≡ new.generation
    same_generation held = ground arith

Retired-History :
    (token : GraphExecutionToken) {s t : GraphRunState} {cs : List Transition}
    → Retired token s
    → History s cs t
    → Retired token t
Retired-History token r here = r
Retired-History token r (next {t = t} {u = u} {c = c} h e) =
    Retired-LeaseMove token t u (Retired-History token r h) (reduce-LeaseMove t c u e)

require_lease-holds :
    (s : GraphRunState) (token : GraphExecutionToken)
    → require_execution_lease s token ≡ ok tt
    → s.execution ≡ some (record { token = token })
unfolding require_execution_lease
require_lease-holds s token h = ground arith

settle-holds :
    (s : GraphRunState) (c : SettleGraphNode)
    → Ensures (λ _. s.execution ≡ some (record { token = c.execution })) (settle_graph_node s c)
unfolding settle_graph_node
settle-holds s c =
    Ensures-next _ _
      λ _. Ensures-bind _ _ λ _ held. record { at = λ _ _. require_lease-holds s c.execution held }

fence-holds :
    (s : GraphRunState) (c : FenceGraphExecution)
    → Ensures (λ _. s.execution ≡ some (record { token = c.execution })) (fence_graph_execution s c)
unfolding fence_graph_execution
fence-holds s c =
    Ensures-next _ _
      λ _. Ensures-bind _ _ λ _ held. record { at = λ _ _. require_lease-holds s c.execution held }

-- Once an issued token is not held, then after any history of accepted transitions no node settles
-- under it and no fence by it is accepted.
pub stale_token_refused :
    (token : GraphExecutionToken) (s t u : GraphRunState) (cs : List Transition)
    (sc : SettleGraphNode) (fc : FenceGraphExecution)
    → Retired token s
    → History s cs t
    → sc.execution ≡ token
    → fc.execution ≡ token
    → (reduce_graph_run (some t) (transition (settle sc)) ≢ ok u)
      × (reduce_graph_run (some t) (transition (fence fc)) ≢ ok u)
unfolding apply_transition
stale_token_refused token s t u cs sc fc r h es ef = (
  λ e.
      let a = reduce-Accepted t (settle sc) u e in
      (Retired-History token r h).not_held (
        subst (λ x. t.execution ≡ some (record { token = x })) es
          ((settle-holds t sc).at a.updated a.applied)),
  λ e.
      let a = reduce-Accepted t (fence fc) u e in
      (Retired-History token r h).not_held (
        subst (λ x. t.execution ≡ some (record { token = x })) ef
          ((fence-holds t fc).at a.updated a.applied)),
)
