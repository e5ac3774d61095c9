-- ===== src/Failover/Attempts.antt =====
-- policy.py and assembly.py: the budget over the cycle of attempts.
use motev.Base.{
  >>-eq-ok, >>=-eq-ok, Bool, Ensures, Ensures-bind, Ensures-if, Ensures-next, Ensures-ok, Option,
  Result, String, ap, arith, err, false, if◌then◌else◌, list_eq, ltb→le, nat_eq, nat_ord, none, ok,
  option_eq, raise_if-eq-ok, refl, some, string_eq, string_ord, suc, sym, true, zero, ℕ, ◌+◌, ◌<◌,
  ◌>>=◌, ◌∙◌, ◌≡◌, ◌≢◌, ◌≤◌,
}
use motev.Failover.Assembly.{
  FailoverResult, Prepared, attempts, conclude, failure, finish, invoke, new_result, next_context,
  note_failure, observe_call, prepare, prepare_again, prepare_next_attempt,
}
use motev.Failover.Contract.{
  FailureEvidence, FailureStrategy, PortOutcome, PreparationAction, abort_operation,
  completed_outcome, in_progress, refresh_credential, rejected, return_to_model, rotate_credential,
  signal_eq, strategy_eq, switch_endpoint, transform_request, unknown, wait,
}
use motev.Failover.Plan.{
  FailoverPlan, RetryBudget, RetryContext, mode_eq, new_budget, new_context, with_strategy_use,
}
use motev.Failover.Policy.{
  FailoverDecision, ObservationRoute, abort_route, action_for, completed_route, is_exhausted,
  new_decision, observe_and_route, prepare_route, return_decision, return_route, route_action,
  route_eq, route_outcome, route_rejected, route_strategy,
}

module _ {ℓ} {Change Datetime : Type ℓ} where
  -- A decision that prepares a next attempt leaves one more in the budget.
  abbrev pub WithinBudget :
      FailoverPlan Change → RetryContext Datetime → FailoverDecision Change → Type 0
  WithinBudget plan context decision =
      decision.route ≡ prepare_route
      → context.attempt_ordinal + 1 < plan.profile.budget.max_wire_attempts

  new_decision-WithinBudget :
      (plan : FailoverPlan Change) (context : RetryContext Datetime) (d : FailoverDecision Change)
      → WithinBudget plan context d
      → Ensures (WithinBudget plan context) (new_decision d)
  unfolding new_decision
  new_decision-WithinBudget plan context d w =
      Ensures-next _ _ λ _. Ensures-next _ _ λ _. Ensures-ok _ w

  route_action-WithinBudget :
      (plan : FailoverPlan Change) (context : RetryContext Datetime) (strategy : FailureStrategy)
      (evidence : FailureEvidence) (action : Option (PreparationAction Change))
      → context.attempt_ordinal + 1 < plan.profile.budget.max_wire_attempts
      → Ensures (WithinBudget plan context) (route_action strategy evidence action)
  unfolding route_action
  route_action-WithinBudget plan context strategy evidence none w =
      new_decision-WithinBudget plan context _ (λ _. w)
  route_action-WithinBudget plan context strategy evidence (some action) w =
      new_decision-WithinBudget plan context _ (λ _. w)

  budget_left :
      (plan : FailoverPlan Change) (context : RetryContext Datetime) (strategy : FailureStrategy)
      → is_exhausted strategy plan context ≡ false
      → context.attempt_ordinal + 1 < plan.profile.budget.max_wire_attempts
  unfolding is_exhausted
  budget_left plan context strategy h = ground arith

  prepared_or_not :
      (plan : FailoverPlan Change) (context : RetryContext Datetime) (strategy : FailureStrategy)
      (evidence : FailureEvidence) (action : Option (PreparationAction Change))
      → Ensures (WithinBudget plan context) (
          if is_exhausted strategy plan context
          then new_decision (return_decision (some strategy) (some evidence) true)
          else route_action strategy evidence action)
  prepared_or_not plan context strategy evidence action =
      Ensures-if _ _ _ (λ _. new_decision-WithinBudget plan context _ (λ e. cc))
        (λ left.
          route_action-WithinBudget plan context strategy evidence action
            (budget_left plan context strategy left))

  route_strategy-WithinBudget :
      (plan : FailoverPlan Change) (context : RetryContext Datetime)
      (strategy : Option FailureStrategy) (evidence : FailureEvidence)
      → Ensures (WithinBudget plan context) (route_strategy strategy evidence plan context)
  unfolding route_strategy
  route_strategy-WithinBudget plan context none evidence =
      new_decision-WithinBudget plan context _ (λ e. cc)
  route_strategy-WithinBudget plan context (some return_to_model) evidence =
      new_decision-WithinBudget plan context _ (λ e. cc)
  route_strategy-WithinBudget plan context (some abort_operation) evidence =
      new_decision-WithinBudget plan context _ (λ e. cc)
  route_strategy-WithinBudget plan context (some wait) evidence =
      prepared_or_not plan context wait evidence (action_for wait evidence plan context)
  route_strategy-WithinBudget plan context (some transform_request) evidence =
      prepared_or_not plan context transform_request evidence
        (action_for transform_request evidence plan context)
  route_strategy-WithinBudget plan context (some refresh_credential) evidence =
      prepared_or_not plan context refresh_credential evidence
        (action_for refresh_credential evidence plan context)
  route_strategy-WithinBudget plan context (some rotate_credential) evidence =
      prepared_or_not plan context rotate_credential evidence
        (action_for rotate_credential evidence plan context)
  route_strategy-WithinBudget plan context (some switch_endpoint) evidence =
      prepared_or_not plan context switch_endpoint evidence
        (action_for switch_endpoint evidence plan context)

  module _ {Response Receipt Handle : Type ℓ} where
    observe_and_route-WithinBudget :
        (plan : FailoverPlan Change) (context : RetryContext Datetime)
        (outcome : PortOutcome Response Receipt Handle)
        → Ensures (WithinBudget plan context) (observe_and_route outcome plan context)
    unfolding observe_and_route route_outcome route_rejected
    observe_and_route-WithinBudget plan context (completed_outcome response) =
        Ensures-next _ _ λ _. new_decision-WithinBudget plan context _ (λ e. cc)
    observe_and_route-WithinBudget plan context (rejected evidence) = Ensures-next _ _ λ _.
        Ensures-next _ _ λ _.
          Ensures-next _ _ λ strategy. route_strategy-WithinBudget plan context strategy evidence
    observe_and_route-WithinBudget plan context (in_progress receipt) =
        Ensures-next _ _ λ _. new_decision-WithinBudget plan context _ (λ e. cc)
    observe_and_route-WithinBudget plan context (unknown handle evidence) =
        Ensures-next _ _ λ _. new_decision-WithinBudget plan context _ (λ e. cc)

module _ {ℓ} {Datetime : Type ℓ} (is_aware : Datetime → Bool) where
  -- The same number of attempts.
  abbrev SameOrdinal : RetryContext Datetime → RetryContext Datetime → Type 0
  SameOrdinal context later = later.attempt_ordinal ≡ context.attempt_ordinal

  pub new_context_same :
      (context : RetryContext Datetime)
      → Ensures (λ later. later ≡ context) (new_context is_aware context)
  unfolding new_context
  new_context_same context = Ensures-next _ _ λ _.
      Ensures-next _ _
        λ _. Ensures-next _ _ λ _. Ensures-next _ _ λ _. Ensures-next _ _ λ _. Ensures-ok _ refl

  note_failure-SameOrdinal :
      (evidence : Option FailureEvidence) (context : RetryContext Datetime)
      → Ensures (SameOrdinal context) (note_failure is_aware evidence context)
  unfolding note_failure
  note_failure-SameOrdinal none context = Ensures-ok _ refl
  note_failure-SameOrdinal (some evidence) context = Ensures-next _ _ λ signal. record {
    at = λ later e.
        ap (λ (c : RetryContext Datetime). c.attempt_ordinal) ((new_context_same _).at later e);
  }

  next_context-ordinal :
      {Change : Type ℓ} (context : RetryContext Datetime) (strategy : FailureStrategy)
      (action : PreparationAction Change)
      → Ensures
          (λ later. later.attempt_ordinal ≡ context.attempt_ordinal + 1)
          (next_context is_aware context strategy action)
  unfolding next_context with_strategy_use
  next_context-ordinal context strategy action = Ensures-bind _ _ λ used made. record {
    at = λ later e.
        ap (λ (c : RetryContext Datetime). c.attempt_ordinal) ((new_context_same _).at later e)
        ∙ ap (λ (c : RetryContext Datetime). c.attempt_ordinal + 1)
            ((new_context_same _).at used made);
  }

module _ {ℓ} {Request Response Receipt Handle Change Datetime : Type ℓ} (is_aware : Datetime → Bool)
    (prepare_next : Request → PreparationAction Change → Result Request)
    (invoke_once : ℕ → Request → Result (PortOutcome Response Receipt Handle))
    (plan : FailoverPlan Change) where
  -- A prepared attempt is the next one, and within the budget.
  abbrev Progress : ℕ → Prepared Request Response Receipt Handle Change Datetime → Type 0
  Progress ordinal (failure message) = Unit
  Progress ordinal (finish result) = Unit
  Progress ordinal (prepare result request later) =
      (later.attempt_ordinal ≡ ordinal + 1) × (ordinal + 1 < plan.profile.budget.max_wire_attempts)

  new_result_same :
      (r : FailoverResult Request Response Receipt Handle Change Datetime)
      → Ensures (λ s. s ≡ r) (new_result r)
  unfolding new_result
  new_result_same r = Ensures-next _ _ λ _. Ensures-next _ _ λ _. Ensures-ok _ refl

  conclude-Progress :
      (ordinal : ℕ) (r : FailoverResult Request Response Receipt Handle Change Datetime)
      (route : ObservationRoute)
      → r.context.attempt_ordinal ≡ ordinal
      → (route ≡ prepare_route → ordinal + 1 < plan.profile.budget.max_wire_attempts)
      → Ensures (Progress ordinal) (conclude is_aware prepare_next invoke_once plan r route)
  unfolding conclude prepare_again
  conclude-Progress ordinal r abort_route unchanged within = Ensures-ok _ tt
  conclude-Progress ordinal r completed_route unchanged within =
      Ensures-next _ _ λ _. Ensures-next _ _ λ _. Ensures-ok _ tt
  conclude-Progress ordinal r return_route unchanged within =
      Ensures-next _ _ λ _. Ensures-next _ _ λ _. Ensures-ok _ tt
  conclude-Progress ordinal r prepare_route unchanged within = Ensures-bind _ _ λ admitted made.
      Ensures-next _ _ λ parts. Ensures-next _ _ λ _. Ensures-bind _ _ λ later moved.
        Ensures-next _ _ λ _. Ensures-ok _ (
          (next_context-ordinal is_aware admitted.context parts.0 parts.1).at later moved
              ∙ ap
                  (λ (x : FailoverResult Request Response Receipt Handle Change Datetime).
                    x.context.attempt_ordinal + 1)
                  ((new_result_same r).at admitted made)
              ∙ ap (λ n. n + 1) unchanged,
          within refl,
        )

  prepare_next_attempt-Progress :
      (request : Request) (context : RetryContext Datetime)
      (outcome : PortOutcome Response Receipt Handle)
      → Ensures
          (Progress context.attempt_ordinal)
          (prepare_next_attempt is_aware prepare_next invoke_once plan request context outcome)
  unfolding prepare_next_attempt
  prepare_next_attempt-Progress request context outcome = Ensures-next _ _ λ _.
      Ensures-bind _ _ λ decision routed. Ensures-bind _ _ λ noted unchanged.
        conclude-Progress context.attempt_ordinal _ decision.route
          ((note_failure-SameOrdinal is_aware _ context).at noted unchanged)
          ((observe_and_route-WithinBudget plan context outcome).at decision routed)

  attempts_left :
      (rounds n : ℕ) (request : Request) (context : RetryContext Datetime)
      → context.attempt_ordinal < plan.profile.budget.max_wire_attempts
      → plan.profile.budget.max_wire_attempts ≤ context.attempt_ordinal + rounds
      → attempts is_aware prepare_next invoke_once plan rounds n request context ≢ none
  unfolding attempts
  attempts_left zero n request context below enough = λ e. omega arith
  attempts_left (suc rounds) n request context below enough =
      go (λ next_request later. attempts_left rounds (n + 1) next_request later) _ refl
    where
      step : Result (Prepared Request Response Receipt Handle Change Datetime)
      step = do
        outcome ← invoke is_aware prepare_next invoke_once plan n request context
        prepare_next_attempt is_aware prepare_next invoke_once plan request context outcome

      progress : Ensures (Progress context.attempt_ordinal) step
      progress = Ensures-next _ _ λ outcome. prepare_next_attempt-Progress request context outcome

      go :
          ((next_request : Request) (later : RetryContext Datetime)
            → later.attempt_ordinal < plan.profile.budget.max_wire_attempts
            → plan.profile.budget.max_wire_attempts ≤ later.attempt_ordinal + rounds
            → attempts is_aware prepare_next invoke_once plan rounds (n + 1) next_request later
              ≢ none)
          → (r : Result (Prepared Request Response Receipt Handle Change Datetime)) → step ≡ r
          → elim r
              as (λ x. Option (Result (Prepared Request Response Receipt Handle Change Datetime))) [
                | err e ↦ some (err e)
                | ok (failure message) ↦ some (ok (failure message))
                | ok (finish result) ↦ some (ok (finish result))
                | ok (prepare result next_request later) ↦
                    attempts is_aware prepare_next invoke_once plan rounds
                      (n + 1)
                      next_request
                      later
              ]
            ≢ none
      go again (err e) h = λ k. cc
      go again (ok (failure message)) h = λ k. cc
      go again (ok (finish result)) h = λ k. cc
      go again (ok (prepare result next_request later)) h =
          let (moved, within) = progress.at _ h in
          again next_request later (omega arith) (omega arith)

  -- Under an admitted budget an operation that starts anew is over after at most
  -- `max_wire_attempts` invocations of its Port, whatever the Port and the preparation answer: its
  -- cycle of attempts does not run out of that many rounds.
  pub attempts_end :
      (budget : RetryBudget) (operation_id : String) (request : Request)
      (context : RetryContext Datetime)
      → new_budget plan.profile.budget ≡ ok budget
      → observe_call is_aware prepare_next invoke_once plan operation_id ≡ ok context
      → attempts is_aware prepare_next invoke_once plan plan.profile.budget.max_wire_attempts 0
          request context
        ≢ none
  unfolding observe_call new_budget
  attempts_end budget operation_id request context admitted started =
      let (made, built, h1) = >>=-eq-ok _ _ started in
      let (_, h2) = >>-eq-ok _ _ h1 in
      let fresh : made ≡ context = cc in
      let zeroth : context.attempt_ordinal ≡ 0 =
        ap (λ (c : RetryContext Datetime). c.attempt_ordinal)
          (sym fresh ∙ (new_context_same is_aware _).at made built) in
      let some_attempt : 1 ≤ plan.profile.budget.max_wire_attempts =
        ltb→le _ _ (raise_if-eq-ok _ _ (>>-eq-ok _ _ admitted).0) in
      attempts_left plan.profile.budget.max_wire_attempts 0 request context (omega arith)
        (omega arith)
