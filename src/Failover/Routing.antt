-- ===== src/Failover/Routing.antt =====
-- policy.py: what `route_rejected` decides for an admitted rejection.
pub mod Rules
use motev.Base.{
  Bool, Bool-cases, In, Option, Result, arith, failover_error, false, if◌then◌else◌, inl, inr, leb,
  leb→le, list_eq, nat_eq, nat_ord, none, ok, option_discrete, option_eq, pair_eq, raise_if_ok,
  refl, some, string_eq, string_ord, true, ◌+◌, ◌/=◌, ◌<◌, ◌>>=◌, ◌↔◌, ◌≡◌, ◌≤◌, ◌⊎◌,
}
use motev.Failover.Contract.{
  FailureEvidence, FailureSignal, FailureStrategy, PreparationAction, abort_operation,
  evidence_signal, refresh_credential, return_to_model, rotate_credential, signal_eq,
  strategy_discrete, strategy_eq, switch_endpoint, transform_request, wait,
}
use motev.Failover.Plan.{FailoverPlan, RetryContext, max_uses_for, mode_eq, uses_for}
use motev.Failover.Routing.Rules.{
  Available, Prepares, Retries, action_for-Available, available, missing, rule_for_lem, signals_of,
}
use motev.Failover.Policy.{
  FailoverDecision, ObservationRoute, abort_route, action_for, check_decision, fixed_strategy,
  is_exhausted, is_preparation_strategy, new_decision, prepare_route, return_decision, return_route,
  route_action, route_discrete, route_eq, route_rejected, route_strategy, rule_for,
}

retried : (s : FailureStrategy) → Retries s → is_preparation_strategy (some s) ≡ true
unfolding is_preparation_strategy
retried wait r = refl
retried transform_request r = refl
retried refresh_credential r = refl
retried rotate_credential r = refl
retried switch_endpoint r = refl
retried return_to_model r = absurd (r.0 refl)
retried abort_operation r = absurd (r.1 refl)

module _ {ℓ} {Change : Type ℓ} where
  -- The route of a decision, its action, and whether it reports a spent budget.
  abbrev pub Carries :
      FailoverDecision Change → ObservationRoute → Option (PreparationAction Change) → Bool → Type ℓ
  Carries d route preparation budget_exhausted =
      (d.route ≡ route) × (d.preparation ≡ preparation) × (d.budget_exhausted ≡ budget_exhausted)

module _ {ℓ} {Change Datetime : Type ℓ} where
  -- What a decision has to be, by the strategy of the signal, the budgets and the profile.
  pub data Routed (plan : FailoverPlan Change) (context : RetryContext Datetime)
      (evidence : FailureEvidence) : Option FailureStrategy → FailoverDecision Change → Type ℓ where
    unknown_signal :
        {d : FailoverDecision Change}
        → Carries d return_route none false
        → Routed plan context evidence none d
    returned :
        {d : FailoverDecision Change}
        → Carries d return_route none false
        → Routed plan context evidence (some return_to_model) d
    aborted_by_rule :
        {d : FailoverDecision Change}
        → Carries d abort_route none false
        → Routed plan context evidence (some abort_operation) d
    spent :
        {d : FailoverDecision Change} {s : FailureStrategy}
        → Retries s
        → (max_uses_for plan.profile.budget s ≤ uses_for context s)
          ⊎ (plan.profile.budget.max_wire_attempts ≤ context.attempt_ordinal + 1)
        → Carries d return_route none true
        → Routed plan context evidence (some s) d
    untransformed :
        {d : FailoverDecision Change}
        → plan.profile.request_transform ≡ none
        → uses_for context transform_request < max_uses_for plan.profile.budget transform_request
        → context.attempt_ordinal + 1 < plan.profile.budget.max_wire_attempts
        → Carries d return_route none false
        → Routed plan context evidence (some transform_request) d
    prepared :
        {d : FailoverDecision Change} {s : FailureStrategy} (action : PreparationAction Change)
        → Prepares plan context evidence s action
        → uses_for context s < max_uses_for plan.profile.budget s
        → context.attempt_ordinal + 1 < plan.profile.budget.max_wire_attempts
        → Carries d prepare_route (some action) false
        → Routed plan context evidence (some s) d

  -- A decision for a rejection, which carries its strategy and its evidence.
  abbrev pub Decides :
      FailoverPlan Change
      → RetryContext Datetime
      → FailureEvidence
      → Option FailureStrategy
      → Result (FailoverDecision Change)
      → Type ℓ
  Decides plan context evidence strategy r =
      (d : FailoverDecision Change) × (r ≡ ok d)
      × (d.strategy ≡ strategy)
      × (d.evidence ≡ some evidence)
      × Routed plan context evidence strategy d

  exhausted_cases :
      (plan : FailoverPlan Change) (context : RetryContext Datetime) (s : FailureStrategy)
      → is_exhausted s plan context ≡ true
      → (max_uses_for plan.profile.budget s ≤ uses_for context s)
        ⊎ (plan.profile.budget.max_wire_attempts ≤ context.attempt_ordinal + 1)
  unfolding is_exhausted
  exhausted_cases plan context s h =
      elim (Bool-cases (leb (max_uses_for plan.profile.budget s) (uses_for context s))) [
        | inl used ↦ inl (leb→le _ _ used)
        | inr fresh ↦ inr (leb→le _ _ (ground (arith, h, fresh)))
      ]

  not_exhausted :
      (plan : FailoverPlan Change) (context : RetryContext Datetime) (s : FailureStrategy)
      → is_exhausted s plan context ≡ false
      → (uses_for context s < max_uses_for plan.profile.budget s)
        × (context.attempt_ordinal + 1 < plan.profile.budget.max_wire_attempts)
  unfolding is_exhausted
  not_exhausted plan context s h = (ground arith, ground arith)

  -- Within the budgets the action decides.
  action-Decides :
      (plan : FailoverPlan Change) (context : RetryContext Datetime) (evidence : FailureEvidence)
      (s : FailureStrategy) (action : Option (PreparationAction Change))
      → Retries s
      → (uses_for context s < max_uses_for plan.profile.budget s)
        × (context.attempt_ordinal + 1 < plan.profile.budget.max_wire_attempts)
      → Available plan context evidence s action
      → Decides plan context evidence (some s) (route_action s evidence action)
  unfolding new_decision check_decision route_action route_discrete ◌>>=◌
  action-Decides plan context evidence s action retries left (available a p) =
      rw (retried s retries) (
        record {
          route = prepare_route;
          strategy = some s;
          preparation = some a;
          evidence = some evidence;
          budget_exhausted = false;
        },
        refl,
        refl,
        refl,
        prepared a p left.0 left.1 (refl, refl, refl),
      )
  action-Decides plan context evidence s action retries left (missing e) = (
    return_decision (some transform_request) (some evidence) false,
    refl,
    refl,
    refl,
    untransformed e left.0 left.1 (refl, refl, refl),
  )

  retry-Decides :
      (plan : FailoverPlan Change) (context : RetryContext Datetime) (evidence : FailureEvidence)
      (s : FailureStrategy)
      → Retries s
      → Decides plan context evidence (some s) (
          if is_exhausted s plan context
          then new_decision (return_decision (some s) (some evidence) true)
          else route_action s evidence (action_for s evidence plan context))
  unfolding new_decision check_decision route_discrete ◌>>=◌
  retry-Decides plan context evidence s retries = elim (Bool-cases (is_exhausted s plan context)) [
    | inl all_spent ↦ rw all_spent (
      return_decision (some s) (some evidence) true,
      refl,
      refl,
      refl,
      spent retries (exhausted_cases plan context s all_spent) (refl, refl, refl),
    )
    | inr left ↦ rw left (
        action-Decides plan context evidence s (action_for s evidence plan context) retries
          (not_exhausted plan context s left)
          (action_for-Available plan context evidence s retries))
  ]

  route_strategy-Decides :
      (plan : FailoverPlan Change) (context : RetryContext Datetime) (evidence : FailureEvidence)
      (strategy : Option FailureStrategy)
      → Decides plan context evidence strategy (route_strategy strategy evidence plan context)
  unfolding route_strategy new_decision check_decision route_discrete strategy_discrete ◌>>=◌
      option_discrete
  route_strategy-Decides plan context evidence none = (
    return_decision none (some evidence) false,
    refl,
    refl,
    refl,
    unknown_signal (refl, refl, refl),
  )
  route_strategy-Decides plan context evidence (some return_to_model) = (
    return_decision (some return_to_model) (some evidence) false,
    refl,
    refl,
    refl,
    returned (refl, refl, refl),
  )
  route_strategy-Decides plan context evidence (some abort_operation) =
      (_, refl, refl, refl, aborted_by_rule (refl, refl, refl))
  route_strategy-Decides plan context evidence (some wait) =
      retry-Decides plan context evidence wait (λ e. cc, λ e. cc)
  route_strategy-Decides plan context evidence (some refresh_credential) =
      retry-Decides plan context evidence refresh_credential (λ e. cc, λ e. cc)
  route_strategy-Decides plan context evidence (some rotate_credential) =
      retry-Decides plan context evidence rotate_credential (λ e. cc, λ e. cc)
  route_strategy-Decides plan context evidence (some switch_endpoint) =
      retry-Decides plan context evidence switch_endpoint (λ e. cc, λ e. cc)
  route_strategy-Decides plan context evidence (some transform_request) =
      retry-Decides plan context evidence transform_request (λ e. cc, λ e. cc)

  -- Under the plan revision that its context has captured, a rejection with an admitted signal is
  -- always decided, never refused, by the one strategy that its signal calls for, if any. With no
  -- strategy, or the one to return, the decision returns to the model; with the one to abort, it
  -- aborts. For every other strategy it returns to the model with the budget spent once the uses
  -- or the wire attempts are; while both budgets last, it prepares the action of the strategy (a
  -- wait for the backoff, the profile's transformation, a refresh, a rotation or a switch), and
  -- returns to the model if the profile has no transformation and the strategy asks for one.
  pub route_rejected-Decides :
      (plan : FailoverPlan Change) (context : RetryContext Datetime) (evidence : FailureEvidence)
      (signal : FailureSignal)
      → context.plan_revision ≡ plan.plan_revision
      → evidence_signal evidence ≡ ok signal
      → (strategy : Option FailureStrategy) × ((s : FailureStrategy)
          → (strategy ≡ some s) ↔ In signal (signals_of s))
        × Decides plan context evidence strategy (route_rejected evidence plan context)
  unfolding route_rejected fixed_strategy ◌>>=◌
  route_rejected-Decides plan context evidence signal captured admitted = (
    rule_for signal,
    rule_for_lem signal,
    rw
        (
          raise_if_ok _
              (failover_error "rejected routing requires the context's captured plan revision")
              (no_ne captured),
          admitted,
        )
        (route_strategy-Decides plan context evidence (rule_for signal)),
  )
    where
      no_ne :
          context.plan_revision ≡ plan.plan_revision
          → (context.plan_revision /= plan.plan_revision) ≡ false
      no_ne e = ground arith
