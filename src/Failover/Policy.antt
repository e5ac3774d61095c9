-- ===== src/Failover/Policy.antt =====
-- mote-kernel/src/mote_kernel/failover/policy.py: the fixed table of strategies, the backoff, and the
-- routing of one Port outcome.
use motev.Base.{
  Bool, Eq, List, Option, Result, String, [], failover_error, false, find_first, if◌then◌else◌,
  is_none, is_some, leb, list_eq, ltb, nat_eq, nat_ord, none, not, ok, option_eq, raise_if, some,
  string_eq, string_ord, suc, true, zero, ℕ, ◌&&◌, ◌*◌, ◌+◌, ◌/=◌, ◌==◌, ◌>>=◌, ◌>>◌, ◌||◌, ◌∷◌,
}
use motev.Failover.Contract.{
  FailureEvidence, FailureSignal, FailureStrategy, PortOutcome, PreparationAction, Seconds,
  abort_operation, completed_outcome, evidence_signal, in_progress, refresh_action,
  refresh_credential, rejected, return_to_model, rotate_action, rotate_credential, signal_eq,
  strategy_eq, switch_action, switch_endpoint, transform_action, transform_request, unknown, wait,
  wait_action,
}
use motev.Failover.Plan.{FailoverPlan, RetryContext, max_uses_for, mode_eq, uses_for}

pub data ObservationRoute : Type 0 where
  completed_route prepare_route return_route abort_route : ObservationRoute

unfoldable pub route_discrete : Discrete ObservationRoute
route_discrete = hlevel

instance abbrev pub route_eq : Eq ObservationRoute
route_eq = record { dec = route_discrete }

pub record FailoverDecision {ℓ} (Change : Type ℓ) : Type ℓ where
  pub route : ObservationRoute
  pub strategy : Option FailureStrategy
  pub preparation : Option (PreparationAction Change)
  pub evidence : Option FailureEvidence
  pub budget_exhausted : Bool

-- `self.strategy not in (WAIT, TRANSFORM_REQUEST, ...)`, negated.
unfoldable pub is_preparation_strategy : Option FailureStrategy → Bool
is_preparation_strategy none = false
is_preparation_strategy (some return_to_model) = false
is_preparation_strategy (some abort_operation) = false
is_preparation_strategy (some strategy) = true

-- The checks of `FailoverDecision.__post_init__` that depend on the route.
unfoldable pub check_decision {ℓ} :
    {Change : Type ℓ} → FailoverDecision Change → ObservationRoute → Result (Unit {0})
unfolding is_preparation_strategy
check_decision decision completed_route =
    raise_if
      (is_some decision.strategy || is_some decision.preparation || is_some decision.evidence)
      (failover_error "completed decisions cannot carry failure data")
check_decision decision prepare_route = do
  raise_if (not (is_preparation_strategy decision.strategy))
      (failover_error "prepare decisions require a preparation strategy")
  raise_if (is_none decision.preparation)
      (failover_error "prepare decisions require a preparation action")
check_decision decision abort_route = do
  raise_if (decision.strategy /= some abort_operation)
      (failover_error "abort decisions require the abort strategy")
  raise_if (is_some decision.preparation)
      (failover_error "abort decisions cannot carry preparation")
check_decision decision return_route =
    raise_if (is_some decision.preparation)
      (failover_error "terminal model decisions cannot carry preparation")

-- The checks of `FailoverDecision.__post_init__`.
unfoldable pub new_decision {ℓ} :
    {Change : Type ℓ} → FailoverDecision Change → Result (FailoverDecision Change)
unfolding check_decision route_discrete
new_decision decision = do
  raise_if (decision.budget_exhausted && decision.route /= return_route)
      (failover_error "an exhausted budget must return to the model")
  check_decision decision decision.route
  ok decision

-- `_FailureRule`
pub record FailureRule : Type 0 where
  pub signal : FailureSignal
  pub strategy : FailureStrategy

abbrev pub rule : ℕ → String → FailureStrategy → FailureRule
rule status hint strategy = record {
  signal = record { status_code = some status; error_hint = some hint };
  strategy = strategy;
}

-- `_FIXED_RULES`
unfoldable pub fixed_rules : List FailureRule
fixed_rules =
    rule 429 "rate_limited" wait
    ∷ rule 429 "quota_exceeded" wait
    ∷ rule 401 "token_expired" refresh_credential
    ∷ rule 401 "invalid_credential" rotate_credential
    ∷ rule 401 "invalid_api_key" rotate_credential
    ∷ rule 503 "service_unavailable" switch_endpoint
    ∷ rule 503 "overloaded" switch_endpoint
    ∷ rule 408 "request_timeout" wait
    ∷ rule 504 "request_timeout" wait
    ∷ rule 400 "bad_payload" transform_request
    ∷ rule 403 "forbidden" return_to_model
    ∷ rule 409 "conflict" abort_operation
    ∷ []

-- The strategy of the first rule for a signal.
unfoldable pub rule_for : FailureSignal → Option FailureStrategy
unfolding find_first fixed_rules
rule_for signal = elim (find_first (λ (r : FailureRule). r.signal == signal) fixed_rules) [
  | none ↦ none
  | some found ↦ some found.strategy
]

-- `_fixed_strategy`
unfoldable pub fixed_strategy : FailureEvidence → Result (Option FailureStrategy)
unfolding evidence_signal rule_for
fixed_strategy evidence = do signal ← evidence_signal evidence; ok (rule_for signal)

abbrev pub min : ℕ → ℕ → ℕ
min a b = if ltb b a then b else a

abbrev pub max : ℕ → ℕ → ℕ
max a b = if ltb a b then b else a

-- The loop of `_backoff_seconds`.
unfoldable pub backoff_loop : ℕ → Seconds → Seconds → Seconds
backoff_loop zero limit delay = delay
backoff_loop (suc rounds) limit delay = backoff_loop rounds limit (min limit (delay * 2))

module _ {ℓ} {Change : Type ℓ} where
  abbrev pub return_decision :
      Option FailureStrategy → Option FailureEvidence → Bool → FailoverDecision Change
  return_decision strategy evidence budget_exhausted = record {
    route = return_route;
    strategy = strategy;
    preparation = none;
    evidence = evidence;
    budget_exhausted = budget_exhausted;
  }

  -- `route_rejected` from the action on.
  unfoldable pub route_action :
      FailureStrategy
      → FailureEvidence
      → Option (PreparationAction Change)
      → Result (FailoverDecision Change)
  unfolding new_decision
  route_action strategy evidence none =
      new_decision (return_decision (some strategy) (some evidence) false)
  route_action strategy evidence (some action) = new_decision (record {
    route = prepare_route;
    strategy = some strategy;
    preparation = some action;
    evidence = some evidence;
    budget_exhausted = false;
  })

module _ {ℓ} {Change Datetime : Type ℓ} where
  -- `_backoff_seconds`
  unfoldable pub backoff_seconds :
      FailoverPlan Change → RetryContext Datetime → FailureEvidence → Seconds
  unfolding backoff_loop
  backoff_seconds plan context evidence =
      let timing = plan.profile.timing in
      let delay = min timing.max_backoff_seconds (
        backoff_loop (min context.attempt_ordinal 1024) timing.max_backoff_seconds
          timing.base_backoff_seconds) in
      elim evidence.retry_after_seconds [ none ↦ delay | some after ↦ max delay after ]

  -- `_preparation_for`
  unfoldable pub preparation_for :
      FailureStrategy
      → FailureEvidence
      → FailoverPlan Change
      → RetryContext Datetime
      → PreparationAction Change
  unfolding backoff_seconds
  preparation_for wait evidence plan context = wait_action (backoff_seconds plan context evidence)
  preparation_for refresh_credential evidence plan context = refresh_action
  preparation_for rotate_credential evidence plan context = rotate_action
  preparation_for strategy evidence plan context = switch_action

  -- The action of a strategy that prepares a next attempt, where there is one.
  unfoldable pub action_for :
      FailureStrategy
      → FailureEvidence
      → FailoverPlan Change
      → RetryContext Datetime
      → Option (PreparationAction Change)
  unfolding preparation_for
  action_for transform_request evidence plan context = elim plan.profile.request_transform [
    | none ↦ none
    | some change ↦ some (transform_action change)
  ]
  action_for strategy evidence plan context = some (preparation_for strategy evidence plan context)

  -- The test of the two budgets in `route_rejected`.
  unfoldable pub is_exhausted : FailureStrategy → FailoverPlan Change → RetryContext Datetime → Bool
  unfolding uses_for max_uses_for
  is_exhausted strategy plan context =
      let budget = plan.profile.budget in
      leb (max_uses_for budget strategy) (uses_for context strategy)
      || leb budget.max_wire_attempts (context.attempt_ordinal + 1)

  -- `route_rejected` once the strategy is known.
  unfoldable pub route_strategy :
      Option FailureStrategy
      → FailureEvidence
      → FailoverPlan Change
      → RetryContext Datetime
      → Result (FailoverDecision Change)
  unfolding new_decision is_exhausted action_for route_action
  route_strategy none evidence plan context =
      new_decision (return_decision none (some evidence) false)
  route_strategy (some return_to_model) evidence plan context =
      new_decision (return_decision (some return_to_model) (some evidence) false)
  route_strategy (some abort_operation) evidence plan context = new_decision (record {
    route = abort_route;
    strategy = some abort_operation;
    preparation = none;
    evidence = some evidence;
    budget_exhausted = false;
  })
  route_strategy (some strategy) evidence plan context =
      if is_exhausted strategy plan context
      then new_decision (return_decision (some strategy) (some evidence) true)
      else route_action strategy evidence (action_for strategy evidence plan context)

  unfoldable pub route_rejected :
      FailureEvidence
      → FailoverPlan Change
      → RetryContext Datetime
      → Result (FailoverDecision Change)
  unfolding fixed_strategy route_strategy
  route_rejected evidence plan context = do
    raise_if (context.plan_revision /= plan.plan_revision)
        (failover_error "rejected routing requires the context's captured plan revision")
    strategy ← fixed_strategy evidence
    route_strategy strategy evidence plan context

module _ {ℓ} {Response Receipt Handle Change Datetime : Type ℓ} where
  -- The routing of an outcome under the right plan revision.
  unfoldable pub route_outcome :
      PortOutcome Response Receipt Handle
      → FailoverPlan Change
      → RetryContext Datetime
      → Result (FailoverDecision Change)
  unfolding new_decision route_rejected
  route_outcome (completed_outcome response) plan context = new_decision (record {
    route = completed_route;
    strategy = none;
    preparation = none;
    evidence = none;
    budget_exhausted = false;
  })
  route_outcome (rejected evidence) plan context = route_rejected evidence plan context
  route_outcome (in_progress receipt) plan context = new_decision (record {
    route = return_route;
    strategy = none;
    preparation = none;
    evidence = none;
    budget_exhausted = false;
  })
  route_outcome (unknown handle evidence) plan context = new_decision (record {
    route = return_route;
    strategy = none;
    preparation = none;
    evidence = some evidence;
    budget_exhausted = false;
  })

  unfoldable pub observe_and_route :
      PortOutcome Response Receipt Handle
      → FailoverPlan Change
      → RetryContext Datetime
      → Result (FailoverDecision Change)
  unfolding route_outcome
  observe_and_route outcome plan context = do
    raise_if (context.plan_revision /= plan.plan_revision)
        (failover_error "observation requires the context's captured plan revision")
    route_outcome outcome plan context
