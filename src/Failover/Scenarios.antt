-- ===== src/Failover/Scenarios.antt =====
-- A Port that always answers "rate limited", under a budget of three attempts, as data for the tests;
-- and the theorems on the failover, applied to it.
use motev.Base.{
  Bool, In, Option, Result, String, [], contains, find_first, is_distinct, list_discrete, list_eq,
  nat_eq, nat_ord, none, ok, option_discrete, option_eq, pair_eq, refl, select, set_of, some,
  string_discrete, string_eq, string_ord, true, ℕ, ℕ_discrete, ◌*◌, ◌>>=◌, ◌↔◌, ◌∷◌, ◌≡◌, ◌≢◌,
}
use motev.Failover.Assembly.{
  attempts, check_frame, conclude, finish, new_result, note_failure, observe_call,
  prepare_next_attempt,
}
use motev.Failover.Attempts.{attempts_end}
use motev.Failover.Backoff.{backoff_seconds-closed, power_of_two}
use motev.Failover.Contract.{
  FailureEvidence, FailureSignal, FailureStrategy, PortOutcome, PreparationAction, evidence_signal,
  is_http_status, is_safe_text, new_signal, rate_limited, rejected, require_safe, signal_discrete,
  signal_eq, strategy_discrete, strategy_eq, validate_error_hint, wait,
}
use motev.Failover.Plan.{
  FailoverPlan, RetryContext, add_use, given_or, max_uses_for, mode_eq, new_budget, new_context,
  pure, usage_of, uses_for, with_strategy_use,
}
use motev.Failover.Policy.{
  backoff_seconds, check_decision, fixed_rules, fixed_strategy, is_exhausted, max, min,
  new_decision, observe_and_route, return_decision, route_discrete, route_eq, route_outcome,
  route_rejected, route_strategy, rule_for,
}
use motev.Failover.Routing.{Decides, route_rejected-Decides}
use motev.Failover.Routing.Rules.{signals_of}
use motev.Failover.Usage.{Counts, with_strategy_use-Counts}
use motev.GraphState.Identity.{
  activation_eq, is_canonical_identity, join_eq, occurrence_eq, occurrence_ord, reference_eq,
}
use motev.GraphState.Identity.Text.{is_space, lstrip, strip}

abbrev plan : FailoverPlan String
plan = record {
  plan_revision = 1;
  port_id = "port";
  profile = record {
    profile_id = "default";
    budget = record {
      max_wire_attempts = 3;
      hard_max_wire_attempts = 10;
      default_max_strategy_uses = 5;
      strategy_limits = [];
    };
    timing = record {
      base_backoff_seconds = 2;
      max_backoff_seconds = 60;
      attempt_timeout_seconds = 30;
      total_deadline_seconds = 300;
    };
    semantics = pure;
    request_transform = none;
  };
}

abbrev limited : FailureEvidence
limited = record {
  category = rate_limited;
  status_code = some 429;
  error_hint = some "rate_limited";
  provider_code = none;
  message = none;
  retry_after_seconds = some 5;
}

abbrev always_aware : ℕ → Bool
always_aware moment = true

abbrev same_request : String → PreparationAction String → Result String
same_request request action = ok request

abbrev always_limited : ℕ → String → Result (PortOutcome String String String)
always_limited n request = ok (rejected limited)

abbrev fresh_context : RetryContext ℕ
fresh_context = record {
  operation_id = "op";
  plan_revision = 1;
  request_version = 1;
  attempt_ordinal = 0;
  endpoint_cursor = 0;
  credential_cursor = 0;
  strategy_usages = [];
  last_failure = none;
  last_signal = none;
  last_strategy = none;
  wait_until = none;
}

abbrev waited_context : RetryContext ℕ
waited_context = record fresh_context {
  strategy_usages = record { strategy = wait; used = 1 } ∷ [];
  last_strategy = some wait;
}

budget_admitted : new_budget plan.profile.budget ≡ ok plan.profile.budget
unfolding new_budget is_distinct set_of ℕ_discrete ◌>>=◌
budget_admitted = refl

call_observed : observe_call always_aware same_request always_limited plan "op" ≡ ok fresh_context
unfolding observe_call new_context is_canonical_identity is_distinct set_of strip lstrip is_space
    string_discrete list_discrete ℕ_discrete ◌>>=◌
call_observed = refl

use_recorded : with_strategy_use always_aware fresh_context wait ≡ ok waited_context
unfolding with_strategy_use add_use usage_of new_context is_canonical_identity is_distinct set_of
    strip lstrip is_space string_discrete list_discrete ℕ_discrete strategy_discrete select
    find_first contains ◌>>=◌
use_recorded = refl

-- The third rejection leaves no attempt: the operation is over and its budget exhausted.
rounds_used :
    prepare_next_attempt always_aware same_request always_limited plan "request"
      (record waited_context { attempt_ordinal = 2 })
      (rejected limited)
    ≡ ok (
        finish (record {
          request = "request";
          context = record waited_context {
            attempt_ordinal = 2;
            last_failure = some rate_limited;
            last_signal =
                some (record { status_code = some 429; error_hint = some "rate_limited" });
          };
          outcome = rejected limited;
          decision = return_decision (some wait) (some limited) true;
        }))
unfolding prepare_next_attempt observe_and_route route_outcome route_rejected route_strategy
    fixed_strategy rule_for fixed_rules evidence_signal new_signal is_http_status
    validate_error_hint require_safe is_safe_text is_exhausted uses_for usage_of max_uses_for
    new_decision check_decision note_failure new_context conclude new_result is_canonical_identity
    is_distinct set_of strip lstrip is_space string_discrete list_discrete option_discrete
    signal_discrete ℕ_discrete strategy_discrete route_discrete find_first contains ◌>>=◌
    check_frame
rounds_used = refl

attempts_end_example :
    attempts always_aware same_request always_limited plan 3 0 "request" fresh_context ≢ none
attempts_end_example =
    attempts_end always_aware same_request always_limited plan plan.profile.budget "op" "request"
      fresh_context budget_admitted call_observed

backoff_seconds-closed_example :
    backoff_seconds plan fresh_context limited
    ≡ max (min 60 (2 * power_of_two (min 0 1024))) (given_or (some 5) 0)
backoff_seconds-closed_example = backoff_seconds-closed plan fresh_context limited

with_strategy_use-Counts_example :
    Counts wait fresh_context.strategy_usages waited_context.strategy_usages
    × (waited_context ≡ record fresh_context {
      strategy_usages = waited_context.strategy_usages;
      last_strategy = some wait;
    })
with_strategy_use-Counts_example =
    with_strategy_use-Counts always_aware fresh_context waited_context wait use_recorded

abbrev limited_signal : FailureSignal
limited_signal = record { status_code = some 429; error_hint = some "rate_limited" }

limited_admitted : evidence_signal limited ≡ ok limited_signal
unfolding evidence_signal new_signal is_http_status validate_error_hint require_safe is_safe_text
    is_canonical_identity strip lstrip is_space string_discrete list_discrete ℕ_discrete contains
    ◌>>=◌
limited_admitted = refl

route_rejected-Decides_example :
    (strategy : Option FailureStrategy) × ((s : FailureStrategy)
      → (strategy ≡ some s) ↔ In limited_signal (signals_of s))
    × Decides plan fresh_context limited strategy (route_rejected limited plan fresh_context)
route_rejected-Decides_example =
    route_rejected-Decides plan fresh_context limited limited_signal refl limited_admitted
