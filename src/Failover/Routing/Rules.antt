-- ===== src/Failover/Routing/Rules.antt =====
-- policy.py: for which signals a strategy is fixed, and which action it prepares, apart from the
-- table and the branches of the code.
use motev.Base.{
  Bool, Bool-cases, Each, Each-In, In, List, Option, String, [], arith, eq_of_test, find_first,
  if◌then◌else◌, inl, inr, list_eq, nat_eq, nat_ord, none, option_discrete, option_eq, pair_eq,
  refl, some, string_discrete, string_eq, string_ord, subst, true, ℕ, ℕ_discrete, ◌*◌, ◌==◌, ◌↔◌,
  ◌∷◌, ◌≡◌, ◌≢◌,
}
use motev.Failover.Backoff.{backoff_seconds-closed, power_of_two}
use motev.Failover.Contract.{
  FailureEvidence, FailureSignal, FailureStrategy, PreparationAction, Seconds, abort_operation,
  refresh_action, refresh_credential, return_to_model, rotate_action, rotate_credential,
  signal_discrete, signal_eq, strategy_eq, switch_action, switch_endpoint, transform_action,
  transform_request, wait, wait_action,
}
use motev.Failover.Plan.{FailoverPlan, RetryContext, given_or, mode_eq}
use motev.Failover.Policy.{
  FailureRule, action_for, fixed_rules, max, min, preparation_for, route_eq, rule_for,
}

abbrev signal_of : ℕ → String → FailureSignal
signal_of status hint = record { status_code = some status; error_hint = some hint }

-- The signals that call for a strategy.
abbrev pub signals_of : FailureStrategy → List FailureSignal
signals_of wait =
    signal_of 408 "request_timeout"
    ∷ signal_of 429 "quota_exceeded"
    ∷ signal_of 429 "rate_limited"
    ∷ signal_of 504 "request_timeout"
    ∷ []
signals_of transform_request = signal_of 400 "bad_payload" ∷ []
signals_of refresh_credential = signal_of 401 "token_expired" ∷ []
signals_of rotate_credential =
    signal_of 401 "invalid_api_key" ∷ signal_of 401 "invalid_credential" ∷ []
signals_of switch_endpoint = signal_of 503 "overloaded" ∷ signal_of 503 "service_unavailable" ∷ []
signals_of return_to_model = signal_of 403 "forbidden" ∷ []
signals_of abort_operation = signal_of 409 "conflict" ∷ []

rules_listed : Each (λ (r : FailureRule). In r.signal (signals_of r.strategy)) fixed_rules
unfolding fixed_rules
rules_listed = ground arith

find_first-Each {κ} :
    {A : Type 0} (P : A → Type κ) (p : A → Bool) (xs : List A) (found : A)
    → Each P xs
    → find_first p xs ≡ some found
    → P found × (p found ≡ true)
unfolding find_first
find_first-Each P p [] found h e = cc
find_first-Each P p (x ∷ xs) found h e = elim (Bool-cases (p x)) [
  | inl holds ↦ (subst P (first holds e) h.0, subst (λ y. p y ≡ true) (first holds e) holds)
  | inr fails ↦ find_first-Each P p xs found h.1 (ground arith)
]
  where
    first : p x ≡ true → (if p x then some x else find_first p xs) ≡ some found → x ≡ found
    first holds e = ground arith

rule_for-listed :
    (signal : FailureSignal) (s : FailureStrategy)
    → rule_for signal ≡ some s
    → In signal (signals_of s)
unfolding rule_for
rule_for-listed signal s h =
    of_found (find_first (λ (r : FailureRule). r.signal == signal) fixed_rules) refl h
  where
    fixed : {t : FailureStrategy} → some t ≡ some s → t ≡ s
    fixed e = cc

    of_found :
        (found : Option FailureRule)
        → find_first (λ (r : FailureRule). r.signal == signal) fixed_rules ≡ found
        → elim found as (λ x. Option FailureStrategy) [ none ↦ none | some r ↦ some r.strategy ]
          ≡ some s
        → In signal (signals_of s)
    of_found none e h = cc
    of_found (some r) e h =
        let (listed, same) =
          find_first-Each (λ (r : FailureRule). In r.signal (signals_of r.strategy))
            (λ (r : FailureRule). r.signal == signal) fixed_rules r rules_listed e in
        subst (λ q. In q (signals_of s)) (eq_of_test r.signal signal same)
          (subst (λ t. In r.signal (signals_of t)) (fixed h) listed)

listed-rule_for : (s : FailureStrategy) → Each (λ signal. rule_for signal ≡ some s) (signals_of s)
unfolding rule_for fixed_rules find_first signal_discrete option_discrete ℕ_discrete string_discrete
listed-rule_for wait = (refl, (refl, (refl, (refl, tt))))
listed-rule_for transform_request = (refl, tt)
listed-rule_for refresh_credential = (refl, tt)
listed-rule_for rotate_credential = (refl, (refl, tt))
listed-rule_for switch_endpoint = (refl, (refl, tt))
listed-rule_for return_to_model = (refl, tt)
listed-rule_for abort_operation = (refl, tt)

-- The table fixes a strategy for its signals, and for no other.
pub rule_for_lem :
    (signal : FailureSignal) (s : FailureStrategy)
    → (rule_for signal ≡ some s) ↔ In signal (signals_of s)
rule_for_lem signal s =
    (rule_for-listed signal s, λ i. Each-In _ (signals_of s) signal (listed-rule_for s) i)

-- The strategies that prepare a next attempt.
abbrev pub Retries : FailureStrategy → Type 0
Retries s = (s ≢ return_to_model) × (s ≢ abort_operation)

module _ {ℓ} {Change Datetime : Type ℓ} where
  -- The action that a strategy prepares, where the profile has one.
  pub data Prepares (plan : FailoverPlan Change) (context : RetryContext Datetime)
      (evidence : FailureEvidence) : FailureStrategy → PreparationAction Change → Type ℓ where
    waiting :
        (seconds : Seconds)
        → seconds
          ≡ max
              (min plan.profile.timing.max_backoff_seconds (
                plan.profile.timing.base_backoff_seconds
                * power_of_two (min context.attempt_ordinal 1024)))
              (given_or evidence.retry_after_seconds 0)
        → Prepares plan context evidence wait (wait_action seconds)
    transforming :
        (change : Change)
        → plan.profile.request_transform ≡ some change
        → Prepares plan context evidence transform_request (transform_action change)
    refreshing : Prepares plan context evidence refresh_credential refresh_action
    rotating : Prepares plan context evidence rotate_credential rotate_action
    switching : Prepares plan context evidence switch_endpoint switch_action

  -- Whether there is an action: only a transformation may be missing.
  pub data Available (plan : FailoverPlan Change) (context : RetryContext Datetime)
      (evidence : FailureEvidence)
      : FailureStrategy → Option (PreparationAction Change) → Type ℓ where
    available :
        {s : FailureStrategy} (action : PreparationAction Change)
        → Prepares plan context evidence s action
        → Available plan context evidence s (some action)
    missing :
        plan.profile.request_transform ≡ none
        → Available plan context evidence transform_request none

  transform-Available :
      (plan : FailoverPlan Change) (context : RetryContext Datetime) (evidence : FailureEvidence)
      (t : Option Change)
      → plan.profile.request_transform ≡ t
      → Available plan context evidence transform_request
          (elim t [ none ↦ none | some change ↦ some (transform_action change) ])
  transform-Available plan context evidence none e = missing e
  transform-Available plan context evidence (some change) e = available _ (transforming change e)

  pub action_for-Available :
      (plan : FailoverPlan Change) (context : RetryContext Datetime) (evidence : FailureEvidence)
      (s : FailureStrategy)
      → Retries s
      → Available plan context evidence s (action_for s evidence plan context)
  unfolding action_for preparation_for
  action_for-Available plan context evidence wait r =
      available _ (waiting _ (backoff_seconds-closed plan context evidence))
  action_for-Available plan context evidence transform_request r =
      transform-Available plan context evidence plan.profile.request_transform refl
  action_for-Available plan context evidence refresh_credential r = available _ refreshing
  action_for-Available plan context evidence rotate_credential r = available _ rotating
  action_for-Available plan context evidence switch_endpoint r = available _ switching
  action_for-Available plan context evidence return_to_model r = absurd (r.0 refl)
  action_for-Available plan context evidence abort_operation r = absurd (r.1 refl)
