-- ===== src/Failover/Plan.antt =====
-- mote-kernel/src/mote_kernel/failover/plan.py: profiles, plans and the durable retry context. The
-- `new_` functions are the checks of the `__post_init__` methods.
use motev.Base.{
  Bool, Eq, List, Option, Result, String, [], failover_error, false, find_first, if◌then◌else◌,
  is_distinct, is_none, is_some, leb, list_eq, ltb, map, nat_eq, nat_ord, none, not, ok, option_eq,
  raise_if, select, some, string_eq, string_ord, ℕ, ◌&&◌, ◌++◌, ◌+◌, ◌/=◌, ◌==◌, ◌>>=◌, ◌>>◌, ◌||◌,
  ◌∷◌,
}
use motev.Failover.Contract.{
  FailureClass, FailureSignal, FailureStrategy, Seconds, signal_eq, strategy_eq,
}
use motev.GraphState.Identity.{is_canonical_identity}

pub data FailoverBindingMode : Type 0 where
  inherit_mode override_mode disabled_mode : FailoverBindingMode

unfoldable pub mode_discrete : Discrete FailoverBindingMode
mode_discrete = hlevel

instance abbrev pub mode_eq : Eq FailoverBindingMode
mode_eq = record { dec = mode_discrete }

pub data OperationSemantics : Type 0 where
  pure idempotent receipt_based non_repeatable : OperationSemantics

pub record StrategyLimit : Type 0 where
  pub strategy : FailureStrategy
  pub max_uses : ℕ

pub record RetryBudget : Type 0 where
  pub max_wire_attempts : ℕ
  pub hard_max_wire_attempts : ℕ
  pub default_max_strategy_uses : ℕ
  pub strategy_limits : List StrategyLimit

unfoldable pub new_budget : RetryBudget → Result RetryBudget
unfolding is_distinct
new_budget budget = do
  raise_if (ltb budget.max_wire_attempts 1)
      (failover_error "max_wire_attempts must be a positive integer")
  raise_if (ltb budget.hard_max_wire_attempts 1)
      (failover_error "hard_max_wire_attempts must be a positive integer")
  raise_if (ltb budget.hard_max_wire_attempts budget.max_wire_attempts)
      (failover_error "max_wire_attempts cannot exceed hard_max_wire_attempts")
  raise_if
      (not (is_distinct (map (λ (limit : StrategyLimit). limit.strategy) budget.strategy_limits)))
      (failover_error "strategy_limits cannot contain duplicate strategies")
  ok budget

-- `RetryBudget.max_uses_for`
unfoldable pub max_uses_for : RetryBudget → FailureStrategy → ℕ
unfolding find_first
max_uses_for budget strategy =
    elim (find_first (λ (limit : StrategyLimit). limit.strategy == strategy)
      budget.strategy_limits) [
        | none ↦ budget.default_max_strategy_uses
        | some limit ↦ limit.max_uses
      ]

pub record RetryTiming : Type 0 where
  pub base_backoff_seconds : Seconds
  pub max_backoff_seconds : Seconds
  pub attempt_timeout_seconds : Seconds
  pub total_deadline_seconds : Seconds

unfoldable pub new_timing : RetryTiming → Result RetryTiming
new_timing timing = do
  raise_if (ltb timing.max_backoff_seconds timing.base_backoff_seconds)
      (failover_error "max_backoff_seconds cannot be less than base_backoff_seconds")
  raise_if (leb timing.attempt_timeout_seconds 0 || leb timing.total_deadline_seconds 0)
      (failover_error "attempt timeout and total deadline must be positive")
  raise_if (ltb timing.total_deadline_seconds timing.attempt_timeout_seconds)
      (failover_error "attempt timeout cannot exceed total deadline")
  ok timing

module _ {ℓ} where
  pub record FailoverProfile (Change : Type ℓ) : Type ℓ where
    pub profile_id : String
    pub budget : RetryBudget
    pub timing : RetryTiming
    pub semantics : OperationSemantics
    pub request_transform : Option Change

  pub record FailoverProfileOverride (Change : Type ℓ) : Type ℓ where
    pub budget : Option RetryBudget
    pub timing : Option RetryTiming
    pub semantics : Option OperationSemantics
    pub request_transform : Option Change

  pub record PortBinding (Change : Type ℓ) : Type ℓ where
    pub mode : FailoverBindingMode
    pub override : Option (FailoverProfileOverride Change)

  pub record FailoverConfigSnapshot (Change : Type ℓ) : Type ℓ where
    pub revision : ℕ
    pub default_profile : FailoverProfile Change

  pub record FailoverPlan (Change : Type ℓ) : Type ℓ where
    pub plan_revision : ℕ
    pub port_id : String
    pub profile : FailoverProfile Change

-- `given if given is not None else default`
abbrev pub given_or {ℓ} : {A : Type ℓ} → Option A → A → A
given_or none default = default
given_or (some given) default = given

module _ {ℓ} {Change : Type ℓ} where
  unfoldable pub new_profile : FailoverProfile Change → Result (FailoverProfile Change)
  new_profile profile = do
    raise_if (not (is_canonical_identity profile.profile_id))
        (failover_error "failover profile_id must be canonical")
    ok profile

  unfoldable pub new_binding : PortBinding Change → Result (PortBinding Change)
  new_binding binding = do
    raise_if (binding.mode == override_mode && is_none binding.override)
        (failover_error "override binding requires FailoverProfileOverride")
    raise_if (binding.mode /= override_mode && is_some binding.override)
        (failover_error "inherit and disabled bindings cannot carry an override")
    ok binding

  unfoldable pub new_snapshot :
      FailoverConfigSnapshot Change → Result (FailoverConfigSnapshot Change)
  new_snapshot snapshot = do
    raise_if (ltb snapshot.revision 1)
        (failover_error "failover config revision must be a positive integer")
    ok snapshot

  unfoldable pub new_plan : FailoverPlan Change → Result (FailoverPlan Change)
  unfolding is_canonical_identity
  new_plan plan = do
    raise_if (ltb plan.plan_revision 1)
        (failover_error "failover plan revision must be a positive integer")
    raise_if (not (is_canonical_identity plan.port_id))
        (failover_error "failover plan port_id must be canonical")
    ok plan

  unfoldable pub merge_profile :
      FailoverProfile Change
      → Option (FailoverProfileOverride Change)
      → Result (FailoverProfile Change)
  unfolding new_profile
  merge_profile default none = ok default
  merge_profile default (some override) = new_profile (record {
    profile_id = default.profile_id;
    budget = given_or override.budget default.budget;
    timing = given_or override.timing default.timing;
    semantics = given_or override.semantics default.semantics;
    request_transform = elim override.request_transform [
      | none ↦ default.request_transform
      | some change ↦ some change
    ];
  })

  unfoldable pub resolve_plan :
      FailoverConfigSnapshot Change
      → String
      → PortBinding Change
      → Result (Option (FailoverPlan Change))
  unfolding merge_profile new_plan
  resolve_plan snapshot port_id binding = do
    raise_if (not (is_canonical_identity port_id))
        (failover_error "plan resolution port_id must be canonical")
    if binding.mode == disabled_mode then ok none else (do
      profile ← merge_profile snapshot.default_profile binding.override
      plan ←
          new_plan
            (record { plan_revision = snapshot.revision; port_id = port_id; profile = profile })
      ok (some plan))

pub record StrategyUsage : Type 0 where
  pub strategy : FailureStrategy
  pub used : ℕ

-- `Datetime` is `datetime.datetime`.
pub record RetryContext {ℓ} (Datetime : Type ℓ) : Type ℓ where
  pub operation_id : String
  pub plan_revision : ℕ
  pub request_version : ℕ
  pub attempt_ordinal : ℕ
  pub endpoint_cursor : ℕ
  pub credential_cursor : ℕ
  pub strategy_usages : List StrategyUsage
  pub last_failure : Option FailureClass
  pub last_signal : Option FailureSignal
  pub last_strategy : Option FailureStrategy
  pub wait_until : Option Datetime

-- The count of the first record of a strategy.
unfoldable pub usage_of : FailureStrategy → List StrategyUsage → ℕ
unfolding find_first
usage_of strategy usages =
    elim (find_first (λ (usage : StrategyUsage). usage.strategy == strategy) usages) [
      | none ↦ 0
      | some usage ↦ usage.used
    ]

-- The records of the other strategies, then the new record of this one.
unfoldable pub add_use : FailureStrategy → List StrategyUsage → List StrategyUsage
unfolding usage_of select
add_use strategy usages =
    select (λ (usage : StrategyUsage). usage.strategy /= strategy) usages
    ++ record { strategy = strategy; used = usage_of strategy usages + 1 } ∷ []

-- `RetryContext.uses_for`
unfoldable pub uses_for {ℓ} : {Datetime : Type ℓ} → RetryContext Datetime → FailureStrategy → ℕ
unfolding usage_of
uses_for context strategy = usage_of strategy context.strategy_usages

-- `is_aware` tells whether the `tzinfo` of a `datetime` is set.
module _ {ℓ} {Datetime : Type ℓ} (is_aware : Datetime → Bool) where
  unfoldable pub new_context : RetryContext Datetime → Result (RetryContext Datetime)
  unfolding is_canonical_identity is_distinct
  new_context context = do
    raise_if (not (is_canonical_identity context.operation_id))
        (failover_error "retry context operation_id must be canonical")
    raise_if (ltb context.plan_revision 1)
        (failover_error "retry context plan_revision must be a positive integer")
    raise_if (ltb context.request_version 1)
        (failover_error "retry context request_version must be positive")
    raise_if
        (not
          (is_distinct (map (λ (usage : StrategyUsage). usage.strategy) context.strategy_usages)))
        (failover_error "retry context strategy_usages cannot contain duplicates")
    raise_if (elim context.wait_until [ none ↦ false | some moment ↦ not (is_aware moment) ])
        (failover_error "retry context wait_until must be timezone-aware")
    ok context

  -- `RetryContext.with_strategy_use`; `replace` runs the checks of the context again.
  unfoldable pub with_strategy_use :
      RetryContext Datetime → FailureStrategy → Result (RetryContext Datetime)
  unfolding new_context add_use
  with_strategy_use context strategy = new_context (record context {
    strategy_usages = add_use strategy context.strategy_usages;
    last_strategy = some strategy;
  })
