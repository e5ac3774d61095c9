-- ===== src/Failover/Usage.antt =====
-- plan.py: the durable counts of `RetryContext.with_strategy_use`.
use motev.Base.{
  Bool, List, [], arith, find_first, list_eq, nat_eq, nat_ord, ok, option_eq, refl, select, some,
  string_eq, string_ord, ℕ, ◌++◌, ◌+◌, ◌/=◌, ◌∷◌, ◌≡◌, ◌≢◌,
}
use motev.Failover.Attempts.{new_context_same}
use motev.Failover.Contract.{FailureStrategy, signal_eq, strategy_eq}
use motev.Failover.Plan.{RetryContext, StrategyUsage, add_use, mode_eq, usage_of, with_strategy_use}

-- The count of one strategy grows by one, and no other count changes.
pub record Counts (strategy : FailureStrategy) (before after : List StrategyUsage) : Type 0 where
  pub counted : usage_of strategy after ≡ usage_of strategy before + 1
  pub others :
      (other : FailureStrategy) → other ≢ strategy → usage_of other after ≡ usage_of other before

usage_of_other :
    (strategy other : FailureStrategy) (n : ℕ) (usages : List StrategyUsage)
    → other ≢ strategy
    → usage_of other (
        select (λ (u : StrategyUsage). u.strategy /= strategy) usages
        ++ record { strategy = strategy; used = n } ∷ [])
      ≡ usage_of other usages
unfolding usage_of find_first select
usage_of_other strategy other n [] h = ground arith
usage_of_other strategy other n (u ∷ us) h = ground (arith, usage_of_other strategy other n us h)

usage_of_own :
    (strategy : FailureStrategy) (n : ℕ) (usages : List StrategyUsage)
    → usage_of strategy (
        select (λ (u : StrategyUsage). u.strategy /= strategy) usages
        ++ record { strategy = strategy; used = n } ∷ [])
      ≡ n
unfolding usage_of find_first select
usage_of_own strategy n [] = ground arith
usage_of_own strategy n (u ∷ us) = ground (arith, usage_of_own strategy n us)

usage_of-Counts :
    (strategy : FailureStrategy) (usages : List StrategyUsage)
    → Counts strategy usages (add_use strategy usages)
unfolding add_use
usage_of-Counts strategy usages = record {
  counted = usage_of_own strategy _ usages;
  others = λ other h. usage_of_other strategy other _ usages h;
}

-- A recorded use counts one more for its strategy, for no other, and is the last strategy of the
-- context; the cursors, the attempts and the identity of the operation stay.
pub with_strategy_use-Counts {ℓ} :
    {Datetime : Type ℓ} (is_aware : Datetime → Bool) (context later : RetryContext Datetime)
    (strategy : FailureStrategy)
    → with_strategy_use is_aware context strategy ≡ ok later
    → Counts strategy context.strategy_usages later.strategy_usages
      × (later ≡ record context {
        strategy_usages = later.strategy_usages;
        last_strategy = some strategy;
      })
unfolding with_strategy_use
with_strategy_use-Counts is_aware context later strategy h =
    let e = (new_context_same is_aware _).at later h in
    rw e (usage_of-Counts strategy context.strategy_usages, refl)
