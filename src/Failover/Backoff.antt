-- ===== src/Failover/Backoff.antt =====
-- policy.py: the delay of `_backoff_seconds` in closed form.
use native.Mathlib.Nat.{mul-le-mul_left, mul_assoc, mul_comm}
use motev.Base.{
  Bool-cases, Option, ap, arith, inl, inr, list_eq, ltb, ltb→le, nat_eq, nat_ord, none, option_eq,
  refl, some, string_eq, string_ord, subst, suc, zero, ℕ, ◌*◌, ◌∙◌, ◌≡◌, ◌≤◌,
}
use motev.Failover.Contract.{FailureEvidence, Seconds, signal_eq, strategy_eq}
use motev.Failover.Plan.{FailoverPlan, RetryContext, given_or, mode_eq}
use motev.Failover.Policy.{backoff_loop, backoff_seconds, max, min, route_eq}

-- `2 ** n`
abbrev pub power_of_two : ℕ → ℕ
power_of_two zero = 1
power_of_two (suc n) = 2 * power_of_two n

min-min : (limit a : ℕ) → min limit (min limit a) ≡ min limit a
min-min limit a = ground arith

min_scaled : (limit a p : ℕ) → 1 ≤ p → min limit (min limit a * p) ≡ min limit (a * p)
min_scaled limit a p h = elim (Bool-cases (ltb a limit)) [
  | inl below ↦ rw below refl
  | inr above ↦
      rw above
        (both (limit * p) (a * p) (omega (arith, grows limit)) (scaled (ltb→le a limit above)))
]
  where
    grows : (l : ℕ) → l ≤ l * p
    grows l = subst (λ x. x ≤ l * p) (omega arith) (mul-le-mul_left l h)

    scaled : limit ≤ a → limit * p ≤ a * p
    scaled le =
        subst (λ x. x ≤ a * p) (mul_comm p limit)
          (subst (λ x. p * limit ≤ x) (mul_comm p a) (mul-le-mul_left p le))

    both : (x y : ℕ) → limit ≤ x → x ≤ y → min limit x ≡ min limit y
    both x y hx hy = ground arith

power_of_two-pos : (n : ℕ) → 1 ≤ power_of_two n
power_of_two-pos zero = omega arith
power_of_two-pos (suc n) = omega (arith, power_of_two-pos n)

backoff_loop-closed :
    (rounds limit delay : ℕ)
    → min limit (backoff_loop rounds limit delay) ≡ min limit (delay * power_of_two rounds)
unfolding backoff_loop
backoff_loop-closed zero limit delay = ap (min limit) (omega arith)
backoff_loop-closed (suc rounds) limit delay =
    backoff_loop-closed rounds limit (min limit (delay * 2))
    ∙ min_scaled limit (delay * 2) (power_of_two rounds) (power_of_two-pos rounds)
    ∙ ap (min limit) (mul_assoc delay 2 (power_of_two rounds))

module _ {ℓ} {Change Datetime : Type ℓ} where
  -- The backoff doubles from the base with every attempt made, 1024 times at most, and is cut at the
  -- profile's maximum; a delay that the evidence asks for is a lower bound.
  pub backoff_seconds-closed :
      (plan : FailoverPlan Change) (context : RetryContext Datetime) (evidence : FailureEvidence)
      → backoff_seconds plan context evidence
        ≡ max
            (min plan.profile.timing.max_backoff_seconds (
              plan.profile.timing.base_backoff_seconds
              * power_of_two (min context.attempt_ordinal 1024)))
            (given_or evidence.retry_after_seconds 0)
  unfolding backoff_seconds
  backoff_seconds-closed plan context evidence = at_least evidence.retry_after_seconds (
      backoff_loop-closed (min context.attempt_ordinal 1024) plan.profile.timing.max_backoff_seconds
        plan.profile.timing.base_backoff_seconds)
    where
      at_least :
          {delay closed : ℕ} (after : Option Seconds)
          → delay ≡ closed
          → elim after as (λ x. ℕ) [ none ↦ delay | some asked ↦ max delay asked ]
            ≡ max closed (given_or after 0)
      at_least none e = ground arith
      at_least (some asked) e = ap (λ d. max d asked) e
