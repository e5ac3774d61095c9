-- ===== src/Base/Equality.antt =====
-- Decidable equality as an interface, and Python's `==`, `in` and `set` on the types that have it.
use Prim.Native.Nat.{ℕ}
use Prim.Native.String.{String}
use mathlib.Core.Path.{◌≡◌}
use mathlib.Core.Logic.{inl, inr}
use mathlib.Core.Bool.{Bool, true, false, ◌&&◌, ◌||◌}
use mathlib.Core.Option.{Option}
use mathlib.Core.List.{List, [], ◌∷◌}
use native.Mathlib.Decide.{ℕ_discrete as nat_discrete}
use native.Mathlib.Omega.{arith}
use text.Mathlib.Text.{◌==◌ as str_eq}
use text.Mathlib.TextEquality.{eq_iff}
use motev.Base.Tests.{if◌then◌else◌, Bool-cases}
use motev.Base.Lists.{length, all}

pub record Eq {ℓ} (A : Type ℓ) : Type ℓ where
  pub dec : Discrete A

infix 50 ◌==◌ ◌/=◌
abbrev pub ◌==◌ {ℓ} : {A : Type ℓ} ⦃e : Eq A⦄ → A → A → Bool
◌==◌ ⦃e⦄ a b = elim (e.dec a b) [ yes _ ↦ true | no _ ↦ false ]

abbrev pub ◌/=◌ {ℓ} : {A : Type ℓ} ⦃e : Eq A⦄ → A → A → Bool
◌/=◌ ⦃e⦄ a b = elim (e.dec a b) [ yes _ ↦ false | no _ ↦ true ]

unfoldable pub string_discrete : Discrete String
unfolding Bool-cases
string_discrete s t = elim (Bool-cases (str_eq s t)) [
  | inl e ↦ yes ((eq_iff s t).0 e)
  | inr e ↦ no (λ p. cc ((eq_iff s t).1 p))
]

unfoldable pub ℕ_discrete : Discrete ℕ
unfolding nat_discrete
ℕ_discrete = nat_discrete

instance abbrev pub string_eq : Eq String
string_eq = record { dec = string_discrete }

instance abbrev pub nat_eq : Eq ℕ
nat_eq = record { dec = ℕ_discrete }

unfoldable pub option_discrete {ℓ} : {A : Type ℓ} → Discrete A → Discrete (Option A)
option_discrete d = hlevel d

unfoldable pub list_discrete {ℓ} : {A : Type ℓ} → Discrete A → Discrete (List A)
list_discrete d = hlevel d

unfoldable pub pair_discrete {ℓ κ} :
    {A : Type ℓ} {B : Type κ} → Discrete A → Discrete B → Discrete (A × B)
pair_discrete d e = hlevel (d, e)

instance abbrev pub pair_eq {ℓ κ} : {A : Type ℓ} {B : Type κ} ⦃d : Eq A⦄ ⦃e : Eq B⦄ → Eq (A × B)
pair_eq ⦃d⦄ ⦃e⦄ = record { dec = pair_discrete d.dec e.dec }

instance abbrev pub option_eq {ℓ} : {A : Type ℓ} ⦃e : Eq A⦄ → Eq (Option A)
option_eq ⦃e⦄ = record { dec = option_discrete e.dec }

instance abbrev pub list_eq {ℓ} : {A : Type ℓ} ⦃e : Eq A⦄ → Eq (List A)
list_eq ⦃e⦄ = record { dec = list_discrete e.dec }

module _ {ℓ} {A : Type ℓ} ⦃e : Eq A⦄ where
  -- `a in xs`
  unfoldable pub contains : A → List A → Bool
  contains a [] = false
  contains a (x ∷ xs) = a == x || contains a xs

  -- `set(xs)`, as a list without repetitions.
  unfoldable pub set_of : List A → List A
  unfolding contains
  set_of [] = []
  set_of (x ∷ xs) = let rest = set_of xs in if contains x rest then rest else x ∷ rest

  -- `len(xs) == len(set(xs))`
  unfoldable pub is_distinct : List A → Bool
  unfolding set_of
  is_distinct xs = length xs == length (set_of xs)

  -- `set(xs) <= set(ys)`
  unfoldable pub is_subset : List A → List A → Bool
  unfolding contains all
  is_subset xs ys = all (λ x. contains x ys) xs

  -- `set(xs) == set(ys)`
  unfoldable pub same_set : List A → List A → Bool
  unfolding is_subset
  same_set xs ys = is_subset xs ys && is_subset ys xs

-- `==` as a proposition.
pub eq_of_test {ℓ} : {A : Type ℓ} ⦃e : Eq A⦄ (a b : A) → (a == b) ≡ true → a ≡ b
eq_of_test a b h = ground arith

pub test_of_eq {ℓ} : {A : Type ℓ} ⦃e : Eq A⦄ (a b : A) → a ≡ b → (a == b) ≡ true
test_of_eq a b h = ground arith

pub eq_of_ne_test {ℓ} : {A : Type ℓ} ⦃e : Eq A⦄ (a b : A) → (a /= b) ≡ false → a ≡ b
eq_of_ne_test a b h = ground arith

pub ne_test_of_eq {ℓ} : {A : Type ℓ} ⦃e : Eq A⦄ (a b : A) → a ≡ b → (a /= b) ≡ false
ne_test_of_eq a b h = ground arith
