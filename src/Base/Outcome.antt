-- ===== src/Base/Outcome.antt =====
-- Python's exceptions as values: a function that may raise returns a `Result`.
use mathlib.Core.Path.{◌≡◌, refl, subst}
use mathlib.Core.Bool.{Bool, false, not, true}
use mathlib.Core.Option.{Option, none, some}
use mathlib.Core.List.{List, [], ◌∷◌}
use Prim.Native.String.{String}
use motev.Base.Tests.{if◌then◌else◌}

-- The subclasses of `ExecutionError` in mote-kernel/src/mote_kernel/execution/errors.py.
pub data ExecutionErrorClass : Type 0 where
  planning_error snapshot_mismatch_error invalid_execution_snapshot_error : ExecutionErrorClass
  execution_limit_error result_collection_error node_execution_contract_error : ExecutionErrorClass
  routing_error unknown_route_error invalid_routing_command_error : ExecutionErrorClass
  join_progress_error routing_deadlock_error graph_validation_error : ExecutionErrorClass
  graph_value_admission_error graph_value_unavailable_error : ExecutionErrorClass
  graph_value_publication_error frame_installation_invariant_error : ExecutionErrorClass

-- The exception classes that the modelled code raises, with the message. The first four are
-- `ValueError` or a subclass of it. A message of an `execution_error` stands without the values
-- that the code prints into it; these follow it.
pub data Error : Type 0 where
  transition_error resource_error failover_error value_error type_error key_error : String → Error
  execution_error : ExecutionErrorClass → String → List String → Error

pub data Result {ℓ} (A : Type ℓ) : Type ℓ where
  ok : A → Result A
  err : Error → Result A

module _ {ℓ κ} {A : Type ℓ} {B : Type κ} where
  infixl 5 ◌>>=◌
  unfoldable pub ◌>>=◌ : Result A → (A → Result B) → Result B
  err raised >>= after = err raised
  ok value >>= after = after value

infixl 5 ◌>>◌
abbrev pub ◌>>◌ {ℓ} : {B : Type ℓ} → Result (Unit {0}) → Result B → Result B
check >> after = check >>= λ done. after

pub bind-eq {ℓ κ} :
    {A : Type ℓ} {B : Type κ} (m : Result A) (f : A → Result B) {a : A} {r : Result B}
    → m ≡ ok a
    → f a ≡ r
    → (m >>= f) ≡ r
unfolding ◌>>=◌
bind-eq m f {a} {r} e k = rw e k

-- `if b: raise e`
abbrev pub raise_if : Bool → Error → Result (Unit {0})
raise_if true e = err e
raise_if false e = ok tt

abbrev pub or_raise {ℓ} : {A : Type ℓ} → Option A → Error → Result A
or_raise none e = err e
or_raise (some a) e = ok a

-- `except ValueError as error: raise e from error`
abbrev pub on_value_error {ℓ} : {A : Type ℓ} → Result A → (String → Error) → Result A
on_value_error (ok a) f = ok a
on_value_error (err (transition_error m)) f = err (f m)
on_value_error (err (resource_error m)) f = err (f m)
on_value_error (err (failover_error m)) f = err (f m)
on_value_error (err (value_error m)) f = err (f m)
on_value_error (err (type_error m)) f = err (type_error m)
on_value_error (err (key_error m)) f = err (key_error m)
on_value_error (err (execution_error c m vs)) f = err (execution_error c m vs)

-- `except TypeError as error: raise e from error`
abbrev pub on_type_error {ℓ} : {A : Type ℓ} → Result A → (String → Error) → Result A
on_type_error (ok a) f = ok a
on_type_error (err (type_error m)) f = err (f m)
on_type_error (err (transition_error m)) f = err (transition_error m)
on_type_error (err (resource_error m)) f = err (resource_error m)
on_type_error (err (failover_error m)) f = err (failover_error m)
on_type_error (err (value_error m)) f = err (value_error m)
on_type_error (err (key_error m)) f = err (key_error m)
on_type_error (err (execution_error c m vs)) f = err (execution_error c m vs)

-- `except ResourceTransitionError as error: raise e from error`
abbrev pub on_resource_error {ℓ} : {A : Type ℓ} → Result A → (String → Error) → Result A
on_resource_error (ok a) f = ok a
on_resource_error (err (resource_error m)) f = err (f m)
on_resource_error (err (transition_error m)) f = err (transition_error m)
on_resource_error (err (failover_error m)) f = err (failover_error m)
on_resource_error (err (value_error m)) f = err (value_error m)
on_resource_error (err (type_error m)) f = err (type_error m)
on_resource_error (err (key_error m)) f = err (key_error m)
on_resource_error (err (execution_error c m vs)) f = err (execution_error c m vs)

-- `for x in xs: f(x)`
unfoldable pub for_each {ℓ} : {A : Type ℓ} → (A → Result (Unit {0})) → List A → Result (Unit {0})
for_each f [] = ok tt
for_each f (x ∷ xs) = do f x; for_each f xs

-- `tuple(f(x) for x in xs)`
unfoldable pub collect {ℓ κ} : {A : Type ℓ} {B : Type κ} → (A → Result B) → List A → Result (List B)
collect f [] = ok []
collect f (x ∷ xs) = do y ← f x; ys ← collect f xs; ok (y ∷ ys)

-- What a raising computation guarantees of the value that it returns.
pub record Ensures {ℓ κ} {A : Type ℓ} (P : A → Type κ) (r : Result A) : Type (ℓ ⊔ κ) where
  pub at : (a : A) → r ≡ ok a → P a

module _ {ℓ κ} {A : Type ℓ} {P : A → Type κ} where
  pub Ensures-ok : (a : A) → P a → Ensures P (ok a)
  Ensures-ok a p = record { at = λ b e. subst P (cc) p }

  pub Ensures-err : (e : Error) → Ensures P (err e)
  Ensures-err e = record { at = λ b h. cc }

  pub Ensures-if :
      (b : Bool) (m n : Result A)
      → (b ≡ true → Ensures P m)
      → (b ≡ false → Ensures P n)
      → Ensures P (if b then m else n)
  Ensures-if true m n hm hn = hm refl
  Ensures-if false m n hm hn = hn refl

module _ {ℓ ℓ' κ} {A : Type ℓ} {B : Type ℓ'} {P : B → Type κ} where
  -- The rest of the block may use what the first step returned.
  pub Ensures-bind :
      (m : Result A) (f : A → Result B)
      → ((a : A) → m ≡ ok a → Ensures P (f a))
      → Ensures P (m >>= f)
  unfolding ◌>>=◌
  Ensures-bind (ok a) f h = h a refl
  Ensures-bind (err e) f h = Ensures-err e

  pub Ensures-next :
      (m : Result A) (f : A → Result B) → ((a : A) → Ensures P (f a)) → Ensures P (m >>= f)
  Ensures-next m f h = Ensures-bind m f (λ a _. h a)

pub ruleset ensures = (Ensures-ok, Ensures-err, Ensures-if, Ensures-bind)

-- A sequence that returns has had a first step that returned.
module _ {ℓ κ} {A : Type ℓ} {B : Type κ} where
  pub >>=-eq-ok :
      (first : Result A) (after : A → Result B) {last : B}
      → first >>= after ≡ ok last
      → (value : A) × (first ≡ ok value) × (after value ≡ ok last)
  unfolding ◌>>=◌
  >>=-eq-ok (err raised) after h = cc
  >>=-eq-ok (ok value) after h = (value, refl, h)

pub >>-eq-ok {ℓ} :
    {B : Type ℓ} (m : Result (Unit {0})) (k : Result B) {b : B}
    → (m >> k) ≡ ok b
    → (m ≡ ok tt) × (k ≡ ok b)
unfolding ◌>>=◌
>>-eq-ok (ok tt) k h = (refl, h)
>>-eq-ok (err e) k h = cc

pub raise_if_ok : (b : Bool) (e : Error) → b ≡ false → raise_if b e ≡ ok tt
raise_if_ok b e h = rw h

pub raise_if-eq-ok : (b : Bool) (e : Error) → raise_if b e ≡ ok tt → b ≡ false
raise_if-eq-ok true e h = cc
raise_if-eq-ok false e h = refl

-- A guard that asks for a test is passed only where the test holds.
pub raise_if-not-ok : (b : Bool) (e : Error) → raise_if (not b) e ≡ ok tt → b ≡ true
raise_if-not-ok true e h = refl
raise_if-not-ok false e h = cc
