-- ===== src/Execution/Routing/Diagnosis.antt =====
-- routing.py: the `str | None` that its admission checks return, and its `try` statements.
use motev.Base.{
  Bool, Dict, Eq, Error, ExecutionErrorClass, List, Option, Result, String, [], err,
  execution_error, failover_error, false, get, if◌then◌else◌, invalid_routing_command_error,
  join_progress_error, key_error, list_eq, nat_eq, nat_ord, none, ok, option_eq, pair_eq, put,
  resource_error, routing_deadlock_error, snapshot_mismatch_error, some, string_eq, string_ord,
  transition_error, true, type_error, value_error, ◌++◌, ◌>>=◌, ◌∷◌,
}

-- A message, and the values that the code prints into it.
abbrev pub Diagnosis : Type 0
Diagnosis = String × List String

-- `return f"..."`, from a check that may raise
abbrev pub refuse : String → List String → Result (Option Diagnosis)
refuse message shown = ok (some (message, shown))

-- `if b: return f"..."`, before the rest of the check
abbrev pub refuse_if :
    Bool → String → List String → Result (Option Diagnosis) → Result (Option Diagnosis)
refuse_if true message shown rest = refuse message shown
refuse_if false message shown rest = rest

-- The first diagnosis of a loop.
unfoldable pub first_refusal {ℓ} :
    {A : Type ℓ} → (A → Result (Option Diagnosis)) → List A → Result (Option Diagnosis)
first_refusal check [] = ok none
first_refusal check (x ∷ xs) = do
  found ← check x
  elim found [ some diagnosis ↦ ok (some diagnosis) | none ↦ first_refusal check xs ]

pub data Attempt {ℓ} (A : Type ℓ) : Type ℓ where
  returned : A → Attempt A
  caught : Diagnosis → Attempt A

-- `try: ... except C as error`, for the classes of `ExecutionError` that the test accepts
abbrev pub attempt {ℓ} : {A : Type ℓ} → (ExecutionErrorClass → Bool) → Result A → Result (Attempt A)
attempt test (ok value) = ok (returned value)
attempt test (err (execution_error class message shown)) =
    if test class then ok (caught (message, shown)) else err (execution_error class message shown)
attempt test (err (transition_error m)) = err (transition_error m)
attempt test (err (resource_error m)) = err (resource_error m)
attempt test (err (failover_error m)) = err (failover_error m)
attempt test (err (value_error m)) = err (value_error m)
attempt test (err (type_error m)) = err (type_error m)
attempt test (err (key_error m)) = err (key_error m)

-- `InvalidRoutingCommandError`
abbrev pub is_invalid_command : ExecutionErrorClass → Bool
is_invalid_command invalid_routing_command_error = true
is_invalid_command _ = false

abbrev pub is_join_progress : ExecutionErrorClass → Bool
is_join_progress join_progress_error = true
is_join_progress _ = false

abbrev pub is_mismatch : ExecutionErrorClass → Bool
is_mismatch snapshot_mismatch_error = true
is_mismatch _ = false

abbrev pub is_deadlock : ExecutionErrorClass → Bool
is_deadlock routing_deadlock_error = true
is_deadlock _ = false

abbrev pub invalid_command : String → Error
invalid_command message = execution_error invalid_routing_command_error message []

abbrev pub join_error : String → Error
join_error message = execution_error join_progress_error message []

abbrev pub or_empty {ℓ} : {A : Type ℓ} → Option (List A) → List A
or_empty none = []
or_empty (some values) = values

-- `d.setdefault(key, []).append(value)`
unfoldable pub append_at {ℓ κ} :
    {K : Type ℓ} {A : Type κ} ⦃e : Eq K⦄ → Dict K (List A) → K → A → Dict K (List A)
unfolding put get
append_at d key value = put d key (or_empty (get d key) ++ value ∷ [])
