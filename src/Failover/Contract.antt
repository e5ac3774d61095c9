-- ===== src/Failover/Contract.antt =====
-- mote-kernel/src/mote_kernel/failover/contract.py: what a Port reports, and the preparations of a
-- next attempt.
use motev.Base.{
  Bool, Eq, Option, Result, String, contains, failover_error, leb, length, list_eq, nat_eq, nat_ord,
  none, not, ok, option_discrete, option_eq, raise_if, some, string_discrete, string_eq, string_ord,
  true, ℕ, ℕ_discrete, ◌&&◌, ◌>>=◌, ◌>>◌,
}
use motev.GraphState.Identity.{is_canonical_identity}
use motev.GraphState.Identity.Text.{codes}

pub data FailureClass : Type 0 where
  rate_limited auth_rejected service_unavailable invalid_request request_timeout no_response :
      FailureClass
  unknown_outcome policy_denied : FailureClass

pub data FailureStrategy : Type 0 where
  wait transform_request refresh_credential rotate_credential : FailureStrategy
  switch_endpoint return_to_model abort_operation : FailureStrategy

unfoldable pub strategy_discrete : Discrete FailureStrategy
strategy_discrete = hlevel

instance abbrev pub strategy_eq : Eq FailureStrategy
strategy_eq = record { dec = strategy_discrete }

abbrev pub ErrorHint : Type 0
ErrorHint = String

-- A duration in a unit of which every duration in use is a whole multiple.
abbrev pub Seconds : Type 0
Seconds = ℕ

-- A non-empty trimmed text of one line and at most `limit` characters.
unfoldable pub is_safe_text : ℕ → String → Bool
unfolding is_canonical_identity contains
is_safe_text limit value =
    is_canonical_identity value
    && not (contains 10 (codes value))
    && not (contains 13 (codes value))
    && leb (length (codes value)) limit

-- A check of an optional text.
unfoldable pub require_safe : ℕ → Option String → String → Result (Unit {0})
unfolding is_safe_text
require_safe limit none message = ok tt
require_safe limit (some value) message =
    raise_if (not (is_safe_text limit value)) (failover_error message)

-- `_validate_error_hint`
unfoldable pub validate_error_hint : Option String → Result (Unit {0})
unfolding require_safe
validate_error_hint value = require_safe 128 value "error_hint must be a safe, short, trimmed value"

pub record FailureSignal : Type 0 where
  pub status_code : Option ℕ
  pub error_hint : Option ErrorHint

unfoldable pub signal_discrete : Discrete FailureSignal
unfolding option_discrete string_discrete ℕ_discrete
signal_discrete = hlevel (option_discrete ℕ_discrete, option_discrete string_discrete)

instance abbrev pub signal_eq : Eq FailureSignal
signal_eq = record { dec = signal_discrete }

unfoldable pub is_http_status : Option ℕ → Bool
is_http_status none = true
is_http_status (some status) = leb 100 status && leb status 599

-- The checks of `FailureSignal.__post_init__`.
unfoldable pub new_signal : FailureSignal → Result FailureSignal
unfolding is_http_status validate_error_hint
new_signal signal = do
  raise_if (not (is_http_status signal.status_code))
      (failover_error "failure signal status_code must be an HTTP status code")
  validate_error_hint signal.error_hint
  ok signal

pub record FailureEvidence : Type 0 where
  pub category : FailureClass
  pub status_code : Option ℕ
  pub error_hint : Option ErrorHint
  pub provider_code : Option String
  pub message : Option String
  pub retry_after_seconds : Option Seconds

-- `FailureEvidence.signal`
unfoldable pub evidence_signal : FailureEvidence → Result FailureSignal
unfolding new_signal
evidence_signal evidence =
    new_signal (record { status_code = evidence.status_code; error_hint = evidence.error_hint })

-- The checks of `FailureEvidence.__post_init__`.
unfoldable pub new_evidence : FailureEvidence → Result FailureEvidence
unfolding evidence_signal require_safe
new_evidence evidence = do
  signal ← evidence_signal evidence
  require_safe 256 evidence.provider_code
      "failure evidence provider_code must be a safe short value"
  require_safe 1024 evidence.message "failure evidence message must be a safe bounded value"
  ok evidence

module _ {ℓ} where
  pub data PortOutcome (Response Receipt Handle : Type ℓ) : Type ℓ where
    completed_outcome : Response → PortOutcome Response Receipt Handle
    rejected : FailureEvidence → PortOutcome Response Receipt Handle
    in_progress : Receipt → PortOutcome Response Receipt Handle
    unknown : Option Handle → FailureEvidence → PortOutcome Response Receipt Handle

  pub data PreparationAction (Change : Type ℓ) : Type ℓ where
    wait_action : Seconds → PreparationAction Change
    transform_action : Change → PreparationAction Change
    refresh_action rotate_action switch_action : PreparationAction Change
