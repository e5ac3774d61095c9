-- ===== src/Failover/Assembly.antt =====
-- mote-kernel/src/mote_kernel/failover/assembly.py: the nodes of the failover graph, and its cycle of
-- attempts. The plan and the preparation are those that the activation has bound.
use motev.Base.{
  Bool, Option, Result, String, [], err, failover_error, false, list_eq, nat_eq, nat_ord, none, not,
  ok, option_eq, or_raise, raise_if, some, string_eq, string_ord, suc, true, type_error, zero, ℕ,
  ◌&&◌, ◌+◌, ◌/=◌, ◌==◌, ◌>>=◌, ◌>>◌,
}
use motev.Failover.Contract.{
  FailureEvidence, FailureStrategy, PortOutcome, PreparationAction, completed_outcome,
  evidence_signal, in_progress, rejected, rotate_action, signal_eq, strategy_eq, switch_action,
  transform_action, unknown,
}
use motev.Failover.Plan.{FailoverPlan, RetryContext, mode_eq, new_context, with_strategy_use}
use motev.Failover.Policy.{
  FailoverDecision, ObservationRoute, abort_route, completed_route, observe_and_route,
  prepare_route, route_discrete, route_eq,
}

module _ {ℓ} where
  pub record FailoverResult (Request Response Receipt Handle Change Datetime : Type ℓ)
      : Type ℓ where
    pub request : Request
    pub context : RetryContext Datetime
    pub outcome : PortOutcome Response Receipt Handle
    pub decision : FailoverDecision Change

  -- What the prepare node gives the graph: a failure, the route FINISH with the result, or the route
  -- PREPARE with the result and the next invoke step.
  pub data Prepared (Request Response Receipt Handle Change Datetime : Type ℓ) : Type ℓ where
    failure : String → Prepared Request Response Receipt Handle Change Datetime
    finish :
        FailoverResult Request Response Receipt Handle Change Datetime
        → Prepared Request Response Receipt Handle Change Datetime
    prepare :
        FailoverResult Request Response Receipt Handle Change Datetime
        → Request
        → RetryContext Datetime
        → Prepared Request Response Receipt Handle Change Datetime

module _ {ℓ} {Response Receipt Handle : Type ℓ} where
  abbrev pub is_completed : PortOutcome Response Receipt Handle → Bool
  is_completed (completed_outcome response) = true
  is_completed outcome = false

  -- The evidence of a `Rejected` or an `Unknown`.
  abbrev pub outcome_evidence : PortOutcome Response Receipt Handle → Option FailureEvidence
  outcome_evidence (completed_outcome response) = none
  outcome_evidence (rejected evidence) = some evidence
  outcome_evidence (in_progress receipt) = none
  outcome_evidence (unknown handle evidence) = some evidence

-- `int(isinstance(action, ...))` for the three actions that move a cursor.
abbrev pub transforms {ℓ} : {Change : Type ℓ} → PreparationAction Change → ℕ
transforms (transform_action change) = 1
transforms action = 0

abbrev pub switches {ℓ} : {Change : Type ℓ} → PreparationAction Change → ℕ
switches switch_action = 1
switches action = 0

abbrev pub rotates {ℓ} : {Change : Type ℓ} → PreparationAction Change → ℕ
rotates rotate_action = 1
rotates action = 0

module _ {ℓ} {Request Response Receipt Handle Change Datetime : Type ℓ} where
  -- The checks of `FailoverResult.__post_init__`.
  unfoldable pub new_result :
      FailoverResult Request Response Receipt Handle Change Datetime
      → Result (FailoverResult Request Response Receipt Handle Change Datetime)
  unfolding route_discrete
  new_result result = do
    raise_if (result.decision.route == abort_route)
        (failover_error "failover result cannot carry an abort decision")
    raise_if (result.decision.route == completed_route && not (is_completed result.outcome))
        (failover_error "a completed failover result requires a completed Port outcome")
    ok result

-- `is_aware` tells whether the `tzinfo` of a `datetime` is set.
module _ {ℓ} {Datetime : Type ℓ} (is_aware : Datetime → Bool) where
  -- The context with the failure of an outcome, and the checks that `replace` runs again.
  unfoldable pub note_failure :
      Option FailureEvidence → RetryContext Datetime → Result (RetryContext Datetime)
  unfolding new_context evidence_signal
  note_failure none context = ok context
  note_failure (some evidence) context = do
    signal ← evidence_signal evidence
    new_context is_aware
        (record context { last_failure = some evidence.category; last_signal = some signal })

  -- `next_context` of the prepare node.
  unfoldable pub next_context {κ} :
      {Change : Type κ}
      → RetryContext Datetime
      → FailureStrategy
      → PreparationAction Change
      → Result (RetryContext Datetime)
  unfolding with_strategy_use new_context
  next_context context strategy action = do
    used ← with_strategy_use is_aware context strategy
    new_context is_aware (record used {
      request_version = used.request_version + transforms action;
      attempt_ordinal = used.attempt_ordinal + 1;
      endpoint_cursor = used.endpoint_cursor + switches action;
      credential_cursor = used.credential_cursor + rotates action;
      wait_until = none;
    })

-- The `cast`s of the prepare node, which expect the strategy and the action of a PREPARE decision.
abbrev pub prepared_parts {ℓ} :
    {Change : Type ℓ}
    → FailoverDecision Change
    → Option (FailureStrategy × PreparationAction Change)
prepared_parts decision = elim decision.strategy [
  | none ↦ none
  | some strategy ↦ elim decision.preparation [
    | none ↦ none
    | some action ↦ some (strategy, action)
  ]
]

-- `prepare_next` is the preparation capability, and `invoke_once` the wrapped Port: `n` counts the
-- invocations that the operation has made before.
module _ {ℓ} {Request Response Receipt Handle Change Datetime : Type ℓ} (is_aware : Datetime → Bool)
    (prepare_next : Request → PreparationAction Change → Result Request)
    (invoke_once : ℕ → Request → Result (PortOutcome Response Receipt Handle))
    (plan : FailoverPlan Change) where
  -- `_FailoverFrame.__post_init__`, which runs for the frame that a node writes.
  unfoldable pub check_frame : RetryContext Datetime → Result (Unit {0})
  check_frame context =
      raise_if (context.plan_revision /= plan.plan_revision)
        (failover_error "failover frame context and plan revisions must match")

  -- The part of the prepare node on the route PREPARE.
  unfoldable pub prepare_again :
      FailoverResult Request Response Receipt Handle Change Datetime
      → FailureStrategy
      → PreparationAction Change
      → Result (Prepared Request Response Receipt Handle Change Datetime)
  unfolding next_context check_frame
  prepare_again result strategy action = do
    request ← prepare_next result.request action
    context ← next_context is_aware result.context strategy action
    check_frame context
    ok (prepare result request context)

  -- The prepare node after the decision.
  unfoldable pub conclude :
      FailoverResult Request Response Receipt Handle Change Datetime
      → ObservationRoute
      → Result (Prepared Request Response Receipt Handle Change Datetime)
  unfolding new_result prepare_again check_frame
  conclude result abort_route = ok (failure "failover policy aborted the operation")
  conclude result prepare_route = do
    admitted ← new_result result
    (strategy, action) ←
        or_raise (prepared_parts admitted.decision)
          (type_error "a prepare decision has a strategy and an action")
    prepare_again admitted strategy action
  conclude result route = do
    admitted ← new_result result
    check_frame admitted.context
    ok (finish admitted)

  -- `_PrepareNextAttempt.__call__`
  unfoldable pub prepare_next_attempt :
      Request
      → RetryContext Datetime
      → PortOutcome Response Receipt Handle
      → Result (Prepared Request Response Receipt Handle Change Datetime)
  unfolding observe_and_route note_failure conclude
  prepare_next_attempt request context outcome = do
    raise_if (context.plan_revision /= plan.plan_revision)
        (failover_error "failover frame context and bound plan revisions must match")
    decision ← observe_and_route outcome plan context
    noted ← note_failure is_aware (outcome_evidence outcome) context
    conclude (record { request = request; context = noted; outcome = outcome; decision = decision })
        decision.route

  -- `_InvokeOnce.__call__`
  unfoldable pub invoke :
      ℕ → Request → RetryContext Datetime → Result (PortOutcome Response Receipt Handle)
  unfolding check_frame
  invoke n request context = do
    raise_if (context.plan_revision /= plan.plan_revision)
        (failover_error "failover frame context and bound plan revisions must match")
    outcome ← invoke_once n request
    check_frame context
    ok outcome

  -- The invoke and prepare nodes, and the edge PREPARE back to the invoke node, for at most `rounds`
  -- attempts; `none` is the end of the rounds.
  unfoldable pub attempts :
      ℕ
      → ℕ
      → Request
      → RetryContext Datetime
      → Option (Result (Prepared Request Response Receipt Handle Change Datetime))
  unfolding invoke prepare_next_attempt
  attempts zero n request context = none
  attempts (suc rounds) n request context =
      elim (do outcome ← invoke n request context; prepare_next_attempt request context outcome) [
        | err e ↦ some (err e)
        | ok (failure message) ↦ some (ok (failure message))
        | ok (finish result) ↦ some (ok (finish result))
        | ok (prepare result next_request later) ↦ attempts rounds (n + 1) next_request later
      ]

  -- `_ObserveCall.__call__`: the context of a new call.
  unfoldable pub observe_call : String → Result (RetryContext Datetime)
  unfolding new_context check_frame
  observe_call operation_id = do
    context ← new_context is_aware (record {
      operation_id = operation_id;
      plan_revision = plan.plan_revision;
      request_version = 1;
      attempt_ordinal = 0;
      endpoint_cursor = 0;
      credential_cursor = 0;
      strategy_usages = [];
      last_failure = none;
      last_signal = none;
      last_strategy = none;
      wait_until = none;
    })
    check_frame context
    ok context
