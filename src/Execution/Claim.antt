-- ===== src/Execution/Claim.antt =====
-- mote-kernel/src/mote_kernel/execution/claim.py and engine/claim_stage.py: linear claims of an
-- execution. Objects that the code compares by identity are numbers.
pub mod Acceptance
use motev.Base.{
  Bool, List, Option, Result, false, list_eq, nat_eq, nat_ord, ok, option_eq, pair_eq, raise_if,
  some, string_eq, string_ord, true, ℕ, ◌/=◌, ◌>>=◌, ◌>>◌, ◌||◌,
}
use motev.Execution.Planner.{pending_tasks}
use motev.Execution.Settlement.{collection_error}
use motev.Execution.Task.{GraphTask, task_eq}
use motev.GraphState.Command.{ClaimGraphExecution, claim, transition}
use motev.GraphState.Identity.{
  GraphExecutionAttemptId, activation_eq, join_eq, occurrence_eq, occurrence_ord, reference_eq,
}
use motev.GraphState.Model.{GraphRunState, progress_eq, run_status_eq, state_eq, token_eq}
use motev.GraphState.Reducer.{reduce_graph_run}
use motev.GraphState.ResourceModel.{ResourceSnapshot, snapshot_eq}

-- `PreparedExecutionClaim`, with the state and the tasks of its preparation
pub record PreparedExecutionClaim : Type 0 where
  pub owner : ℕ
  pub command : ClaimGraphExecution
  pub state : GraphRunState
  pub tasks : List GraphTask
  pub consumed : Bool

-- `ConsumedExecutionClaim`
pub record ConsumedExecutionClaim : Type 0 where
  pub state : GraphRunState
  pub tasks : List GraphTask
  pub issued : Bool

unfoldable pub project_claim_command :
    GraphRunState → GraphExecutionAttemptId → Option ResourceSnapshot → ClaimGraphExecution
project_claim_command state attempt_id resources = record {
  expected_revision = state.revision;
  attempt_id = attempt_id;
  resources = resources;
}

-- `prepare_claim`, of the attempt id that `uuid4` draws
unfoldable pub prepare_claim :
    ℕ
    → GraphRunState
    → List GraphTask
    → Option ResourceSnapshot
    → GraphExecutionAttemptId
    → PreparedExecutionClaim
unfolding project_claim_command
prepare_claim owner state tasks resources attempt_id = record {
  owner = owner;
  command = project_claim_command state attempt_id resources;
  state = state;
  tasks = tasks;
  consumed = false;
}

-- `_require_committed_claim_state`
unfoldable pub require_committed_claim_state :
    ClaimGraphExecution → GraphRunState → GraphRunState → List GraphTask → Result (Unit {0})
unfolding pending_tasks reduce_graph_run
require_committed_claim_state command state prepared tasks = do
  successor ← reduce_graph_run (some prepared) (transition (claim command))
  raise_if (state /= successor || tasks /= pending_tasks state)
      (collection_error "execution claim does not match committed graph state")

-- `PreparedExecutionClaim.consume`: the claim afterwards, and the receipt.
unfoldable pub consume :
    PreparedExecutionClaim
    → ℕ
    → GraphRunState
    → Result (PreparedExecutionClaim × ConsumedExecutionClaim)
unfolding require_committed_claim_state
consume prepared owner state = do
  raise_if prepared.consumed (collection_error "execution claim has already been consumed")
  raise_if (owner /= prepared.owner)
      (collection_error "execution claim does not match committed graph state")
  require_committed_claim_state prepared.command state prepared.state prepared.tasks
  ok (
    record prepared { consumed = true },
    record { state = state; tasks = prepared.tasks; issued = false },
  )

-- `ConsumedExecutionClaim.issue`
unfoldable pub issue :
    ConsumedExecutionClaim → Result (ConsumedExecutionClaim × GraphRunState × List GraphTask)
issue receipt = do
  raise_if receipt.issued
      (collection_error "consumed execution claim has already issued its session")
  ok (record receipt { issued = true }, receipt.state, receipt.tasks)
