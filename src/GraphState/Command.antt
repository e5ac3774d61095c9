-- ===== src/GraphState/Command.antt =====
-- mote-kernel/src/mote_kernel/state/graph_state/command.py: the transition inputs.
use motev.Base.{List, Option, String, list_eq, nat_eq, nat_ord, option_eq, string_eq, string_ord, ℕ}
use motev.GraphState.FrontierModel.{
  GraphFrontierActivation, GraphNodeInterruptIdentity, GraphResumeInputCodec,
  GraphRoutingContribution, cause_eq, frontier_status_eq,
}
use motev.GraphState.Identity.{
  Bytes, GraphActivationIdentity, GraphDefinitionId, GraphDefinitionVersion,
  GraphExecutionAttemptId, GraphInterruptId, GraphJoinOccurrenceIdentity, GraphNodeId, GraphRouteId,
  GraphRunId, activation_eq, join_eq, occurrence_eq, occurrence_ord, reference_eq,
}
use motev.GraphState.Model.{
  GraphConfigCursor, GraphEvidenceCommitment, GraphExecutionToken, GraphJoinProgress, progress_eq,
  run_status_eq, state_eq, token_eq,
}
use motev.GraphState.ResourceModel.{ResourceSnapshot, snapshot_eq}

-- `SucceededGraphNodeOutcome`, `FailedGraphNodeOutcome` and `InterruptedGraphNodeOutcome`
pub data GraphNodeOutcome : Type 0 where
  succeeded_outcome : GraphNodeId → GraphRoutingContribution → GraphNodeOutcome
  failed_outcome : GraphNodeId → String → GraphNodeOutcome
  interrupted_outcome : GraphNodeId → GraphNodeInterruptIdentity → Bytes → GraphNodeOutcome

unfoldable pub outcome_node_id : GraphNodeOutcome → GraphNodeId
outcome_node_id (succeeded_outcome node_id routing) = node_id
outcome_node_id (failed_outcome node_id failure) = node_id
outcome_node_id (interrupted_outcome node_id identity payload) = node_id

pub record AdvanceGraphFrontier : Type 0 where
  pub expected_revision : ℕ
  pub activations : List GraphFrontierActivation
  pub join_progress : List GraphJoinProgress
  pub consumed_join_progress : List GraphJoinOccurrenceIdentity

pub record CompleteGraphFrontier : Type 0 where
  pub expected_revision : ℕ
  pub consumed_join_progress : List GraphJoinOccurrenceIdentity
  pub completion_route : Option GraphRouteId

-- `ResumeInterruptedNode`, the one resume action; its input is an `OverrideGraphNodeInput`.
pub record ResumeInterruptedNode : Type 0 where
  pub node_id : GraphNodeId
  pub interrupt_id : GraphInterruptId
  pub input_payload : Bytes

pub record StartGraphRun : Type 0 where
  pub run_id : GraphRunId
  pub definition_id : GraphDefinitionId
  pub definition_version : GraphDefinitionVersion
  pub activations : List GraphFrontierActivation
  pub parent : Option GraphActivationIdentity
  pub resume_input_codec : Option GraphResumeInputCodec
  pub config_cursor : Option GraphConfigCursor
  pub graph_input_evidence : Option GraphEvidenceCommitment

pub record ClaimGraphExecution : Type 0 where
  pub expected_revision : ℕ
  pub attempt_id : GraphExecutionAttemptId
  pub resources : Option ResourceSnapshot

pub record FenceGraphExecution : Type 0 where
  pub expected_revision : ℕ
  pub execution : GraphExecutionToken

pub record SettleGraphNode : Type 0 where
  pub expected_revision : ℕ
  pub execution : GraphExecutionToken
  pub outcome : GraphNodeOutcome
  pub config_cursor : Option GraphConfigCursor
  pub publication_evidence : Option GraphEvidenceCommitment

pub record ResumeGraphNodes : Type 0 where
  pub expected_revision : ℕ
  pub actions : List ResumeInterruptedNode

pub record AbortGraphRun : Type 0 where
  pub expected_revision : ℕ
  pub reason : String

-- The commands that transition an existing run.
pub data Transition : Type 0 where
  claim : ClaimGraphExecution → Transition
  fence : FenceGraphExecution → Transition
  settle : SettleGraphNode → Transition
  resume : ResumeGraphNodes → Transition
  advance : AdvanceGraphFrontier → Transition
  complete : CompleteGraphFrontier → Transition
  abort_run : AbortGraphRun → Transition

-- The union `GraphRunCommand`: `StartGraphRun`, or one of the others.
pub data GraphRunCommand : Type 0 where
  start : StartGraphRun → GraphRunCommand
  transition : Transition → GraphRunCommand

-- `command.expected_revision`
unfoldable pub expected_revision_of : Transition → ℕ
expected_revision_of (claim c) = c.expected_revision
expected_revision_of (fence c) = c.expected_revision
expected_revision_of (settle c) = c.expected_revision
expected_revision_of (resume c) = c.expected_revision
expected_revision_of (advance c) = c.expected_revision
expected_revision_of (complete c) = c.expected_revision
expected_revision_of (abort_run c) = c.expected_revision
