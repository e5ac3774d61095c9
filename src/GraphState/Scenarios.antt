-- ===== src/GraphState/Scenarios.antt =====
-- One short run of two nodes through the reducer, and resource snapshots, as data for the tests and
-- the witnesses.
pub mod Runs
pub mod Witnesses
use motev.Base.{
  List, Option, [], list_eq, nat_eq, nat_ord, none, option_eq, some, string_eq, string_ord, ◌∷◌,
}
use motev.GraphState.Command.{
  AbortGraphRun, ClaimGraphExecution, FenceGraphExecution, SettleGraphNode, StartGraphRun,
  succeeded_outcome,
}
use motev.GraphState.FrontierModel.{
  GraphFrontierActivation, GraphFrontierNode, GraphNodeSettlement, cause_eq, continue_routing,
  frontier_status_eq, pending, start_cause, succeeded, use_step_request_input,
}
use motev.GraphState.Identity.{
  GraphNodeId, activation_eq, join_eq, occurrence_eq, occurrence_ord, reference_eq,
}
use motev.GraphState.Model.{
  GraphExecutionToken, GraphPublicationSettlement, GraphRunState, aborted, config_cursor,
  progress_eq, run_status_eq, running, state_eq, token_eq,
}
use motev.GraphState.ResourceModel.{
  ResourceAcquisition, ResourceId, ResourceLock, ResourceSnapshot, snapshot_eq,
}

abbrev pub activation_of : GraphNodeId → GraphFrontierActivation
activation_of node_id = record { node_id = node_id; cause = start_cause }

abbrev pub start_command : StartGraphRun
start_command = record {
  run_id = "run";
  definition_id = "def";
  definition_version = 1;
  activations = activation_of "a" ∷ activation_of "b" ∷ [];
  parent = none;
  resume_input_codec = none;
  config_cursor = none;
  graph_input_evidence = none;
}

abbrev pub node_with : GraphNodeId → GraphNodeSettlement → GraphFrontierNode
node_with node_id settlement = record {
  node_id = node_id;
  settlement = settlement;
  cause = start_cause;
}

-- The run once started.
abbrev pub run_started : GraphRunState
run_started = record {
  run_id = "run";
  definition_id = "def";
  definition_version = 1;
  status = running;
  superstep = 0;
  frontier = record {
    nodes =
        node_with "a" (pending use_step_request_input)
        ∷ node_with "b" (pending use_step_request_input)
        ∷ [];
  };
  execution_sequence = 0;
  resume_input_codec = none;
  join_progress = [];
  graph_input_evidence = none;
  settled_publications = [];
  resources = none;
  execution = none;
  abort = none;
  parent = none;
  revision = 0;
  completion_route = none;
  config_revision = 1;
  config_definition_id = "def";
  config_definition_version = 1;
  config_digest = none;
}

abbrev pub token_x : GraphExecutionToken
token_x = record { generation = 1; attempt_id = "x" }

abbrev pub claim_command : ClaimGraphExecution
claim_command = record { expected_revision = 0; attempt_id = "x"; resources = none }

abbrev pub run_claimed : GraphRunState
run_claimed = record run_started {
  execution_sequence = 1;
  execution = some (record { token = token_x });
  revision = 1;
}

abbrev pub settle_a : SettleGraphNode
settle_a = record {
  expected_revision = 1;
  execution = token_x;
  outcome = succeeded_outcome "a" continue_routing;
  config_cursor = none;
  publication_evidence = none;
}

abbrev pub publication_a : GraphPublicationSettlement
publication_a = record {
  reference = record {
    activation = record { run_id = "run"; superstep = 0; node_id = "a" };
    route = none;
  };
  commit_revision = 2;
  execution = token_x;
  evidence = none;
}

abbrev pub run_half : GraphRunState
run_half = record run_claimed {
  frontier = record {
    nodes =
        node_with "a" (succeeded continue_routing)
        ∷ node_with "b" (pending use_step_request_input)
        ∷ [];
  };
  settled_publications = publication_a ∷ [];
  revision = 2;
}

abbrev pub fence_command : FenceGraphExecution
fence_command = record { expected_revision = 1; execution = token_x }

abbrev pub run_fenced : GraphRunState
run_fenced = record run_claimed { execution = none; revision = 2 }

abbrev pub abort_command : AbortGraphRun
abort_command = record { expected_revision = 2; reason = "stop" }

abbrev pub run_aborted : GraphRunState
run_aborted = record run_fenced {
  status = aborted;
  abort = some (record { reason = "stop" });
  revision = 3;
}

abbrev pub lock_of : ResourceId → Option GraphNodeId → List GraphNodeId → ResourceLock
lock_of resource_id owner waiters = record {
  resource_id = resource_id;
  owner = owner;
  waiters = waiters;
}

abbrev pub admitted_with : GraphNodeId → List ResourceId → ResourceAcquisition
admitted_with node_id ids = record {
  node_id = node_id;
  required = ids;
  acquired = ids;
  waiting_for = none;
}

-- "a" holds "p", "b" waits for it and wants "q" next, and "c" holds "q".
abbrev pub contended : ResourceSnapshot
contended = record {
  resources = lock_of "p" (some "a") ("b" ∷ []) ∷ lock_of "q" (some "c") [] ∷ [];
  acquisitions =
      admitted_with "a" ("p" ∷ [])
      ∷ record { node_id = "b"; required = "p" ∷ "q" ∷ []; acquired = []; waiting_for = some "p" }
      ∷ admitted_with "c" ("q" ∷ [])
      ∷ [];
}
