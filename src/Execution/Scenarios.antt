-- ===== src/Execution/Scenarios.antt =====
-- A small compiled graph with two entries that compete for a resource, as data for the witnesses.
pub mod Steps
pub mod Pool
mod Witnesses
use motev.Base.{
  [], list_eq, nat_eq, nat_ord, none, option_eq, pair_eq, some, string_eq, string_ord, ◌∷◌,
}
use motev.Execution.Graph.{
  CompiledGraph, ExecutionLimits, FrozenMap, callable_node, compiled_join_eq,
}
use motev.Execution.Task.{GraphTask, TaskId, task_eq}
use motev.GraphState.Command.{transition}
use motev.GraphState.FrontierModel.{cause_eq, continue_routing, frontier_status_eq, succeeded}
use motev.GraphState.Identity.{
  GraphNodeId, activation_eq, join_eq, occurrence_eq, occurrence_ord, reference_eq,
}
use motev.GraphState.Model.{GraphRunState, progress_eq, run_status_eq, state_eq, token_eq}
use motev.GraphState.ResourceModel.{ResourceSnapshot, snapshot_eq}
use motev.GraphState.Scenarios.{admitted_with, lock_of, node_with, run_claimed, run_half}

abbrev pub keyed {ℓ} : {A : Type ℓ} → A → A → A → FrozenMap GraphNodeId A
keyed x y z = ("a", x) ∷ ("b", y) ∷ ("c", z) ∷ []

abbrev pub small_graph : CompiledGraph
small_graph = record {
  definition_id = "def";
  version = 1;
  nodes =
      keyed (callable_node ("p" ∷ []) []) (callable_node ("p" ∷ "q" ∷ []) []) (callable_node [] []);
  transition = record {
    entries = "a" ∷ "b" ∷ [];
    direct_targets = keyed ("c" ∷ []) [] [];
    conditional_targets = keyed [] [] [];
    route_options = keyed (none ∷ []) (none ∷ []) (none ∷ []);
    joins_by_source = keyed [] [] [];
    materializations = keyed [] [] [];
    resource_order = "p" ∷ "q" ∷ [];
    activation_gates = keyed [] [] ((("a", none ∷ []) ∷ []) ∷ []);
  };
  resume_input = none;
  completion_routes = none ∷ [];
}

abbrev pub small_limits : ExecutionLimits
small_limits = record { max_supersteps = 10; max_parallel_tasks = 2 }

abbrev pub task_named : GraphNodeId → TaskId → GraphTask
task_named node_id task_id = record {
  task_id = task_id;
  run_id = "run";
  superstep = 0;
  node_id = node_id;
}

abbrev pub task_a : GraphTask
task_a = task_named "a" "3:run:0:1:a"

abbrev pub task_b : GraphTask
task_b = task_named "b" "3:run:0:1:b"

-- "a" holds "p", and "b" waits for it.
abbrev pub granted : ResourceSnapshot
granted = record {
  resources = lock_of "p" (some "a") ("b" ∷ []) ∷ lock_of "q" none [] ∷ [];
  acquisitions =
      admitted_with "a" ("p" ∷ [])
      ∷ record { node_id = "b"; required = "p" ∷ "q" ∷ []; acquired = []; waiting_for = some "p" }
      ∷ [];
}

-- The run with the claim committed.
abbrev pub run_granted : GraphRunState
run_granted = record run_claimed { resources = some granted }

-- The run with both entries settled.
abbrev pub run_both : GraphRunState
run_both = record run_half {
  frontier = record {
    nodes =
        node_with "a" (succeeded continue_routing)
        ∷ node_with "b" (succeeded continue_routing)
        ∷ [];
  };
  execution = none;
  revision = 3;
}
