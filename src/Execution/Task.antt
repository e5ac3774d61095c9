-- ===== src/Execution/Task.antt =====
-- mote-kernel/src/mote_kernel/execution/engine/task.py: the tasks of a superstep.
pub mod Injective
use motev.Base.{
  Eq, List, Ordering, String, list_eq, nat_eq, nat_ord, option_eq, sort_by, string_discrete,
  string_eq, string_ord, then_compare, ℕ, ℕ_discrete,
}
use motev.GraphState.Identity.{
  GraphNodeId, GraphRunId, activation_eq, join_eq, occurrence_eq, occurrence_ord, reference_eq,
}
use motev.GraphState.Identity.Text.{decimal, identity_field, str_append}

abbrev pub TaskId : Type 0
TaskId = String

-- `f"{len(run_id)}:{run_id}:{superstep}:{len(node_id)}:{node_id}"`
unfoldable pub task_identity : GraphRunId → ℕ → GraphNodeId → TaskId
unfolding identity_field str_append
task_identity run_id superstep node_id =
    str_append (identity_field run_id)
      (str_append ":" (str_append (decimal superstep) (str_append ":" (identity_field node_id))))

pub record GraphTask : Type 0 where
  pub task_id : TaskId
  pub run_id : GraphRunId
  pub superstep : ℕ
  pub node_id : GraphNodeId

-- The order of `sort_key`.
unfoldable pub compare_tasks : GraphTask → GraphTask → Ordering
compare_tasks a b =
    then_compare (nat_ord.cmp a.superstep b.superstep)
      (then_compare (string_ord.cmp a.node_id b.node_id) (string_ord.cmp a.task_id b.task_id))

-- `sorted(tasks, key=lambda item: item.sort_key)`
unfoldable pub in_task_order : List GraphTask → List GraphTask
unfolding sort_by compare_tasks
in_task_order tasks = sort_by compare_tasks tasks

unfoldable pub task_discrete : Discrete GraphTask
unfolding string_discrete ℕ_discrete
task_discrete = hlevel (string_discrete, ℕ_discrete)

instance abbrev pub task_eq : Eq GraphTask
task_eq = record { dec = task_discrete }
