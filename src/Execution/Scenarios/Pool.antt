-- ===== src/Execution/Scenarios/Pool.antt =====
-- The pool at the two tasks of the small graph: both are submitted and done at once, the second one
-- raises; one event is yielded and the other one is drained from the buffer.
use motev.Base.{
  List, [], any, arith, contains, err, execution_error, is_distinct, key_error, keys, list_eq, map,
  nat_eq, nat_ord, node_execution_contract_error, none, ok, option_eq, pair_eq, put, put_all, refl,
  select, set_of, string_eq, string_ord, tally, ◌∷◌, ◌≡◌, ◌≤◌,
}
use motev.Execution.Scenarios.{task_a, task_b}
use motev.Execution.Scenarios.Steps.{plan}
use motev.Execution.Scheduler.{
  TaskEvent, TaskScheduler, by_task_id, drain_pending_events, event_id, event_task, idle_scheduler,
  is_raised, next_completion, submit, task_done, task_raised,
}
use motev.Execution.Scheduler.Conservation.{
  PoolHistory, event_completed, events_drained, pool_opened, tasks_submitted,
}
use motev.Execution.Settlement.{task_of, task_success}
use motev.Execution.Task.{TaskId, task_eq}

abbrev pub done_events : List TaskEvent
done_events = task_raised task_b (key_error "b") ∷ task_done (task_success task_a none none) ∷ []

abbrev pub pool_live : TaskScheduler
pool_live = record { live = (task_a.task_id, task_a) ∷ (task_b.task_id, task_b) ∷ []; events = [] }

abbrev pub pool_buffered : TaskScheduler
pool_buffered = record { live = []; events = task_raised task_b (key_error "b") ∷ [] }

submit_runs : submit idle_scheduler (task_a ∷ task_b ∷ []) ≡ ok pool_live
unfolding plan submit event_id put put_all set_of contains is_distinct any by_task_id
submit_runs = refl

-- A task that is live cannot be submitted again.
submit_twice :
    submit pool_live (task_b ∷ [])
    ≡ err (
        execution_error node_execution_contract_error "a graph task was submitted more than once"
          [])
unfolding plan submit event_id
submit_twice = refl

completion_runs :
    next_completion pool_live done_events
    ≡ ok (pool_buffered, task_done (task_success task_a none none))
unfolding plan next_completion
completion_runs = refl

pub done_live : (id : TaskId) → tally id (map event_id done_events) ≤ tally id (keys pool_live.live)
unfolding tally event_id event_task task_of
done_live id = ground arith

pub pool_history :
    PoolHistory
      (task_a.task_id ∷ task_b.task_id ∷ [])
      (task_b.task_id ∷ task_a.task_id ∷ [])
      idle_scheduler
unfolding drain_pending_events is_raised select event_id event_task task_of
pool_history =
    events_drained
      (event_completed done_events (tasks_submitted (task_a ∷ task_b ∷ []) pool_opened submit_runs)
        done_live completion_runs)
      refl
