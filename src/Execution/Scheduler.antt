-- ===== src/Execution/Scheduler.antt =====
-- mote-kernel/src/mote_kernel/execution/engine/scheduler.py: the pool of the live tasks of a
-- session. A live handle is the task that it executes; the events of the handles that
-- `asyncio.wait` reports as done are an argument.
pub mod Conservation
use motev.Base.{
  Bool, Dict, Error, List, Ordering, Result, [], any, contains, err, execution_error, false, get,
  is_distinct, is_empty, is_none, key_error, keys, length, list_eq, map, nat_eq, nat_ord,
  node_execution_contract_error, not, ok, option_eq, pair_eq, put_all, raise_if, remove, select,
  sort_by, string_eq, string_ord, true, ℕ, ◌++◌, ◌>>=◌, ◌>>◌, ◌||◌, ◌∷◌,
}
use motev.Execution.Settlement.{TaskResult, task_of}
use motev.Execution.Task.{GraphTask, TaskId, compare_tasks, task_eq}

-- What the pool yields: a result, or what the node raised.
pub data TaskEvent : Type 0 where
  task_done : TaskResult → TaskEvent
  task_raised : GraphTask → Error → TaskEvent

-- `event.task`
unfoldable pub event_task : TaskEvent → GraphTask
unfolding task_of
event_task (task_done result) = task_of result
event_task (task_raised task error) = task

-- `event.task.task_id`
unfoldable pub event_id : TaskEvent → TaskId
unfolding event_task
event_id event = (event_task event).task_id

unfoldable pub is_raised : TaskEvent → Bool
is_raised (task_done result) = false
is_raised (task_raised task error) = true

pub record TaskScheduler : Type 0 where
  pub live : Dict TaskId GraphTask
  pub events : List TaskEvent

-- `TaskScheduler(graph)`
abbrev pub idle_scheduler : TaskScheduler
idle_scheduler = record { live = []; events = [] }

unfoldable pub live_count : TaskScheduler → ℕ
live_count scheduler = length scheduler.live

-- `drain_pending_events`: the errors, the completions, and the pool that is left
unfoldable pub drain_pending_events :
    TaskScheduler → List TaskEvent × List TaskEvent × TaskScheduler
unfolding select is_raised
drain_pending_events scheduler = (
  select is_raised scheduler.events,
  select (λ event. not (is_raised event)) scheduler.events,
  record scheduler { events = [] },
)

-- `{task.task_id: ...}`, for the tasks in their order
abbrev pub by_task_id : List GraphTask → Dict TaskId GraphTask
by_task_id [] = []
by_task_id (task ∷ tasks) = (task.task_id, task) ∷ by_task_id tasks

unfoldable pub submit : TaskScheduler → List GraphTask → Result TaskScheduler
unfolding is_distinct any contains put_all
submit scheduler tasks =
    let submitted = keys (by_task_id tasks) in
    let existing = keys scheduler.live ++ map event_id scheduler.events in
    do
      raise_if (not (is_distinct submitted) || any (λ id. contains id submitted) existing) (
          execution_error node_execution_contract_error "a graph task was submitted more than once"
            [])
      ok (record scheduler { live = put_all scheduler.live (by_task_id tasks) })

-- `self._live.pop(event.task.task_id)`, for the events of the done handles
unfoldable pub pop_done : Dict TaskId GraphTask → List TaskEvent → Result (Dict TaskId GraphTask)
unfolding get remove event_id
pop_done live [] = ok live
pop_done live (event ∷ events) = do
  raise_if (is_none (get live (event_id event))) (key_error (event_id event))
  pop_done (remove live (event_id event)) events

unfoldable pub compare_events : TaskEvent → TaskEvent → Ordering
unfolding compare_tasks event_task
compare_events a b = compare_tasks (event_task a) (event_task b)

-- `events[0]`, with the events after it buffered; without an event an IndexError, which stands as
-- its sibling KeyError
unfoldable pub yield_first :
    Dict TaskId GraphTask → List TaskEvent → Result (TaskScheduler × TaskEvent)
yield_first live [] = err (key_error "list index out of range")
yield_first live (event ∷ events) = ok (record { live = live; events = events }, event)

-- `next_completion`, where the handles that are done have the events `done`
unfoldable pub next_completion : TaskScheduler → List TaskEvent → Result (TaskScheduler × TaskEvent)
unfolding pop_done sort_by compare_events yield_first
next_completion scheduler done = elim scheduler.events [
  | event ∷ events ↦ ok (record scheduler { events = events }, event)
  | [] ↦ do
    raise_if (is_empty scheduler.live)
        (execution_error node_execution_contract_error "there are no live graph tasks" [])
    live ← pop_done scheduler.live done
    yield_first live (sort_by compare_events done)
]

-- `aclose`, when the cancelled handles are gathered
abbrev pub close_scheduler : TaskScheduler → TaskScheduler
close_scheduler scheduler = record { live = []; events = [] }
