-- ===== src/Execution/Scheduler/Conservation.antt =====
-- scheduler.py: what becomes of the tasks that are submitted to the pool.
use motev.Base.{
  >>-eq-ok, Bool, Dict, List, [], any, ap, arith, bind-eq, contains, disjoint-tally, false, get,
  get-tally, is_distinct, is_distinct-tally, is_none, key_error, keys, length, list_eq, map, nat_eq,
  nat_ord, not, ok, option_eq, or-eq-false, pair_eq, raise_if, raise_if-eq-ok, refl, remove, select,
  sort_by, string_eq, string_ord, subst, sym, tally, tally-append, tally-put_all, tally-remove,
  tally-sort_by, test_of_eq, true, ℕ, ◌++◌, ◌+◌, ◌<◌, ◌>>=◌, ◌∙◌, ◌∷◌, ◌≡◌, ◌≤◌,
}
use motev.Execution.Scheduler.{
  TaskEvent, TaskScheduler, by_task_id, compare_events, drain_pending_events, event_id,
  idle_scheduler, is_raised, next_completion, pop_done, submit, yield_first,
}
use motev.Execution.Task.{GraphTask, TaskId, task_eq}

-- How often the pool holds a task id: as a live handle and in its buffered events.
unfoldable pub held : TaskId → TaskScheduler → ℕ
unfolding tally
held id scheduler = tally id (keys scheduler.live) + tally id (map event_id scheduler.events)

-- A run of an open pool, with the ids that were submitted to it and those that it has yielded. The
-- handles that are done are live handles, each reported once.
pub data PoolHistory : List TaskId → List TaskId → TaskScheduler → Type 0 where
  pool_opened : PoolHistory [] [] idle_scheduler
  tasks_submitted :
      {given yielded : List TaskId} {s t : TaskScheduler} (tasks : List GraphTask)
      → PoolHistory given yielded s
      → submit s tasks ≡ ok t
      → PoolHistory (keys (by_task_id tasks) ++ given) yielded t
  event_completed :
      {given yielded : List TaskId} {s t : TaskScheduler} {event : TaskEvent}
      (done : List TaskEvent)
      → PoolHistory given yielded s
      → ((id : TaskId) → tally id (map event_id done) ≤ tally id (keys s.live))
      → next_completion s done ≡ ok (t, event)
      → PoolHistory given (event_id event ∷ yielded) t
  events_drained :
      {given yielded : List TaskId} {s t : TaskScheduler} {errors completions : List TaskEvent}
      → PoolHistory given yielded s
      → drain_pending_events s ≡ (errors, completions, t)
      → PoolHistory given (map event_id errors ++ (map event_id completions ++ yielded)) t

submit-held :
    (s t : TaskScheduler) (tasks : List GraphTask) (id : TaskId)
    → submit s tasks ≡ ok t
    → held id t ≡ tally id (keys (by_task_id tasks)) + held id s
unfolding submit held
submit-held s t tasks id h =
    let given = keys (by_task_id tasks) in
    let existing = keys s.live ++ map event_id s.events in
    let (guard, added) = >>-eq-ok (raise_if _ _) _ h in
    let (distinct, apart) =
      or-eq-false (not (is_distinct given)) (any (λ b. contains b given) existing)
        (raise_if-eq-ok _ _ guard) in
    let all_added =
      tally-put_all id s.live (by_task_id tasks) (λ b. is_distinct-tally b given (holds distinct))
        (λ b i.
          first_none _ (tally-append b (keys s.live) (map event_id s.events))
            (disjoint-tally b existing given apart i)) in
    subst (λ u. held id u ≡ tally id given + held id s) (same added) (omega (arith, all_added))
  where
    holds : {b : Bool} → not b ≡ false → b ≡ true
    holds h = ground arith

    same : {u v : TaskScheduler} → ok u ≡ ok v → u ≡ v
    same h = cc

    first_none : {n k : ℕ} (m : ℕ) → n ≡ k + m → n ≡ 0 → k ≡ 0
    first_none m h e = omega arith

pop_done-tally :
    (live : Dict TaskId GraphTask) (done : List TaskEvent)
    → ((id : TaskId) → tally id (map event_id done) ≤ tally id (keys live))
    → (left : Dict TaskId GraphTask) × (pop_done live done ≡ ok left)
      × ((id : TaskId) → tally id (map event_id done) + tally id (keys left) ≡ tally id (keys live))
unfolding pop_done tally ◌>>=◌
pop_done-tally live [] within = (live, refl, λ id. omega arith)
pop_done-tally live (event ∷ done) within =
    let here = get-tally live (event_id event) (own (within (event_id event))) in
    let (left, e, balance) =
      pop_done-tally (remove live (event_id event)) done
        (λ id. others id (within id) (tally-remove id live (event_id event) here)) in
    (
      left,
      bind-eq (raise_if (is_none (get live (event_id event))) (key_error (event_id event)))
          (λ passed. pop_done (remove live (event_id event)) done)
          (ap (λ b. raise_if b (key_error (event_id event))) here) e,
      λ id. ground (arith, balance id, tally-remove id live (event_id event) here),
    )
  where
    own :
        tally (event_id event) (event_id event ∷ map event_id done)
          ≤ tally (event_id event) (keys live)
        → 1 ≤ tally (event_id event) (keys live)
    own h = ground (arith, test_of_eq (event_id event) (event_id event) refl)

    others :
        (id : TaskId)
        → tally id (event_id event ∷ map event_id done) ≤ tally id (keys live)
        → tally id (event_id event ∷ keys (remove live (event_id event))) ≡ tally id (keys live)
        → tally id (map event_id done) ≤ tally id (keys (remove live (event_id event)))
    others id h r = ground arith

select-tally :
    (p : TaskEvent → Bool) (events : List TaskEvent) (id : TaskId)
    → tally id (map event_id (select p events))
        + tally id (map event_id (select (λ event. not (p event)) events))
      ≡ tally id (map event_id events)
unfolding select tally
select-tally p [] id = omega arith
select-tally p (event ∷ events) id = ground (arith, select-tally p events id)

-- The first of the events that are done is yielded, the others are buffered.
yield_first_yields :
    (left : Dict TaskId GraphTask) (events : List TaskEvent)
    → ¬ (events ≡ [])
    → (t : TaskScheduler) × (event : TaskEvent) × (yield_first left events ≡ ok (t, event))
      × ((id : TaskId)
          → tally id (event_id event ∷ []) + held id t
            ≡ tally id (map event_id events) + tally id (keys left))
unfolding yield_first held tally
yield_first_yields left [] h = absurd (h refl)
yield_first_yields left (event ∷ events) h =
    (record { live = left; events = events }, event, refl, λ id. ground arith)

-- Where the handles that are done are live ones, and an event is buffered or a handle is done, the
-- pool yields an event, of an id that it held, and goes on holding exactly the others.
pub next_completion_yields :
    (s : TaskScheduler) (done : List TaskEvent)
    → ((id : TaskId) → tally id (map event_id done) ≤ tally id (keys s.live))
    → 0 < length s.events + length done
    → (t : TaskScheduler) × (event : TaskEvent) × (next_completion s done ≡ ok (t, event))
      × ((id : TaskId) → tally id (event_id event ∷ []) + held id t ≡ held id s)
unfolding next_completion held tally ◌>>=◌
next_completion_yields s done within some_event = of_parts s.live s.events done within some_event
  where
    of_parts :
        (live : Dict TaskId GraphTask) (events done : List TaskEvent)
        → ((id : TaskId) → tally id (map event_id done) ≤ tally id (keys live))
        → 0 < length events + length done
        → (t : TaskScheduler) × (event : TaskEvent) × (next_completion
              (record { live = live; events = events })
              done
            ≡ ok (t, event))
          × ((id : TaskId)
              → tally id (event_id event ∷ []) + held id t
                ≡ held id (record { live = live; events = events }))
    of_parts live (event ∷ events) done within some_event =
        (record { live = live; events = events }, event, refl, λ id. ground arith)
    of_parts live [] [] within some_event = absurd (omega arith)
    of_parts [] [] (event ∷ done) within some_event = absurd (nothing (within (event_id event)))
      where
        nothing : tally (event_id event) (event_id event ∷ map event_id done) ≤ 0 → ⊥
        nothing h = ground (arith, test_of_eq (event_id event) (event_id event) refl)
    of_parts (handle ∷ live) [] (event ∷ done) within some_event =
        let (left, popped, balance) = pop_done-tally (handle ∷ live) (event ∷ done) within in
        let (t, first, e, others) =
          yield_first_yields left (sort_by compare_events (event ∷ done))
            (not_empty (tally-sort_by event_id compare_events (event_id event) (event ∷ done))) in
        (
          t,
          first,
          bind-eq (pop_done (handle ∷ live) (event ∷ done)) _ popped e,
          λ id. omega (
            arith,
            others id,
            tally-sort_by event_id compare_events id (event ∷ done),
            balance id,
          ),
        )
      where
        not_empty :
            tally (event_id event) (map event_id (sort_by compare_events (event ∷ done)))
              ≡ tally (event_id event) (map event_id (event ∷ done))
            → ¬ (sort_by compare_events (event ∷ done) ≡ [])
        not_empty h empty =
            let none_left = ap (λ events. tally (event_id event) (map event_id events)) empty in
            ground (arith, test_of_eq (event_id event) (event_id event) refl)

yields_some :
    (s : TaskScheduler) (done : List TaskEvent) (r : TaskScheduler × TaskEvent)
    → next_completion s done ≡ ok r
    → 0 < length s.events + length done
unfolding next_completion pop_done yield_first ◌>>=◌
yields_some s done r h = of_parts s.live s.events done h
  where
    of_parts :
        (live : Dict TaskId GraphTask) (events done : List TaskEvent)
        → next_completion (record { live = live; events = events }) done ≡ ok r
        → 0 < length events + length done
    of_parts live (event ∷ events) done h = omega arith
    of_parts live [] (event ∷ done) h = omega arith
    of_parts [] [] [] h = cc
    of_parts (handle ∷ live) [] [] h = cc

next_completion-held :
    (s t : TaskScheduler) (done : List TaskEvent) (event : TaskEvent) (id : TaskId)
    → ((id : TaskId) → tally id (map event_id done) ≤ tally id (keys s.live))
    → next_completion s done ≡ ok (t, event)
    → tally id (event_id event ∷ []) + held id t ≡ held id s
next_completion-held s t done event id within h =
    let (_, _, e, others) = next_completion_yields s done within (yields_some s done _ h) in
    subst
      (λ (r : TaskScheduler × TaskEvent). tally id (event_id r.1 ∷ []) + held id r.0 ≡ held id s)
      (same (sym e ∙ h)) (others id)
  where
    same : {u v : TaskScheduler × TaskEvent} → ok u ≡ ok v → u ≡ v
    same h = cc

drain-held :
    (s : TaskScheduler) (r : List TaskEvent × List TaskEvent × TaskScheduler) (id : TaskId)
    → drain_pending_events s ≡ r
    → tally id (map event_id r.0) + tally id (map event_id r.1) + held id r.2 ≡ held id s
unfolding drain_pending_events held
drain-held s r id h =
    subst
      (λ (r : List TaskEvent × List TaskEvent × TaskScheduler).
        tally id (map event_id r.0) + tally id (map event_id r.1) + held id r.2 ≡ held id s)
      h (omega (arith, select-tally is_raised s.events id))

-- No completion is lost and none is yielded twice: in every run of an open pool, each id has been
-- yielded, or is still held, exactly as often as it was submitted.
pub completions_conserved :
    (given yielded : List TaskId) (s : TaskScheduler) (id : TaskId)
    → PoolHistory given yielded s
    → tally id yielded + held id s ≡ tally id given
unfolding held
completions_conserved given yielded s id pool_opened = omega arith
completions_conserved given yielded s id (tasks_submitted {given = before} {s = r} tasks h e) =
    omega (
      arith,
      submit-held r s tasks id e,
      completions_conserved before yielded r id h,
      tally-append id (keys (by_task_id tasks)) before,
    )
completions_conserved given yielded s id
      (event_completed {yielded = before} {s = r} {event} done h within e) =
    omega (
      arith,
      next_completion-held r s done event id within e,
      completions_conserved given before r id h,
      tally-append id (event_id event ∷ []) before,
    )
completions_conserved given yielded s id
      (events_drained {yielded = before} {s = r} {errors} {completions} h e) =
    omega (
      arith,
      drain-held r (errors, completions, s) id e,
      completions_conserved given before r id h,
      tally-append id (map event_id errors) (map event_id completions ++ before),
      tally-append id (map event_id completions) before,
    )
