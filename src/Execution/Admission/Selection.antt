-- ===== src/Execution/Admission/Selection.antt =====
-- admission.py: which tasks `select_executable_tasks` selects.
use motev.Base.{
  Bool, Bool-cases, Dict, Ensures, Ensures-bind, Ensures-if, Ensures-ok, In, In-sort_by, List,
  Option, Option-cases, Result, [], arith, bind-eq, contains, false, get, if◌then◌else◌, inl, inr,
  is_empty, is_some, leb, leb→le, length, list_eq, nat_eq, nat_ord, ok, option_eq, refl, some,
  sort_by-In, string_eq, string_ord, subst, suc, sym, true, zero, ℕ, ◌-◌, ◌<◌, ◌>>=◌, ◌||◌, ◌∷◌,
  ◌≡◌, ◌≤◌,
}
use motev.Execution.Admission.{
  acquisitions_in, holds_resources, is_selectable, select_executable_tasks, select_loop,
}
use motev.Execution.Graph.{CompiledGraph, ExecutionLimits, callable_node, item_of, nested_node}
use motev.Execution.Task.{GraphTask, compare_tasks, in_task_order, task_eq}
use motev.GraphState.Identity.{
  GraphNodeId, GraphRouteId, activation_eq, join_eq, occurrence_eq, occurrence_ord, reference_eq,
}
use motev.GraphState.ResourceModel.{ResourceAcquisition, ResourceId, ResourceSnapshot, snapshot_eq}
use motev.GraphState.ResourceReducer.{by_node_of}

-- A task that may start: it has not been started, its node is callable, and the node holds all the
-- resources that it requires, if any.
pub record Startable (graph : CompiledGraph) (by_node : Dict GraphNodeId ResourceAcquisition)
    (started_node_ids : List GraphNodeId) (task : GraphTask) : Type 0 where
  pub not_started : contains task.node_id started_node_ids ≡ false
  pub resources : List ResourceId
  pub exported : List GraphRouteId
  pub is_callable : get graph.nodes task.node_id ≡ some (callable_node resources exported)
  pub holds : is_empty resources || holds_resources (get by_node task.node_id) resources ≡ true

module _ (graph : CompiledGraph) (by_node : Dict GraphNodeId ResourceAcquisition)
    (started_node_ids : List GraphNodeId) where
  is_selectable-Startable :
      (task : GraphTask)
      → is_selectable graph by_node started_node_ids task ≡ ok true
      → Startable graph by_node started_node_ids task
  unfolding is_selectable item_of ◌>>=◌
  is_selectable-Startable task h = elim (Bool-cases (contains task.node_id started_node_ids)) [
    | inl e ↦ absurd (ground arith)
    | inr e ↦ elim (Option-cases (get graph.nodes task.node_id)) [
      | inl missing ↦ absurd (ground arith)
      | inr (nested_node, found) ↦ absurd (ground arith)
      | inr (callable_node resources exported, found) ↦ record {
        not_started = e;
        resources = resources;
        exported = exported;
        is_callable = found;
        holds = ground arith;
      }
    ]
  ]

  Startable-is_selectable :
      (task : GraphTask)
      → Startable graph by_node started_node_ids task
      → is_selectable graph by_node started_node_ids task ≡ ok true
  unfolding is_selectable item_of ◌>>=◌
  Startable-is_selectable task s = rw (s.not_started, s.is_callable, s.holds) refl

  -- What the loop returns: tasks that may start, no more than there are slots, and all that may
  -- start if a slot is left.
  pub record Selection (slots : ℕ) (tasks selected : List GraphTask) : Type 0 where
    pub within : length selected ≤ slots
    pub sound :
        (task : GraphTask)
        → In task selected
        → In task tasks × Startable graph by_node started_node_ids task
    pub complete :
        (task : GraphTask)
        → In task tasks
        → Startable graph by_node started_node_ids task
        → length selected < slots
        → In task selected

  select_loop-Selection :
      (slots : ℕ) (tasks : List GraphTask)
      → Ensures (Selection slots tasks) (select_loop graph by_node started_node_ids slots tasks)
  unfolding select_loop
  select_loop-Selection slots [] = Ensures-ok _ (record {
    within = omega arith;
    sound = λ task i. absurd i;
    complete = λ task i s few. absurd i;
  })
  select_loop-Selection zero (task ∷ tasks) = Ensures-ok _ (record {
    within = omega arith;
    sound = λ task i. absurd i;
    complete = λ task i s few. absurd (omega arith);
  })
  select_loop-Selection (suc slots) (first ∷ tasks) = Ensures-bind _ _ λ selected e.
      elim selected
          as (λ b.
            is_selectable graph by_node started_node_ids first ≡ ok b
            → Ensures (Selection (suc slots) (first ∷ tasks)) (
                select_loop graph by_node started_node_ids (if b then slots else suc slots) tasks
                >>= λ rest. ok (if b then first ∷ rest else rest))) [
                  | true ↦ λ e. Ensures-bind _ _ λ rest f. Ensures-ok _ (
                      let v = (select_loop-Selection slots tasks).at rest f in
                      record {
                        within = omega (arith, v.within);
                        sound = λ task i. elim i [
                          | inl same ↦ (
                            inl same,
                            subst (Startable graph by_node started_node_ids) (sym same)
                                (is_selectable-Startable first e),
                          )
                          | inr j ↦ (inr (v.sound task j).0, (v.sound task j).1)
                        ];
                        complete = λ task i s few. elim i [
                          | inl same ↦ inl same
                          | inr j ↦ inr (v.complete task j s (omega arith))
                        ];
                      })
                  | false ↦ λ e. Ensures-bind _ _ λ rest f. Ensures-ok _ (
                      let v = (select_loop-Selection (suc slots) tasks).at rest f in
                      record {
                        within = v.within;
                        sound = λ task i. (inr (v.sound task i).0, (v.sound task i).1);
                        complete = λ task i s few. elim i [
                          | inl same ↦ absurd (
                              apart e (
                                Startable-is_selectable first
                                  (subst (Startable graph by_node started_node_ids) same s)))
                          | inr j ↦ v.complete task j s few
                        ];
                      })
                ]
        e
    where
      apart : {r : Result Bool} → r ≡ ok false → r ≡ ok true → ⊥
      apart a b = cc

nothing_selected :
    (graph : CompiledGraph) (by_node : Dict GraphNodeId ResourceAcquisition)
    (started_node_ids : List GraphNodeId) (slots : ℕ) (tasks : List GraphTask)
    → slots ≡ 0
    → Selection graph by_node started_node_ids slots tasks []
nothing_selected graph by_node started_node_ids slots tasks e = record {
  within = omega arith;
  sound = λ task i. absurd i;
  complete = λ task i s few. absurd (omega arith);
}

no_slots : (limit active_count : ℕ) → limit ≤ active_count → limit - active_count ≡ 0
no_slots limit active_count h = omega arith

Selection-tasks :
    (graph : CompiledGraph) (by_node : Dict GraphNodeId ResourceAcquisition)
    (started_node_ids : List GraphNodeId) (slots : ℕ) (tasks selected : List GraphTask)
    → Selection graph by_node started_node_ids slots (in_task_order tasks) selected
    → Selection graph by_node started_node_ids slots tasks selected
unfolding in_task_order
Selection-tasks graph by_node started_node_ids slots tasks selected v = record {
  within = v.within;
  sound = λ task i. (sort_by-In compare_tasks task tasks (v.sound task i).0, (v.sound task i).1);
  complete = λ task i s few. v.complete task (In-sort_by compare_tasks task tasks i) s few;
}

-- The selected tasks are tasks that may start, no more of them than the limit leaves slots beside
-- the active ones, and all that may start are selected if a slot is left.
pub select_executable_tasks-Selection :
    (graph : CompiledGraph) (tasks : List GraphTask) (snapshot : Option ResourceSnapshot)
    (limits : ExecutionLimits) (active_count : ℕ) (started_node_ids : List GraphNodeId)
    (selected : List GraphTask)
    → select_executable_tasks graph tasks snapshot limits active_count started_node_ids
      ≡ ok selected
    → Selection graph
        (by_node_of (acquisitions_in snapshot))
        started_node_ids
        (limits.max_parallel_tasks - active_count)
        tasks
        selected
unfolding select_executable_tasks
select_executable_tasks-Selection graph tasks snapshot limits active_count started_node_ids selected
      h =
    (Ensures-if (leb limits.max_parallel_tasks active_count) _ _
        (λ full. Ensures-ok _ (
          nothing_selected graph _ started_node_ids _ tasks
            (no_slots _ _ (leb→le limits.max_parallel_tasks active_count full))))
        (λ _.
          let v =
            select_loop-Selection graph (by_node_of (acquisitions_in snapshot)) started_node_ids
              (limits.max_parallel_tasks - active_count) (in_task_order tasks) in
          record {
            at =
                λ chosen e. Selection-tasks graph _ started_node_ids _ tasks chosen (v.at chosen e);
          })).at
      selected h

abbrev pub Known : CompiledGraph → List GraphTask → Type 0
Known graph tasks =
    (task : GraphTask) → In task tasks → is_some (get graph.nodes task.node_id) ≡ true

module _ (graph : CompiledGraph) (by_node : Dict GraphNodeId ResourceAcquisition)
    (started_node_ids : List GraphNodeId) where
  is_selectable_total :
      (task : GraphTask)
      → is_some (get graph.nodes task.node_id) ≡ true
      → (selected : Bool) × (is_selectable graph by_node started_node_ids task ≡ ok selected)
  unfolding is_selectable item_of ◌>>=◌
  is_selectable_total task h = elim (Bool-cases (contains task.node_id started_node_ids)) [
    | inl e ↦ rw e (false, refl)
    | inr e ↦ elim (Option-cases (get graph.nodes task.node_id)) [
      | inl missing ↦ absurd (ground arith)
      | inr (definition, found) ↦ rw (e, found) (_, refl)
    ]
  ]

  select_loop_total :
      (slots : ℕ) (tasks : List GraphTask)
      → Known graph tasks
      → (selected : List GraphTask) × (select_loop graph by_node started_node_ids slots tasks
          ≡ ok selected)
  unfolding select_loop
  select_loop_total slots [] h = ([], refl)
  select_loop_total zero (task ∷ tasks) h = ([], refl)
  select_loop_total (suc slots) (task ∷ tasks) h =
      let (selected, e) = is_selectable_total task (h task (inl refl)) in
      let (rest, f) =
        select_loop_total (if selected then slots else suc slots) tasks
          (λ other i. h other (inr i)) in
      (_, bind-eq _ _ e (bind-eq _ _ f refl))

-- A selection returns when the graph has every task's node.
pub select_executable_tasks_total :
    (graph : CompiledGraph) (tasks : List GraphTask) (snapshot : Option ResourceSnapshot)
    (limits : ExecutionLimits) (active_count : ℕ) (started_node_ids : List GraphNodeId)
    → Known graph tasks
    → (selected : List GraphTask) × (select_executable_tasks graph tasks snapshot limits
          active_count started_node_ids
        ≡ ok selected)
unfolding select_executable_tasks in_task_order
select_executable_tasks_total graph tasks snapshot limits active_count started_node_ids known =
    elim (Bool-cases (leb limits.max_parallel_tasks active_count)) [
      | inl full ↦ ([], rw full refl)
      | inr room ↦ rw room (
          select_loop_total graph (by_node_of (acquisitions_in snapshot)) started_node_ids
            (limits.max_parallel_tasks - active_count) (in_task_order tasks)
            (λ task i. known task (sort_by-In compare_tasks task tasks i)))
    ]
