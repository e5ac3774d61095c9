-- ===== src/Execution/Admission/Claims.antt =====
-- admission.py: the acquisitions that the claim of a frontier makes.
use motev.Base.{
  Dict, Ensures, Ensures-bind, Ensures-if, Ensures-next, Ensures-ok, In, In-append_last, List,
  Option, [], ap, false, get, if◌then◌else◌, inl, inr, is_empty, is_some, key_error, last?, list_eq,
  nat_eq, nat_ord, none, ok, option_eq, or_raise, put, raise_if, raise_if-eq-ok, refl,
  resource_error, some, sort_by-In, string_eq, string_ord, subst, sym, true, ℕ, ◌++◌, ◌/=◌, ◌>>=◌,
  ◌>>◌, ◌∙◌, ◌∷◌, ◌≡◌, ◌≢◌, ◌⊎◌,
}
use motev.Execution.Admission.{
  AdmissionProgress, TaskAdmission, acquisition_for, admit_loop, admit_task, admit_tasks,
  claim_resource_snapshot, initial_resource_snapshot, place, resource_tasks_of,
}
use motev.Execution.Admission.Selection.{Known}
use motev.Execution.Graph.{
  CompiledGraph, GraphNode, callable_node, callable_resources, item_of, nested_node,
}
use motev.Execution.Task.{GraphTask, compare_tasks, in_task_order, task_eq}
use motev.GraphState.Identity.{
  GraphNodeId, GraphRouteId, activation_eq, join_eq, occurrence_eq, occurrence_ord, reference_eq,
}
use motev.GraphState.ResourceModel.{
  ResourceAcquisition, ResourceId, ResourceLock, ResourceSnapshot, acquire_resources, is_admitted,
  snapshot_eq,
}
use motev.GraphState.ResourceReducer.{
  acquire, acquire_some, advance_acquisition, advance_loop, apply_command, can_acquire,
  reduce_resources, validate_resource_snapshot,
}
use motev.GraphState.ResourceReducer.Admission.{or_raise-some}

advance_loop-keeps :
    (positions : Dict ResourceId ℕ) (a : ResourceAcquisition) (remaining acquired : List ResourceId)
    (locks : List ResourceLock)
    → Ensures
        (λ r. (r.1.node_id ≡ a.node_id) × (r.1.required ≡ a.required))
        (advance_loop positions a remaining acquired locks)
unfolding advance_loop
advance_loop-keeps positions a [] acquired locks = Ensures-ok _ (refl, refl)
advance_loop-keeps positions a (first ∷ remaining) acquired locks = Ensures-next _ _ λ i.
    Ensures-next _ _ λ lock.
      Ensures-if (can_acquire lock a.node_id) _ _
        (λ _. advance_loop-keeps positions a remaining _ _) (λ _. Ensures-ok _ (refl, refl))

-- What an acquisition appends.
abbrev Appends : ResourceSnapshot → GraphNodeId → List ResourceId → ResourceSnapshot → Type 0
Appends s node_id resources t =
    (b : ResourceAcquisition) × (t.acquisitions ≡ s.acquisitions ++ b ∷ [])
    × (b.node_id ≡ node_id)
    × (b.required ≡ resources)

acquire-Appends :
    (s : ResourceSnapshot) (node_id : GraphNodeId) (resources : List ResourceId)
    → is_empty resources ≡ false
    → Ensures (Appends s node_id resources) (acquire s node_id resources)
unfolding acquire acquire_some advance_acquisition
acquire-Appends s node_id resources some_ids = Ensures-next _ _ λ _. rw some_ids (
    Ensures-next _ _ λ _. Ensures-next _ _ λ _. Ensures-next _ _ λ _. Ensures-next _ _ λ _.
      Ensures-bind _ _ λ r advanced. Ensures-ok _ (
        let keeps =
          (advance_loop-keeps _
              (record {
                node_id = node_id;
                required = resources;
                acquired = [];
                waiting_for = none;
              })
              _ _ _).at
            r advanced in
        (r.1, refl, keeps.0, keeps.1)))

reduce_resources-Appends :
    (s : ResourceSnapshot) (node_id : GraphNodeId) (resources : List ResourceId)
    → is_empty resources ≡ false
    → Ensures
        (λ t. Appends s node_id resources t × (validate_resource_snapshot t ≡ ok tt))
        (reduce_resources s (acquire_resources node_id resources))
unfolding reduce_resources apply_command
reduce_resources-Appends s node_id resources some_ids = Ensures-next _ _ λ _.
    Ensures-bind _ _ λ t acquired. Ensures-bind _ _ λ done valid.
      Ensures-ok _ ((acquire-Appends s node_id resources some_ids).at t acquired, valid)

module _ (graph : CompiledGraph) (tasks : List GraphTask) where
  -- An acquisition belongs to a task: its node is callable and requires what the acquisition does.
  pub record Owned (a : ResourceAcquisition) : Type 0 where
    pub task : GraphTask
    pub exported : List GraphRouteId
    pub is_task : In task tasks
    pub same_node : task.node_id ≡ a.node_id
    pub is_callable : get graph.nodes task.node_id ≡ some (callable_node a.required exported)

  -- The invariant of the loop of `admit_tasks`.
  pub record Fits (s : ResourceSnapshot) : Type 0 where
    pub valid : (s.acquisitions ≡ []) ⊎ (validate_resource_snapshot s ≡ ok tt)
    pub owned : (a : ResourceAcquisition) → In a s.acquisitions → Owned a

  acquisition_for-Fits :
      (progress : AdmissionProgress) (task : GraphTask) (resources : List ResourceId)
      (exported : List GraphRouteId)
      → Fits progress.proposed
      → In task tasks
      → get graph.nodes task.node_id ≡ some (callable_node resources exported)
      → is_empty resources ≡ false
      → Ensures (λ found. Fits found.0.proposed) (acquisition_for progress task.node_id resources)
  unfolding acquisition_for
  acquisition_for-Fits progress task resources exported f i at some_ids =
      elim (get progress.by_node task.node_id)
        as (λ o.
          Ensures (λ (found : AdmissionProgress × ResourceAcquisition). Fits found.0.proposed)
            (elim o [
              | some a ↦
                  raise_if (a.required /= resources)
                    (resource_error "node acquisition does not match compiled requirements")
                  >> ok (progress, a)
              | none ↦
                  reduce_resources progress.proposed (acquire_resources task.node_id resources)
                  >>= λ proposed.
                      or_raise (last? proposed.acquisitions) (key_error "tuple index out of range")
                      >>= λ a. ok (
                        record progress {
                          proposed = proposed;
                          by_node = put progress.by_node task.node_id a;
                        },
                        a,
                      )
            ])) [
              | some a ↦ Ensures-next _ _ λ _. Ensures-ok _ f
              | none ↦ Ensures-bind _ _ λ proposed reduced. Ensures-next _ _ λ a. Ensures-ok _ (
                  let (appended, valid) =
                    (reduce_resources-Appends progress.proposed task.node_id resources some_ids).at
                      proposed reduced in
                  let (b, same, node, required) = appended in
                  record {
                    valid = inr valid;
                    owned = λ c j.
                        elim (In-append_last c b progress.proposed.acquisitions
                          (subst (λ items. In c items) same j)) [
                            | inl old ↦ f.owned c old
                            | inr new ↦ subst Owned (sym new) (record {
                              task = task;
                              exported = exported;
                              is_task = i;
                              same_node = sym node;
                              is_callable =
                                  subst
                                    (λ ids.
                                      get graph.nodes task.node_id
                                      ≡ some (callable_node ids exported))
                                    (sym required) at;
                            })
                          ];
                  })
            ]

  place-proposed :
      (progress : AdmissionProgress) (node_id : GraphNodeId) (a : ResourceAcquisition)
      → (place progress node_id a).proposed ≡ progress.proposed
  unfolding place
  place-proposed progress node_id a =
      elim (is_admitted a)
        as (λ b.
          (if b
            then record progress { admitted = progress.admitted ++ node_id ∷ [] }
            else record progress { waiting = progress.waiting ++ node_id ∷ [] }).proposed
          ≡ progress.proposed) [ true ↦ refl | false ↦ refl ]

  admit_task-Fits :
      (progress : AdmissionProgress) (task : GraphTask)
      → Fits progress.proposed
      → In task tasks
      → Ensures
          (λ (following : AdmissionProgress). Fits following.proposed)
          (admit_task graph progress task)
  unfolding admit_task item_of
  admit_task-Fits progress task f i = Ensures-bind _ _ λ definition found.
      Ensures-bind _ _ λ resources required.
        Ensures-if (is_empty resources) _ _ (λ _. Ensures-next _ _ λ _. Ensures-ok _ f)
          (λ some_ids. Ensures-bind _ _ λ r acquired. Ensures-ok _ (
            subst Fits (sym (place-proposed r.0 task.node_id r.1)) (
              by_kind definition resources (or_raise-some _ _ _ found) required some_ids r
                acquired)))
    where
      of_ok : {x y : List ResourceId} → ok x ≡ ok y → x ≡ y
      of_ok h = cc

      by_kind :
          (definition : GraphNode) (resources : List ResourceId)
          → get graph.nodes task.node_id ≡ some definition
          → or_raise
              (callable_resources definition)
              (resource_error "admission only accepts executable node tasks")
            ≡ ok resources
          → is_empty resources ≡ false
          → (r : AdmissionProgress × ResourceAcquisition)
          → acquisition_for progress task.node_id resources ≡ ok r
          → Fits r.0.proposed
      by_kind nested_node resources found required some_ids r acquired = cc
      by_kind (callable_node ids exported) resources found required some_ids r acquired =
          let same : ids ≡ resources = of_ok required in
          (acquisition_for-Fits progress task resources exported f i
              (found ∙ ap (λ (x : List ResourceId). some (callable_node x exported)) same)
              some_ids).at
            r acquired

  admit_loop-Fits :
      (progress : AdmissionProgress) (items : List GraphTask)
      → Fits progress.proposed
      → ((task : GraphTask) → In task items → In task tasks)
      → Ensures (λ (last : AdmissionProgress). Fits last.proposed) (admit_loop graph progress items)
  unfolding admit_loop
  admit_loop-Fits progress [] f within = Ensures-ok _ f
  admit_loop-Fits progress (task ∷ items) f within = Ensures-bind _ _ λ following admitted.
      admit_loop-Fits following items
        ((admit_task-Fits progress task f (within task (inl refl))).at following admitted)
        (λ other i. within other (inr i))

in_task_order-In :
    (tasks : List GraphTask) (task : GraphTask) → In task (in_task_order tasks) → In task tasks
unfolding in_task_order
in_task_order-In tasks task i = sort_by-In compare_tasks task tasks i

admit_tasks-Fits :
    (graph : CompiledGraph) (tasks : List GraphTask)
    → Ensures
        (λ (admission : TaskAdmission). Fits graph tasks admission.snapshot)
        (admit_tasks graph tasks (initial_resource_snapshot graph))
unfolding admit_tasks initial_resource_snapshot
admit_tasks-Fits graph tasks = Ensures-next _ _ λ _. Ensures-next _ _ λ _. Ensures-next _ _ λ _.
    Ensures-next _ _ λ _. Ensures-bind _ _ λ last admitted. Ensures-ok _ (
      (admit_loop-Fits graph tasks _ (in_task_order tasks)
          (record { valid = inl refl; owned = λ a i. absurd i })
          (λ task i. in_task_order-In tasks task i)).at
        last admitted)

resource_tasks_of-In :
    (graph : CompiledGraph) (tasks : List GraphTask)
    → Ensures
        (λ (chosen : List GraphTask). (task : GraphTask) → In task chosen → In task tasks)
        (resource_tasks_of graph tasks)
unfolding resource_tasks_of
resource_tasks_of-In graph [] = Ensures-ok _ (λ task i. i)
resource_tasks_of-In graph (first ∷ tasks) = Ensures-next _ _ λ definition.
    Ensures-bind _ _ λ rest f. Ensures-ok _ (λ task i.
      within task rest definition (λ j. (resource_tasks_of-In graph tasks).at rest f task j) i)
  where
    within :
        (task : GraphTask) (rest : List GraphTask) (definition : GraphNode)
        → (In task rest → In task tasks)
        → In task (elim (callable_resources definition) [
          | none ↦ rest
          | some resources ↦ if is_empty resources then rest else first ∷ rest
        ])
        → In task (first ∷ tasks)
    within task rest nested_node h i = inr (h i)
    within task rest (callable_node [] exported) h i = inr (h i)
    within task rest (callable_node (id ∷ ids) exported) h (inl e) = inl e
    within task rest (callable_node (id ∷ ids) exported) h (inr i) = inr (h i)

-- The nodes of the tasks stand in the graph, and one that requires resources is chosen.
resource_tasks_of-Known :
    (graph : CompiledGraph) (tasks : List GraphTask)
    → Ensures
        (λ (chosen : List GraphTask).
          Known graph tasks
          × ((task : GraphTask) (id : ResourceId) (ids : List ResourceId)
                (exported : List GraphRouteId)
              → In task tasks
              → get graph.nodes task.node_id ≡ some (callable_node (id ∷ ids) exported)
              → In task chosen))
        (resource_tasks_of graph tasks)
unfolding resource_tasks_of item_of
resource_tasks_of-Known graph [] = Ensures-ok _ (λ task i. absurd i, λ task id ids exported i e. i)
resource_tasks_of-Known graph (first ∷ tasks) = Ensures-bind _ _ λ definition found.
    Ensures-bind _ _ λ rest f.
      let at = or_raise-some _ _ _ found in
      let (known, chosen) = (resource_tasks_of-Known graph tasks).at rest f in
      Ensures-ok _ (
        λ task i. elim i [
          | inl e ↦
              subst (λ (t : GraphTask). is_some (get graph.nodes t.node_id) ≡ true) (sym e)
                (found_some first definition at)
          | inr j ↦ known task j
        ],
        λ task id ids exported i e.
            by_kind task id ids exported definition rest at e (λ j. chosen task id ids exported j e)
              i,
      )
  where
    found_some :
        (task : GraphTask) (definition : GraphNode)
        → get graph.nodes task.node_id ≡ some definition
        → is_some (get graph.nodes task.node_id) ≡ true
    found_some task definition e = rw e refl

    by_kind :
        (task : GraphTask) (id : ResourceId) (ids : List ResourceId) (exported : List GraphRouteId)
        (definition : GraphNode) (rest : List GraphTask)
        → get graph.nodes first.node_id ≡ some definition
        → get graph.nodes task.node_id ≡ some (callable_node (id ∷ ids) exported)
        → (In task tasks → In task rest)
        → In task (first ∷ tasks)
        → In task (elim (callable_resources definition) [
          | none ↦ rest
          | some resources ↦ if is_empty resources then rest else first ∷ rest
        ])
    by_kind task id ids exported nested_node rest at e h (inl same) = cc
    by_kind task id ids exported nested_node rest at e h (inr i) = h i
    by_kind task id ids exported (callable_node [] other) rest at e h (inl same) = cc
    by_kind task id ids exported (callable_node [] other) rest at e h (inr i) = h i
    by_kind task id ids exported (callable_node (a ∷ as_ids) other) rest at e h (inl same) =
        inl same
    by_kind task id ids exported (callable_node (a ∷ as_ids) other) rest at e h (inr i) = inr (h i)

Fits-within :
    (graph : CompiledGraph) (chosen tasks : List GraphTask) (s : ResourceSnapshot)
    → ((task : GraphTask) → In task chosen → In task tasks)
    → Fits graph chosen s
    → Fits graph tasks s
Fits-within graph chosen tasks s within f = record {
  valid = f.valid;
  owned = λ a i.
      let o = f.owned a i in
      record {
        task = o.task;
        exported = o.exported;
        is_task = within o.task o.is_task;
        same_node = o.same_node;
        is_callable = o.is_callable;
      };
}

-- What a claim returns: no snapshot if no task requires resources, else a valid one that has an
-- acquisition and whose acquisitions are all required by the nodes of tasks.
abbrev pub Claimed : CompiledGraph → List GraphTask → Option ResourceSnapshot → Type 0
Claimed graph tasks none =
    (task : GraphTask) (id : ResourceId) (ids : List ResourceId) (exported : List GraphRouteId)
    → In task tasks
    → get graph.nodes task.node_id ≢ some (callable_node (id ∷ ids) exported)
Claimed graph tasks (some made) =
    Fits graph tasks made
    × (validate_resource_snapshot made ≡ ok tt)
    × (is_empty made.acquisitions ≡ false)

pub claim_resource_snapshot-Claimed :
    (graph : CompiledGraph) (tasks : List GraphTask)
    → Ensures
        (λ snapshot. Known graph tasks × Claimed graph tasks snapshot)
        (claim_resource_snapshot graph tasks)
unfolding claim_resource_snapshot
claim_resource_snapshot-Claimed graph tasks = Ensures-bind _ _ λ chosen picked.
    let (known, has) = (resource_tasks_of-Known graph tasks).at chosen picked in
    let within = (resource_tasks_of-In graph tasks).at chosen picked in
    Ensures-if (is_empty chosen) _ _
      (λ bare.
        Ensures-ok _ (
          known,
          λ task id ids exported i e. nobody chosen task bare (has task id ids exported i e),
        ))
      (λ _. Ensures-bind _ _ λ admission admitted. Ensures-bind _ _ λ done not_bare.
        let f =
          Fits-within graph chosen tasks admission.snapshot within
            ((admit_tasks-Fits graph chosen).at admission admitted) in
        let some_acquisitions = raise_if-eq-ok _ _ not_bare in
        Ensures-ok _
          (known, (f, valid_of admission.snapshot f.valid some_acquisitions, some_acquisitions)))
  where
    nobody :
        (chosen : List GraphTask) (task : GraphTask) → is_empty chosen ≡ true → In task chosen → ⊥
    nobody [] task bare i = i
    nobody (first ∷ chosen) task bare i = cc

    apart : true ≡ false → ⊥
    apart h = cc

    valid_of :
        (s : ResourceSnapshot)
        → (s.acquisitions ≡ []) ⊎ (validate_resource_snapshot s ≡ ok tt)
        → is_empty s.acquisitions ≡ false
        → validate_resource_snapshot s ≡ ok tt
    valid_of s (inl bare) h = absurd (apart (sym (ap is_empty bare) ∙ h))
    valid_of s (inr valid) h = valid
