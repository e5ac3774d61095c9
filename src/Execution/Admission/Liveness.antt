-- ===== src/Execution/Admission/Liveness.antt =====
-- admission.py: the tasks of a claimed frontier that may start.
use motev.Base.{
  >>-eq-ok, In, List, Option, [], ap, arith, contains, eq_of_ne_test, false, for_each, get,
  get-dict_of_first, inl, is_distinct, is_empty, length, list_eq, map, nat_eq, nat_ord, none, not,
  ok, option_eq, raise_if, raise_if-eq-ok, refl, some, string_eq, string_ord, subst, suc, sym,
  test_of_eq, true, ◌&&◌, ◌/=◌, ◌<◌, ◌==◌, ◌||◌, ◌∙◌, ◌∷◌, ◌≡◌,
}
use motev.Execution.Admission.{
  acquisitions_in, claim_resource_snapshot, holds_resources, select_executable_tasks,
}
use motev.Execution.Admission.Claims.{Claimed, Owned, claim_resource_snapshot-Claimed}
use motev.Execution.Admission.Selection.{
  Startable, select_executable_tasks-Selection, select_executable_tasks_total,
}
use motev.Execution.Graph.{CompiledGraph, ExecutionLimits, callable_node}
use motev.Execution.Task.{GraphTask, task_eq}
use motev.GraphState.Identity.{
  GraphRouteId, activation_eq, join_eq, occurrence_eq, occurrence_ord, reference_eq,
}
use motev.GraphState.ResourceModel.{
  ResourceAcquisition, ResourceId, ResourceSnapshot, is_admitted, snapshot_eq,
}
use motev.GraphState.ResourceReducer.{
  by_node_of, validate_lock, validate_resource_snapshot, validate_shape,
}
use motev.GraphState.ResourceReducer.Admission.{first_admitted}
use motev.GraphState.ResourceReducer.Positions.{ids_of}

abbrev ShapeLengths : ResourceSnapshot → Type 0
ShapeLengths s = length (by_node_of s.acquisitions) ≡ length s.acquisitions

valid-lengths : (s : ResourceSnapshot) → validate_resource_snapshot s ≡ ok tt → ShapeLengths s
unfolding validate_resource_snapshot validate_shape
valid-lengths s h =
    let (shape, _) = >>-eq-ok (validate_shape s) _ h in
    let (_, h1) = >>-eq-ok (raise_if (not (is_distinct (ids_of s.resources))) _) _ shape in
    let (_, h2) = >>-eq-ok (for_each validate_lock s.resources) _ h1 in
    let (same, _) =
      >>-eq-ok (raise_if (length (by_node_of s.acquisitions) /= length s.acquisitions) _) _ h2 in
    eq_of_ne_test _ _ (raise_if-eq-ok _ _ same)

length-map {ℓ κ} :
    {A : Type ℓ} {B : Type κ} (f : A → B) (xs : List A) → length (map f xs) ≡ length xs
length-map f [] = refl
length-map f (x ∷ xs) = ap suc (length-map f xs)

first_by_node :
    (a : ResourceAcquisition) (rest : List ResourceAcquisition)
    → length (by_node_of (a ∷ rest)) ≡ suc (length rest)
    → get (by_node_of (a ∷ rest)) a.node_id ≡ some a
unfolding by_node_of
first_by_node a rest h =
    get-dict_of_first a.node_id a (map (λ (b : ResourceAcquisition). (b.node_id, b)) rest)
      (h ∙ ap suc (sym (length-map (λ (b : ResourceAcquisition). (b.node_id, b)) rest)))

module _ (graph : CompiledGraph) (tasks : List GraphTask) where
  -- In a valid snapshot the task of the first acquisition may start.
  first_Startable :
      (s : ResourceSnapshot) (a : ResourceAcquisition) (rest : List ResourceAcquisition)
      → validate_resource_snapshot s ≡ ok tt
      → s.acquisitions ≡ a ∷ rest
      → (o : Owned graph tasks a) → Startable graph (by_node_of s.acquisitions) [] o.task
  unfolding holds_resources is_admitted contains
  first_Startable s a rest valid e o =
      let (full, idle) = first_admitted s a rest valid e in
      let at : get (by_node_of s.acquisitions) o.task.node_id ≡ some a =
        subst (λ items. get (by_node_of items) o.task.node_id ≡ some a) (sym e)
          (subst (λ node_id. get (by_node_of (a ∷ rest)) node_id ≡ some a) (sym o.same_node)
            (first_by_node a rest (
              subst (λ items. length (by_node_of items) ≡ length items) e
                (valid-lengths s valid)))) in
      record {
        not_started = refl;
        resources = a.required;
        exported = o.exported;
        is_callable = o.is_callable;
        holds = rw (at, full, idle) (holds_own a.required);
      }
    where
      holds_own :
          (ids : List ResourceId) → is_empty ids || ((ids == ids) && true) && (ids == ids) ≡ true
      holds_own ids = ground (arith, test_of_eq ids ids refl)

  -- Some task may start after a claim, when one of the tasks is that of a callable node.
  Claimed-Startable :
      (snapshot : Option ResourceSnapshot) (task : GraphTask) (resources : List ResourceId)
      (exported : List GraphRouteId)
      → Claimed graph tasks snapshot
      → In task tasks
      → get graph.nodes task.node_id ≡ some (callable_node resources exported)
      → (other : GraphTask) × In other tasks
        × Startable graph (by_node_of (acquisitions_in snapshot)) [] other
  unfolding contains
  Claimed-Startable none task [] exported nobody i at = (
    task,
    i,
    record {
      not_started = refl;
      resources = [];
      exported = exported;
      is_callable = at;
      holds = refl;
    },
  )
  Claimed-Startable none task (id ∷ ids) exported nobody i at =
      absurd (nobody task id ids exported i at)
  Claimed-Startable (some made) task resources exported (f, valid, not_bare) i at =
      first_of made.acquisitions refl not_bare
    where
      first_of :
          (items : List ResourceAcquisition)
          → made.acquisitions ≡ items
          → is_empty items ≡ false
          → (other : GraphTask) × In other tasks
            × Startable graph (by_node_of made.acquisitions) [] other
      first_of [] e h = cc
      first_of (a ∷ rest) e h =
          let o = f.owned a (subst (In a) (sym e) (inl refl)) in
          (o.task, o.is_task, first_Startable made a rest valid e o)

-- After the claim of a frontier that has the task of a callable node, the selection of tasks that
-- may start returns at least one, when nothing was started yet and the limit allows a task.
pub claim_can_start :
    (graph : CompiledGraph) (tasks : List GraphTask) (snapshot : Option ResourceSnapshot)
    (limits : ExecutionLimits) (task : GraphTask) (resources : List ResourceId)
    (exported : List GraphRouteId)
    → claim_resource_snapshot graph tasks ≡ ok snapshot
    → In task tasks
    → get graph.nodes task.node_id ≡ some (callable_node resources exported)
    → 0 < limits.max_parallel_tasks
    → (first : GraphTask) × (others : List GraphTask) × (select_executable_tasks graph tasks
          snapshot limits 0 []
        ≡ ok (first ∷ others))
claim_can_start graph tasks snapshot limits task resources exported claimed i at room =
    let (known, made) = (claim_resource_snapshot-Claimed graph tasks).at snapshot claimed in
    let (selected, e) = select_executable_tasks_total graph tasks snapshot limits 0 [] known in
    let v = select_executable_tasks-Selection graph tasks snapshot limits 0 [] selected e in
    let (other, j, s) = Claimed-Startable graph tasks snapshot task resources exported made i at in
    some_of selected e (λ few. (other, v.complete other j s (omega arith)))
  where
    some_of :
        (selected : List GraphTask)
        → select_executable_tasks graph tasks snapshot limits 0 [] ≡ ok selected
        → (length selected ≡ 0 → (other : GraphTask) × In other selected)
        → (first : GraphTask) × (others : List GraphTask) × (select_executable_tasks graph tasks
              snapshot limits 0 []
            ≡ ok (first ∷ others))
    some_of [] e h = absurd (h refl).1
    some_of (first ∷ others) e h = (first, others, e)
