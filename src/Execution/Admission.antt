-- ===== src/Execution/Admission.antt =====
-- mote-kernel/src/mote_kernel/execution/engine/admission.py: the acquisition of a frontier's
-- resources in task order, and the selection of the tasks that may start.
pub mod Selection
pub mod Claims
pub mod Liveness
use motev.Base.{
  Bool, Dict, List, Option, Result, [], contains, execution_error, false, get, if◌then◌else◌,
  is_distinct, is_empty, is_some, is_subset, key_error, last?, leb, list_eq, map, nat_eq, nat_ord,
  none, not, ok, option_eq, or_raise, put, raise_if, resource_error, result_collection_error, some,
  string_eq, string_ord, suc, zero, ℕ, ◌&&◌, ◌++◌, ◌-◌, ◌/=◌, ◌==◌, ◌>>=◌, ◌>>◌, ◌||◌, ◌∷◌,
}
use motev.Execution.Graph.{CompiledGraph, ExecutionLimits, callable_resources, item_of}
use motev.Execution.Task.{GraphTask, in_task_order, task_eq}
use motev.GraphState.Identity.{
  GraphNodeId, activation_eq, join_eq, occurrence_eq, occurrence_ord, reference_eq,
}
use motev.GraphState.ResourceModel.{
  ResourceAcquisition, ResourceId, ResourceSnapshot, acquire_resources, is_admitted, snapshot_eq,
}
use motev.GraphState.ResourceReducer.{by_node_of, reduce_resources}

unfoldable pub initial_resource_snapshot : CompiledGraph → ResourceSnapshot
initial_resource_snapshot graph = record {
  resources =
      map (λ resource_id. record { resource_id = resource_id; owner = none; waiters = [] })
        graph.transition.resource_order;
  acquisitions = [];
}

pub record TaskAdmission : Type 0 where
  pub snapshot : ResourceSnapshot
  pub admitted_node_ids : List GraphNodeId
  pub waiting_node_ids : List GraphNodeId

-- The variables of the loop of `admit_tasks`.
pub record AdmissionProgress : Type 0 where
  pub proposed : ResourceSnapshot
  pub by_node : Dict GraphNodeId ResourceAcquisition
  pub admitted : List GraphNodeId
  pub waiting : List GraphNodeId

-- The acquisition of a node that requires resources: the one that it has, or a new one.
unfoldable pub acquisition_for :
    AdmissionProgress
    → GraphNodeId
    → List ResourceId
    → Result (AdmissionProgress × ResourceAcquisition)
unfolding get put reduce_resources
acquisition_for progress node_id requirements = elim (get progress.by_node node_id) [
  | some a ↦ do
    raise_if (a.required /= requirements)
        (resource_error "node acquisition does not match compiled requirements")
    ok (progress, a)
  | none ↦ do
    proposed ← reduce_resources progress.proposed (acquire_resources node_id requirements)
    a ← or_raise (last? proposed.acquisitions) (key_error "tuple index out of range")
    ok (record progress { proposed = proposed; by_node = put progress.by_node node_id a }, a)
]

-- `(admitted if acquisition.admitted else waiting).append(task.node_id)`
unfoldable pub place : AdmissionProgress → GraphNodeId → ResourceAcquisition → AdmissionProgress
unfolding is_admitted
place progress node_id a =
    if is_admitted a
    then record progress { admitted = progress.admitted ++ node_id ∷ [] }
    else record progress { waiting = progress.waiting ++ node_id ∷ [] }

-- The body of the loop of `admit_tasks`.
unfoldable pub admit_task : CompiledGraph → AdmissionProgress → GraphTask → Result AdmissionProgress
unfolding item_of acquisition_for place get
admit_task graph progress task = do
  definition ← item_of graph.nodes task.node_id
  requirements ←
      or_raise (callable_resources definition)
        (resource_error "admission only accepts executable node tasks")
  if is_empty requirements
      then (do
        raise_if (is_some (get progress.by_node task.node_id))
            (resource_error "resource-free node unexpectedly has an acquisition")
        ok progress)
      else do
        found ← acquisition_for progress task.node_id requirements
        ok (place found.0 task.node_id found.1)

unfoldable pub admit_loop :
    CompiledGraph → AdmissionProgress → List GraphTask → Result AdmissionProgress
unfolding admit_task
admit_loop graph progress [] = ok progress
admit_loop graph progress (task ∷ tasks) = do
  following ← admit_task graph progress task
  admit_loop graph following tasks

unfoldable pub admit_tasks :
    CompiledGraph → List GraphTask → ResourceSnapshot → Result TaskAdmission
unfolding admit_loop in_task_order is_distinct is_subset by_node_of
admit_tasks graph tasks snapshot = do
  raise_if (map (λ lock. lock.resource_id) snapshot.resources /= graph.transition.resource_order)
      (resource_error "resource snapshot does not match compiled resource order")
  let planned = map (λ task. task.node_id) tasks
  raise_if (not (is_distinct planned))
      (resource_error "admission tasks must have unique node identities")
  raise_if (not (is_subset planned (map (λ entry. entry.0) graph.nodes)))
      (resource_error "admission task references an unknown graph node")
  raise_if (not (is_subset (map (λ a. a.node_id) snapshot.acquisitions) planned))
      (resource_error "resource snapshot contains an acquisition outside planned nodes")
  last ←
      admit_loop graph
        (record {
          proposed = snapshot;
          by_node = by_node_of snapshot.acquisitions;
          admitted = [];
          waiting = [];
        })
        (in_task_order tasks)
  ok (record {
    snapshot = last.proposed;
    admitted_node_ids = last.admitted;
    waiting_node_ids = last.waiting;
  })

-- The tasks of callable nodes that require resources.
unfoldable pub resource_tasks_of : CompiledGraph → List GraphTask → Result (List GraphTask)
unfolding item_of
resource_tasks_of graph [] = ok []
resource_tasks_of graph (task ∷ tasks) = do
  definition ← item_of graph.nodes task.node_id
  rest ← resource_tasks_of graph tasks
  ok (elim (callable_resources definition) [
    | none ↦ rest
    | some resources ↦ if is_empty resources then rest else task ∷ rest
  ])

unfoldable pub claim_resource_snapshot :
    CompiledGraph → List GraphTask → Result (Option ResourceSnapshot)
unfolding resource_tasks_of admit_tasks initial_resource_snapshot
claim_resource_snapshot graph tasks = do
  resource_tasks ← resource_tasks_of graph tasks
  if is_empty resource_tasks then ok none else do
    admission ← admit_tasks graph resource_tasks (initial_resource_snapshot graph)
    raise_if (is_empty admission.snapshot.acquisitions) (
        execution_error result_collection_error
          "resource admission did not create acquisition participants" [])
    ok (some admission.snapshot)

-- `acquisition is None or not acquisition.admitted or acquisition.required != definition.resources`
unfoldable pub holds_resources : Option ResourceAcquisition → List ResourceId → Bool
unfolding is_admitted
holds_resources none resources = false
holds_resources (some a) resources = is_admitted a && a.required == resources

-- Whether the body of the loop of `select_executable_tasks` selects the task.
unfoldable pub is_selectable :
    CompiledGraph
    → Dict GraphNodeId ResourceAcquisition
    → List GraphNodeId
    → GraphTask
    → Result Bool
unfolding item_of holds_resources contains get
is_selectable graph by_node started_node_ids task =
    if contains task.node_id started_node_ids then ok false else do
      definition ← item_of graph.nodes task.node_id
      ok (elim (callable_resources definition) [
        | none ↦ false
        | some resources ↦
            is_empty resources || holds_resources (get by_node task.node_id) resources
      ])

-- The loop of `select_executable_tasks`, with the slots that are left: at none it breaks.
unfoldable pub select_loop :
    CompiledGraph
    → Dict GraphNodeId ResourceAcquisition
    → List GraphNodeId
    → ℕ
    → List GraphTask
    → Result (List GraphTask)
unfolding is_selectable
select_loop graph by_node started_node_ids slots [] = ok []
select_loop graph by_node started_node_ids zero (task ∷ tasks) = ok []
select_loop graph by_node started_node_ids (suc slots) (task ∷ tasks) = do
  selected ← is_selectable graph by_node started_node_ids task
  rest ← select_loop graph by_node started_node_ids (if selected then slots else suc slots) tasks
  ok (if selected then task ∷ rest else rest)

-- `snapshot.acquisitions if snapshot is not None else ()`
abbrev pub acquisitions_in : Option ResourceSnapshot → List ResourceAcquisition
acquisitions_in none = []
acquisitions_in (some snapshot) = snapshot.acquisitions

unfoldable pub select_executable_tasks :
    CompiledGraph
    → List GraphTask
    → Option ResourceSnapshot
    → ExecutionLimits
    → ℕ
    → List GraphNodeId
    → Result (List GraphTask)
unfolding select_loop in_task_order by_node_of
select_executable_tasks graph tasks snapshot limits active_count started_node_ids =
    if leb limits.max_parallel_tasks active_count
    then ok []
    else select_loop graph (by_node_of (acquisitions_in snapshot)) started_node_ids
        (limits.max_parallel_tasks - active_count) (in_task_order tasks)
