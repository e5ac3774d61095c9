-- ===== src/Execution/Claim/Acceptance.antt =====
-- planner.py, admission.py, claim_stage.py and claim.py: a planned claim at the reducer, and its use.
use motev.Base.{
  Bool, In, List, Option, ap, arith, bind-eq, err, false, is_subset, is_subset-In, list_eq, map,
  map-In, nat_eq, nat_ord, ne_test_of_eq, none, not, ok, on_resource_error, option_eq, pair_eq,
  raise_if_ok, refl, some, string_eq, string_ord, subst, sym, transition_error, true, ℕ, ◌+◌, ◌>>=◌,
  ◌||◌, ◌∙◌, ◌≡◌,
}
use motev.Execution.Admission.{claim_resource_snapshot}
use motev.Execution.Admission.Claims.{Claimed, Fits, claim_resource_snapshot-Claimed}
use motev.Execution.Claim.{
  PreparedExecutionClaim, consume, prepare_claim, project_claim_command,
  require_committed_claim_state,
}
use motev.Execution.Graph.{CompiledGraph, ExecutionLimits, compiled_join_eq}
use motev.Execution.Planner.{pending_tasks, plan_tasks, task_at}
use motev.Execution.Planner.Plans.{plan_tasks-Planned}
use motev.Execution.Settlement.{collection_error}
use motev.Execution.Task.{GraphTask, task_eq}
use motev.GraphState.Command.{claim, transition}
use motev.GraphState.FrontierModel.{
  cause_eq, executable, frontier_status, frontier_status_eq, pending_node_ids,
}
use motev.GraphState.Identity.{
  GraphExecutionAttemptId, activation_eq, is_canonical_identity, join_eq, occurrence_eq,
  occurrence_ord, reference_eq,
}
use motev.GraphState.Model.{GraphRunState, progress_eq, run_status_eq, running, state_eq, token_eq}
use motev.GraphState.Reducer.{reduce_graph_run}
use motev.GraphState.Reducer.Claiming.{granted_claim_accepted}
use motev.GraphState.ResourceModel.{ResourceAcquisition, ResourceSnapshot, snapshot_eq}
use motev.GraphState.Transitions.{validate_claim_resources}

-- The participants of a planned claim are pending nodes.
participants_pending :
    (graph : CompiledGraph) (state : GraphRunState) (made : ResourceSnapshot)
    → Fits graph (pending_tasks state) made
    → is_subset (map (λ a. a.node_id) made.acquisitions) (pending_node_ids state.frontier) ≡ true
unfolding pending_tasks task_at
participants_pending graph state made f = is_subset-In _ _ λ node_id i.
    let (a, j, same) =
      map-In (λ (x : ResourceAcquisition). x.node_id) node_id made.acquisitions i in
    let o = f.owned a j in
    let (id, k, at) = map-In (task_at state) o.task (pending_node_ids state.frontier) o.is_task in
    subst (λ x. In x (pending_node_ids state.frontier))
      (sym (ap (λ (t : GraphTask). t.node_id) at) ∙ o.same_node ∙ sym same) k

Claimed-granted :
    (graph : CompiledGraph) (state : GraphRunState) (snapshot : Option ResourceSnapshot)
    → Claimed graph (pending_tasks state) snapshot
    → validate_claim_resources state snapshot ≡ ok tt
unfolding validate_claim_resources
Claimed-granted graph state none c = refl
Claimed-granted graph state (some made) (f, valid, some_acquisitions) =
    bind-eq _ _
      (ap (λ r. on_resource_error r (λ m. transition_error "claim resource snapshot is invalid"))
        valid)
      (bind-eq _ _ (raise_if_ok _ _ some_acquisitions)
        (raise_if_ok _ _ (ap not (participants_pending graph state made f))))

-- The state that a claim commits.
abbrev pub claimed_state :
    GraphRunState → GraphExecutionAttemptId → Option ResourceSnapshot → GraphRunState
claimed_state state attempt_id resources = record state {
  execution_sequence = state.execution_sequence + 1;
  execution = some (record {
    token = record { generation = state.execution_sequence + 1; attempt_id = attempt_id };
  });
  resources = resources;
  revision = state.revision + 1;
}

-- The reducer accepts the claim that the engine projects for the planned tasks of a running state
-- with no lease and an executable frontier, under a canonical attempt id and with the resources
-- that the tasks' claim made.
pub planned_claim_accepted :
    (graph : CompiledGraph) (state : GraphRunState) (limits : ExecutionLimits)
    (tasks : List GraphTask) (snapshot : Option ResourceSnapshot)
    (attempt_id : GraphExecutionAttemptId)
    → state.status ≡ running
    → state.execution ≡ none
    → frontier_status state.frontier ≡ ok executable
    → is_canonical_identity attempt_id ≡ true
    → plan_tasks graph state limits ≡ ok tasks
    → claim_resource_snapshot graph tasks ≡ ok snapshot
    → reduce_graph_run
        (some state)
        (transition (claim (project_claim_command state attempt_id snapshot)))
      ≡ ok (claimed_state state attempt_id snapshot)
unfolding project_claim_command
planned_claim_accepted graph state limits tasks snapshot attempt_id live idle ready named planned
      claimed =
    let p = plan_tasks-Planned graph state limits tasks live planned in
    let made = ((claim_resource_snapshot-Claimed graph tasks).at snapshot claimed).1 in
    granted_claim_accepted state (project_claim_command state attempt_id snapshot) p.valid live idle
      ready refl
      (Claimed-granted graph state snapshot
        (subst (λ items. Claimed graph items snapshot) p.all_pending made))
      named

claimed_state-tasks :
    (state : GraphRunState) (attempt_id : GraphExecutionAttemptId)
    (resources : Option ResourceSnapshot)
    → pending_tasks state ≡ pending_tasks (claimed_state state attempt_id resources)
unfolding pending_tasks task_at
claimed_state-tasks state attempt_id resources = refl

consumed_refuses :
    (prepared : PreparedExecutionClaim) (owner : ℕ) (state : GraphRunState)
    → prepared.consumed ≡ true
    → consume prepared owner state
      ≡ err (collection_error "execution claim has already been consumed")
unfolding consume ◌>>=◌
consumed_refuses prepared owner state h = rw h refl

-- Take a running state with no lease and an executable frontier, its planned tasks, the resources
-- that the tasks' claim made and a canonical attempt id. The owner of the claim that is prepared of
-- them can consume it with the state that the claim commits; the receipt gives that state and the
-- planned tasks, and the claim cannot be consumed again.
pub planned_claim_consumed :
    (graph : CompiledGraph) (state : GraphRunState) (limits : ExecutionLimits)
    (tasks : List GraphTask) (snapshot : Option ResourceSnapshot)
    (attempt_id : GraphExecutionAttemptId) (owner : ℕ)
    → state.status ≡ running
    → state.execution ≡ none
    → frontier_status state.frontier ≡ ok executable
    → is_canonical_identity attempt_id ≡ true
    → plan_tasks graph state limits ≡ ok tasks
    → claim_resource_snapshot graph tasks ≡ ok snapshot
    → (used : PreparedExecutionClaim) × (consume
          (prepare_claim owner state tasks snapshot attempt_id)
          owner
          (claimed_state state attempt_id snapshot)
        ≡ ok (
          used,
          record { state = claimed_state state attempt_id snapshot; tasks = tasks; issued = false },
        ))
      × ((other : ℕ) (later : GraphRunState)
          → consume used other later
            ≡ err (collection_error "execution claim has already been consumed"))
unfolding consume prepare_claim require_committed_claim_state
planned_claim_consumed graph state limits tasks snapshot attempt_id owner live idle ready named
      planned claimed =
    let p = plan_tasks-Planned graph state limits tasks live planned in
    let prepared : PreparedExecutionClaim = prepare_claim owner state tasks snapshot attempt_id in
    (
      record prepared { consumed = true },
      bind-eq _ _ refl (
          bind-eq _ _ (raise_if_ok _ _ (ne_test_of_eq owner owner refl)) (
            bind-eq _ _
              (bind-eq _ _
                (planned_claim_accepted graph state limits tasks snapshot attempt_id live idle ready
                  named planned claimed)
                (raise_if_ok _ _ (
                  neither (ne_test_of_eq (claimed_state state attempt_id snapshot) _ refl) (
                    ne_test_of_eq tasks _
                      (p.all_pending ∙ claimed_state-tasks state attempt_id snapshot)))))
              refl)),
      λ other later. consumed_refuses (record prepared { consumed = true }) other later refl,
    )
  where
    neither : {a b : Bool} → a ≡ false → b ≡ false → (a || b) ≡ false
    neither x y = ground arith
