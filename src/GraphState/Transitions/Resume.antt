-- ===== src/GraphState/Transitions/Resume.antt =====
-- recovery_transitions.py: `resume_graph_nodes`.
use motev.Base.{
  Dict, List, Result, [], dict_of, err, get, is_empty, is_some, list_eq, map, nat_eq, nat_ord, none,
  not, ok, option_eq, raise_if, remove, set_of, some, sorted, string_eq, string_ord,
  transition_error, ◌/=◌, ◌>>=◌, ◌>>◌, ◌||◌, ◌∷◌,
}
use motev.GraphState.Command.{ResumeGraphNodes, ResumeInterruptedNode}
use motev.GraphState.FrontierModel.{
  GraphFrontierNode, GraphNodeSettlement, cause_eq, frontier_status_eq, interrupted, override_input,
  pending,
}
use motev.GraphState.Identity.{
  GraphNodeId, activation_eq, graph_interrupt_id, join_eq, occurrence_eq, occurrence_ord,
  reference_eq,
}
use motev.GraphState.Model.{GraphRunState, progress_eq, run_status_eq, running, state_eq, token_eq}
use motev.GraphState.ResourceModel.{snapshot_eq}

-- The settlement of a node that an action resumes.
unfoldable pub resume_settlement :
    ResumeInterruptedNode → GraphNodeSettlement → Result GraphNodeSettlement
unfolding graph_interrupt_id
resume_settlement action (interrupted interrupt) = do
  raise_if
      (action.interrupt_id
        /= graph_interrupt_id interrupt.identity.run_id interrupt.identity.superstep
            interrupt.identity.node_id interrupt.identity.execution_generation)
      (transition_error "interrupt resume ID does not match the current node interrupt")
  ok (pending (override_input action.input_payload))
resume_settlement action _ =
    err (transition_error "resume action does not match its current node settlement")

-- The loop over the frontier: `actions.pop(node.node_id, None)` at each node.
unfoldable pub resume_nodes :
    Dict GraphNodeId ResumeInterruptedNode
    → List GraphFrontierNode
    → Result (List GraphFrontierNode × Dict GraphNodeId ResumeInterruptedNode)
unfolding get remove resume_settlement
resume_nodes actions [] = ok ([], actions)
resume_nodes actions (node ∷ nodes) = do
  updated ← elim (get actions node.node_id) [
    | none ↦ ok node
    | some action ↦ do
      settlement ← resume_settlement action node.settlement
      ok (record node { settlement = settlement })
  ]
  rest ← resume_nodes (remove actions node.node_id) nodes
  ok (updated ∷ rest.0, rest.1)

unfoldable pub resume_graph_nodes : GraphRunState → ResumeGraphNodes → Result GraphRunState
unfolding resume_nodes dict_of
resume_graph_nodes state command = do
  raise_if (state.status /= running || is_some state.execution || is_some state.resources)
      (transition_error "node resume requires one quiescent running graph")
  let action_ids = map (λ (a : ResumeInterruptedNode). a.node_id) command.actions
  raise_if (is_empty action_ids || action_ids /= sorted (set_of action_ids))
      (transition_error "resume actions must be non-empty, distinct, and canonical")
  resumed ←
      resume_nodes (dict_of (map (λ (a : ResumeInterruptedNode). (a.node_id, a)) command.actions))
        state.frontier.nodes
  raise_if (not (is_empty resumed.1))
      (transition_error "resume action references an unknown frontier node")
  ok (record state { frontier = record { nodes = resumed.0 } })
