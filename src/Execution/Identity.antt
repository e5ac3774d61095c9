-- ===== src/Execution/Identity.antt =====
-- mote-kernel/src/mote_kernel/execution/identity.py: the identities of graph runs in their scope.
pub mod Lineage
use motev.Base.{
  Eq, Error, List, Result, String, [], any, drop_last, execution_error, last?, list_discrete,
  list_eq, nat_eq, nat_ord, not, ok, option_eq, raise_if, snapshot_mismatch_error, some,
  string_discrete, string_eq, string_ord, ℕ, ◌++◌, ◌/=◌, ◌>>=◌, ◌>>◌, ◌||◌, ◌∷◌,
}
use motev.GraphState.Identity.{
  GraphActivationIdentity, GraphNodeId, GraphRunId, activation_eq, child_graph_run_id,
  is_canonical_identity, join_eq, occurrence_eq, occurrence_ord, reference_eq,
}

pub record ScopeRunCoordinate : Type 0 where
  pub scope : List GraphNodeId
  pub graph_run_id : GraphRunId

unfoldable pub scope_run_discrete : Discrete ScopeRunCoordinate
unfolding string_discrete list_discrete
scope_run_discrete = hlevel (string_discrete, list_discrete string_discrete)

instance abbrev pub scope_run_eq : Eq ScopeRunCoordinate
scope_run_eq = record { dec = scope_run_discrete }

pub record StableActivation : Type 0 where
  pub scope_run : ScopeRunCoordinate
  pub superstep : ℕ
  pub node_id : GraphNodeId

-- `raise SnapshotMismatchError(message)`
abbrev pub mismatch : String → Error
mismatch message = execution_error snapshot_mismatch_error message []

-- `ScopeRunCoordinate(...)`: construction runs `__post_init__`.
unfoldable pub new_scope_run : List GraphNodeId → GraphRunId → Result ScopeRunCoordinate
unfolding any
new_scope_run scope graph_run_id = do
  raise_if
      (any (λ segment. not (is_canonical_identity segment)) scope
        || not (is_canonical_identity graph_run_id))
      (mismatch "scope-run coordinate requires canonical scope and run identity")
  ok (record { scope = scope; graph_run_id = graph_run_id })

unfoldable pub new_stable_activation :
    ScopeRunCoordinate → ℕ → GraphNodeId → Result StableActivation
new_stable_activation scope_run superstep node_id = do
  raise_if (not (is_canonical_identity node_id))
      (mismatch "stable activation requires a valid superstep and node identity")
  ok (record { scope_run = scope_run; superstep = superstep; node_id = node_id })

unfoldable pub root_scope_run : GraphRunId → Result ScopeRunCoordinate
unfolding new_scope_run
root_scope_run run_id = new_scope_run [] run_id

unfoldable pub stable_activation :
    ScopeRunCoordinate → GraphActivationIdentity → Result StableActivation
unfolding new_stable_activation
stable_activation scope_run activation = do
  raise_if (activation.run_id /= scope_run.graph_run_id)
      (mismatch "activation does not belong to its scope-run coordinate")
  new_stable_activation scope_run activation.superstep activation.node_id

unfoldable pub child_scope_run : ScopeRunCoordinate → ℕ → GraphNodeId → Result ScopeRunCoordinate
unfolding new_scope_run
child_scope_run parent_scope_run parent_superstep nested_node_id =
    new_scope_run (parent_scope_run.scope ++ nested_node_id ∷ [])
      (child_graph_run_id parent_scope_run.graph_run_id parent_superstep nested_node_id)

unfoldable pub child_scope_run_for_activation :
    ScopeRunCoordinate → GraphActivationIdentity → Result ScopeRunCoordinate
unfolding child_scope_run
child_scope_run_for_activation parent_scope_run parent = do
  raise_if (parent.run_id /= parent_scope_run.graph_run_id)
      (mismatch "parent activation does not belong to its scope-run coordinate")
  child_scope_run parent_scope_run parent.superstep parent.node_id

unfoldable pub parent_activation_for_child :
    ScopeRunCoordinate → GraphActivationIdentity → Result StableActivation
unfolding new_scope_run child_scope_run_for_activation stable_activation
parent_activation_for_child child parent = do
  raise_if (last? child.scope /= some parent.node_id)
      (mismatch "child lineage binding has inconsistent parent coordinates")
  parent_scope_run ← new_scope_run (drop_last child.scope) parent.run_id
  expected ← child_scope_run_for_activation parent_scope_run parent
  raise_if (expected /= child)
      (mismatch "child lineage binding has inconsistent parent coordinates")
  stable_activation parent_scope_run parent
