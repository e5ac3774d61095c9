-- ===== src/Execution/Graph.antt =====
-- mote-kernel/src/mote_kernel/execution/graph/topology.py, node.py, definition.py, constants.py and
-- limits.py: the compiled plan of a graph, as far as its control flow goes.
use motev.Base.{
  Eq, List, Option, Result, String, [], any, execution_error, execution_limit_error, get, key_error,
  list_discrete, list_eq, ltb, map, nat_eq, nat_ord, none, ok, option_eq, or_raise, pair_discrete,
  pair_eq, raise_if, some, string_discrete, string_eq, string_ord, value_error, ℕ, ℕ_discrete, ◌+◌,
  ◌/=◌, ◌>>=◌, ◌>>◌, ◌||◌,
}
use motev.Execution.Identity.{mismatch, scope_run_eq}
use motev.GraphState.FrontierModel.{GraphResumeInputCodec, cause_eq, frontier_status_eq}
use motev.GraphState.Identity.{
  GraphActivationIdentity, GraphDefinitionId, GraphDefinitionVersion, GraphJoinIdentity,
  GraphJoinOccurrenceIdentity, GraphNodeId, GraphRouteId, activation_eq, join_discrete, join_eq,
  new_occurrence, occurrence_eq, occurrence_ord, reference_eq,
}
use motev.GraphState.ResourceModel.{ResourceId, snapshot_eq}

abbrev pub end_node : GraphNodeId
end_node = "__end__"

-- `FrozenMap`, by its entries.
abbrev pub FrozenMap {ℓ κ} : Type ℓ → Type κ → Type (ℓ ⊔ κ)
FrozenMap K V = List (K × V)

-- `FrozenMap.__getitem__`
unfoldable pub item_of {ℓ} : {V : Type ℓ} → FrozenMap String V → String → Result V
unfolding get
item_of entries key = or_raise (get entries key) (key_error key)

-- One Join definition and its source-to-target occurrence projection.
pub record CompiledJoin : Type 0 where
  pub identity : GraphJoinIdentity
  pub source_target_offsets : List (GraphNodeId × ℕ)

unfoldable pub compiled_join_discrete : Discrete CompiledJoin
unfolding join_discrete string_discrete ℕ_discrete
compiled_join_discrete =
    hlevel (join_discrete, list_discrete (pair_discrete string_discrete ℕ_discrete))

instance abbrev pub compiled_join_eq : Eq CompiledJoin
compiled_join_eq = record { dec = compiled_join_discrete }

-- The checks of `CompiledJoin.__post_init__`.
unfoldable pub new_compiled_join : GraphJoinIdentity → List (GraphNodeId × ℕ) → Result CompiledJoin
unfolding any
new_compiled_join identity source_target_offsets = do
  raise_if (map (λ entry. entry.0) source_target_offsets /= identity.sources)
      (value_error "compiled Join offsets must exactly cover its canonical sources")
  raise_if (any (λ entry. ltb entry.1 1) source_target_offsets)
      (value_error "compiled Join source offsets must be positive integers")
  ok (record { identity = identity; source_target_offsets = source_target_offsets })

unfoldable pub target_offset : CompiledJoin → GraphNodeId → Result ℕ
unfolding get
target_offset join source =
    or_raise (get join.source_target_offsets source)
      (mismatch "compiled Join does not contain the arrival source")

unfoldable pub occurrence_for :
    CompiledJoin → GraphActivationIdentity → Result GraphJoinOccurrenceIdentity
unfolding target_offset new_occurrence
occurrence_for join activation = do
  offset ← target_offset join activation.node_id
  new_occurrence join.identity activation.run_id (activation.superstep + offset)

-- `CallableNodeDefinition | NestedGraphNodeDefinition`: of the former its required resources and
-- exported routes, of the latter that it is nested.
pub data GraphNode : Type 0 where
  callable_node : List ResourceId → List GraphRouteId → GraphNode
  nested_node : GraphNode

-- `GraphInputPort` is its name. `NodeOutputPort`:
pub record NodeOutputPort : Type 0 where
  pub node_id : GraphNodeId
  pub output_name : String

-- Compiler-proved cases for one control-causal input.
pub record CompiledPredecessorInput : Type 0 where
  pub target : GraphNodeId
  pub input_name : String
  pub sources : List NodeOutputPort
  pub start_input : Option String

-- `GraphInputPort | NodeOutputPort | CompiledPredecessorInput`
pub data ResolvedInputSource : Type 0 where
  graph_input_port : String → ResolvedInputSource
  node_output_port : NodeOutputPort → ResolvedInputSource
  predecessor_input : CompiledPredecessorInput → ResolvedInputSource

-- `ResolvedInputBinding`, with the two fields of its `destination`, and without the descriptor and
-- the publication selection.
pub record ResolvedInputBinding : Type 0 where
  pub node_id : GraphNodeId
  pub local_name : String
  pub source : ResolvedInputSource

-- The source nodes, and the routes that each may contribute.
abbrev pub ActivationGate : Type 0
ActivationGate = List (GraphNodeId × List (Option GraphRouteId))

pub record FrontierTransitionPlan : Type 0 where
  pub entries : List GraphNodeId
  pub direct_targets : FrozenMap GraphNodeId (List GraphNodeId)
  pub conditional_targets : FrozenMap GraphNodeId (FrozenMap GraphRouteId GraphNodeId)
  pub route_options : FrozenMap GraphNodeId (List (Option GraphRouteId))
  pub joins_by_source : FrozenMap GraphNodeId (List CompiledJoin)
  pub materializations : FrozenMap GraphNodeId (List ResolvedInputBinding)
  pub resource_order : List ResourceId
  pub activation_gates : FrozenMap GraphNodeId (List ActivationGate)

pub record CompiledGraph : Type 0 where
  pub definition_id : GraphDefinitionId
  pub version : GraphDefinitionVersion
  pub nodes : FrozenMap GraphNodeId GraphNode
  pub transition : FrontierTransitionPlan
  pub resume_input : Option GraphResumeInputCodec
  pub completion_routes : List (Option GraphRouteId)

-- `definition.resources`, for a callable node.
abbrev pub callable_resources : GraphNode → Option (List ResourceId)
callable_resources (callable_node resources exported) = some resources
callable_resources nested_node = none

pub record ExecutionLimits : Type 0 where
  pub max_supersteps : ℕ
  pub max_parallel_tasks : ℕ

-- `ExecutionLimits(...)`: construction runs `__post_init__`.
unfoldable pub new_limits : ℕ → ℕ → Result ExecutionLimits
new_limits max_supersteps max_parallel_tasks = do
  raise_if (ltb max_supersteps 1 || ltb max_parallel_tasks 1)
      (execution_error execution_limit_error "execution limits must be exact positive integers" [])
  ok (record { max_supersteps = max_supersteps; max_parallel_tasks = max_parallel_tasks })
