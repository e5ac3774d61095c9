-- ===== src/GraphState/ResourceModel.antt =====
-- mote-kernel/src/mote_kernel/state/graph_state/resource_model.py and resource_command.py:
-- snapshots and commands of ordered exclusive-resource acquisition.
use motev.Base.{
  Bool, Eq, List, Option, String, is_none, list_discrete, list_eq, nat_eq, nat_ord, option_discrete,
  option_eq, string_discrete, string_eq, string_ord, ◌&&◌, ◌==◌,
}
use motev.GraphState.FrontierModel.{cause_eq, frontier_status_eq}
use motev.GraphState.Identity.{
  GraphNodeId, activation_eq, join_eq, occurrence_eq, occurrence_ord, reference_eq,
}

abbrev pub ResourceId : Type 0
ResourceId = String

pub record ResourceLock : Type 0 where
  pub resource_id : ResourceId
  pub owner : Option GraphNodeId
  pub waiters : List GraphNodeId

pub record ResourceAcquisition : Type 0 where
  pub node_id : GraphNodeId
  pub required : List ResourceId
  pub acquired : List ResourceId
  pub waiting_for : Option ResourceId

unfoldable pub is_admitted : ResourceAcquisition → Bool
is_admitted a = a.acquired == a.required && is_none a.waiting_for

pub record ResourceSnapshot : Type 0 where
  pub resources : List ResourceLock
  pub acquisitions : List ResourceAcquisition

unfoldable pub lock_discrete : Discrete ResourceLock
unfolding string_discrete option_discrete list_discrete
lock_discrete =
    hlevel (string_discrete, option_discrete string_discrete, list_discrete string_discrete)

unfoldable pub acquisition_discrete : Discrete ResourceAcquisition
unfolding string_discrete option_discrete list_discrete
acquisition_discrete =
    hlevel (string_discrete, option_discrete string_discrete, list_discrete string_discrete)

unfoldable pub snapshot_discrete : Discrete ResourceSnapshot
unfolding lock_discrete acquisition_discrete list_discrete
snapshot_discrete = hlevel (list_discrete lock_discrete, list_discrete acquisition_discrete)

instance abbrev pub snapshot_eq : Eq ResourceSnapshot
snapshot_eq = record { dec = snapshot_discrete }

pub data ResourceCommand : Type 0 where
  acquire_resources : GraphNodeId → List ResourceId → ResourceCommand
  release_resources : GraphNodeId → ResourceCommand
