-- ===== src/GraphState/ResourceReducer.antt =====
-- mote-kernel/src/mote_kernel/state/graph_state/resource_reducer.py: ordered exclusive-resource
-- acquisition, and the validation of a snapshot by its shape and by replay.
pub mod Positions
mod FreeLocks
pub mod Admission
use motev.Base.{
  Bool, Dict, List, Option, Ordering, Result, String, [], any, collect, contains, dict_of, drop,
  enumerate_from, find_first, for_each, get, get_elem?, if◌then◌else◌, is_distinct, is_empty,
  is_none, is_subset, key_error, length, list_eq, map, nat_eq, nat_ord, none, not, ok, option_eq,
  or_raise, put, raise_if, resource_error, reverse, select, set, some, sort_by, string_eq,
  string_ord, suc, tail, take, true, zero, ℕ, ◌&&◌, ◌++◌, ◌+◌, ◌/=◌, ◌==◌, ◌>>=◌, ◌>>◌, ◌∷◌,
}
use motev.GraphState.FrontierModel.{cause_eq, frontier_status_eq}
use motev.GraphState.Identity.{
  GraphNodeId, activation_eq, is_canonical_identity, join_eq, occurrence_eq, occurrence_ord,
  reference_eq,
}
use motev.GraphState.Identity.Text.{str_append}
use motev.GraphState.Model.{progress_eq, run_status_eq, state_eq, token_eq}
use motev.GraphState.ResourceModel.{
  ResourceAcquisition, ResourceCommand, ResourceId, ResourceLock, ResourceSnapshot,
  acquire_resources, is_admitted, release_resources, snapshot_eq,
}

unfoldable pub require_identity : String → String → Result (Unit {0})
require_identity value kind =
    raise_if (not (is_canonical_identity value))
      (resource_error (str_append kind " identity must be non-empty and trimmed"))

-- `{resource.resource_id: position for position, resource in enumerate(resources)}`
unfoldable pub positions_of : List ResourceLock → Dict ResourceId ℕ
unfolding dict_of enumerate_from
positions_of resources =
    dict_of (map (λ (p : ℕ × ResourceLock). (p.1.resource_id, p.0)) (enumerate_from 0 resources))

-- `positions[resource_id]`
unfoldable pub position_of : Dict ResourceId ℕ → ResourceId → Result ℕ
unfolding get
position_of positions resource_id = or_raise (get positions resource_id) (key_error resource_id)

-- `resources[position]`
unfoldable pub lock_at : List ResourceLock → ℕ → Result ResourceLock
lock_at resources position =
    or_raise (get_elem? resources position) (key_error "resource position out of range")

-- The resource check in the first loop of `_validate_snapshot`.
unfoldable pub validate_lock : ResourceLock → Result (Unit {0})
unfolding require_identity for_each
validate_lock resource = do
  require_identity resource.resource_id "resource"
  raise_if (not (is_distinct resource.waiters)) (resource_error "resource waiters must be unique")
  elim resource.owner [
    | none ↦ ok tt
    | some owner ↦ do
      require_identity owner "node"
      raise_if (contains owner resource.waiters)
          (resource_error "resource owner cannot also be waiting")
  ]
  for_each (λ waiter. require_identity waiter "node") resource.waiters

-- `sorted(ids, key=positions.__getitem__) == ids`, for ids that have a position
unfoldable pub is_in_order : Dict ResourceId ℕ → List ResourceId → Bool
unfolding sort_by get
is_in_order positions ids =
    sort_by (λ a b. compare_at (get positions a) (get positions b)) ids == ids
  where
    compare_at : Option ℕ → Option ℕ → Ordering
    compare_at (some i) (some j) = nat_ord.cmp i j
    compare_at _ _ = Ordering.eq

-- The resource that an acquisition waits for next.
unfoldable pub expected_waiting : ResourceAcquisition → Option ResourceId
expected_waiting a = get_elem? a.required (length a.acquired)

unfoldable pub validate_acquisition :
    ResourceSnapshot → Dict ResourceId ℕ → ResourceAcquisition → Result (Unit {0})
unfolding require_identity is_in_order expected_waiting position_of lock_at for_each
validate_acquisition snapshot positions a = do
  require_identity a.node_id "node"
  raise_if (is_empty a.required) (resource_error "an acquisition requires at least one resource")
  raise_if (not (is_distinct a.required)) (resource_error "an acquisition repeats a resource")
  raise_if (not (is_subset a.required (map (λ lock. lock.resource_id) snapshot.resources)))
      (resource_error "an acquisition references an unknown resource")
  raise_if (not (is_in_order positions a.required))
      (resource_error "resources must be acquired in snapshot order")
  raise_if (a.acquired /= take (length a.acquired) a.required)
      (resource_error "acquired resources must be a required-resource prefix")
  raise_if (a.waiting_for /= expected_waiting a)
      (resource_error "an acquisition can only wait for its next resource")
  for_each
      (λ resource_id. do
        position ← position_of positions resource_id
        resource ← lock_at snapshot.resources position
        raise_if (resource.owner /= some a.node_id)
            (resource_error "acquired resource ownership does not match its acquisition"))
      a.acquired
  elim a.waiting_for [
    | none ↦ ok tt
    | some resource_id ↦ do
      position ← position_of positions resource_id
      resource ← lock_at snapshot.resources position
      raise_if (not (contains a.node_id resource.waiters))
          (resource_error "waiting acquisition is absent from the resource queue")
  ]

-- `{acquisition.node_id: acquisition for acquisition in acquisitions}`
unfoldable pub by_node_of : List ResourceAcquisition → Dict GraphNodeId ResourceAcquisition
unfolding dict_of
by_node_of acquisitions = dict_of (map (λ (a : ResourceAcquisition). (a.node_id, a)) acquisitions)

-- `acquisitions[waiter].waiting_for != resource.resource_id`
unfoldable pub waits_elsewhere :
    Dict GraphNodeId ResourceAcquisition → ResourceId → GraphNodeId → Bool
unfolding get
waits_elsewhere acquisitions resource_id waiter = elim (get acquisitions waiter) [
  | none ↦ true
  | some a ↦ a.waiting_for /= some resource_id
]

-- The last loop of `_validate_snapshot`.
unfoldable pub validate_participants :
    Dict GraphNodeId ResourceAcquisition → ResourceLock → Result (Unit {0})
unfolding waits_elsewhere any is_subset get
validate_participants acquisitions resource = do
  elim resource.owner [
    | none ↦ ok tt
    | some owner ↦
        raise_if (is_none (get acquisitions owner))
          (resource_error "resource owner has no acquisition")
  ]
  raise_if (not (is_subset resource.waiters (map (λ entry. entry.0) acquisitions)))
      (resource_error "resource waiter has no acquisition")
  raise_if (any (waits_elsewhere acquisitions resource.resource_id) resource.waiters)
      (resource_error "resource queue contains a participant waiting elsewhere")

-- `_validate_snapshot`
unfoldable pub validate_shape : ResourceSnapshot → Result (Unit {0})
unfolding validate_lock validate_acquisition validate_participants for_each positions_of by_node_of
validate_shape snapshot = do
  raise_if (not (is_distinct (map (λ lock. lock.resource_id) snapshot.resources)))
      (resource_error "resources snapshot repeats a resource")
  for_each validate_lock snapshot.resources
  let acquisitions = by_node_of snapshot.acquisitions
  raise_if (length acquisitions /= length snapshot.acquisitions)
      (resource_error "resources snapshot repeats an acquisition")
  for_each (validate_acquisition snapshot (positions_of snapshot.resources)) snapshot.acquisitions
  for_each (validate_participants acquisitions) snapshot.resources

-- The resource is free, and nobody else is first in its queue.
unfoldable pub can_acquire : ResourceLock → GraphNodeId → Bool
can_acquire resource node_id = is_none resource.owner && is_first resource.waiters
  where
    is_first : List GraphNodeId → Bool
    is_first [] = true
    is_first (waiter ∷ rest) = waiter == node_id

-- The loop of `_advance` over the required resources that are not acquired yet; `acquired` are the
-- others.
unfoldable pub advance_loop :
    Dict ResourceId ℕ
    → ResourceAcquisition
    → List ResourceId
    → List ResourceId
    → List ResourceLock
    → Result (List ResourceLock × ResourceAcquisition)
unfolding position_of lock_at can_acquire
advance_loop positions a [] acquired resources =
    ok (resources, record a { acquired = acquired; waiting_for = none })
advance_loop positions a (next ∷ remaining) acquired resources = do
  position ← position_of positions next
  resource ← lock_at resources position
  let owned = record resource { owner = some a.node_id; waiters = tail resource.waiters }
  let queued = record resource { waiters = resource.waiters ++ a.node_id ∷ [] }
  let rest =
      advance_loop positions a remaining (acquired ++ next ∷ []) (set resources position owned)
  if can_acquire resource a.node_id
      then rest
      else ok
          (set resources position queued, record a { acquired = acquired; waiting_for = some next })

-- `_advance`
unfoldable pub advance_acquisition :
    List ResourceLock
    → ResourceAcquisition
    → Dict ResourceId ℕ
    → Result (List ResourceLock × ResourceAcquisition)
unfolding advance_loop
advance_acquisition resources a positions =
    advance_loop positions a (drop (length a.acquired) a.required) a.acquired resources

-- `_acquire` after its early return
unfoldable pub acquire_some :
    ResourceSnapshot → GraphNodeId → List ResourceId → Result ResourceSnapshot
unfolding positions_of is_in_order advance_acquisition
acquire_some snapshot node_id resources = do
  raise_if (any (λ a. a.node_id == node_id) snapshot.acquisitions)
      (resource_error "node already has an acquisition")
  let positions = positions_of snapshot.resources
  raise_if (not (is_distinct resources)) (resource_error "resource request contains duplicates")
  raise_if (not (is_subset resources (map (λ entry. entry.0) positions)))
      (resource_error "resource request references an unknown resource")
  raise_if (not (is_in_order positions resources))
      (resource_error "resource request violates the global resource order")
  advanced ←
      advance_acquisition snapshot.resources
        (record { node_id = node_id; required = resources; acquired = []; waiting_for = none })
        positions
  ok (record { resources = advanced.0; acquisitions = snapshot.acquisitions ++ advanced.1 ∷ [] })

-- `_acquire`
unfoldable pub acquire : ResourceSnapshot → GraphNodeId → List ResourceId → Result ResourceSnapshot
unfolding require_identity acquire_some
acquire snapshot node_id resources = do
  require_identity node_id "node"
  if is_empty resources then ok snapshot else acquire_some snapshot node_id resources

-- The first loop of `_release`: the resources given up become free.
unfoldable pub free_all :
    Dict ResourceId ℕ → List ResourceId → List ResourceLock → Result (List ResourceLock)
unfolding position_of lock_at
free_all positions [] resources = ok resources
free_all positions (resource_id ∷ ids) resources = do
  position ← position_of positions resource_id
  resource ← lock_at resources position
  free_all positions ids (set resources position (record resource { owner = none }))

-- The waiter that the second loop of `_release` wakes at a resource.
unfoldable pub next_waiter : ResourceLock → Option GraphNodeId
next_waiter resource = elim resource.owner [
  | some owner ↦ none
  | none ↦ elim resource.waiters [ [] ↦ none | waiter ∷ rest ↦ some waiter ]
]

-- The body of the second loop of `_release`, given the waiter that is woken.
unfoldable pub wake :
    Dict ResourceId ℕ
    → Option GraphNodeId
    → List ResourceLock
    → Dict GraphNodeId ResourceAcquisition
    → Result (List ResourceLock × Dict GraphNodeId ResourceAcquisition)
unfolding advance_acquisition put get
wake positions none resources by_node = ok (resources, by_node)
wake positions (some waiter) resources by_node = do
  a ← or_raise (get by_node waiter) (key_error waiter)
  advanced ← advance_acquisition resources a positions
  ok (advanced.0, put by_node waiter advanced.1)

-- The second loop of `_release`, over the positions from `position` on.
unfoldable pub wake_waiters :
    Dict ResourceId ℕ
    → ℕ
    → ℕ
    → List ResourceLock
    → Dict GraphNodeId ResourceAcquisition
    → Result (List ResourceLock × Dict GraphNodeId ResourceAcquisition)
unfolding lock_at next_waiter wake
wake_waiters positions zero position resources by_node = ok (resources, by_node)
wake_waiters positions (suc rounds) position resources by_node = do
  current ← lock_at resources position
  woken ← wake positions (next_waiter current) resources by_node
  wake_waiters positions rounds (position + 1) woken.0 woken.1

-- `_release`
unfoldable pub release : ResourceSnapshot → GraphNodeId → Result ResourceSnapshot
unfolding find_first select positions_of free_all wake_waiters by_node_of collect get is_admitted
release snapshot node_id = do
  a ←
      or_raise (find_first (λ item. item.node_id == node_id) snapshot.acquisitions)
        (resource_error "node has no acquisition to release")
  raise_if (not (is_admitted a))
      (resource_error "only an admitted participant can release resources")
  let positions = positions_of snapshot.resources
  freed ← free_all positions (reverse a.acquired) snapshot.resources
  let others = select (λ item. item.node_id /= node_id) snapshot.acquisitions
  woken ← wake_waiters positions (length freed) 0 freed (by_node_of others)
  remaining ← collect (λ item. or_raise (get woken.1 item.node_id) (key_error item.node_id)) others
  ok (record { resources = woken.0; acquisitions = remaining })

-- `_apply_command`
unfoldable pub apply_command : ResourceSnapshot → ResourceCommand → Result ResourceSnapshot
unfolding acquire release require_identity
apply_command snapshot (acquire_resources node_id resources) = acquire snapshot node_id resources
apply_command snapshot (release_resources node_id) = do
  require_identity node_id "node"
  release snapshot node_id

-- The snapshot before any acquisition: the same resources, all free.
unfoldable pub initial_snapshot : List ResourceLock → ResourceSnapshot
initial_snapshot resources = record {
  resources =
      map (λ lock. record { resource_id = lock.resource_id; owner = none; waiters = [] }) resources;
  acquisitions = [];
}

-- The loop of `validate_resource_snapshot`.
unfoldable pub replay : ResourceSnapshot → List ResourceAcquisition → Result ResourceSnapshot
unfolding acquire
replay snapshot [] = ok snapshot
replay snapshot (a ∷ acquisitions) = do
  next ← acquire snapshot a.node_id a.required
  replay next acquisitions

unfoldable pub validate_resource_snapshot : ResourceSnapshot → Result (Unit {0})
unfolding validate_shape replay initial_snapshot
validate_resource_snapshot snapshot = do
  validate_shape snapshot
  replayed ← replay (initial_snapshot snapshot.resources) snapshot.acquisitions
  raise_if (replayed /= snapshot)
      (resource_error "resources snapshot does not match its replayed acquisition sequence")

unfoldable pub reduce_resources : ResourceSnapshot → ResourceCommand → Result ResourceSnapshot
unfolding validate_resource_snapshot apply_command
reduce_resources snapshot command = do
  validate_resource_snapshot snapshot
  result ← apply_command snapshot command
  validate_resource_snapshot result
  ok result
