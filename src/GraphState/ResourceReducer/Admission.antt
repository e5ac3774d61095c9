-- ===== src/GraphState/ResourceReducer/Admission.antt =====
-- resource_reducer.py: the first acquisition of a snapshot and its replay.
use mathlib.Core.List.{append_assoc, append-nil}
use motev.Base.{
  >>-eq-ok, >>=-eq-ok, Bool, Dict, Ensures, Ensures-bind, Ensures-if, Ensures-next, Ensures-ok,
  Error, In, In-append_last, List, Option, [], ap, arith, eq_of_ne_test, eq_of_some, false,
  for_each, get_elem?, inl, inr, is_distinct, is_empty, length, list_eq, nat_eq, nat_ord, none, not,
  ok, option_eq, or_raise, raise_if, raise_if-eq-ok, refl, set, some, string_eq, string_ord, subst,
  sym, tail, true, ℕ, ◌++◌, ◌/=◌, ◌∙◌, ◌∷◌, ◌≡◌, ◌⊎◌,
}
use motev.GraphState.Identity.{
  GraphNodeId, activation_eq, join_eq, occurrence_eq, occurrence_ord, reference_eq,
}
use motev.GraphState.ResourceModel.{
  ResourceAcquisition, ResourceId, ResourceLock, ResourceSnapshot, snapshot_eq,
}
use motev.GraphState.ResourceReducer.{
  acquire, acquire_some, advance_acquisition, advance_loop, by_node_of, can_acquire,
  initial_snapshot, positions_of, replay, require_identity, validate_acquisition, validate_lock,
  validate_resource_snapshot, validate_shape,
}
use motev.GraphState.ResourceReducer.FreeLocks.{
  Distinct, FreeBut, FreeBut-at, FreeBut-set, ids_of-at, ids_of-set, is_distinct-Distinct,
}
use motev.GraphState.ResourceReducer.Positions.{Indexed, ids_of, positions_of-Indexed}

pub or_raise-some {ℓ} :
    {A : Type ℓ} (o : Option A) (e : Error) (a : A) → or_raise o e ≡ ok a → o ≡ some a
or_raise-some none e a h = cc
or_raise-some (some b) e a h = cc

free_acquires :
    (lock : ResourceLock) (n : GraphNodeId)
    → lock.owner ≡ none
    → lock.waiters ≡ []
    → can_acquire lock n ≡ true
unfolding can_acquire
free_acquires lock n o w = ground arith

-- What an advance over free resources returns.
abbrev Took : ResourceAcquisition → List ResourceId → ResourceAcquisition → Type 0
Took a acquired b =
    (b.node_id ≡ a.node_id)
    × (b.required ≡ a.required)
    × (b.acquired ≡ acquired)
    × (b.waiting_for ≡ none)

module _ (positions : Dict ResourceId ℕ) (ids : List ResourceId) (index : Indexed positions ids)
    (a : ResourceAcquisition) where
  advance_loop-Took :
      (remaining acquired : List ResourceId) (locks : List ResourceLock)
      → ids_of locks ≡ ids
      → FreeBut acquired locks
      → Distinct remaining
      → ((id : ResourceId) → In id remaining → ¬ In id acquired)
      → Ensures
          (λ r. Took a (acquired ++ remaining) r.1)
          (advance_loop positions a remaining acquired locks)
  unfolding advance_loop
  advance_loop-Took [] acquired locks same f d apart =
      Ensures-ok _ (refl, refl, sym (append-nil acquired), refl)
  advance_loop-Took (next ∷ remaining) acquired locks same f d apart = Ensures-bind _ _ λ i at.
      Ensures-bind _ _ λ lock found.
        let here = or_raise-some _ _ lock found in
        let named : lock.resource_id ≡ next = eq_of_some (
          sym
            (subst (λ x. get_elem? x i ≡ some lock.resource_id) same (ids_of-at locks i lock here))
          ∙ index next i (or_raise-some _ _ i at)) in
        let free = unowned lock named (FreeBut-at acquired locks i lock f here) in
        let owned : ResourceLock = record lock {
          owner = some a.node_id;
          waiters = tail lock.waiters;
        } in
        rw (free_acquires lock a.node_id free.0 free.1) (
          subst
            (λ x.
              Ensures (λ r. Took a x r.1)
                (advance_loop positions a remaining (acquired ++ next ∷ []) (set locks i owned)))
            (append_assoc acquired (next ∷ []) remaining)
            (advance_loop-Took remaining (acquired ++ next ∷ []) (set locks i owned)
              (ids_of-set locks i lock owned here refl ∙ same)
              (FreeBut-set acquired next locks i owned f named) d.1
              λ id i' j. elim (In-append_last id next acquired j) [
                | inl k ↦ apart id (inr i') k
                | inr e ↦ d.0 (subst (λ x. In x remaining) e i')
              ]))
    where
      unowned :
          (lock : ResourceLock)
          → lock.resource_id ≡ next
          → ((lock.owner ≡ none) × (lock.waiters ≡ [])) ⊎ In lock.resource_id acquired
          → (lock.owner ≡ none) × (lock.waiters ≡ [])
      unowned lock named (inl free) = free
      unowned lock named (inr i) =
          absurd (apart next (inl refl) (subst (λ x. In x acquired) named i))

map-all_free : (locks : List ResourceLock) → FreeBut [] (initial_snapshot locks).resources
unfolding initial_snapshot
map-all_free [] = tt
map-all_free (lock ∷ locks) = (inl (refl, refl), map-all_free locks)

-- The first acquisition on free resources takes all that it requires.
acquire_first :
    (s : ResourceSnapshot) (n : GraphNodeId) (ids : List ResourceId)
    → FreeBut [] s.resources
    → s.acquisitions ≡ []
    → is_empty ids ≡ false
    → Ensures
        (λ (t : ResourceSnapshot).
          (b : ResourceAcquisition) × (t.acquisitions ≡ b ∷ [])
          × (b.acquired ≡ b.required)
          × (b.waiting_for ≡ none))
        (acquire s n ids)
unfolding acquire acquire_some advance_acquisition
acquire_first s n ids f bare some_ids = Ensures-next _ _ λ _. rw some_ids (
    Ensures-next _ _ λ _. Ensures-bind _ _ λ _ distinct. Ensures-next _ _ λ _. Ensures-next _ _ λ _.
      Ensures-bind _ _ λ r advanced. Ensures-ok _ (
        let took =
          (advance_loop-Took (positions_of s.resources) (ids_of s.resources)
              (positions_of-Indexed s.resources)
              (record { node_id = n; required = ids; acquired = []; waiting_for = none }) ids []
              s.resources refl f
              (is_distinct-Distinct ids (not-false _ (raise_if-eq-ok _ _ distinct)))
              (λ id i j. j)).at
            r advanced in
        (r.1, ap (λ x. x ++ r.1 ∷ []) bare, took.2 ∙ sym took.1, took.3)))
  where
    not-false : (b : Bool) → not b ≡ false → b ≡ true
    not-false b h = ground arith

-- Later acquisitions go to the end.
acquire_appends :
    (s : ResourceSnapshot) (n : GraphNodeId) (ids : List ResourceId) (b : ResourceAcquisition)
    (rest : List ResourceAcquisition)
    → s.acquisitions ≡ b ∷ rest
    → Ensures
        (λ (t : ResourceSnapshot). (more : List ResourceAcquisition) × (t.acquisitions ≡ b ∷ more))
        (acquire s n ids)
unfolding acquire acquire_some
acquire_appends s n ids b rest e = Ensures-next _ _ λ _.
    Ensures-if (is_empty ids) _ _ (λ _. Ensures-ok _ (rest, e))
      (λ _. Ensures-next _ _ λ _. Ensures-next _ _ λ _. Ensures-next _ _ λ _.
        Ensures-next _ _
          λ _. Ensures-next _ _ λ r. Ensures-ok _ (rest ++ r.1 ∷ [], ap (λ x. x ++ r.1 ∷ []) e))

replay_appends :
    (s : ResourceSnapshot) (items : List ResourceAcquisition) (b : ResourceAcquisition)
    (rest : List ResourceAcquisition)
    → s.acquisitions ≡ b ∷ rest
    → Ensures
        (λ (t : ResourceSnapshot). (more : List ResourceAcquisition) × (t.acquisitions ≡ b ∷ more))
        (replay s items)
unfolding replay
replay_appends s [] b rest e = Ensures-ok _ (rest, e)
replay_appends s (item ∷ items) b rest e = Ensures-bind _ _ λ t acquired.
    let (more, same) = (acquire_appends s item.node_id item.required b rest e).at t acquired in
    replay_appends t items b more same

requires_some :
    (s : ResourceSnapshot) (positions : Dict ResourceId ℕ) (a : ResourceAcquisition)
    → validate_acquisition s positions a ≡ ok tt
    → is_empty a.required ≡ false
unfolding validate_acquisition
requires_some s positions a h =
    let (_, h1) = >>-eq-ok (require_identity a.node_id "node") _ h in
    raise_if-eq-ok _ _ (>>-eq-ok (raise_if (is_empty a.required) _) _ h1).0

first_requires_some :
    (s : ResourceSnapshot) (a : ResourceAcquisition) (rest : List ResourceAcquisition)
    → s.acquisitions ≡ a ∷ rest
    → validate_shape s ≡ ok tt
    → is_empty a.required ≡ false
unfolding validate_shape for_each
first_requires_some s a rest e h =
    let (_, h1) = >>-eq-ok (raise_if (not (is_distinct (ids_of s.resources))) _) _ h in
    let (_, h2) = >>-eq-ok (for_each validate_lock s.resources) _ h1 in
    let (_, h3) =
      >>-eq-ok (raise_if (length (by_node_of s.acquisitions) /= length s.acquisitions) _) _ h2 in
    let (each, _) =
      >>-eq-ok (for_each (validate_acquisition s (positions_of s.resources)) s.acquisitions) _ h3 in
    let each' : for_each (validate_acquisition s (positions_of s.resources)) (a ∷ rest) ≡ ok tt =
      subst (λ x. for_each (validate_acquisition s (positions_of s.resources)) x ≡ ok tt) e each in
    requires_some s (positions_of s.resources) a
      (>>-eq-ok (validate_acquisition s (positions_of s.resources) a) _ each').0

head_of {ℓ} : {A : Type ℓ} {a b : A} {xs ys : List A} → (a ∷ xs) ≡ (b ∷ ys) → a ≡ b
head_of h = cc

-- In a valid snapshot with acquisitions the first acquisition holds all that it requires and waits
-- for nothing, so not every participant waits.
pub first_admitted :
    (s : ResourceSnapshot) (a : ResourceAcquisition) (rest : List ResourceAcquisition)
    → validate_resource_snapshot s ≡ ok tt
    → s.acquisitions ≡ a ∷ rest
    → (a.acquired ≡ a.required) × (a.waiting_for ≡ none)
unfolding validate_resource_snapshot replay
first_admitted s a rest valid e =
    let (shape, h1) = >>-eq-ok (validate_shape s) _ valid in
    let (t, replayed, h2) = >>=-eq-ok (replay (initial_snapshot s.resources) s.acquisitions) _ h1 in
    let same : t ≡ s = eq_of_ne_test _ _ (raise_if-eq-ok _ _ h2) in
    let (u, first, later) =
      >>=-eq-ok (acquire (initial_snapshot s.resources) a.node_id a.required) _
        (subst (λ x. replay (initial_snapshot s.resources) x ≡ ok t) e replayed) in
    let (b, one, full, idle) =
      (acquire_first (initial_snapshot s.resources) a.node_id a.required (map-all_free s.resources)
          (no_acquisitions s.resources) (first_requires_some s a rest e shape)).at
        u first in
    let (more, kept) = (replay_appends u rest b [] one).at t later in
    let ab : b ≡ a = head_of (sym kept ∙ ap (λ (x : ResourceSnapshot). x.acquisitions) same ∙ e) in
    (subst (λ (x : ResourceAcquisition). (x.acquired ≡ x.required) × (x.waiting_for ≡ none)) ab
      (full, idle))
  where
    no_acquisitions : (locks : List ResourceLock) → (initial_snapshot locks).acquisitions ≡ []
    no_acquisitions locks = refl
