-- ===== src/GraphState/ResourceReducer/Positions.antt =====
-- resource_reducer.py: the positions that `validate_acquisition` and `acquire` look up, and where
-- the locks stand.
use mathlib.Core.List.{append_assoc}
use motev.Base.{
  Bool-cases, Dict, List, [], ap, arith, dict_of, enumerate_from, eq_of_test, get, get-put,
  get_elem?, if◌then◌else◌, inl, inr, length, list_eq, map, nat_eq, nat_ord, option_eq, put,
  put_all, refl, some, string_eq, string_ord, subst, sym, ℕ, ◌++◌, ◌+◌, ◌==◌, ◌∙◌, ◌∷◌, ◌≡◌,
}
use motev.GraphState.FrontierModel.{cause_eq, frontier_status_eq}
use motev.GraphState.Identity.{activation_eq, join_eq, occurrence_eq, occurrence_ord, reference_eq}
use motev.GraphState.Model.{progress_eq, run_status_eq, state_eq, token_eq}
use motev.GraphState.ResourceModel.{ResourceId, ResourceLock, snapshot_eq}
use motev.GraphState.ResourceReducer.{positions_of}

abbrev pub ids_of : List ResourceLock → List ResourceId
ids_of locks = map (λ lock. lock.resource_id) locks

abbrev pub Indexed : Dict ResourceId ℕ → List ResourceId → Type 0
Indexed positions ids =
    (id : ResourceId) (i : ℕ) → get positions id ≡ some i → get_elem? ids i ≡ some id

-- Where the ids from position `k` on stand in the whole list.
abbrev Suffix : List ResourceId → ℕ → List ResourceLock → Type 0
Suffix ids k [] = Unit
Suffix ids k (lock ∷ locks) = (get_elem? ids k ≡ some lock.resource_id) × Suffix ids (k + 1) locks

put-Indexed :
    (d : Dict ResourceId ℕ) (ids : List ResourceId) (id : ResourceId) (k : ℕ)
    → Indexed d ids
    → get_elem? ids k ≡ some id
    → Indexed (put d id k) ids
put-Indexed d ids id k h at j i e = elim (Bool-cases (id == j)) [
  | inl same ↦
      let found : (if id == j then some k else get d j) ≡ some i = sym (get-put d id j k) ∙ e in
      let ei : k ≡ i = ground arith in
      let ej : id ≡ j = eq_of_test id j same in
      subst (λ x. get_elem? ids x ≡ some j) ei (at ∙ ap some ej)
  | inr other ↦
      let found : (if id == j then some k else get d j) ≡ some i = sym (get-put d id j k) ∙ e in
      h j i (ground arith)
]

put_all-Indexed :
    (ids : List ResourceId) (locks : List ResourceLock) (k : ℕ) (d : Dict ResourceId ℕ)
    → Suffix ids k locks
    → Indexed d ids
    → Indexed
        (put_all d
          (map (λ (p : ℕ × ResourceLock). (p.1.resource_id, p.0)) (enumerate_from k locks)))
        ids
unfolding put_all enumerate_from
put_all-Indexed ids [] k d s h = h
put_all-Indexed ids (lock ∷ locks) k d s h =
    put_all-Indexed ids locks (k + 1) (put d lock.resource_id k) s.1
      (put-Indexed d ids lock.resource_id k h s.0)

get_elem?-append :
    (xs ys : List ResourceId) (y : ResourceId) → get_elem? (xs ++ y ∷ ys) (length xs) ≡ some y
get_elem?-append [] ys y = refl
get_elem?-append (x ∷ xs) ys y = get_elem?-append xs ys y

length-snoc : (xs : List ResourceId) (x : ResourceId) → length (xs ++ x ∷ []) ≡ length xs + 1
length-snoc [] x = omega arith
length-snoc (y ∷ xs) x = omega (arith, length-snoc xs x)

Suffix-append :
    (before : List ResourceId) (locks : List ResourceLock)
    → Suffix (before ++ ids_of locks) (length before) locks
Suffix-append before [] = tt
Suffix-append before (lock ∷ locks) = (
  get_elem?-append before (ids_of locks) lock.resource_id,
  subst (λ ids. Suffix ids (length before + 1) locks)
      (append_assoc before (lock.resource_id ∷ []) (ids_of locks))
      (subst (λ k. Suffix ((before ++ lock.resource_id ∷ []) ++ ids_of locks) k locks)
        (length-snoc before lock.resource_id)
        (Suffix-append (before ++ lock.resource_id ∷ []) locks)),
)

-- A position that the index gives is the position of that resource.
pub positions_of-Indexed : (locks : List ResourceLock) → Indexed (positions_of locks) (ids_of locks)
unfolding positions_of dict_of get
positions_of-Indexed locks =
    put_all-Indexed (ids_of locks) locks 0 [] (Suffix-append [] locks) (λ id i e. cc)
