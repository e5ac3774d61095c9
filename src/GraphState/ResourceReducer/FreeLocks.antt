-- ===== src/GraphState/ResourceReducer/FreeLocks.antt =====
-- resource_reducer.py: the locks that an advance leaves free, and lists of distinct resources.
use motev.Base.{
  Bool-cases, In, In-append_left, In-last, List, [], ap, arith, contains, eq_of_some, eq_of_test,
  false, get_elem?, inl, inr, is_distinct, length, list_eq, nat_eq, nat_ord, none, option_eq, refl,
  set, set_of, some, string_eq, string_ord, subst, suc, sym, true, zero, ℕ, ◌++◌, ◌∙◌, ◌∷◌, ◌≡◌,
  ◌≤◌, ◌⊎◌,
}
use motev.GraphState.ResourceModel.{ResourceId, ResourceLock, snapshot_eq}
use motev.GraphState.ResourceReducer.Positions.{ids_of}

-- Every lock is free, or of a resource that is acquired.
abbrev pub FreeBut : List ResourceId → List ResourceLock → Type 0
FreeBut acquired [] = Unit
FreeBut acquired (lock ∷ locks) =
    (((lock.owner ≡ none) × (lock.waiters ≡ [])) ⊎ In lock.resource_id acquired)
    × FreeBut acquired locks

pub FreeBut-at :
    (acquired : List ResourceId) (locks : List ResourceLock) (i : ℕ) (lock : ResourceLock)
    → FreeBut acquired locks
    → get_elem? locks i ≡ some lock
    → ((lock.owner ≡ none) × (lock.waiters ≡ [])) ⊎ In lock.resource_id acquired
FreeBut-at acquired [] i lock f e = cc
FreeBut-at acquired (x ∷ xs) zero lock f e =
    subst (λ (l : ResourceLock). ((l.owner ≡ none) × (l.waiters ≡ [])) ⊎ In l.resource_id acquired)
      (eq_of_some e) f.0
FreeBut-at acquired (x ∷ xs) (suc i) lock f e = FreeBut-at acquired xs i lock f.1 e

FreeBut-more :
    (acquired : List ResourceId) (next : ResourceId) (locks : List ResourceLock)
    → FreeBut acquired locks
    → FreeBut (acquired ++ next ∷ []) locks
FreeBut-more acquired next [] f = tt
FreeBut-more acquired next (x ∷ xs) (inl free, f) = (inl free, FreeBut-more acquired next xs f)
FreeBut-more acquired next (x ∷ xs) (inr i, f) =
    (inr (In-append_left x.resource_id acquired (next ∷ []) i), FreeBut-more acquired next xs f)

pub FreeBut-set :
    (acquired : List ResourceId) (next : ResourceId) (locks : List ResourceLock) (i : ℕ)
    (lock : ResourceLock)
    → FreeBut acquired locks
    → lock.resource_id ≡ next
    → FreeBut (acquired ++ next ∷ []) (set locks i lock)
FreeBut-set acquired next [] i lock f e = tt
FreeBut-set acquired next (x ∷ xs) zero lock f e = (
  inr (subst (λ id. In id (acquired ++ next ∷ [])) (sym e) (In-last next acquired)),
  FreeBut-more acquired next xs f.1,
)
FreeBut-set acquired next (x ∷ xs) (suc i) lock f e =
    ((FreeBut-more acquired next (x ∷ []) (f.0, tt)).0, FreeBut-set acquired next xs i lock f.1 e)

abbrev pub Distinct : List ResourceId → Type 0
Distinct [] = Unit
Distinct (x ∷ xs) = (¬ In x xs) × Distinct xs

contains-set_of : (x : ResourceId) (xs : List ResourceId) → In x xs → contains x (set_of xs) ≡ true
unfolding contains set_of
contains-set_of x [] h = absurd h
contains-set_of x (y ∷ ys) (inl e) = ground arith
contains-set_of x (y ∷ ys) (inr h) = ground (arith, contains-set_of x ys h)

length-set_of-le : (xs : List ResourceId) → length (set_of xs) ≤ length xs
unfolding set_of
length-set_of-le [] = omega arith
length-set_of-le (x ∷ xs) = ground (arith, length-set_of-le xs)

same_length-Distinct : (xs : List ResourceId) → length xs ≡ length (set_of xs) → Distinct xs
unfolding set_of
same_length-Distinct [] h = tt
same_length-Distinct (x ∷ xs) h = elim (Bool-cases (contains x (set_of xs))) [
  | inl seen ↦ absurd (omega (arith, length-set_of-le xs, shorter seen))
  | inr new ↦ (
    λ i. false_true (sym new ∙ contains-set_of x xs i),
    same_length-Distinct xs (omega (arith, longer new)),
  )
]
  where
    shorter : contains x (set_of xs) ≡ true → suc (length xs) ≡ length (set_of xs)
    shorter seen = rw seen at h

    longer : contains x (set_of xs) ≡ false → suc (length xs) ≡ suc (length (set_of xs))
    longer new = rw new at h

    false_true : false ≡ true → ⊥
    false_true e = cc

pub is_distinct-Distinct : (xs : List ResourceId) → is_distinct xs ≡ true → Distinct xs
unfolding is_distinct
is_distinct-Distinct xs h = same_length-Distinct xs (eq_of_test _ _ h)

pub ids_of-at :
    (locks : List ResourceLock) (i : ℕ) (lock : ResourceLock)
    → get_elem? locks i ≡ some lock
    → get_elem? (ids_of locks) i ≡ some lock.resource_id
ids_of-at [] i lock e = cc
ids_of-at (x ∷ xs) zero lock e = ap (λ (l : ResourceLock). some l.resource_id) (eq_of_some e)
ids_of-at (x ∷ xs) (suc i) lock e = ids_of-at xs i lock e

pub ids_of-set :
    (locks : List ResourceLock) (i : ℕ) (old new : ResourceLock)
    → get_elem? locks i ≡ some old
    → new.resource_id ≡ old.resource_id
    → ids_of (set locks i new) ≡ ids_of locks
ids_of-set [] i old new e same = refl
ids_of-set (x ∷ xs) zero old new e same =
    ap (λ id. id ∷ ids_of xs) (same ∙ ap (λ (l : ResourceLock). l.resource_id) (sym (eq_of_some e)))
ids_of-set (x ∷ xs) (suc i) old new e same = ap (◌∷◌ x.resource_id) (ids_of-set xs i old new e same)
