-- ===== src/GraphState/FrontierModel/Status.antt =====
-- frontier_model.py: `frontier_status` against a description by the settlements that occur.
use motev.Base.{
  Bool, Bool-cases, List, [], all, any, arith, false, inl, inr, list_eq, nat_eq, nat_ord, ok,
  option_eq, or-eq-false, refl, string_eq, string_ord, true, ◌∷◌, ◌≡◌, ◌≢◌, ◌⊎◌,
}
use motev.GraphState.FrontierModel.{
  GraphFrontierStatus, GraphNodeSettlement, awaiting_resume, cause_eq, executable, failed_frontier,
  failed_node, frontier_status_eq, interrupted, is_failed, is_interrupted, is_pending, is_succeeded,
  pending, settled, settlements_status, succeeded,
}
use motev.GraphState.Identity.{activation_eq, join_eq, occurrence_eq, occurrence_ord, reference_eq}

-- Some settlement of the list has the property.
abbrev Some : (GraphNodeSettlement → Bool) → List GraphNodeSettlement → Type 0
Some test [] = ⊥
Some test (x ∷ xs) = (test x ≡ true) ⊎ Some test xs

-- Every settlement of the list has the property.
abbrev Every : (GraphNodeSettlement → Bool) → List GraphNodeSettlement → Type 0
Every test [] = Unit
Every test (x ∷ xs) = (test x ≡ true) × Every test xs

-- The disposition that a frontier has, by priority.
pub data Disposition (xs : List GraphNodeSettlement) : GraphFrontierStatus → Type 0 where
  has_pending : Some is_pending xs → Disposition xs executable
  has_failed : ¬ Some is_pending xs → Some is_failed xs → Disposition xs failed_frontier
  has_interrupted :
      ¬ Some is_pending xs
      → ¬ Some is_failed xs
      → Some is_interrupted xs
      → Disposition xs awaiting_resume
  all_succeeded : xs ≢ [] → Every is_succeeded xs → Disposition xs settled

any-Some :
    (test : GraphNodeSettlement → Bool) (xs : List GraphNodeSettlement)
    → any test xs ≡ true
    → Some test xs
unfolding any
any-Some test [] h = cc
any-Some test (x ∷ xs) h = ground (arith, any-Some test xs)

Some-any :
    (test : GraphNodeSettlement → Bool) (xs : List GraphNodeSettlement)
    → any test xs ≡ false
    → ¬ Some test xs
unfolding any
Some-any test [] h k = k
Some-any test (x ∷ xs) h (inl e) = ground arith
Some-any test (x ∷ xs) h (inr k) = Some-any test xs (ground arith) k

only_succeeded :
    (x : GraphNodeSettlement)
    → is_pending x ≡ false
    → is_failed x ≡ false
    → is_interrupted x ≡ false
    → is_succeeded x ≡ true
unfolding is_pending is_failed is_interrupted is_succeeded
only_succeeded (pending input) p f i = cc
only_succeeded (succeeded routing) p f i = refl
only_succeeded (failed_node failure) p f i = cc
only_succeeded (interrupted interrupt) p f i = cc

Every-succeeded :
    (xs : List GraphNodeSettlement)
    → any is_pending xs ≡ false
    → any is_failed xs ≡ false
    → any is_interrupted xs ≡ false
    → Every is_succeeded xs
unfolding any
Every-succeeded [] p f i = tt
Every-succeeded (x ∷ xs) p f i =
    let (p1, p2) = or-eq-false (is_pending x) (any is_pending xs) p in
    let (f1, f2) = or-eq-false (is_failed x) (any is_failed xs) f in
    let (i1, i2) = or-eq-false (is_interrupted x) (any is_interrupted xs) i in
    (only_succeeded x p1 f1 i1, Every-succeeded xs p2 f2 i2)

Every-all :
    (test : GraphNodeSettlement → Bool) (xs : List GraphNodeSettlement)
    → Every test xs
    → all test xs ≡ true
unfolding all
Every-all test [] h = refl
Every-all test (x ∷ xs) h = rw h.0 (Every-all test xs h.1)

not_empty : (x : GraphNodeSettlement) (xs : List GraphNodeSettlement) → (x ∷ xs) ≢ []
not_empty x xs e = cc

-- A frontier with a node has a derived status, and it is the one that the settlements call for:
-- executable as soon as one is pending, else failed as soon as one failed, else awaiting a resume
-- as soon as one is interrupted, and settled if all succeeded.
pub settlements_status-Disposition :
    (x : GraphNodeSettlement) (xs : List GraphNodeSettlement)
    → (d : GraphFrontierStatus) × (settlements_status (x ∷ xs) ≡ ok d) × Disposition (x ∷ xs) d
unfolding settlements_status
settlements_status-Disposition x xs = elim (Bool-cases (any is_pending (x ∷ xs))) [
  | inl p ↦ (executable, rw (p, settlements_status), has_pending (any-Some is_pending (x ∷ xs) p))
  | inr p ↦ elim (Bool-cases (any is_failed (x ∷ xs))) [
    | inl f ↦ (
      failed_frontier,
      rw (p, f, settlements_status),
      has_failed (Some-any is_pending (x ∷ xs) p) (any-Some is_failed (x ∷ xs) f),
    )
    | inr f ↦ elim (Bool-cases (any is_interrupted (x ∷ xs))) [
      | inl i ↦ (
        awaiting_resume,
        rw (p, f, i, settlements_status),
        has_interrupted (Some-any is_pending (x ∷ xs) p) (Some-any is_failed (x ∷ xs) f)
            (any-Some is_interrupted (x ∷ xs) i),
      )
      | inr i ↦
          let every = Every-succeeded (x ∷ xs) p f i in
          (
            settled,
            rw (p, f, i, Every-all is_succeeded (x ∷ xs) every, settlements_status),
            all_succeeded (not_empty x xs) every,
          )
    ]
  ]
]
