-- ===== src/Base/Occurrences.antt =====
-- How often an item stands in a list, in a set, or among the keys of a dict.
use Prim.Native.Nat.{ℕ, suc, ◌+◌, ◌≤◌}
use Prim.Native.Nat.{Ordering}
use mathlib.Core.Path.{◌≡◌, refl, subst, ap, ◌∙◌}
use mathlib.Core.Bool.{true, false}
use mathlib.Core.List.{List, [], ◌∷◌, ◌++◌, map}
use native.Mathlib.Omega.{arith}
use motev.Base.Tests.{if◌then◌else◌, is_none}
use motev.Base.Lists.{any, length}
use motev.Base.Equality.{Eq, nat_eq, test_of_eq, ◌==◌, contains, eq_of_test, set_of, is_distinct}
use motev.Base.Order.{insert_sorted, sort_by}
use motev.Base.Mapping.{Dict, get, put, put_all, remove}

-- `d.keys()`
abbrev pub keys {ℓ κ} : {K : Type ℓ} {V : Type κ} → Dict K V → List K
keys [] = []
keys ((k, v) ∷ d) = k ∷ keys d

module _ {A : Type 0} ⦃e : Eq A⦄ where
  unfoldable pub tally : A → List A → ℕ
  tally a [] = 0
  tally a (x ∷ xs) = if x == a then suc (tally a xs) else tally a xs

  pub tally-append : (a : A) (xs ys : List A) → tally a (xs ++ ys) ≡ tally a xs + tally a ys
  unfolding tally
  tally-append a [] ys = omega arith
  tally-append a (x ∷ xs) ys = ground (arith, tally-append a xs ys)

  tally-absent : (a : A) (xs : List A) → contains a xs ≡ false → tally a xs ≡ 0
  unfolding tally contains
  tally-absent a [] h = refl
  tally-absent a (x ∷ xs) h = ground (arith, tally-absent a xs)

  tally-set_of : (a : A) (xs : List A) → tally a (set_of xs) ≤ 1
  unfolding tally set_of
  tally-set_of a [] = omega arith
  tally-set_of a (x ∷ xs) = ground (arith, tally-set_of a xs, tally-absent x (set_of xs))

  length-set_of-le : (xs : List A) → length (set_of xs) ≤ length xs
  unfolding set_of
  length-set_of-le [] = omega arith
  length-set_of-le (x ∷ xs) = ground (arith, length-set_of-le xs)

  set_of_same : (xs : List A) → length xs ≡ length (set_of xs) → set_of xs ≡ xs
  unfolding set_of
  set_of_same [] h = refl
  set_of_same (x ∷ xs) h = grind (arith, set_of_same xs, length-set_of-le xs)

  pub is_distinct-tally : (a : A) (xs : List A) → is_distinct xs ≡ true → tally a xs ≤ 1
  unfolding is_distinct
  is_distinct-tally a xs h =
      subst (λ (ys : List A). tally a ys ≤ 1) (set_of_same xs (eq_of_test _ _ h))
        (tally-set_of a xs)

  pub disjoint-tally :
      (a : A) (xs ys : List A)
      → any (λ x. contains x ys) xs ≡ false
      → 1 ≤ tally a ys
      → tally a xs ≡ 0
  unfolding tally any
  disjoint-tally a [] ys h i = refl
  disjoint-tally a (x ∷ xs) ys h i = ground (arith, disjoint-tally a xs ys, tally-absent x ys)

  module _ {B : Type 0} (f : B → A) (cmp : B → B → Ordering) where
    tally-insert_sorted :
        (a : A) (x : B) (xs : List B)
        → tally a (map f (insert_sorted cmp x xs)) ≡ tally a (f x ∷ map f xs)
    unfolding tally insert_sorted
    tally-insert_sorted a x [] = refl
    tally-insert_sorted a x (y ∷ ys) = ground (arith, tally-insert_sorted a x ys)

    pub tally-sort_by :
        (a : A) (xs : List B) → tally a (map f (sort_by cmp xs)) ≡ tally a (map f xs)
    unfolding tally sort_by
    tally-sort_by a [] = refl
    tally-sort_by a (x ∷ xs) =
        tally-insert_sorted a x (sort_by cmp xs)
        ∙ ap (λ (n : ℕ). if f x == a then suc n else n) (tally-sort_by a xs)

  module _ {V : Type 0} where
    tally-put_new :
        (a : A) (d : Dict A V) (k : A) (v : V)
        → tally k (keys d) ≡ 0
        → tally a (keys (put d k v)) ≡ tally a (k ∷ keys d)
    unfolding tally put
    tally-put_new a [] k v h = refl
    tally-put_new a ((j, w) ∷ d) k v h = ground (arith, tally-put_new a d k v)

    -- Items whose keys are new and distinct are all added.
    pub tally-put_all :
        (a : A) (d : Dict A V) (items : List (A × V))
        → ((b : A) → tally b (keys items) ≤ 1)
        → ((b : A) → 1 ≤ tally b (keys items) → tally b (keys d) ≡ 0)
        → tally a (keys (put_all d items)) ≡ tally a (keys items) + tally a (keys d)
    unfolding tally put_all
    tally-put_all a d [] once fresh = omega arith
    tally-put_all a d ((k, v) ∷ items) once fresh = ground (
      arith,
      tally-put_new a d k v new,
      tally-put_all a (put d k v) items (λ b. fewer b (once b)) (λ b i. later b i (once b)),
    )
      where
        new : tally k (keys d) ≡ 0
        new = fresh k (ground (arith, test_of_eq k k refl))

        fewer :
            (b : A)
            → (if k == b then suc (tally b (keys items)) else tally b (keys items)) ≤ 1
            → tally b (keys items) ≤ 1
        fewer b h = ground arith

        later :
            (b : A)
            → 1 ≤ tally b (keys items)
            → (if k == b then suc (tally b (keys items)) else tally b (keys items)) ≤ 1
            → tally b (keys (put d k v)) ≡ 0
        later b i h = ground (arith, tally-put_new b d k v new, fresh b)

    pub get-tally : (d : Dict A V) (k : A) → 1 ≤ tally k (keys d) → is_none (get d k) ≡ false
    unfolding tally get
    get-tally [] k h = ground arith
    get-tally ((j, v) ∷ d) k h = ground (arith, get-tally d k)

    pub tally-remove :
        (a : A) (d : Dict A V) (k : A)
        → is_none (get d k) ≡ false
        → tally a (k ∷ keys (remove d k)) ≡ tally a (keys d)
    unfolding tally get remove
    tally-remove a [] k h = ground arith
    tally-remove a ((j, v) ∷ d) k h = ground (arith, tally-remove a d k)
