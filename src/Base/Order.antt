-- ===== src/Base/Order.antt =====
-- Python's ordering of strings, numbers, booleans and tuples, and `sorted`.
use Prim.Native.Nat.{ℕ, Ordering, compare as compare_ℕ}
use Prim.Native.String.{String, compare as compare_string}
use mathlib.Core.Bool.{Bool, true, false}
use mathlib.Core.List.{List, [], ◌∷◌}

pub record Ord {ℓ} (A : Type ℓ) : Type ℓ where
  pub cmp : A → A → Ordering

-- The first component that differs decides.
abbrev pub then_compare : Ordering → Ordering → Ordering
then_compare Ordering.lt o = Ordering.lt
then_compare Ordering.eq o = o
then_compare Ordering.gt o = Ordering.gt

abbrev pub compare_bool : Bool → Bool → Ordering
compare_bool false false = Ordering.eq
compare_bool false true = Ordering.lt
compare_bool true false = Ordering.gt
compare_bool true true = Ordering.eq

module _ {ℓ} {A : Type ℓ} (cmp : A → A → Ordering) where
  -- Tuples of one element type compare item by item, a proper prefix being smaller.
  unfoldable pub compare_list : List A → List A → Ordering
  compare_list [] [] = Ordering.eq
  compare_list [] (y ∷ ys) = Ordering.lt
  compare_list (x ∷ xs) [] = Ordering.gt
  compare_list (x ∷ xs) (y ∷ ys) = then_compare (cmp x y) (compare_list xs ys)

  -- `x` goes before the items that are not smaller, so that sorting is stable.
  unfoldable pub insert_sorted : A → List A → List A
  insert_sorted x [] = x ∷ []
  insert_sorted x (y ∷ ys) =
      let rest = y ∷ insert_sorted x ys in elim (cmp y x) [ Ordering.lt ↦ rest | _ ↦ x ∷ y ∷ ys ]

  unfoldable pub sort_by : List A → List A
  unfolding insert_sorted
  sort_by [] = []
  sort_by (x ∷ xs) = insert_sorted x (sort_by xs)

instance abbrev pub nat_ord : Ord ℕ
nat_ord = record { cmp = compare_ℕ }

instance abbrev pub string_ord : Ord String
string_ord = record { cmp = compare_string }

-- `tuple(sorted(xs))`
unfoldable pub sorted {ℓ} : {A : Type ℓ} ⦃o : Ord A⦄ → List A → List A
unfolding sort_by
sorted ⦃o⦄ xs = sort_by o.cmp xs
