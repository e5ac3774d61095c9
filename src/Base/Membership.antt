-- ===== src/Base/Membership.antt =====
-- Membership in lists that are joined, sorted or measured.
use Prim.Native.Nat.{Ordering}
use mathlib.Core.Path.{◌≡◌, refl, sym, subst, ap}
use mathlib.Core.Logic.{◌⊎◌, inl, inr}
use mathlib.Core.Bool.{true}
use mathlib.Core.List.{List, [], ◌∷◌, ◌++◌, map}
use native.Mathlib.Omega.{arith}
use motev.Base.Lists.{In, Each, all}
use motev.Base.Equality.{Eq, contains, is_subset, test_of_eq}
use motev.Base.Order.{insert_sorted, sort_by}

module _ {A : Type 0} where
  pub In-append_left : (a : A) (xs ys : List A) → In a xs → In a (xs ++ ys)
  In-append_left a [] ys i = elim i [ ]
  In-append_left a (x ∷ xs) ys (inl e) = inl e
  In-append_left a (x ∷ xs) ys (inr i) = inr (In-append_left a xs ys i)

  pub In-append_last : (a x : A) (xs : List A) → In a (xs ++ x ∷ []) → In a xs ⊎ (a ≡ x)
  In-append_last a x [] (inl e) = inr e
  In-append_last a x [] (inr i) = absurd i
  In-append_last a x (y ∷ xs) (inl e) = inl (inl e)
  In-append_last a x (y ∷ xs) (inr i) = elim (In-append_last a x xs i) [
    | inl j ↦ inl (inr j)
    | inr e ↦ inr e
  ]

  pub In-last : (x : A) (xs : List A) → In x (xs ++ x ∷ [])
  In-last x [] = inl refl
  In-last x (y ∷ xs) = inr (In-last x xs)

  pub Each-In {κ} : (P : A → Type κ) (xs : List A) (a : A) → Each P xs → In a xs → P a
  Each-In P (x ∷ xs) a h (inl e) = subst P (sym e) h.0
  Each-In P (x ∷ xs) a h (inr i) = Each-In P xs a h.1 i
  Each-In P [] a h i = absurd i

  pub Each-of_In {κ} : (P : A → Type κ) (xs : List A) → ((a : A) → In a xs → P a) → Each P xs
  Each-of_In P [] h = tt
  Each-of_In P (x ∷ xs) h = (h x (inl refl), Each-of_In P xs (λ a i. h a (inr i)))

  module _ (cmp : A → A → Ordering) where
    In-insert_sorted : (a x : A) (xs : List A) → (a ≡ x) ⊎ In a xs → In a (insert_sorted cmp x xs)
    unfolding insert_sorted
    In-insert_sorted a x [] h = h
    In-insert_sorted a x (y ∷ ys) h = ground (arith, In-insert_sorted a x ys)

    insert_sorted-In : (a x : A) (xs : List A) → In a (insert_sorted cmp x xs) → (a ≡ x) ⊎ In a xs
    unfolding insert_sorted
    insert_sorted-In a x [] h = h
    insert_sorted-In a x (y ∷ ys) h = ground (arith, insert_sorted-In a x ys)

    pub In-sort_by : (a : A) (xs : List A) → In a xs → In a (sort_by cmp xs)
    unfolding sort_by
    In-sort_by a [] i = elim i [ ]
    In-sort_by a (x ∷ xs) (inl e) = In-insert_sorted a x (sort_by cmp xs) (inl e)
    In-sort_by a (x ∷ xs) (inr i) = In-insert_sorted a x (sort_by cmp xs) (inr (In-sort_by a xs i))

    pub sort_by-In : (a : A) (xs : List A) → In a (sort_by cmp xs) → In a xs
    unfolding sort_by
    sort_by-In a [] h = h
    sort_by-In a (x ∷ xs) h = elim (insert_sorted-In a x (sort_by cmp xs) h) [
      | inl e ↦ inl e
      | inr i ↦ inr (sort_by-In a xs i)
    ]

  -- Membership decides the tests `in` and `<=`.
  module _ ⦃e : Eq A⦄ where
    pub contains-In : (a : A) (xs : List A) → In a xs → contains a xs ≡ true
    unfolding contains
    contains-In a [] i = absurd i
    contains-In a (x ∷ xs) (inl same) = ground (arith, test_of_eq a x same)
    contains-In a (x ∷ xs) (inr i) = ground (arith, contains-In a xs i)

    pub is_subset-In : (xs ys : List A) → ((a : A) → In a xs → In a ys) → is_subset xs ys ≡ true
    unfolding is_subset all
    is_subset-In [] ys h = refl
    is_subset-In (x ∷ xs) ys h =
        let one = contains-In x ys (h x (inl refl)) in
        let more = is_subset-In xs ys (λ a i. h a (inr i)) in ground arith

module _ {A B : Type 0} (f : A → B) where
  pub In-map : (a : A) (xs : List A) → In a xs → In (f a) (map f xs)
  In-map a [] i = absurd i
  In-map a (x ∷ xs) (inl e) = inl (ap f e)
  In-map a (x ∷ xs) (inr i) = inr (In-map a xs i)

  pub map-In : (b : B) (xs : List A) → In b (map f xs) → (a : A) × In a xs × (b ≡ f a)
  map-In b [] i = absurd i
  map-In b (x ∷ xs) (inl e) = (x, inl refl, e)
  map-In b (x ∷ xs) (inr i) = let (a, j, e) = map-In b xs i in (a, inr j, e)
