-- ===== src/Base/Distinctness.antt =====
-- A dict made of items with distinct keys gives each item back.
use Prim.Native.Nat.{suc, ◌+◌, ◌≤◌}
use mathlib.Core.Path.{◌≡◌, ◌∙◌, sym, ap}
use mathlib.Core.Logic.{inl, inr}
use mathlib.Core.Option.{none, some}
use mathlib.Core.List.{List, [], ◌∷◌}
use native.Mathlib.Omega.{arith}
use motev.Base.Tests.{if◌then◌else◌, Option-cases, Bool-cases}
use motev.Base.Lists.{length}
use motev.Base.Equality.{Eq, ◌==◌, eq_of_test}
use motev.Base.Mapping.{Dict, get, put, put_all, dict_of, get-put}

module _ {ℓ κ} {K : Type ℓ} {V : Type κ} ⦃e : Eq K⦄ where
  length-put_known :
      (d : Dict K V) (k : K) (v w : V) → get d k ≡ some w → length (put d k v) ≡ length d
  unfolding get put
  length-put_known [] k v w h = cc
  length-put_known ((j, u) ∷ d) k v w h = ground (arith, length-put_known d k v w)

  length-put-le : (d : Dict K V) (k : K) (v : V) → length (put d k v) ≤ suc (length d)
  unfolding put
  length-put-le [] k v = omega arith
  length-put-le ((j, u) ∷ d) k v = ground (arith, length-put-le d k v)

  length-put_all-le :
      (d : Dict K V) (items : List (K × V)) → length (put_all d items) ≤ length d + length items
  unfolding put_all
  length-put_all-le d [] = omega arith
  length-put_all-le d ((k, v) ∷ items) =
      omega (arith, length-put_all-le (put d k v) items, length-put-le d k v)

  get-put_all_kept :
      (d : Dict K V) (items : List (K × V)) (k : K) (v : V)
      → length (put_all d items) ≡ length d + length items
      → get d k ≡ some v
      → get (put_all d items) k ≡ some v
  unfolding put_all
  get-put_all_kept d [] k v h found = found
  get-put_all_kept d ((j, w) ∷ items) k v h found = elim (Option-cases (get d j)) [
    | inr (u, known) ↦
        absurd (omega (arith, length-put_all-le (put d j w) items, length-put_known d j w u known))
    | inl missing ↦
        get-put_all_kept (put d j w) items k v
          (exact (length-put_all-le (put d j w) items) (length-put-le d j w) h)
          (get-put d j k w ∙ other missing)
  ]
    where
      exact :
          length (put_all (put d j w) items) ≤ length (put d j w) + length items
          → length (put d j w) ≤ suc (length d)
          → length (put_all (put d j w) items) ≡ length d + suc (length items)
          → length (put_all (put d j w) items) ≡ length (put d j w) + length items
      exact a b c = omega arith

      apart : none ≡ some v → ⊥
      apart p = cc

      other : get d j ≡ none → (if j == k then some w else get d k) ≡ some v
      other missing = elim (Bool-cases (j == k)) [
        | inl same ↦ absurd (apart (sym missing ∙ ap (get d) (eq_of_test j k same) ∙ found))
        | inr differ ↦ ground arith
      ]

  -- The first item is found when the dict has as many entries as there are items.
  pub get-dict_of_first :
      (k : K) (v : V) (items : List (K × V))
      → length (dict_of ((k, v) ∷ items)) ≡ suc (length items)
      → get (dict_of ((k, v) ∷ items)) k ≡ some v
  unfolding dict_of put_all put get
  get-dict_of_first k v items h =
      get-put_all_kept ((k, v) ∷ []) items k v (omega (arith)) (ground arith)
