-- ===== src/Base/Map/Remove.antt =====
-- Reading behind a removal and behind `retain`.
use mathlib.Core.Path.{◌≡◌, refl}
use mathlib.Core.Logic.{inl, inr}
use mathlib.Core.Bool.{Bool}
use mathlib.Core.Option.{Option, none, some}
use mathlib.Core.List.{[], ◌∷◌}
use native.Mathlib.Omega.{arith}
use rust_fundamentals.Base.Tests.{if◌then◌else◌, Bool-cases, Ordering-cases}
use rust_fundamentals.Base.Bytes.{Bytes}
use rust_fundamentals.Base.Order.{cmp, cmp_refl, eq_of_cmp, gt_of_lt, lt_of_gt, lt_trans}
use rust_fundamentals.Base.Map.{Map, key_eq, get, remove, retain}
use rust_fundamentals.Base.Map.Sorted.{Above, IsSorted, get-Above}

-- A value that passes the test.
abbrev pub only_if {ℓ} : {V : Type ℓ} → (V → Bool) → Option V → Option V
only_if p none = none
only_if p (some v) = if p v then some v else none

module _ {ℓ} {V : Type ℓ} where
  remove-Above : (i k : Bytes) (m : Map V) → Above i m → Above i (remove k m)
  unfolding remove
  remove-Above i k [] a = tt
  remove-Above i k ((j, v) ∷ m) (p, a) = elim (Ordering-cases (cmp k j)) [
    | inl e ↦ rw (e, remove) (p, a)
    | inr (inl e) ↦ rw (e, remove) a
    | inr (inr e) ↦ rw (e, remove) (p, remove-Above i k m a)
  ]

  pub remove-IsSorted : (k : Bytes) (m : Map V) → IsSorted m → IsSorted (remove k m)
  unfolding remove
  remove-IsSorted k [] s = tt
  remove-IsSorted k ((j, v) ∷ m) (a, s) = elim (Ordering-cases (cmp k j)) [
    | inl e ↦ rw (e, remove) (a, s)
    | inr (inl e) ↦ rw (e, remove) s
    | inr (inr e) ↦ rw (e, remove) (remove-Above j k m a, remove-IsSorted k m s)
  ]

  pub get-remove :
      (k j : Bytes) (m : Map V)
      → IsSorted m
      → get j (remove k m) ≡ (if key_eq k j then none else get j m)
  unfolding remove get key_eq
  get-remove k j [] s = ground arith
  get-remove k j ((i, v) ∷ m) (a, s) = ground (
    arith,
    get-remove k j m s,
    get-Above j i m a,
    eq_of_cmp k i,
    eq_of_cmp k j,
    eq_of_cmp j i,
    lt_of_gt j i,
    gt_of_lt j i,
    lt_trans k i j,
    lt_trans j k i,
    cmp_refl j,
  )

  retain-Above : (p : V → Bool) (i : Bytes) (m : Map V) → Above i m → Above i (retain p m)
  unfolding retain
  retain-Above p i [] a = tt
  retain-Above p i ((j, v) ∷ m) (q, a) = elim (Bool-cases (p v)) [
    | inl kept ↦ rw kept (q, retain-Above p i m a)
    | inr dropped ↦ rw dropped (retain-Above p i m a)
  ]

  pub retain-IsSorted : (p : V → Bool) (m : Map V) → IsSorted m → IsSorted (retain p m)
  unfolding retain
  retain-IsSorted p [] s = tt
  retain-IsSorted p ((j, v) ∷ m) (a, s) = elim (Bool-cases (p v)) [
    | inl kept ↦ rw kept (retain-Above p j m a, retain-IsSorted p m s)
    | inr dropped ↦ rw dropped (retain-IsSorted p m s)
  ]

  pub get-retain :
      (p : V → Bool) (j : Bytes) (m : Map V) → IsSorted m → get j (retain p m) ≡ only_if p (get j m)
  unfolding retain get
  get-retain p j [] s = refl
  get-retain p j ((i, v) ∷ m) (a, s) =
      ground (arith, get-retain p j m s, get-Above j i m a, eq_of_cmp j i)
