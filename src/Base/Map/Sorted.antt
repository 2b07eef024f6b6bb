-- ===== src/Base/Map/Sorted.antt =====
-- The order of the entries.
use Prim.Native.Nat.Ordering.{lt}
use mathlib.Core.Path.{◌≡◌, refl, ap}
use mathlib.Core.Logic.{◌⊎◌, inl, inr}
use mathlib.Core.Option.{none}
use mathlib.Core.List.{[], ◌∷◌}
use native.Mathlib.Omega.{arith}
use rust_fundamentals.Base.Tests.{Ordering-cases}
use rust_fundamentals.Base.Bytes.{Bytes}
use rust_fundamentals.Base.Order.{cmp, eq_of_cmp, lt_of_gt, lt_trans}
use rust_fundamentals.Base.Map.{Map, get, insert}

module _ {ℓ} {V : Type ℓ} where
  -- Every key of the map comes behind `k`.
  abbrev pub Above : Bytes → Map V → Type 0
  Above k [] = Unit {0}
  Above k ((j, v) ∷ m) = (cmp k j ≡ lt) × Above k m

  abbrev pub IsSorted : Map V → Type 0
  IsSorted [] = Unit {0}
  IsSorted ((k, v) ∷ m) = Above k m × IsSorted m

module _ {ℓ} {V : Type ℓ} where
  pub Above-trans : (i k : Bytes) (m : Map V) → cmp i k ≡ lt → Above k m → Above i m
  Above-trans i k [] p a = tt
  Above-trans i k ((j, v) ∷ m) p (q, a) = (lt_trans i k j p q, Above-trans i k m p a)

  pub get-Above : (i k : Bytes) (m : Map V) → Above k m → (cmp i k ≡ lt) ⊎ (i ≡ k) → get i m ≡ none
  unfolding get
  get-Above i k [] a h = refl
  get-Above i k ((j, v) ∷ m) (p, a) (inl q) = ground (arith, lt_trans i k j q p)
  get-Above i k ((j, v) ∷ m) (p, a) (inr e) = ground (arith, ap (λ t. cmp t j) e)

  insert-Above :
      (i k : Bytes) (v : V) (m : Map V) → cmp i k ≡ lt → Above i m → Above i (insert k v m)
  unfolding insert
  insert-Above i k v [] p a = (p, tt)
  insert-Above i k v ((j, w) ∷ m) p (q, a) = ground (arith, insert-Above i k v m p a, eq_of_cmp k j)

  pub insert-IsSorted : (k : Bytes) (v : V) (m : Map V) → IsSorted m → IsSorted (insert k v m)
  unfolding insert
  insert-IsSorted k v [] s = (tt, tt)
  insert-IsSorted k v ((j, w) ∷ m) (a, s) = elim (Ordering-cases (cmp k j)) [
    | inl p ↦ rw (p, insert) ((p, Above-trans k j m p a), (a, s))
    | inr (inl p) ↦ rw (p, insert) (rw (eq_of_cmp k j p) a, s)
    | inr (inr p) ↦
        rw (p, insert) (insert-Above j k v m (lt_of_gt k j p) a, insert-IsSorted k v m s)
  ]
