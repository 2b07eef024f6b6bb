-- ===== src/Base/Map/Laws.antt =====
-- Reading behind a write.
use mathlib.Core.Path.{◌≡◌}
use mathlib.Core.Logic.{◌≢◌}
use mathlib.Core.Bool.{true, false}
use mathlib.Core.Option.{some}
use mathlib.Core.List.{[], ◌∷◌}
use native.Mathlib.Omega.{arith}
use rust_fundamentals.Base.Tests.{if◌then◌else◌}
use rust_fundamentals.Base.Bytes.{Bytes}
use rust_fundamentals.Base.Order.{cmp_refl, eq_of_cmp, gt_of_lt, lt_of_gt, lt_trans}
use rust_fundamentals.Base.Map.{Map, key_eq, get, insert}

pub key_eq_refl : (a : Bytes) → key_eq a a ≡ true
unfolding key_eq
key_eq_refl a = ground (arith, cmp_refl a)

pub eq_of_key_eq : (a b : Bytes) → key_eq a b ≡ true → a ≡ b
unfolding key_eq
eq_of_key_eq a b h = ground (arith, eq_of_cmp a b)

pub ne_of_key_eq : (a b : Bytes) → key_eq a b ≡ false → a ≢ b
ne_of_key_eq a b h e = cc (key_eq_refl a)

pub key_eq_of_ne : (a b : Bytes) → a ≢ b → key_eq a b ≡ false
unfolding key_eq
key_eq_of_ne a b h = ground (arith, eq_of_cmp a b)

pub get-insert {ℓ} :
    {V : Type ℓ} (k j : Bytes) (v : V) (m : Map V)
    → get j (insert k v m) ≡ (if key_eq k j then some v else get j m)
unfolding get insert key_eq
get-insert k j v [] =
    ground (arith, lt_of_gt j k, gt_of_lt j k, eq_of_cmp j k, cmp_refl j, eq_of_cmp k j)
get-insert k j v ((i, w) ∷ m) = ground (
  arith,
  get-insert k j v m,
  eq_of_cmp k i,
  eq_of_cmp k j,
  eq_of_cmp j k,
  eq_of_cmp j i,
  lt_of_gt j k,
  gt_of_lt j k,
  lt_of_gt k i,
  lt_trans j k i,
  lt_trans j i k,
  cmp_refl j,
)
