-- ===== src/Lsm/Db/Buffered.antt =====
-- The records of a sorted map, as `flush` and `compact` write them to a table.
use Prim.Native.Nat.Ordering.{lt}
use rust_fundamentals.Base.{
  ◌≡◌, refl, sym, ap, ◌∙◌, subst, none, [], ◌∷◌, All, inl, inr, Ordering-cases, arith,
}
use rust_fundamentals.Base.Bytes.{Bytes}
use rust_fundamentals.Base.Order.{cmp, cmp_refl, eq_of_cmp, gt_of_lt, lt_of_gt}
use rust_fundamentals.Base.Map
use rust_fundamentals.Base.Map.{Map, key_eq}
use rust_fundamentals.Base.Map.Sorted.{Above, IsSorted, Above-trans}
use rust_fundamentals.Base.Ascending.{Ascending}
use rust_fundamentals.Lsm.Encoding.{Record}
use rust_fundamentals.Lsm.MemTable.Valid.{IsKeyed}
use rust_fundamentals.Lsm.SsTable.Get.{record_key, find}

find-Above :
    (key k : Bytes) (m : Map Record) → IsKeyed m → Above key m → find key (Map.values m) ≡ none
unfolding find key_eq
find-Above key k [] h a = refl
find-Above key k ((j, r) ∷ m) (e, h) (p, a) =
    ground (arith, ap (λ (t : Bytes). cmp t key) e, gt_of_lt key j p, find-Above key k m h a)

-- A walk over the records of a sorted map finds what the map has.
pub find-values :
    (key : Bytes) (m : Map Record)
    → IsSorted m
    → IsKeyed m
    → find key (Map.values m) ≡ Map.get key m
unfolding find Map.get key_eq
find-values key [] s h = refl
find-values key ((j, r) ∷ m) (a, s) (e, h) = elim (Ordering-cases (cmp key j)) [
  | inl p ↦ find-Above key j ((j, r) ∷ m) (e, h) (p, Above-trans key j m p a) ∙ ground (arith, p)
  | inr (inl p) ↦
      ground (arith, p, ap (λ (t : Bytes). cmp t key) e, eq_of_cmp key j p, cmp_refl key)
  | inr (inr p) ↦
      ground (arith, p, ap (λ (t : Bytes). cmp t key) e, lt_of_gt key j p, find-values key m s h)
]

Above-values :
    (k : Bytes) (m : Map Record)
    → IsKeyed m
    → Above k m
    → All (λ r. cmp k (record_key r) ≡ lt) (Map.values m)
Above-values k [] h a = tt
Above-values k ((j, r) ∷ m) (e, h) (p, a) =
    (ap (λ (t : Bytes). cmp k t) e ∙ p, Above-values k m h a)

pub Ascending-values :
    (m : Map Record) → IsSorted m → IsKeyed m → Ascending record_key (Map.values m)
Ascending-values [] s h = tt
Ascending-values ((j, r) ∷ m) (a, s) (e, h) =
    (Above-values r.key m h (subst (λ (t : Bytes). Above t m) (sym e) a), Ascending-values m s h)
