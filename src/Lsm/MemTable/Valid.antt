-- ===== src/Lsm/MemTable/Valid.antt =====
-- The invariant of the memtable, and reading behind an insertion.
use rust_fundamentals.Base.{
  ℕ, ◌+◌, ◌≤◌, ◌≡◌, refl, Option, none, some, [], ◌∷◌, arith, All, if◌then◌else◌, inl, inr,
  Ordering-cases,
}
use rust_fundamentals.Base.Bytes.{Bytes}
use rust_fundamentals.Base.Order.{cmp}
use rust_fundamentals.Base.Map
use rust_fundamentals.Base.Map.{Map, key_eq}
use rust_fundamentals.Base.Map.Laws.{get-insert}
use rust_fundamentals.Base.Map.Sorted.{IsSorted, insert-IsSorted}
use rust_fundamentals.Lsm.Encoding.{Record}
use rust_fundamentals.Lsm.MemTable.{MemTable, entry_size, insert, get}

-- What the entries take together.
unfoldable pub footprint : Map Record → ℕ
footprint [] = 0
footprint ((k, r) ∷ m) = entry_size r + footprint m

size_at : Option Record → ℕ
size_at none = 0
size_at (some r) = entry_size r

-- Each record stands under its own key.
abbrev pub IsKeyed : Map Record → Type 0
IsKeyed = All (λ e. e.1.key ≡ e.0)

pub record IsValid (m : MemTable) : Type 0 where
  pub sorted : IsSorted m.map
  pub keyed : IsKeyed m.map
  pub measured : m.approx_bytes ≡ footprint m.map

footprint-insert :
    (k : Bytes) (r : Record) (m : Map Record)
    → footprint (Map.insert k r m) + size_at (Map.get k m) ≡ footprint m + entry_size r
unfolding footprint size_at Map.insert Map.get
footprint-insert k r [] = omega arith
footprint-insert k r ((j, s) ∷ m) = ground (arith, footprint-insert k r m)

size_at-le : (k : Bytes) (m : Map Record) → size_at (Map.get k m) ≤ footprint m
unfolding footprint size_at Map.get
size_at-le k [] = omega arith
size_at-le k ((j, s) ∷ m) = ground (arith, size_at-le k m)

pub IsKeyed-insert :
    (k : Bytes) (r : Record) (m : Map Record) → r.key ≡ k → IsKeyed m → IsKeyed (Map.insert k r m)
unfolding Map.insert
IsKeyed-insert k r [] e h = (e, tt)
IsKeyed-insert k r ((j, s) ∷ m) e (hs, h) = elim (Ordering-cases (cmp k j)) [
  | inl p ↦ rw (p, Map.insert) (e, (hs, h))
  | inr (inl p) ↦ rw (p, Map.insert) (e, h)
  | inr (inr p) ↦ rw (p, Map.insert) (hs, IsKeyed-insert k r m e h)
]

-- An entry that an insertion overwrites is not larger than the estimate, so the subtraction is exact.
pub size-le-approx :
    (m : MemTable) (k : Bytes) {old : Record}
    → IsValid m
    → get k m ≡ some old
    → entry_size old ≤ m.approx_bytes
unfolding get size_at
size-le-approx m k v h = ground (arith, v.measured, size_at-le k m.map)

-- Insertion into a valid memtable keeps the entries sorted and under their own keys, and the byte
-- estimate equal to the sum of the entries' sizes.
pub insert-IsValid : (m : MemTable) (r : Record) → IsValid m → IsValid (insert m r)
unfolding insert size_at
insert-IsValid m r v = record {
  sorted = insert-IsSorted r.key r m.map v.sorted;
  keyed = IsKeyed-insert r.key r m.map refl v.keyed;
  measured = ground (arith, v.measured, size_at-le r.key m.map, footprint-insert r.key r m.map);
}

-- After an insertion the new record is read at its key, and every other key reads as before.
pub get-insert_lem :
    (m : MemTable) (r : Record) (j : Bytes)
    → get j (insert m r) ≡ (if key_eq r.key j then some r else get j m)
unfolding insert get
get-insert_lem m r j = get-insert r.key j r m.map
