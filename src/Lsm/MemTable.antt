-- ===== src/Lsm/MemTable.antt =====
-- 10-database-internals/src/memtable.rs: the write buffer. `usize` arithmetic is exact here: the
-- invariant shows that the subtraction does not go below zero, and a sum of sizes of data in memory
-- stays below 2^64.
pub mod Valid
use rust_fundamentals.Base.{
  ℕ, ◌+◌, ◌-◌, Option, none, some, List, [], ◌∷◌, length, Bool, true, false,
}
use rust_fundamentals.Base.Bytes.{Bytes}
use rust_fundamentals.Base.Map
use rust_fundamentals.Base.Map.{Map}
use rust_fundamentals.Lsm.Encoding.{Record, ValueKind, put, delete}

pub record MemTable : Type 0 where
  pub map : Map Record
  pub approx_bytes : ℕ

abbrev pub new : MemTable
new = record { map = []; approx_bytes = 0 }

abbrev value_len : ValueKind → ℕ
value_len (put v) = length v
value_len delete = 0

unfoldable pub entry_size : Record → ℕ
entry_size r = length r.key + value_len r.value + 48

unfoldable pub insert : MemTable → Record → MemTable
insert m r =
    let new_size = entry_size r in
    let kept : ℕ = elim (Map.get r.key m.map) [
      | none ↦ m.approx_bytes
      | some old ↦ m.approx_bytes - entry_size old
    ] in
    record { map = Map.insert r.key r m.map; approx_bytes = kept + new_size }

unfoldable pub get : Bytes → MemTable → Option Record
get key m = Map.get key m.map

unfoldable pub records : MemTable → List Record
records m = Map.values m.map

unfoldable pub len : MemTable → ℕ
len m = length m.map

unfoldable pub is_empty : MemTable → Bool
is_empty m = elim m.map [ [] ↦ true | _ ∷ _ ↦ false ]

unfoldable pub clear : MemTable → MemTable
clear m = record { map = []; approx_bytes = 0 }
