-- ===== src/Lsm/Merge.antt =====
-- The newest-wins merge: `keep_newest` of 10-database-internals/src/db.rs, and `newest_per_key` and
-- the reduction in `compact` of 10-database-internals/src/compaction.rs.
pub mod Newest
use rust_fundamentals.Base.{
  ℕ, Option, none, some, List, [], ◌∷◌, ◌++◌, leb, if◌then◌else◌, Bool, true, false,
}
use rust_fundamentals.Base.Bytes.{Bytes}
use rust_fundamentals.Base.Map
use rust_fundamentals.Base.Map.{Map}
use rust_fundamentals.Lsm.Encoding.{Record, ValueKind, put, delete}

unfoldable pub keep_newest : Map Record → Record → Map Record
keep_newest best rec =
    let inserted = Map.insert rec.key rec best in
    elim (Map.get rec.key best) [
      | none ↦ inserted
      | some existing ↦ if leb rec.seq existing.seq then best else inserted
    ]

-- The loop over the records.
unfoldable pub merge_into : Map Record → List Record → Map Record
merge_into best [] = best
merge_into best (rec ∷ rest) = merge_into (keep_newest best rec) rest

unfoldable pub newest_per_key : List Record → List Record
newest_per_key records = Map.values (merge_into [] records)

unfoldable pub is_delete : ValueKind → Bool
is_delete (put bytes) = false
is_delete delete = true

-- `survivors.retain(|rec| rec.value != ValueKind::Delete)`
unfoldable pub retain_puts : List Record → List Record
retain_puts [] = []
retain_puts (rec ∷ rest) =
    let kept = retain_puts rest in if is_delete rec.value then kept else rec ∷ kept

-- The first loop of `compact`, over what each table's `iter` gave.
unfoldable pub collect : List (List Record) → List Record
collect [] = []
collect (table ∷ rest) = table ++ collect rest

-- The records that `compact` writes.
unfoldable pub compact_records : List (List Record) → List Record
compact_records tables = retain_puts (newest_per_key (collect tables))
