-- ===== src/Lsm/Db/Compact.antt =====
-- `compact` of 10-database-internals/src/db.rs, with `compact` of
-- 10-database-internals/src/compaction.rs.
use mathlib.Core.List.{map}
use rust_fundamentals.Base.{
  ℕ, zero, suc, ◌+◌, Bool, true, false, Option, none, some, List, [], ◌∷◌, length, ltb,
  if◌then◌else◌,
}
use rust_fundamentals.Lsm.Result.{Result, ok, err, panic, stuck, io, ◌>>=◌}
use rust_fundamentals.Lsm.Encoding.{Record}
use rust_fundamentals.Lsm.Merge.{compact_records}
use rust_fundamentals.Lsm.SsTable.{SsTable, iter}
use rust_fundamentals.Lsm.Db.{
  Dir, Db, Io, TableWrite, or_failed, and_then, remove_file, write_table, open_file,
}

-- What each table's `iter` gives, up to the first failure.
unfoldable pub read_tables : List SsTable → Result (List (List Record))
read_tables [] = ok []
read_tables (table ∷ rest) = iter table >>= λ rs. read_tables rest >>= λ lists. ok (rs ∷ lists)

-- `compaction::compact` from what was read on.
unfoldable pub write_merged :
    Dir → ℕ → TableWrite → Result (List (List Record)) → Result (Unit {0}) × Dir
write_merged dir id outcome (ok lists) = write_table dir id (compact_records lists) outcome
write_merged dir id outcome (err e) = (err e, dir)
write_merged dir id outcome panic = (panic, dir)
write_merged dir id outcome stuck = (stuck, dir)

-- The loop over the old ids; it ends at the first removal that fails.
unfoldable pub remove_files : List ℕ → Dir → Option ℕ → Result (Unit {0}) × Dir
remove_files [] dir removals = (ok tt, dir)
remove_files (id ∷ ids) dir none = remove_files ids (remove_file id dir) none
remove_files (id ∷ ids) dir (some zero) = (err io, dir)
remove_files (id ∷ ids) dir (some (suc n)) = remove_files ids (remove_file id dir) (some n)

abbrev pub sync_dir : Bool → Result (Unit {0})
sync_dir true = ok tt
sync_dir false = err io

-- `Db::compact` from the outcome of `SsTable::open` on.
unfoldable pub swap : Db → Io → Result SsTable → Result (Unit {0}) × Db
swap db sys (ok merged) =
    let old_ids = map (λ t. t.id) db.sstables in
    let (removed, dir) = remove_files old_ids db.dir sys.removals in
    let swapped = record db {
      dir = dir;
      sstables = merged ∷ [];
      next_sst_id = db.next_sst_id + 1;
    } in
    and_then removed swapped (sync_dir sys.dir_sync_ok, swapped)
swap db sys (err e) = (err e, db)
swap db sys panic = (panic, db)
swap db sys stuck = (stuck, db)

unfoldable pub compact : Db → Io → Result (Unit {0}) × Db
compact db sys =
    if ltb (length db.sstables) 2
    then (ok tt, db)
    else (let (written, dir) =
          write_merged db.dir db.next_sst_id sys.table_outcome
            (or_failed sys.iter_failure (read_tables db.sstables)) in
        let db' = record db { dir = dir } in
        and_then written db'
          (swap db' sys (or_failed sys.open_failure (open_file dir db.next_sst_id))))
