-- ===== src/Lsm/Db.antt =====
-- 10-database-internals/src/db.rs and `compact` of compaction.rs: the store. The directory is the
-- list of its table files by id; temporary files, which no code reads back, are left out. What the
-- system answers to each call is in `Io`. Sequence numbers and ids are below 2^64.
pub mod Buffered
pub mod Compact
pub mod Scan
pub mod Recovery
pub mod View
pub mod Write
pub mod Levels
pub mod Reopen
pub mod Torn
pub mod Keep
pub mod Layers
pub mod Merged
pub mod Scanned
use Prim.Native.Nat.{max}
use mathlib.Core.List.{map, reverse}
use rust_fundamentals.Base.{
  ℕ, zero, suc, ◌+◌, Bool, true, false, Option, none, some, List, [], ◌∷◌, ◌++◌, length, ◌==◌, ltb,
  leb, if◌then◌else◌,
}
use rust_fundamentals.Base.Bytes.{Bytes}
use rust_fundamentals.Base.Map
use rust_fundamentals.Base.Map.{Map}
use rust_fundamentals.Lsm.Result.{Result, Error, ok, err, panic, stuck, io, ◌>>=◌, ok_or}
use rust_fundamentals.Lsm.Encoding.{Record, Seq, ValueKind, put_record, tombstone}
use rust_fundamentals.Lsm.Encoding
use rust_fundamentals.Lsm.Wal
use rust_fundamentals.Lsm.Wal.{Wal, WriteAll}
use rust_fundamentals.Lsm.MemTable
use rust_fundamentals.Lsm.MemTable.{MemTable}
use rust_fundamentals.Lsm.Merge.{keep_newest, merge_into, compact_records}
use rust_fundamentals.Lsm.SsTable
use rust_fundamentals.Lsm.SsTable.{SsTable, image, open_table, iter, table_len}

pub record Options : Type 0 where
  pub memtable_flush_bytes : ℕ

-- The table files of the directory: ids and contents.
abbrev pub Dir : Type 0
Dir = List (ℕ × Bytes)

pub record Db : Type 0 where
  pub dir : Dir
  pub wal : Wal
  pub mem : MemTable
  pub sstables : List SsTable
  pub seq : Seq
  pub next_sst_id : ℕ
  pub opts : Options

-- How far `SsTable::write` gets: a failure before the rename leaves no table, one behind it does.
pub data TableWrite : Type 0 where
  done : TableWrite
  not_renamed : TableWrite
  not_synced : TableWrite

-- The system's answers to the calls of one operation. `iter_failure` and `open_failure` are the
-- errors with which `compact` fails to read a table, and with which the new table fails to open, if
-- they do: `io` of opening it, `corrupt` of a read. `removals` is the number of files that `compact`
-- can remove before a removal fails, if one does.
pub record Io : Type 0 where
  pub append_outcome : WriteAll
  pub sync_ok : Bool
  pub table_outcome : TableWrite
  pub iter_failure : Option Error
  pub open_failure : Option Error
  pub reset_outcome : Wal.ResetOutcome
  pub removals : Option ℕ
  pub dir_sync_ok : Bool

-- A call that the system lets fail, or else its result.
abbrev pub or_failed {ℓ} : {A : Type ℓ} → Option Error → Result A → Result A
or_failed none result = result
or_failed (some e) result = err e

-- `?` on a step that has left the store in a state, and goes on otherwise.
abbrev pub and_then : Result (Unit {0}) → Db → Result (Unit {0}) × Db → Result (Unit {0}) × Db
and_then (ok _) db next = next
and_then (err e) db next = (err e, db)
and_then panic db next = (panic, db)
and_then stuck db next = (stuck, db)

unfoldable pub remove_file : ℕ → Dir → Dir
remove_file id [] = []
remove_file id ((i, f) ∷ dir) =
    let rest = remove_file id dir in if i == id then rest else (i, f) ∷ rest

unfoldable pub file_at : ℕ → Dir → Option Bytes
file_at id [] = none
file_at id ((i, f) ∷ dir) = let rest = file_at id dir in if i == id then some f else rest

-- `SsTable::write` as the directory sees it.
unfoldable pub write_table : Dir → ℕ → List Record → TableWrite → Result (Unit {0}) × Dir
write_table dir id records done = (ok tt, (id, image records) ∷ remove_file id dir)
write_table dir id records not_renamed = (err io, dir)
write_table dir id records not_synced = (err io, (id, image records) ∷ remove_file id dir)

-- `SsTable::open` on the path of a table.
unfoldable pub open_file : Dir → ℕ → Result SsTable
open_file dir id = ok_or io (file_at id dir) >>= λ f. open_table f id

-- `flush` from the outcome of `SsTable::open` on.
unfoldable pub install : Db → Wal.ResetOutcome → Result SsTable → Result (Unit {0}) × Db
install db reset_outcome (ok table) =
    let (outcome, wal) = Wal.reset db.wal reset_outcome in
    (
      outcome,
      record db {
        wal = wal;
        mem = MemTable.clear db.mem;
        sstables = table ∷ db.sstables;
        next_sst_id = db.next_sst_id + 1;
      },
    )
install db reset_outcome (err e) = (err e, db)
install db reset_outcome panic = (panic, db)
install db reset_outcome stuck = (stuck, db)

unfoldable pub flush : Db → Io → Result (Unit {0}) × Db
flush db sys =
    if MemTable.is_empty db.mem
    then (ok tt, db)
    else (let records = MemTable.records db.mem in
        let (written, dir) = write_table db.dir db.next_sst_id records sys.table_outcome in
        let db' = record db { dir = dir } in
        and_then written db' (
          install db' sys.reset_outcome
            (or_failed sys.open_failure (open_file dir db.next_sst_id))))

unfoldable pub maybe_flush : Db → Io → Result (Unit {0}) × Db
maybe_flush db sys =
    if leb db.opts.memtable_flush_bytes (MemTable.approx_bytes db.mem)
    then flush db sys
    else (ok tt, db)

-- What `put` and `delete` do with their record.
unfoldable pub write_record : Db → Record → Io → Result (Unit {0}) × Db
write_record db r sys =
    let (appended, wal) = Wal.append db.wal r sys.append_outcome in
    let (synced, wal') = Wal.sync wal sys.sync_ok in
    let applied = record db { wal = wal'; mem = MemTable.insert db.mem r } in
    and_then appended (record db { wal = wal })
      (and_then synced (record db { wal = wal' }) (maybe_flush applied sys))

unfoldable pub put : Db → Bytes → Bytes → Io → Result (Unit {0}) × Db
put db key value sys =
    write_record (record db { seq = db.seq + 1 }) (put_record db.seq key value) sys

unfoldable pub delete : Db → Bytes → Io → Result (Unit {0}) × Db
delete db key sys = write_record (record db { seq = db.seq + 1 }) (tombstone db.seq key) sys

-- What a record says of its key.
abbrev pub live : ValueKind → Option Bytes
live (Encoding.put bytes) = some bytes
live Encoding.delete = none

-- The first source that has the key decides; the older ones are asked where it does not.
abbrev pub or_older : Option Record → Result (Option Bytes) → Result (Option Bytes)
or_older none older = older
or_older (some r) older = ok (live r.value)

unfoldable pub get_tables : List SsTable → Bytes → Result (Option Bytes)
get_tables [] key = ok none
get_tables (table ∷ rest) key = SsTable.get table key >>= λ hit. or_older hit (get_tables rest key)

unfoldable pub get : Db → Bytes → Result (Option Bytes)
get db key = or_older (MemTable.get key db.mem) (get_tables db.sstables key)
