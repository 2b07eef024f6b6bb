-- ===== src/Lsm/Db/View.antt =====
-- What `get` gives behind `flush`, whatever the system answers.
use rust_fundamentals.Base.{
  some, none, ℕ, ◌≡◌, refl, ap, ◌∙◌, Option, List, ◌∷◌, leb, ◌⊎◌, inl, inr, Bool-cases, ==_refl,
}
use rust_fundamentals.Base.Bytes.{Bytes}
use rust_fundamentals.Base.Map
use rust_fundamentals.Base.Map.{key_eq}
use rust_fundamentals.Lsm.Result.{Error, Result, ok, err, io, ◌>>=◌}
use rust_fundamentals.Lsm.Encoding.{Record}
use rust_fundamentals.Lsm.Wal
use rust_fundamentals.Lsm.MemTable
use rust_fundamentals.Lsm.MemTable.{MemTable}
use rust_fundamentals.Lsm.MemTable.Valid
use rust_fundamentals.Lsm.MemTable.Valid.{get-insert_lem}
use rust_fundamentals.Lsm.SsTable
use rust_fundamentals.Lsm.SsTable.{SsTable, image}
use rust_fundamentals.Lsm.SsTable.Layout.{TableFits}
use rust_fundamentals.Lsm.SsTable.Open.{handle, open_table-image}
use rust_fundamentals.Lsm.SsTable.Get.{get-image}
use rust_fundamentals.Lsm.Db.{
  Db, Dir, Io, TableWrite, done, not_renamed, not_synced, or_older, remove_file, get_tables, get,
  or_failed, and_then, write_table, file_at, open_file, install, flush, maybe_flush,
}
use rust_fundamentals.Lsm.Db.Buffered.{find-values, Ascending-values}

-- The memtable is in order, and its records fit into a table.
pub record Flushable (mem : MemTable) : Type 0 where
  pub valid : Valid.IsValid mem
  pub fits : TableFits (MemTable.records mem)

pub get_tables-cons :
    (table : SsTable) (rest : List SsTable) (key : Bytes) {hit : Option Record}
    → SsTable.get table key ≡ ok hit
    → get_tables (table ∷ rest) key ≡ or_older hit (get_tables rest key)
unfolding get_tables
get_tables-cons table rest key e = ap (λ t. t >>= λ hit. or_older hit (get_tables rest key)) e

-- A table of the memtable's records, in front of the others, gives what the memtable gave.
pub get_tables-flushed :
    (mem : MemTable) (id : ℕ) (rest : List SsTable) (key : Bytes)
    → Flushable mem
    → get_tables (handle (MemTable.records mem) id ∷ rest) key
      ≡ or_older (MemTable.get key mem) (get_tables rest key)
unfolding MemTable.get MemTable.records
get_tables-flushed mem id rest key f =
    let sorted = f.valid.sorted in
    let keyed = f.valid.keyed in
    get_tables-cons _ rest key (get-image _ id f.fits (Ascending-values mem.map sorted keyed) key)
    ∙ ap (λ (hit : Option Record). or_older hit (get_tables rest key))
        (find-values key mem.map sorted keyed)

pub open_file-written :
    (rest : Dir) (id : ℕ) (rs : List Record)
    → TableFits rs
    → open_file ((id, image rs) ∷ rest) id ≡ ok (handle rs id)
unfolding open_file file_at
open_file-written rest id rs fits = rw (==_refl id, open_table-image rs fits id)

-- The second store reads like the first one.
abbrev pub SameView : Db → Db → Type 0
SameView db db' = (key : Bytes) → get db' key ≡ get db key

-- A call ends well, or with an error of the system; it does not panic.
abbrev pub Ends : Result (Unit {0}) → Type 0
Ends r = (r ≡ ok tt) ⊎ (r ≡ err io)

-- The same, or with the error of a read or an opening that fails.
abbrev pub EndsOr : Option Error → Result (Unit {0}) → Type 0
EndsOr failure r = Ends r ⊎ ((e : Error) × (failure ≡ some e) × (r ≡ err e))

-- `flush` behind its test, by the outcomes of its steps.
abbrev pub flush_rest : Db → Wal.ResetOutcome → Option Error → TableWrite → Result (Unit {0}) × Db
flush_rest db reset_outcome failure outcome =
    let (written, dir) = write_table db.dir db.next_sst_id (MemTable.records db.mem) outcome in
    let db' = record db { dir = dir } in
    and_then written db'
      (install db' reset_outcome (or_failed failure (open_file dir db.next_sst_id)))

-- The table of the memtable's records takes its place.
flushed_reads :
    (db : Db) (key : Bytes)
    → Flushable db.mem
    → get_tables (handle (MemTable.records db.mem) db.next_sst_id ∷ db.sstables) key ≡ get db key
unfolding get
flushed_reads db key f = get_tables-flushed db.mem db.next_sst_id db.sstables key f

install-keeps :
    (db db' : Db) (reset_outcome : Wal.ResetOutcome)
    → Flushable db.mem
    → db'.sstables ≡ db.sstables
    → (let r = install db' reset_outcome (ok (handle (MemTable.records db.mem) db.next_sst_id)) in
        Ends r.0 × SameView db r.1)
unfolding install Wal.reset MemTable.clear get MemTable.get Map.get
install-keeps db db' Wal.emptied f e = (
  inl refl,
  λ key.
      ap (λ ts. get_tables (handle (MemTable.records db.mem) db.next_sst_id ∷ ts) key) e
      ∙ flushed_reads db key f,
)
install-keeps db db' Wal.not_cut f e = (
  inr refl,
  λ key.
      ap (λ ts. get_tables (handle (MemTable.records db.mem) db.next_sst_id ∷ ts) key) e
      ∙ flushed_reads db key f,
)
install-keeps db db' Wal.not_reopened f e = (
  inr refl,
  λ key.
      ap (λ ts. get_tables (handle (MemTable.records db.mem) db.next_sst_id ∷ ts) key) e
      ∙ flushed_reads db key f,
)

flush_rest-keeps :
    (db : Db) (reset_outcome : Wal.ResetOutcome) (failure : Option Error) (outcome : TableWrite)
    → Flushable db.mem
    → (let r = flush_rest db reset_outcome failure outcome in EndsOr failure r.0 × SameView db r.1)
unfolding write_table get install
flush_rest-keeps db reset_outcome (some e) done f = (inr (e, refl, refl), λ key. refl)
flush_rest-keeps db reset_outcome none done f =
    rw
      (open_file-written (remove_file db.next_sst_id db.dir) db.next_sst_id
        (MemTable.records db.mem) f.fits)
      (let db' : Db = record db {
        dir = (write_table db.dir db.next_sst_id (MemTable.records db.mem) done).1;
      } in
        let (ends, same) = install-keeps db db' reset_outcome f refl in (inl ends, same))
flush_rest-keeps db reset_outcome failure not_renamed f = (inl (inr refl), λ key. refl)
flush_rest-keeps db reset_outcome failure not_synced f = (inl (inr refl), λ key. refl)

-- Take a store whose memtable is valid and fits into a table. Whatever the system answers, `flush`
-- ends well or with an error of the system, and every key reads as before.
pub flush-keeps :
    (db : Db) (sys : Io)
    → Flushable db.mem
    → EndsOr sys.open_failure (flush db sys).0 × SameView db (flush db sys).1
unfolding flush
flush-keeps db sys f = elim (Bool-cases (MemTable.is_empty db.mem)) [
  | inl empty ↦ rw empty (inl (inl refl), λ key. refl)
  | inr full ↦ rw full (flush_rest-keeps db sys.reset_outcome sys.open_failure sys.table_outcome f)
]

pub maybe_flush-keeps :
    (db : Db) (sys : Io)
    → Flushable db.mem
    → EndsOr sys.open_failure (maybe_flush db sys).0 × SameView db (maybe_flush db sys).1
unfolding maybe_flush
maybe_flush-keeps db sys f =
    elim (Bool-cases (leb db.opts.memtable_flush_bytes (MemTable.approx_bytes db.mem))) [
      | inl large ↦ rw large (flush-keeps db sys f)
      | inr small ↦ rw small (inl (inl refl), λ key. refl)
    ]
