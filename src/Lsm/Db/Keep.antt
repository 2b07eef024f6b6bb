-- ===== src/Lsm/Db/Keep.antt =====
-- `put`, `delete` and `flush` leave a store at rest at rest.
use rust_fundamentals.Base.{
  none, ◌≡◌, refl, sym, ap, ◌∙◌, subst, true, List, [], ◌∷◌, ◌++◌, length, All, arith, Bool-cases,
  inl, inr, leb,
}
use rust_fundamentals.Base.Bytes.{Bytes}
use rust_fundamentals.Lsm.Result.{Result}
use rust_fundamentals.Lsm.Encoding.{Record}
use rust_fundamentals.Lsm.Wal
use rust_fundamentals.Lsm.Wal.{Wal, log, FrameFits}
use rust_fundamentals.Lsm.Wal.Durable.{log-snoc}
use rust_fundamentals.Lsm.MemTable
use rust_fundamentals.Lsm.MemTable.{MemTable}
use rust_fundamentals.Lsm.SsTable.Open.{handle}
use rust_fundamentals.Lsm.Db.{
  Db, Io, done, install, flush, maybe_flush, write_table, write_record, remove_file,
}
use rust_fundamentals.Lsm.Db.Recovery.{insert_all}
use rust_fundamentals.Lsm.Db.View.{Flushable, flush_rest, open_file-written}
use rust_fundamentals.Lsm.Db.Write.{write_rest, write_record-rest}
use rust_fundamentals.Lsm.Db.Levels.{Level}
use rust_fundamentals.Lsm.Db.Reopen.{Durable, flushed_levels, files-flushed}
use rust_fundamentals.Lsm.Db.Torn.{insert_all-snoc}

-- Every call of the system succeeds.
pub record Fine (sys : Io) : Type 0 where
  pub appends : sys.append_outcome ≡ Wal.written
  pub syncs : sys.sync_ok ≡ true
  pub writes : sys.table_outcome ≡ done
  pub opens : sys.open_failure ≡ none
  pub resets : sys.reset_outcome ≡ Wal.emptied

-- The store is at rest, with some tables and some records in its log.
abbrev pub AtRest : Db → Type 0
AtRest db = (ls : List Level) × (ws : List Record) × Durable db ls ws

flush_rest-Durable :
    (db : Db) (ls : List Level) (ws : List Record)
    → Durable db ls ws
    → Flushable db.mem
    → Durable (flush_rest db Wal.emptied none done).1 (flushed_levels db ls) []
unfolding write_table install Wal.reset MemTable.clear log insert_all
flush_rest-Durable db ls ws d f =
    rw
      (open_file-written (remove_file db.next_sst_id db.dir) db.next_sst_id
        (MemTable.records db.mem) f.fits)
      (record {
        tables = sym (files-flushed db ls ws d);
        opened = ap (λ ts. handle (MemTable.records db.mem) db.next_sst_id ∷ ts) d.opened;
        fresh = (omega arith, d.fresh);
        fits = (f.fits, d.fits);
        logged = refl;
        synced = refl;
        framed = tt;
        buffered = refl;
      })

flush-Durable :
    (db : Db) (sys : Io) (ls : List Level) (ws : List Record)
    → Durable db ls ws
    → Flushable db.mem
    → Fine sys
    → AtRest (flush db sys).1
unfolding flush
flush-Durable db sys ls ws d f fine = elim (Bool-cases (MemTable.is_empty db.mem)) [
  | inl empty ↦ rw empty (ls, ws, d)
  | inr full ↦ rw full (
      subst (λ (o : Result (Unit {0}) × Db). AtRest o.1)
        (ap (λ o. flush_rest db o none done) (sym fine.resets)
          ∙ ap (λ f. flush_rest db sys.reset_outcome f done) (sym fine.opens)
          ∙ ap (flush_rest db sys.reset_outcome sys.open_failure) (sym fine.writes))
        (flushed_levels db ls, [], flush_rest-Durable db ls ws d f))
]

maybe_flush-Durable :
    (db : Db) (sys : Io) (ls : List Level) (ws : List Record)
    → Durable db ls ws
    → Flushable db.mem
    → Fine sys
    → AtRest (maybe_flush db sys).1
unfolding maybe_flush
maybe_flush-Durable db sys ls ws d f fine =
    elim (Bool-cases (leb db.opts.memtable_flush_bytes (MemTable.approx_bytes db.mem))) [
      | inl large ↦ rw large (flush-Durable db sys ls ws d f fine)
      | inr small ↦ rw small (ls, ws, d)
    ]

-- The store between `insert` and `maybe_flush`.
abbrev applied : Db → Record → Db
applied db r = record db {
  wal = (Wal.sync (Wal.append db.wal r Wal.written).1 true).1;
  mem = MemTable.insert db.mem r;
}

applied-Durable :
    (db : Db) (ls : List Level) (ws : List Record) (r : Record)
    → Durable db ls ws
    → All FrameFits (ws ++ (r ∷ []))
    → Durable (applied db r) ls (ws ++ (r ∷ []))
unfolding Wal.append Wal.sync
applied-Durable db ls ws r d fits =
    let whole = ap (λ (t : Bytes). t ++ Wal.frame r) d.logged ∙ log-snoc ws r in
    record {
      tables = d.tables;
      opened = d.opened;
      fresh = d.fresh;
      fits = d.fits;
      logged = whole;
      synced = ap length whole;
      framed = fits;
      buffered =
          ap (λ (m : MemTable). MemTable.insert m r) d.buffered
          ∙ sym (insert_all-snoc MemTable.new ws r);
    }

write_rest-AtRest :
    (db : Db) (ls : List Level) (ws : List Record) (r : Record) (sys : Io)
    → Durable db ls ws
    → All FrameFits (ws ++ (r ∷ []))
    → Flushable (MemTable.insert db.mem r)
    → Fine sys
    → AtRest (write_rest db r Wal.written true sys).1
unfolding Wal.append Wal.sync
write_rest-AtRest db ls ws r sys d fits f fine =
    maybe_flush-Durable (applied db r) sys ls (ws ++ (r ∷ [])) (applied-Durable db ls ws r d fits) f
      fine

-- Where every call of the system succeeds, the write of a record leaves a store at rest at rest,
-- whether it flushes or not, if the records of the log with the new one can be framed and the
-- memtable with it is valid and fits into a table.
pub write_record-AtRest :
    (db : Db) (ls : List Level) (ws : List Record) (r : Record) (sys : Io)
    → Durable db ls ws
    → All FrameFits (ws ++ (r ∷ []))
    → Flushable (MemTable.insert db.mem r)
    → Fine sys
    → AtRest (write_record db r sys).1
write_record-AtRest db ls ws r sys d fits f fine =
    subst (λ (o : Result (Unit {0}) × Db). AtRest o.1)
      (write_record-rest db r sys fine.appends fine.syncs)
      (write_rest-AtRest db ls ws r sys d fits f fine)
