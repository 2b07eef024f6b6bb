-- ===== src/Lsm/Db/Reopen.antt =====
-- `open_with` after a crash: what it reads is what was acknowledged.
use rust_fundamentals.Base.{
  ℕ, ◌+◌, ◌≡◌, refl, sym, ap, ◌∙◌, subst, Option, none, some, List, [], ◌∷◌, ◌++◌, length, take-nil,
  append-nil, All, arith,
}
use rust_fundamentals.Base.Bytes.{Bytes}
use rust_fundamentals.Lsm.Result.{Result, ok}
use rust_fundamentals.Lsm.Encoding.{Record}
use rust_fundamentals.Lsm.Wal.{Wal, log, replay, FrameFits}
use rust_fundamentals.Lsm.Wal.Crash.{Leaves, crash_keeps_synced}
use rust_fundamentals.Lsm.MemTable
use rust_fundamentals.Lsm.SsTable.{image}
use rust_fundamentals.Lsm.Db.{
  Db, Dir, Options, TableWrite, done, not_renamed, not_synced, remove_file, write_table, get,
  get_tables, or_older,
}
use rust_fundamentals.Lsm.Db.Recovery.{Disk, insert_all, replay_file, assemble, open_with}
use rust_fundamentals.Lsm.Db.View.{Flushable, get_tables-flushed}
use rust_fundamentals.Lsm.Db.Levels.{
  Level, files, handles, Below, LevelsFit, remove_file-fresh, oldest_first, reverse-oldest_first,
  open_all-files,
}

-- What the tables, newest first, and the records of the log say of a key.
abbrev pub reading : List Level → List Record → Bytes → Result (Option Bytes)
reading ls ws key =
    or_older (MemTable.get key (insert_all MemTable.new ws)) (get_tables (handles ls) key)

-- The disk of a machine that comes up again: the tables, and what the crash left of the log.
abbrev pub left_disk : Dir → Bytes → Disk
left_disk dir left = record { tables = dir; log_file = some (record { file = left; synced = 0 }) }

-- `open_with` opens a store on this disk that reads so.
abbrev pub Recovers : Dir → Bytes → Options → (Bytes → Result (Option Bytes)) → Type 0
Recovers dir left opts view =
    (db : Db) × (open_with (left_disk dir left) opts ≡ ok db)
    × ((key : Bytes) → get db key ≡ view key)

pub open_with-reads :
    (n : ℕ) (ls : List Level) (ws : List Record) (left : Bytes) (opts : Options)
    → Below n ls
    → LevelsFit ls
    → replay (some left) ≡ some ws
    → Recovers (files ls) left opts (reading ls ws)
unfolding open_with replay_file assemble get
open_with-reads n ls ws left opts b fits replayed = (
  assemble (left_disk (files ls) left) opts (oldest_first ls) ws,
  rw (open_all-files n ls b fits, replayed),
  λ key.
      ap (λ ts. or_older (MemTable.get key (insert_all MemTable.new ws)) (get_tables ts key))
        (reverse-oldest_first ls),
)

-- A store at rest: its tables are on disk, and its log has, whole and synced, the records that are
-- in the memtable.
pub record Durable (db : Db) (ls : List Level) (ws : List Record) : Type 0 where
  pub tables : db.dir ≡ files ls
  pub opened : db.sstables ≡ handles ls
  pub fresh : Below db.next_sst_id ls
  pub fits : LevelsFit ls
  pub logged : db.wal.file ≡ log ws
  pub synced : db.wal.synced ≡ length (log ws)
  pub framed : All FrameFits ws
  pub buffered : db.mem ≡ insert_all MemTable.new ws

pub get-Durable :
    (db : Db) (ls : List Level) (ws : List Record) (key : Bytes)
    → Durable db ls ws
    → reading ls ws key ≡ get db key
unfolding get
get-Durable db ls ws key d =
    ap (λ m. or_older (MemTable.get key m) (get_tables (handles ls) key)) (sym d.buffered)
    ∙ ap (λ ts. or_older (MemTable.get key db.mem) (get_tables ts key)) (sym d.opened)

pub Recovers-same :
    {dir dir' : Dir} (left : Bytes) (opts : Options) {view view' : Bytes → Result (Option Bytes)}
    → dir ≡ dir'
    → ((key : Bytes) → view key ≡ view' key)
    → Recovers dir left opts view
    → Recovers dir' left opts view'
Recovers-same left opts e same (db, opens, reads) = (
  db,
  subst (λ d. open_with (left_disk d left) opts ≡ ok db) e opens,
  λ key. reads key ∙ same key,
)

pub replay_synced :
    (w : Wal) (ws : List Record) {left : Bytes}
    → All FrameFits ws
    → w.file ≡ log ws
    → w.synced ≡ length (log ws)
    → Leaves w left
    → replay (some left) ≡ some ws
replay_synced w ws fits whole synced crash =
    let (m, e) =
      crash_keeps_synced w ws [] (subst (All FrameFits) (sym (append-nil ws)) fits)
        (whole ∙ ap log (sym (append-nil ws))) synced crash in
    e ∙ ap some (ap (λ (t : List Record). ws ++ t) (take-nil Record m) ∙ append-nil ws)

-- A store at rest may crash: whatever the crash leaves of the log, opening the directory again
-- succeeds and every key reads as before.
pub Recovers-at_rest :
    (db : Db) (ls : List Level) (ws : List Record) (opts : Options) {left : Bytes}
    → Durable db ls ws
    → Leaves db.wal left
    → Recovers db.dir left opts (get db)
Recovers-at_rest db ls ws opts {left} d crash =
    Recovers-same left opts (sym d.tables) (λ key. get-Durable db ls ws key d)
      (open_with-reads db.next_sst_id ls ws left opts d.fresh d.fits
        (replay_synced db.wal ws d.framed d.logged d.synced crash))

-- The levels when `flush` has written the memtable's table.
abbrev pub flushed_levels : Db → List Level → List Level
flushed_levels db ls = (db.next_sst_id, MemTable.records db.mem) ∷ ls

or_older-twice :
    (hit : Option Record) (older : Result (Option Bytes))
    → or_older hit (or_older hit older) ≡ or_older hit older
or_older-twice none older = refl
or_older-twice (some r) older = refl

flushed_reads_twice :
    (db : Db) (ls : List Level) (ws : List Record) (key : Bytes)
    → Durable db ls ws
    → Flushable db.mem
    → reading (flushed_levels db ls) ws key ≡ get db key
flushed_reads_twice db ls ws key d f =
    ap (λ m. or_older (MemTable.get key m) (get_tables (handles (flushed_levels db ls)) key))
      (sym d.buffered)
    ∙ ap (or_older (MemTable.get key db.mem))
        (get_tables-flushed db.mem db.next_sst_id (handles ls) key f)
    ∙ or_older-twice (MemTable.get key db.mem) (get_tables (handles ls) key)
    ∙ ap (λ m. or_older (MemTable.get key m) (get_tables (handles ls) key)) d.buffered
    ∙ get-Durable db ls ws key d

-- The directory behind a renamed table.
pub files-flushed :
    (db : Db) (ls : List Level) (ws : List Record)
    → Durable db ls ws
    → files (flushed_levels db ls)
      ≡ (db.next_sst_id, image (MemTable.records db.mem)) ∷ remove_file db.next_sst_id db.dir
files-flushed db ls ws d =
    ap (λ t. (db.next_sst_id, image (MemTable.records db.mem)) ∷ t)
      (sym (ap (remove_file db.next_sst_id) d.tables ∙ remove_file-fresh db.next_sst_id ls d.fresh))

Recovers-renamed :
    (db : Db) (ls : List Level) (ws : List Record) (opts : Options) {left : Bytes}
    → Durable db ls ws
    → Flushable db.mem
    → Leaves db.wal left
    → Recovers
        ((db.next_sst_id, image (MemTable.records db.mem)) ∷ remove_file db.next_sst_id db.dir)
        left
        opts
        (get db)
Recovers-renamed db ls ws opts {left} d f crash =
    Recovers-same left opts (files-flushed db ls ws d) (λ key. flushed_reads_twice db ls ws key d f)
      (open_with-reads (db.next_sst_id + 1) (flushed_levels db ls) ws left opts
        (omega arith, d.fresh) (f.fits, d.fits)
        (replay_synced db.wal ws d.framed d.logged d.synced crash))

-- A crash behind `SsTable::write` in `flush`, however far that came, and before the log is reset
-- loses nothing and brings nothing back: opening the directory again succeeds and every key reads as
-- before.
pub Recovers-in_flush :
    (db : Db) (ls : List Level) (ws : List Record) (opts : Options) (outcome : TableWrite)
    {left : Bytes}
    → Durable db ls ws
    → Flushable db.mem
    → Leaves db.wal left
    → Recovers
        (write_table db.dir db.next_sst_id (MemTable.records db.mem) outcome).1
        left
        opts
        (get db)
unfolding write_table
Recovers-in_flush db ls ws opts not_renamed d f crash = Recovers-at_rest db ls ws opts d crash
Recovers-in_flush db ls ws opts done d f crash = Recovers-renamed db ls ws opts d f crash
Recovers-in_flush db ls ws opts not_synced d f crash = Recovers-renamed db ls ws opts d f crash
