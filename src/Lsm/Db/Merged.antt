-- ===== src/Lsm/Db/Merged.antt =====
-- What `get` gives behind `compact`, and what `scan` gives.
use mathlib.Core.List.{map}
use rust_fundamentals.Base.{
  ℕ, zero, suc, ◌+◌, ◌≡◌, refl, sym, ap, ◌∙◌, subst, Option, none, some, List, [], ◌∷◌, length, ltb,
  Bool, true, false, if◌then◌else◌, inl, inr, Bool-cases,
}
use rust_fundamentals.Base.Bytes.{Bytes}
use rust_fundamentals.Base.Map
use rust_fundamentals.Base.Map.{Map}
use rust_fundamentals.Base.Ascending.{Ascending}
use rust_fundamentals.Lsm.Result.{Error, Result, ok, err, panic, stuck}
use rust_fundamentals.Lsm.Encoding
use rust_fundamentals.Lsm.Encoding.{Record, ValueKind}
use rust_fundamentals.Lsm.MemTable
use rust_fundamentals.Lsm.Merge.{newest_per_key, is_delete, collect, compact_records}
use rust_fundamentals.Lsm.Merge.Newest.{get-merge_into, IsSorted-merge_into}
use rust_fundamentals.Lsm.SsTable.{SsTable}
use rust_fundamentals.Lsm.SsTable.Layout.{TableFits}
use rust_fundamentals.Lsm.SsTable.Open.{handle}
use rust_fundamentals.Lsm.SsTable.Iter.{iter-image}
use rust_fundamentals.Lsm.SsTable.Get.{record_key, find, get-image}
use rust_fundamentals.Lsm.Db.{
  Db, Dir, Io, TableWrite, done, not_renamed, not_synced, and_then, or_older, live, get_tables, get,
  write_table, or_failed, open_file, remove_file,
}
use rust_fundamentals.Lsm.Db.Compact.{
  read_tables, write_merged, remove_files, sync_dir, swap, compact,
}
use rust_fundamentals.Lsm.Db.Buffered.{find-values, Ascending-values}
use rust_fundamentals.Lsm.Db.View.{SameView, Ends, EndsOr, open_file-written, get_tables-cons}
use rust_fundamentals.Lsm.Db.Levels.{Level, handles, LevelsFit}
use rust_fundamentals.Lsm.Db.Layers.{
  Layered, or_else, first_hit, newest_at-layers, unless_deleted, find-retain_puts,
  Ascending-retain_puts, IsKeyed-merge_into,
}

abbrev pub lists : List Level → List (List Record)
lists = map (λ l. l.1)

read_tables-handles : (ls : List Level) → LevelsFit ls → read_tables (handles ls) ≡ ok (lists ls)
unfolding read_tables
read_tables-handles [] fits = refl
read_tables-handles (l ∷ ls) (fit, fits) = rw (iter-image l.1 l.0 fit, read_tables-handles ls fits)

or_older-or_else :
    (hit rest : Option Record)
    → or_older hit (or_older rest (ok none)) ≡ or_older (or_else hit rest) (ok none)
or_older-or_else none rest = refl
or_older-or_else (some r) rest = refl

-- Reading through the tables finds what the first level with the key has.
pub get_tables-handles :
    (ls : List Level) (key : Bytes)
    → LevelsFit ls
    → Layered (lists ls)
    → get_tables (handles ls) key ≡ or_older (first_hit key (lists ls)) (ok none)
unfolding get_tables first_hit
get_tables-handles [] key fits layered = refl
get_tables-handles (l ∷ ls) key (fit, fits) (sorted, new, layered) =
    get_tables-cons (handle l.1 l.0) (handles ls) key (get-image l.1 l.0 fit sorted key)
    ∙ ap (or_older (find key l.1)) (get_tables-handles ls key fits layered)
    ∙ or_older-or_else (find key l.1) (first_hit key (lists ls))

live-kept :
    (r : Record) (v : ValueKind)
    → r.value ≡ v
    → or_older (if is_delete v then none else some r) (ok none) ≡ ok (live r.value)
unfolding is_delete
live-kept r (Encoding.put x) e = refl
live-kept r Encoding.delete e = ap (λ v. ok (live v)) (sym e)

or_older-live :
    (hit : Option Record) → or_older (unless_deleted hit) (ok none) ≡ or_older hit (ok none)
or_older-live none = refl
or_older-live (some r) = live-kept r r.value refl

newest_per_key-Ascending : (rs : List Record) → Ascending record_key (newest_per_key rs)
unfolding newest_per_key
newest_per_key-Ascending rs =
    Ascending-values _ (IsSorted-merge_into [] rs tt) (IsKeyed-merge_into [] rs tt)

compact_records-Ascending : (rss : List (List Record)) → Ascending record_key (compact_records rss)
unfolding compact_records
compact_records-Ascending rss = Ascending-retain_puts _ (newest_per_key-Ascending (collect rss))

-- The records that `compact` writes: of each key what the first level has, unless it is deleted.
pub find-compact_records :
    (key : Bytes) (rss : List (List Record))
    → Layered rss
    → find key (compact_records rss) ≡ unless_deleted (first_hit key rss)
unfolding compact_records newest_per_key Map.get
find-compact_records key rss layered =
    find-retain_puts key _ (newest_per_key-Ascending (collect rss))
    ∙ ap unless_deleted (
        find-values key _ (IsSorted-merge_into [] (collect rss) tt)
          (IsKeyed-merge_into [] (collect rss) tt)
        ∙ get-merge_into [] (collect rss) key
        ∙ newest_at-layers key rss layered)

get_tables-merged :
    (ls : List Level) (id : ℕ) (key : Bytes)
    → LevelsFit ls
    → Layered (lists ls)
    → TableFits (compact_records (lists ls))
    → get_tables (handle (compact_records (lists ls)) id ∷ []) key ≡ get_tables (handles ls) key
unfolding get_tables
get_tables-merged ls id key fits layered merged =
    get_tables-cons _ [] key (get-image _ id merged (compact_records-Ascending (lists ls)) key)
    ∙ ap (λ hit. or_older hit (ok none)) (find-compact_records key (lists ls) layered)
    ∙ or_older-live (first_hit key (lists ls))
    ∙ sym (get_tables-handles ls key fits layered)

remove_files-Ends :
    (ids : List ℕ) (dir : Dir) (removals : Option ℕ) → Ends (remove_files ids dir removals).0
unfolding remove_files
remove_files-Ends [] dir removals = inl refl
remove_files-Ends (id ∷ ids) dir none = remove_files-Ends ids (remove_file id dir) none
remove_files-Ends (id ∷ ids) dir (some zero) = inr refl
remove_files-Ends (id ∷ ids) dir (some (suc n)) =
    remove_files-Ends ids (remove_file id dir) (some n)

-- Both ways on lead to the same store.
and_then_either :
    (removed : Result (Unit {0})) (synced : Bool) (db : Db)
    → Ends removed
    → (let outcome = and_then removed db (sync_dir synced, db) in Ends outcome.0 × (outcome.1 ≡ db))
and_then_either (ok _) true db h = (inl refl, refl)
and_then_either (ok _) false db h = (inr refl, refl)
and_then_either (err e) synced db h = (h, refl)
and_then_either panic synced db (inl h) = absurd (cc h)
and_then_either panic synced db (inr h) = absurd (cc h)
and_then_either stuck synced db (inl h) = absurd (cc h)
and_then_either stuck synced db (inr h) = absurd (cc h)

-- `compact` behind its test, from what was read on, by the outcomes of its steps.
abbrev compact_rest :
    Db
    → Io
    → Option Error
    → Option Error
    → TableWrite
    → Result (List (List Record))
    → Result (Unit {0}) × Db
compact_rest db sys iter_failure open_failure outcome read =
    let (written, dir) = write_merged db.dir db.next_sst_id outcome (or_failed iter_failure read) in
    let db' = record db { dir = dir } in
    and_then written db' (swap db' sys (or_failed open_failure (open_file dir db.next_sst_id)))

-- The first failure decides.
abbrev pub first_of : Option Error → Option Error → Option Error
first_of none later = later
first_of (some e) later = some e

swap-keeps :
    (db db' : Db) (sys : Io) (merged : SsTable)
    → db'.mem ≡ db.mem
    → ((key : Bytes) → get_tables (merged ∷ []) key ≡ get_tables db.sstables key)
    → Ends (swap db' sys (ok merged)).0 × SameView db (swap db' sys (ok merged)).1
unfolding swap get
swap-keeps db db' sys merged e same =
    let ids = map (λ (t : SsTable). t.id) db'.sstables in
    let (removed, dir) = remove_files ids db'.dir sys.removals in
    let swapped : Db = record db' {
      dir = dir;
      sstables = merged ∷ [];
      next_sst_id = db'.next_sst_id + 1;
    } in
    let (ends, stays) =
      and_then_either removed sys.dir_sync_ok swapped
        (remove_files-Ends ids db'.dir sys.removals) in
    (
      ends,
      λ key.
          ap (λ (d : Db). get d key) stays
          ∙ ap (λ m. or_older (MemTable.get key m) (get_tables (merged ∷ []) key)) e
          ∙ ap (or_older (MemTable.get key db.mem)) (same key),
    )

-- The tables are the levels', from new to old, and their merged records fit into a table.
pub record Compactable (db : Db) (ls : List Level) : Type 0 where
  pub opened : db.sstables ≡ handles ls
  pub fits : LevelsFit ls
  pub layered : Layered (lists ls)
  pub merged_fits : TableFits (compact_records (lists ls))

merged_reads :
    (db : Db) (ls : List Level) (key : Bytes)
    → Compactable db ls
    → get_tables (handle (compact_records (lists ls)) db.next_sst_id ∷ []) key
      ≡ get_tables db.sstables key
merged_reads db ls key c =
    get_tables-merged ls db.next_sst_id key c.fits c.layered c.merged_fits
    ∙ ap (λ ts. get_tables ts key) (sym c.opened)

compact_rest-keeps :
    (db : Db) (ls : List Level) (sys : Io) (iter_failure open_failure : Option Error)
    (outcome : TableWrite)
    → Compactable db ls
    → (let r = compact_rest db sys iter_failure open_failure outcome (ok (lists ls)) in
        EndsOr (first_of iter_failure open_failure) r.0 × SameView db r.1)
unfolding write_merged write_table get swap
compact_rest-keeps db ls sys (some e) open_failure outcome c = (inr (e, refl, refl), λ key. refl)
compact_rest-keeps db ls sys none open_failure not_renamed c = (inl (inr refl), λ key. refl)
compact_rest-keeps db ls sys none open_failure not_synced c = (inl (inr refl), λ key. refl)
compact_rest-keeps db ls sys none (some e) done c = (inr (e, refl, refl), λ key. refl)
compact_rest-keeps db ls sys none none done c =
    rw
      (open_file-written (remove_file db.next_sst_id db.dir) db.next_sst_id
        (compact_records (lists ls)) c.merged_fits)
      (let (ends, same) = swap-keeps db _ sys _ refl (λ key. merged_reads db ls key c) in
        (inl ends, same))

-- Where of one key the newer tables have the higher sequence numbers, `compact` ends well or with
-- an error of the system, whatever the system answers, and every key reads as before; the error of a
-- read or an opening that fails is the error of the first that does.
pub compact-keeps :
    (db : Db) (ls : List Level) (sys : Io)
    → Compactable db ls
    → EndsOr (first_of sys.iter_failure sys.open_failure) (compact db sys).0
      × SameView db (compact db sys).1
unfolding compact
compact-keeps db ls sys c = elim (Bool-cases (ltb (length db.sstables) 2)) [
  | inl few ↦ rw few (inl (inl refl), λ key. refl)
  | inr many ↦ rw many (
      subst
        (λ (o : Result (Unit {0}) × Db).
          EndsOr (first_of sys.iter_failure sys.open_failure) o.0 × SameView db o.1)
        (ap (compact_rest db sys sys.iter_failure sys.open_failure sys.table_outcome)
          (sym (ap read_tables c.opened ∙ read_tables-handles ls c.fits)))
        (compact_rest-keeps db ls sys sys.iter_failure sys.open_failure sys.table_outcome c))
]
