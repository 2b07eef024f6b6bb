-- ===== src/Lsm/CrashTests.antt =====
-- The theorems on crashes, compaction and scans of the store at concrete inputs.
use rust_fundamentals.Base.{
  none, ◌≤◌, ◌≡◌, refl, List, [], ◌∷◌, length, take, arith, inl, inr, if◌then◌else◌, ◌⊎◌,
}
use rust_fundamentals.Base.Bytes.{Bytes, to_le_bytes}
use rust_fundamentals.Base.Order.{cmp}
use rust_fundamentals.Base.Map
use rust_fundamentals.Base.Map.{Map, key_eq}
use rust_fundamentals.Lsm.Result.{ok}
use rust_fundamentals.Lsm.Encoding.{encode}
use rust_fundamentals.Lsm.Wal.{log, frame, append, written}
use rust_fundamentals.Lsm.Wal.Crash.{cut}
use rust_fundamentals.Lsm.MemTable
use rust_fundamentals.Lsm.MemTable.{MemTable, entry_size}
use rust_fundamentals.Lsm.Merge.{
  keep_newest, merge_into, newest_per_key, is_delete, retain_puts, collect, compact_records,
}
use rust_fundamentals.Lsm.SsTable.{image, build, append_index, entry_bytes, footer}
use rust_fundamentals.Lsm.SsTable.Layout.{TableFits}
use rust_fundamentals.Lsm.Db.{Db, not_synced, get, write_table, write_record, live}
use rust_fundamentals.Lsm.Db.Compact.{compact}
use rust_fundamentals.Lsm.Db.Scan.{scan}
use rust_fundamentals.Lsm.Db.View.{SameView, EndsOr}
use rust_fundamentals.Lsm.Db.Levels.{Level, files, handles}
use rust_fundamentals.Lsm.Db.Reopen.{Recovers, Recovers-at_rest, Recovers-in_flush}
use rust_fundamentals.Lsm.Db.Torn.{Recovers-in_write}
use rust_fundamentals.Lsm.Db.Keep.{Fine, AtRest, write_record-AtRest}
use rust_fundamentals.Lsm.Db.Layers.{Newer}
use rust_fundamentals.Lsm.Db.Merged.{Compactable, compact-keeps}
use rust_fundamentals.Lsm.Db.Scanned.{Ordered, scan-get}
use rust_fundamentals.Lsm.Tests.{second, third, FrameFits-second}
use rust_fundamentals.Lsm.StoreTests.{
  FrameFits-third, table, levels, logged, store, fine_io, fourth, store-Durable, TableFits-table,
  TableFits-second, store-Flushable, store-IsValid, FrameFits-fourth, fourth-Flushable,
  Ascending-table, store_records,
}

length-log-logged : length (log logged) ≡ 26
unfolding log frame encode to_le_bytes
length-log-logged = refl

Recovers-at_rest_example : Recovers store.dir (take 40 (log logged)) store.opts (get store)
Recovers-at_rest_example =
    Recovers-at_rest store levels logged store.opts store-Durable
      (cut 40 (omega (arith, length-log-logged)))

Recovers-in_flush_example :
    Recovers
      (write_table store.dir 1 (MemTable.records store.mem) not_synced).1
      (take 40 (log logged))
      store.opts
      (get store)
Recovers-in_flush_example =
    Recovers-in_flush store levels logged store.opts not_synced store-Durable store-Flushable
      (cut 40 (omega (arith, length-log-logged)))

synced_before : (append store.wal fourth written).1.synced ≤ 30
unfolding append
synced_before = omega (arith, length-log-logged)

Recovers-in_write_example :
    Recovers store.dir (take 30 (append store.wal fourth written).1.file) store.opts (get store)
    ⊎ Recovers store.dir
        (take 30 (append store.wal fourth written).1.file)
        store.opts
        (λ key. if key_eq fourth.key key then ok (live fourth.value) else get store key)
Recovers-in_write_example =
    Recovers-in_write store levels logged fourth store.opts written store-Durable
      (FrameFits-second, (FrameFits-fourth, tt)) (cut 30 synced_before)

fine_io-Fine : Fine fine_io
fine_io-Fine = record { appends = refl; syncs = refl; writes = refl; opens = refl; resets = refl }

write_record-AtRest_example : AtRest (write_record store fourth fine_io).1
write_record-AtRest_example =
    write_record-AtRest store levels logged fourth fine_io store-Durable
      (FrameFits-second, (FrameFits-fourth, tt)) fourth-Flushable fine_io-Fine

-- Two tables, of which the newer one deletes a key of the older one.
abbrev two_levels : List Level
two_levels = (1, second ∷ []) ∷ (0, table) ∷ []

abbrev two_tables : Db
two_tables = record store { dir = files two_levels; sstables = handles two_levels; next_sst_id = 2 }

collect-table : collect (table ∷ []) ≡ table
unfolding collect
collect-table = refl

second-Newer : Newer (second ∷ []) table
second-Newer r s (inl e) (inl f) same = ground (arith, e, f)
second-Newer r s (inl e) (inr (inl f)) same = absurd (ground (arith, e, f, same))
second-Newer r s (inl e) (inr (inr f)) same = absurd f
second-Newer r s (inr e) i same = absurd e

kept_table : compact_records ((second ∷ []) ∷ table ∷ []) ≡ third ∷ []
unfolding compact_records newest_per_key merge_into keep_newest retain_puts is_delete collect
    Map.get Map.insert cmp
kept_table = refl

length-image-third : length (image (third ∷ [])) ≡ 71
unfolding image build append_index entry_bytes footer encode to_le_bytes
length-image-third = refl

TableFits-third : TableFits (third ∷ [])
TableFits-third = record {
  records = (FrameFits-third, tt);
  small = omega (arith, length-image-third);
}

two_tables-Compactable : Compactable two_tables two_levels
unfolding collect
two_tables-Compactable = record {
  opened = refl;
  fits = (TableFits-second, (TableFits-table, tt));
  layered = ((tt, tt), second-Newer, (Ascending-table, (λ r s i j e. absurd j), tt));
  merged_fits = rw kept_table TableFits-third;
}

compact-keeps_example :
    EndsOr none (compact two_tables fine_io).0 × SameView two_tables (compact two_tables fine_io).1
compact-keeps_example = compact-keeps two_tables two_levels fine_io two_tables-Compactable

store-Ordered : Ordered store levels
unfolding collect
store-Ordered = record {
  opened = refl;
  fits = (TableFits-table, tt);
  layered = (Ascending-table, (λ r s i j e. absurd j), tt);
  valid = store-IsValid;
  newer_mem = rw store_records second-Newer;
}

scan-get_example :
    (out : Map Bytes) × (scan store ≡ ok out)
    × ((key : Bytes) → get store key ≡ ok (Map.get key out))
scan-get_example = scan-get store levels store-Ordered
