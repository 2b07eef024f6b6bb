-- ===== src/Lsm/StoreTests.antt =====
-- The theorems on tables and on the store at concrete inputs.
use rust_fundamentals.Base.{
  ◌≡◌, refl, none, some, List, [], ◌∷◌, length, arith, true, if◌then◌else◌,
}
use rust_fundamentals.Base.Bytes.{Bytes, to_le_bytes}
use rust_fundamentals.Base.Order.{cmp}
use rust_fundamentals.Base.Map
use rust_fundamentals.Base.Map.{Map, key_eq}
use rust_fundamentals.Base.Ascending.{Ascending}
use rust_fundamentals.Lsm.Result.{ok}
use rust_fundamentals.Lsm.Encoding.{Record, put_record, tombstone, encode}
use rust_fundamentals.Lsm.Encoding.RoundTrip.{length-encode}
use rust_fundamentals.Lsm.Wal.{log, written, emptied, FrameFits}
use rust_fundamentals.Lsm.MemTable
use rust_fundamentals.Lsm.MemTable.{MemTable, entry_size}
use rust_fundamentals.Lsm.MemTable.Valid.{footprint, IsValid, insert-IsValid}
use rust_fundamentals.Lsm.SsTable.{
  image, build, append_index, entry_bytes, footer, open_table, iter,
}
use rust_fundamentals.Lsm.SsTable
use rust_fundamentals.Lsm.SsTable.Layout.{TableFits}
use rust_fundamentals.Lsm.SsTable.Open.{handle, open_table-image}
use rust_fundamentals.Lsm.SsTable.Get.{record_key, find, get-image}
use rust_fundamentals.Lsm.Db.{Db, Io, done, get, put, delete}
use rust_fundamentals.Lsm.Db.Recovery.{insert_all}
use rust_fundamentals.Lsm.Db.View.{Flushable, EndsOr}
use rust_fundamentals.Lsm.Db.Write.{put-accepted, delete-accepted}
use rust_fundamentals.Lsm.Db.Levels.{Level, files, handles}
use rust_fundamentals.Lsm.Db.Reopen.{Durable}
use rust_fundamentals.Lsm.Tests.{first, second, third, FrameFits-first, FrameFits-second}

pub FrameFits-third : FrameFits third
FrameFits-third = record { fields = omega arith; payload_fits = omega (arith, length-encode third) }

abbrev pub table : List Record
table = first ∷ third ∷ []

length-image-table : length (image table) ≡ 108
unfolding image build append_index entry_bytes footer encode to_le_bytes
length-image-table = refl

pub TableFits-table : TableFits table
TableFits-table = record {
  records = (FrameFits-first, (FrameFits-third, tt));
  small = omega (arith, length-image-table);
}

pub Ascending-table : Ascending record_key table
unfolding cmp
Ascending-table = ((refl, tt), (tt, tt))

open_table-image_example : open_table (image table) 7 ≡ ok (handle table 7)
open_table-image_example = open_table-image table TableFits-table 7

get-image_example : SsTable.get (handle table 7) (0x62 ∷ []) ≡ ok (find (0x62 ∷ []) table)
get-image_example = get-image table 7 TableFits-table Ascending-table (0x62 ∷ [])

-- A table on disk, and a tombstone in the log and in the memtable.
abbrev pub levels : List Level
levels = (0, table) ∷ []

abbrev pub logged : List Record
logged = second ∷ []

abbrev pub store : Db
store = record {
  dir = files levels;
  wal = record { file = log logged; synced = length (log logged) };
  mem = insert_all MemTable.new logged;
  sstables = handles levels;
  seq = 4;
  next_sst_id = 1;
  opts = record { memtable_flush_bytes = 100 };
}

abbrev pub fine_io : Io
fine_io = record {
  append_outcome = written;
  sync_ok = true;
  table_outcome = done;
  iter_failure = none;
  open_failure = none;
  reset_outcome = emptied;
  removals = none;
  dir_sync_ok = true;
}

pub store-Durable : Durable store levels logged
store-Durable = record {
  tables = refl;
  opened = refl;
  fresh = (omega arith, tt);
  fits = (TableFits-table, tt);
  logged = refl;
  synced = refl;
  framed = (FrameFits-second, tt);
  buffered = refl;
}

new-IsValid : IsValid MemTable.new
unfolding footprint
new-IsValid = record { sorted = tt; keyed = tt; measured = refl }

pub store-IsValid : IsValid store.mem
unfolding insert_all
store-IsValid = insert-IsValid MemTable.new second new-IsValid

pub store_records : MemTable.records store.mem ≡ second ∷ []
unfolding insert_all MemTable.insert MemTable.records Map.insert Map.get
store_records = refl

length-image-second : length (image (second ∷ [])) ≡ 71
unfolding image build append_index entry_bytes footer encode to_le_bytes
length-image-second = refl

pub TableFits-second : TableFits (second ∷ [])
TableFits-second = record {
  records = (FrameFits-second, tt);
  small = omega (arith, length-image-second);
}

pub store-Flushable : Flushable store.mem
store-Flushable = record { valid = store-IsValid; fits = rw store_records TableFits-second }

abbrev pub fourth : Record
fourth = put_record 4 (0x63 ∷ []) (0x7A ∷ [])

with_fourth : MemTable.records (MemTable.insert store.mem fourth) ≡ second ∷ fourth ∷ []
unfolding insert_all MemTable.insert MemTable.records Map.insert Map.get cmp
with_fourth = refl

length-image-fourth : length (image (second ∷ fourth ∷ [])) ≡ 107
unfolding image build append_index entry_bytes footer encode to_le_bytes
length-image-fourth = refl

pub FrameFits-fourth : FrameFits fourth
FrameFits-fourth = record {
  fields = omega arith;
  payload_fits = omega (arith, length-encode fourth);
}

TableFits-fourth : TableFits (second ∷ fourth ∷ [])
TableFits-fourth = record {
  records = (FrameFits-second, (FrameFits-fourth, tt));
  small = omega (arith, length-image-fourth);
}

pub fourth-Flushable : Flushable (MemTable.insert store.mem fourth)
fourth-Flushable = record {
  valid = insert-IsValid store.mem fourth store-IsValid;
  fits = rw with_fourth TableFits-fourth;
}

put-accepted_example :
    EndsOr none (put store fourth.key (0x7A ∷ []) fine_io).0
    × ((j : Bytes)
        → get (put store fourth.key (0x7A ∷ []) fine_io).1 j
          ≡ (if key_eq fourth.key j then ok (some (0x7A ∷ [])) else get store j))
put-accepted_example = put-accepted store fourth.key (0x7A ∷ []) fine_io fourth-Flushable refl refl

abbrev fifth : Record
fifth = tombstone 4 (0x62 ∷ [])

with_fifth : MemTable.records (MemTable.insert store.mem fifth) ≡ second ∷ fifth ∷ []
unfolding insert_all MemTable.insert MemTable.records Map.insert Map.get cmp
with_fifth = refl

length-image-fifth : length (image (second ∷ fifth ∷ [])) ≡ 106
unfolding image build append_index entry_bytes footer encode to_le_bytes
length-image-fifth = refl

FrameFits-fifth : FrameFits fifth
FrameFits-fifth = record { fields = omega arith; payload_fits = omega (arith, length-encode fifth) }

TableFits-fifth : TableFits (second ∷ fifth ∷ [])
TableFits-fifth = record {
  records = (FrameFits-second, (FrameFits-fifth, tt));
  small = omega (arith, length-image-fifth);
}

fifth-Flushable : Flushable (MemTable.insert store.mem fifth)
fifth-Flushable = record {
  valid = insert-IsValid store.mem fifth store-IsValid;
  fits = rw with_fifth TableFits-fifth;
}

delete-accepted_example :
    EndsOr none (delete store fifth.key fine_io).0
    × ((j : Bytes)
        → get (delete store fifth.key fine_io).1 j
          ≡ (if key_eq fifth.key j then ok none else get store j))
delete-accepted_example = delete-accepted store fifth.key fine_io fifth-Flushable refl refl
