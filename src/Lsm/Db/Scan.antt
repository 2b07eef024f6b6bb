-- ===== src/Lsm/Db/Scan.antt =====
-- `scan` and `stats` of 10-database-internals/src/db.rs.
use rust_fundamentals.Base.{ℕ, ◌+◌, List, [], ◌∷◌, length}
use rust_fundamentals.Base.Bytes.{Bytes}
use rust_fundamentals.Base.Map.{Map}
use rust_fundamentals.Lsm.Result.{Result, ok, ◌>>=◌}
use rust_fundamentals.Lsm.Encoding
use rust_fundamentals.Lsm.Encoding.{Record, Seq, ValueKind}
use rust_fundamentals.Lsm.MemTable
use rust_fundamentals.Lsm.Merge.{merge_into}
use rust_fundamentals.Lsm.SsTable.{SsTable, iter, table_len}
use rust_fundamentals.Lsm.Db.{Db}

-- The loop over the tables.
unfoldable pub gather : Map Record → List SsTable → Result (Map Record)
gather best [] = ok best
gather best (table ∷ rest) = iter table >>= λ rs. gather (merge_into best rs) rest

abbrev pub push_live : Bytes → ValueKind → List (Bytes × Bytes) → List (Bytes × Bytes)
push_live key (Encoding.put v) out = (key, v) ∷ out
push_live key Encoding.delete out = out

-- The last loop: tombstones are left out.
unfoldable pub live_pairs : Map Record → List (Bytes × Bytes)
live_pairs [] = []
live_pairs ((key, rec) ∷ best) = push_live key rec.value (live_pairs best)

unfoldable pub scan : Db → Result (List (Bytes × Bytes))
scan db =
    gather [] db.sstables >>= λ best. ok (live_pairs (merge_into best (MemTable.records db.mem)))

pub record Stats : Type 0 where
  pub memtable_entries : ℕ
  pub memtable_bytes : ℕ
  pub sstables : ℕ
  pub sstable_records : ℕ
  pub next_seq : Seq

unfoldable pub total_len : List SsTable → ℕ
total_len [] = 0
total_len (table ∷ rest) = table_len table + total_len rest

unfoldable pub stats : Db → Stats
stats db = record {
  memtable_entries = MemTable.len db.mem;
  memtable_bytes = db.mem.approx_bytes;
  sstables = length db.sstables;
  sstable_records = total_len db.sstables;
  next_seq = db.seq;
}
