-- ===== src/Lsm/Db/Recovery.antt =====
-- `open_with` of 10-database-internals/src/db.rs, on what there is in the directory. Creating the
-- directory and listing it are taken to succeed.
use Prim.Native.Nat.{max}
use mathlib.Core.List.{map, reverse}
use rust_fundamentals.Base.{ℕ, ◌+◌, Option, none, some, List, [], ◌∷◌, ◌++◌, leb, if◌then◌else◌}
use rust_fundamentals.Base.Bytes.{Bytes}
use rust_fundamentals.Lsm.Result.{Result, ok, stuck, ◌>>=◌}
use rust_fundamentals.Lsm.Encoding.{Record, Seq}
use rust_fundamentals.Lsm.Wal
use rust_fundamentals.Lsm.Wal.{Wal}
use rust_fundamentals.Lsm.MemTable
use rust_fundamentals.Lsm.MemTable.{MemTable}
use rust_fundamentals.Lsm.SsTable.{SsTable}
use rust_fundamentals.Lsm.Db.{Dir, Db, Options, open_file}

-- What `open_with` finds: the tables, and the log if there is one.
pub record Disk : Type 0 where
  pub tables : Dir
  pub log_file : Option Wal

-- `sort_unstable`
unfoldable pub sort_in : ℕ → List ℕ → List ℕ
sort_in id [] = id ∷ []
sort_in id (i ∷ ids) = let rest = sort_in id ids in if leb id i then id ∷ i ∷ ids else i ∷ rest

unfoldable pub sort : List ℕ → List ℕ
sort [] = []
sort (id ∷ ids) = sort_in id (sort ids)

unfoldable pub open_all : Dir → List ℕ → List SsTable → Result (List SsTable)
open_all dir [] sstables = ok sstables
open_all dir (id ∷ ids) sstables =
    open_file dir id >>= λ table. open_all dir ids (sstables ++ (table ∷ []))

-- `ids.last().map(|m| m + 1).unwrap_or(0)`
unfoldable pub next_id : List ℕ → ℕ
next_id [] = 0
next_id (id ∷ []) = id + 1
next_id (id ∷ i ∷ ids) = next_id (i ∷ ids)

unfoldable pub insert_all : MemTable → List Record → MemTable
insert_all mem [] = mem
insert_all mem (r ∷ rs) = insert_all (MemTable.insert mem r) rs

-- `.max().unwrap_or(0)` over sequence numbers.
unfoldable pub highest : List Seq → Seq
highest [] = 0
highest (s ∷ rest) = max s (highest rest)

-- The file of the log as `Wal::replay` and as `Wal::open` find it.
abbrev contents : Option Wal → Option Bytes
contents none = none
contents (some w) = some w.file

-- What the fuel was enough for.
abbrev within_fuel : Option (List Record) → Result (List Record)
within_fuel none = stuck
within_fuel (some records) = ok records

unfoldable pub replay_file : Option Wal → Result (List Record)
replay_file log_file = within_fuel (Wal.replay (contents log_file))

unfoldable pub open_wal : Option Wal → Wal
open_wal none = record { file = []; synced = 0 }
open_wal (some w) = w

-- The store that `open_with` puts together.
unfoldable pub assemble : Disk → Options → List SsTable → List Record → Db
assemble disk opts opened replayed =
    let sstables = reverse opened in
    let ids = sort (map (λ f. f.0) disk.tables) in
    record {
      dir = disk.tables;
      wal = open_wal disk.log_file;
      mem = insert_all MemTable.new replayed;
      sstables = sstables;
      seq =
          max (highest (map (λ (r : Record). r.seq) replayed))
            (highest (map (λ (t : SsTable). t.max_seq) sstables))
          + 1;
      next_sst_id = next_id ids;
      opts = opts;
    }

unfoldable pub open_with : Disk → Options → Result Db
open_with disk opts = open_all disk.tables (sort (map (λ f. f.0) disk.tables)) [] >>= λ opened.
    replay_file disk.log_file >>= λ replayed. ok (assemble disk opts opened replayed)
