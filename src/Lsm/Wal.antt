-- ===== src/Lsm/Wal.antt =====
-- 10-database-internals/src/wal.rs: the write-ahead log. The file is its bytes and how many of them
-- the last `fsync` made durable; the path is left out. What the system answers to a write or a sync
-- is an argument.
pub mod Frames
pub mod Replay
pub mod Crash
pub mod Durable
use rust_fundamentals.Base.{
  ℕ, zero, suc, ◌+◌, ◌%◌, ◌^◌, ◌≤◌, ◌<◌, Bool, true, false, Option, none, some, List, [], ◌∷◌, ◌++◌,
  length, take, drop, ◌==◌, if◌then◌else◌, ◌>>=◌,
}
use rust_fundamentals.Base.Bytes.{Bytes, to_le_bytes, from_le_bytes, get_range}
use rust_fundamentals.Lsm.Result.{Result, ok, err, io}
use rust_fundamentals.Lsm.Encoding.{Record, encode, decode, Fits}
use rust_fundamentals.Lsm.Crc.{crc32}

pub record Wal : Type 0 where
  pub file : Bytes
  pub synced : ℕ

-- The buffer that `append` writes.
unfoldable pub frame : Record → Bytes
frame r =
    let payload = encode r in
    to_le_bytes 4 (crc32 payload) ++ (to_le_bytes 4 (length payload % 2 ^ 32) ++ payload)

-- `write_all` writes everything, or fails after some bytes.
pub data WriteAll : Type 0 where
  written : WriteAll
  failed_after : ℕ → WriteAll

unfoldable pub append : Wal → Record → WriteAll → Result (Unit {0}) × Wal
append w r written = (ok tt, record w { file = w.file ++ frame r })
append w r (failed_after n) = (err io, record w { file = w.file ++ take n (frame r) })

-- The flag says whether `flush` and `sync_all` succeed.
unfoldable pub sync : Wal → Bool → Result (Unit {0}) × Wal
sync w true = (ok tt, record w { synced = length w.file })
sync w false = (err io, w)

-- How far `reset` gets: to its end, not to cutting the file, or to cutting it but not to syncing it
-- or opening it again.
pub data ResetOutcome : Type 0 where
  emptied : ResetOutcome
  not_cut : ResetOutcome
  not_reopened : ResetOutcome

unfoldable pub reset : Wal → ResetOutcome → Result (Unit {0}) × Wal
reset w emptied = (ok tt, record { file = []; synced = 0 })
reset w not_cut = (err io, w)
reset w not_reopened = (err io, record { file = []; synced = 0 })

-- One round of the loop of `replay`: the record of the frame at `pos` and the offset behind it, or
-- nothing where the loop breaks.
unfoldable pub next_frame : Bytes → ℕ → Option (Record × ℕ)
next_frame buf pos = do
  header ← get_range buf pos (pos + 8)
  let crc = from_le_bytes (take 4 header)
  let len = from_le_bytes (take 4 (drop 4 header))
  payload ← get_range buf (pos + 8) (pos + 8 + len)
  (rec, consumed) ← (if crc32 payload == crc then decode payload else none)
  some (rec, pos + 8 + len)

-- The loop, on fuel; `none` means that the fuel ran out.
unfoldable pub replay_loop : ℕ → Bytes → ℕ → List Record → Option (List Record)
replay_loop zero buf pos records = none
replay_loop (suc fuel) buf pos records = elim (next_frame buf pos) [
  | none ↦ some records
  | some (rec, next) ↦ replay_loop fuel buf next (records ++ (rec ∷ []))
]

-- `replay` on the contents of the file, if there is one. A round takes 8 bytes at least.
unfoldable pub replay : Option Bytes → Option (List Record)
replay none = some []
replay (some buf) = replay_loop (suc (length buf)) buf 0 []

-- A log of whole frames.
unfoldable pub log : List Record → Bytes
log [] = []
log (r ∷ rs) = frame r ++ log rs

-- The record can be framed: its fields fit and so does the payload's length.
pub record FrameFits (r : Record) : Type 0 where
  pub fields : Fits r
  pub payload_fits : length (encode r) < 2 ^ 32
