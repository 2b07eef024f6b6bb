-- ===== src/Lsm/SsTable.antt =====
-- 10-database-internals/src/sstable.rs: the bytes of a table, and reading them. A table's file is
-- written once and never changed, so the handle holds its bytes. Lengths and offsets are `usize` and
-- `u64` of 64 bits; the capacity that `open` reserves is left out.
pub mod Layout
pub mod Index
pub mod Open
pub mod Iter
pub mod Search
pub mod Get
use Prim.Native.Nat.{max}
use Prim.Native.Nat.Ordering.{lt, eq, gt}
use rust_fundamentals.Base.{
  ℕ, zero, suc, ◌+◌, ◌-◌, ◌/◌, ◌%◌, ◌^◌, ◌≤◌, ◌<◌, Bool, true, false, Option, none, some, List, [],
  ◌∷◌, ◌++◌, length, take, drop, get_elem?, ◌==◌, ltb, leb, if◌then◌else◌,
}
use rust_fundamentals.Base.Bytes.{Bytes, to_le_bytes, from_le_bytes, get_range}
use rust_fundamentals.Base.Order.{cmp}
use rust_fundamentals.Lsm.Result.{Result, ok, err, panic, stuck, corrupt, ◌>>=◌, ok_or, or_panic}
use rust_fundamentals.Lsm.Encoding.{Record, Seq, encode, decode}

-- `SST_MAGIC`, ASCII "LSM1" read as a number.
abbrev pub sst_magic : ℕ
sst_magic = 0x4C53_4D31

abbrev pub footer_size : ℕ
footer_size = 36

pub record IndexEntry : Type 0 where
  pub key : Bytes
  pub offset : ℕ
  pub len : ℕ

pub record SsTable : Type 0 where
  pub id : ℕ
  pub file : Bytes
  pub index : List IndexEntry
  pub data_len : ℕ
  pub max_seq : Seq

-- The first loop of `write`: the data region, the index and the highest sequence number.
unfoldable pub build : List Record → Bytes → List IndexEntry → Seq → Bytes × List IndexEntry × Seq
build [] contents index max_seq = (contents, index, max_seq)
build (r ∷ rest) contents index max_seq =
    let encoded = encode r in
    let entry : IndexEntry = record {
      key = r.key;
      offset = length contents;
      len = length encoded % 2 ^ 32;
    } in
    build rest (contents ++ encoded) (index ++ (entry ∷ [])) (max max_seq r.seq)

unfoldable pub entry_bytes : IndexEntry → Bytes
entry_bytes e =
    to_le_bytes 4 (length e.key % 2 ^ 32)
    ++ (e.key ++ (to_le_bytes 8 e.offset ++ to_le_bytes 4 e.len))

-- The second loop of `write`.
unfoldable pub append_index : Bytes → List IndexEntry → Bytes
append_index contents [] = contents
append_index contents (e ∷ rest) = append_index (contents ++ entry_bytes e) rest

unfoldable pub footer : ℕ → ℕ → ℕ → Seq → Bytes
footer index_offset index_len count max_seq =
    to_le_bytes 8 index_offset
    ++ (to_le_bytes 8 index_len
        ++ (to_le_bytes 8 count ++ (to_le_bytes 8 max_seq ++ to_le_bytes 4 sst_magic)))

-- What `write` writes.
unfoldable pub image : List Record → Bytes
image records =
    let (contents, index, max_seq) = build records [] [] 0 in
    let index_offset = length contents in
    let indexed = append_index contents index in
    let index_len = length indexed - index_offset in
    indexed ++ footer index_offset index_len (length index) max_seq

-- Reading no bytes succeeds everywhere. The buffer's allocation is taken to succeed.
unfoldable pub read_exact_at : Bytes → ℕ → ℕ → Result Bytes
read_exact_at file offset zero = ok []
read_exact_at file offset (suc more) =
    if leb (offset + suc more) (length file)
    then ok (take (suc more) (drop offset file))
    else err corrupt

-- One round of the loop of `open`: the entry at `pos` and the offset behind it. The slices panic
-- out of range.
unfoldable pub next_entry : Bytes → ℕ → Result (IndexEntry × ℕ)
next_entry bytes pos = do
  klen_bytes ← or_panic (get_range bytes pos (pos + 4))
  let klen = from_le_bytes klen_bytes
  key ← or_panic (get_range bytes (pos + 4) (pos + 4 + klen))
  offset_bytes ← or_panic (get_range bytes (pos + 4 + klen) (pos + 4 + klen + 8))
  len_bytes ← or_panic (get_range bytes (pos + 4 + klen + 8) (pos + 4 + klen + 8 + 4))
  ok (
    record { key = key; offset = from_le_bytes offset_bytes; len = from_le_bytes len_bytes },
    pos + 4 + klen + 8 + 4,
  )

-- The loop, on fuel.
unfoldable pub parse_index : ℕ → Bytes → ℕ → List IndexEntry → Result (List IndexEntry)
parse_index zero bytes pos index = stuck
parse_index (suc fuel) bytes pos index =
    let next =
      next_entry bytes pos >>= λ (e, pos'). parse_index fuel bytes pos' (index ++ (e ∷ [])) in
    if ltb pos (length bytes) then next else ok index

-- A part of the footer, which has all its bytes.
abbrev pub field : Bytes → ℕ → ℕ → ℕ
field bytes from to = from_le_bytes (take (to - from) (drop from bytes))

-- The number of entries in the footer is a capacity, whose allocation is taken to succeed.
unfoldable pub open_table : Bytes → ℕ → Result SsTable
open_table file id = if ltb (length file) footer_size then err corrupt else do
  foot ← read_exact_at file (length file - footer_size) footer_size
  let index_offset = field foot 0 8
  let index_len = field foot 8 16
  let max_seq = field foot 24 32
  let magic = field foot 32 36
  if magic == sst_magic
      then (do
        index_bytes ← read_exact_at file index_offset index_len
        index ← parse_index (suc (length index_bytes)) index_bytes 0 []
        ok (record {
          id = id;
          file = file;
          index = index;
          data_len = index_offset;
          max_seq = max_seq;
        }))
      else err corrupt

-- `slice::binary_search_by` of the standard library: halve until one candidate is left.
unfoldable pub narrow : ℕ → List IndexEntry → Bytes → ℕ → ℕ → ℕ
narrow zero index key base size = base
narrow (suc fuel) index key base size =
    let half = size / 2 in
    let mid = base + half in
    let base' : ℕ = elim (get_elem? index mid) [
      | none ↦ base
      | some e ↦ elim (cmp e.key key) [ gt ↦ base | _ ↦ mid ]
    ] in
    let next = narrow fuel index key base' (size - half) in if ltb 1 size then next else base

-- The last comparison.
unfoldable pub candidate : List IndexEntry → Bytes → ℕ → Option ℕ
candidate index key base = elim (get_elem? index base) [
  | none ↦ none
  | some e ↦ elim (cmp e.key key) [ eq ↦ some base | _ ↦ none ]
]

unfoldable pub binary_search : List IndexEntry → Bytes → Option ℕ
binary_search index key = candidate index key (narrow (length index) index key 0 (length index))

-- `get` from the outcome of the search on.
unfoldable pub read_place : SsTable → Option ℕ → Result (Option Record)
read_place table none = ok none
read_place table (some i) = do
  entry ← or_panic (get_elem? table.index i)
  bytes ← read_exact_at table.file entry.offset entry.len
  (rec, consumed) ← ok_or corrupt (decode bytes)
  ok (some rec)

unfoldable pub get : SsTable → Bytes → Result (Option Record)
get table key = read_place table (binary_search table.index key)

-- The loop of `iter`, on fuel.
unfoldable pub iter_loop : ℕ → Bytes → ℕ → List Record → Result (List Record)
iter_loop zero contents pos records = stuck
iter_loop (suc fuel) contents pos records =
    let next = ok_or corrupt (decode (drop pos contents)) >>= λ (rec, consumed).
    iter_loop fuel contents (pos + consumed) (records ++ (rec ∷ [])) in
    if ltb pos (length contents) then next else ok records

unfoldable pub iter : SsTable → Result (List Record)
iter table = do
  contents ← read_exact_at table.file 0 table.data_len
  iter_loop (suc (length contents)) contents 0 []

unfoldable pub table_len : SsTable → ℕ
table_len table = length table.index
