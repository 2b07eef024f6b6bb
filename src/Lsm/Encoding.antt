-- ===== src/Lsm/Encoding.antt =====
-- 10-database-internals/src/encoding.rs: records and their wire format. Byte strings are lists of
-- numbers; `usize` has 64 bits, so an offset plus a 32-bit length cannot overflow.
pub mod RoundTrip
pub mod Reads
pub mod Torn
use rust_fundamentals.Base.{
  ℕ, ◌+◌, ◌%◌, ◌^◌, ◌<◌, Option, none, some, List, [], ◌∷◌, ◌++◌, length, get_elem?, ◌==◌,
  if◌then◌else◌, ◌>>=◌,
}
use rust_fundamentals.Base.Bytes.{Bytes, to_le_bytes, from_le_bytes, get_range}

-- `Seq` is `u64`.
abbrev pub Seq : Type 0
Seq = ℕ

pub data ValueKind : Type 0 where
  put : Bytes → ValueKind
  delete : ValueKind

pub record Record : Type 0 where
  pub seq : Seq
  pub key : Bytes
  pub value : ValueKind

abbrev pub kind_put : ℕ
kind_put = 0

abbrev pub kind_delete : ℕ
kind_delete = 1

-- `Record::put` and `Record::tombstone`
abbrev pub put_record : Seq → Bytes → Bytes → Record
put_record seq key value = record { seq = seq; key = key; value = put value }

abbrev pub tombstone : Seq → Bytes → Record
tombstone seq key = record { seq = seq; key = key; value = delete }

-- The first match of `encode`: the tag byte and the payload.
abbrev pub tag_and_payload : ValueKind → ℕ × Bytes
tag_and_payload (put bytes) = (kind_put, bytes)
tag_and_payload delete = (kind_delete, [])

-- The length fields are `as u32`, which wraps.
unfoldable pub encode : Record → Bytes
encode r =
    let (kind, value) = tag_and_payload r.value in
    to_le_bytes 8 r.seq
    ++ (kind
        ∷ (to_le_bytes 4 (length r.key % 2 ^ 32)
            ++ (r.key ++ (to_le_bytes 4 (length value % 2 ^ 32) ++ value))))

-- The last match of `decode`.
abbrev pub value_of : ℕ → Bytes → Option ValueKind
value_of kind bytes =
    if kind == kind_put then some (put bytes) else if kind == kind_delete then some delete else none

-- The record at the front of `buf`, and how many bytes it takes.
unfoldable pub decode : Bytes → Option (Record × ℕ)
decode buf = do
  seq_bytes ← get_range buf 0 (0 + 8)
  kind ← get_elem? buf (0 + 8)
  klen_bytes ← get_range buf 9 (9 + 4)
  let klen = from_le_bytes klen_bytes
  key ← get_range buf 13 (13 + klen)
  vlen_bytes ← get_range buf (13 + klen) (13 + klen + 4)
  let vlen = from_le_bytes vlen_bytes
  value_bytes ← get_range buf (13 + klen + 4) (13 + klen + 4 + vlen)
  value ← value_of kind value_bytes
  some (record { seq = from_le_bytes seq_bytes; key = key; value = value }, 13 + klen + 4 + vlen)

-- What the Rust types and the length fields can hold.
pub record Fits (r : Record) : Type 0 where
  pub seq_fits : r.seq < 2 ^ 64
  pub key_fits : length r.key < 2 ^ 32
  pub value_fits : length (tag_and_payload r.value).1 < 2 ^ 32
