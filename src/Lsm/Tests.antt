-- ===== src/Lsm/Tests.antt =====
-- Concrete runs of the store's components, and their theorems at concrete inputs.
use rust_fundamentals.Base.{
  ◌≤◌, ◌≡◌, ◌≢◌, refl, some, List, [], ◌∷◌, ◌++◌, length, take, In, All, arith, inl, inr, true,
}
use Prim.Native.Nat.{bit_xor}
use rust_fundamentals.Base.Bytes.{Bytes, to_le_bytes, from_le_bytes, get_range}
use rust_fundamentals.Base.Order.{cmp}
use rust_fundamentals.Base.Map
use rust_fundamentals.Base.Map.{key_eq}
use rust_fundamentals.Lsm.Encoding.{Record, put_record, tombstone, encode, decode, Fits}
use rust_fundamentals.Lsm.Encoding.RoundTrip.{length-encode}
use rust_fundamentals.Lsm.Crc.{
  crc_round, crc_rounds, table_from, crc_table, table_entry, crc_byte, crc_loop, crc32,
}
use rust_fundamentals.Lsm.Crc.Bitwise.{crc_by_bits, crc32-by_bits}
use rust_fundamentals.Lsm.Wal.{Wal, written, frame, append, sync, replay, log, FrameFits}
use rust_fundamentals.Lsm.Wal.Frames.{header}
use rust_fundamentals.Lsm.Wal.Durable.{behind_torn_frame}
use rust_fundamentals.Lsm.MemTable.{MemTable, get, entry_size}
use rust_fundamentals.Lsm.MemTable.Valid.{footprint, IsValid}
use rust_fundamentals.Lsm.Merge.{keep_newest, merge_into}

-- `b"123456789"`
abbrev digits : Bytes
digits = 0x31 ∷ 0x32 ∷ 0x33 ∷ 0x34 ∷ 0x35 ∷ 0x36 ∷ 0x37 ∷ 0x38 ∷ 0x39 ∷ []

abbrev pub first : Record
first = put_record 1 (0x61 ∷ []) (0x78 ∷ 0x79 ∷ [])

abbrev pub second : Record
second = tombstone 2 (0x61 ∷ [])

abbrev pub third : Record
third = put_record 3 (0x62 ∷ []) []

-- The check value of the repository's own test.
crc32_check : crc32 digits ≡ 0xCBF4_3926
unfolding crc32 crc_loop crc_byte table_entry crc_table table_from crc_rounds crc_round
crc32_check = refl

crc32-by_bits_example : crc32 digits ≡ bit_xor (crc_by_bits digits 0xFFFF_FFFF) 0xFFFF_FFFF
crc32-by_bits_example = crc32-by_bits digits (omega arith)

encode-second :
    encode second ≡ 2 ∷ 0 ∷ 0 ∷ 0 ∷ 0 ∷ 0 ∷ 0 ∷ 0 ∷ 1 ∷ 1 ∷ 0 ∷ 0 ∷ 0 ∷ 0x61 ∷ 0 ∷ 0 ∷ 0 ∷ 0 ∷ []
unfolding encode to_le_bytes
encode-second = refl

Fits-first : Fits first
Fits-first = omega arith

Fits-second : Fits second
Fits-second = omega arith

pub FrameFits-first : FrameFits first
FrameFits-first = record { fields = Fits-first; payload_fits = omega (arith, length-encode first) }

pub FrameFits-second : FrameFits second
FrameFits-second = record {
  fields = Fits-second;
  payload_fits = omega (arith, length-encode second);
}

decode-second : decode (encode second) ≡ some (second, 18)
unfolding encode to_le_bytes decode get_range from_le_bytes
decode-second = refl

abbrev both : List Record
both = first ∷ second ∷ []

fits_both : All FrameFits both
fits_both = (FrameFits-first, (FrameFits-second, tt))

-- The log of `first`, synced, with the frame of `second` behind it.
abbrev half_synced : Wal
half_synced = record { file = log both; synced = length (log (first ∷ [])) }

length-log-first : length (log (first ∷ [])) ≡ 28
unfolding log frame encode to_le_bytes
length-log-first = refl

abbrev logged_first : Wal
logged_first = record { file = log (first ∷ []); synced = 0 }

length-log-both : length (log both) ≡ 54
unfolding log frame encode to_le_bytes
length-log-both = refl

synced_at : (sync (append logged_first second written).1 true).1.synced ≤ 60
unfolding append sync log frame encode to_le_bytes
synced_at = omega arith

-- The frame of `first` torn in its payload, then the whole frame of `third`.
crc_differs :
    crc32 (take (length (encode first)) (take 3 (encode first) ++ frame third))
    ≢ crc32 (encode first)
unfolding frame encode to_le_bytes crc32 crc_loop crc_byte table_entry crc_table table_from
    crc_rounds crc_round
crc_differs = omega arith

behind_torn_frame_example :
    replay (some (log (second ∷ []) ++ (header first ++ (take 3 (encode first) ++ frame third))))
    ≡ some (second ∷ [])
behind_torn_frame_example =
    behind_torn_frame (second ∷ []) first 3 (frame third) (FrameFits-second, tt) FrameFits-first
      crc_differs

abbrev one_entry : MemTable
one_entry = record { map = (0x61 ∷ [], first) ∷ []; approx_bytes = 51 }

one_entry-IsValid : IsValid one_entry
unfolding footprint entry_size
one_entry-IsValid = record { sorted = (tt, tt); keyed = (refl, tt); measured = refl }

read_first : get (0x61 ∷ []) one_entry ≡ some first
unfolding get Map.get cmp
read_first = refl

merge_both : Map.get (0x61 ∷ []) (merge_into [] both) ≡ some second
unfolding merge_into keep_newest Map.get Map.insert cmp
merge_both = refl

abbrev swapped : List Record
swapped = second ∷ first ∷ []

swap-In : (r : Record) → In r both → In r swapped
swap-In r (inl e) = inr (inl e)
swap-In r (inr (inl e)) = inl e
swap-In r (inr (inr e)) = absurd e

swap-out : (r : Record) → In r swapped → In r both
swap-out r (inl e) = inr (inl e)
swap-out r (inr (inl e)) = inl e
swap-out r (inr (inr e)) = absurd e

both_distinct : (r s : Record) → In r both → In s both → r.seq ≡ s.seq → r ≡ s
both_distinct r s (inl e) (inl f) h = cc
both_distinct r s (inl e) (inr (inl f)) h = absurd (ground (arith, e, f, h))
both_distinct r s (inr (inl e)) (inl f) h = absurd (ground (arith, e, f, h))
both_distinct r s (inr (inl e)) (inr (inl f)) h = cc
both_distinct r s (inr (inr e)) i h = absurd e
both_distinct r s (inl e) (inr (inr f)) h = absurd f
both_distinct r s (inr (inl e)) (inr (inr f)) h = absurd f
