-- ===== src/Lsm/Crc/Bitwise.antt =====
-- The table-driven CRC against the bit-by-bit definition, and its range.
use Prim.Native.Nat.{bit_xor}
use rust_fundamentals.Base.{
  ℕ, zero, suc, ◌+◌, ◌*◌, ◌/◌, ◌%◌, ◌^◌, ◌<◌, ◌≡◌, refl, ap, ◌∙◌, some, [], ◌∷◌, get_elem?, All,
  arith,
}
use rust_fundamentals.Base.Bytes.{Bytes, IsByte}
use rust_fundamentals.Base.Bits.{
  xor_low, xor_high, xor_assoc, xor_zero, xor_lt, and_one, and_byte, xor_fields, xor_shr,
  mul-two-pow-suc,
}
use rust_fundamentals.Lsm.Crc.{
  crc_round, crc_rounds, table_from, crc_table, table_entry, crc_byte, crc_loop, crc32,
}

abbrev IsU32 : ℕ → Type 0
IsU32 v = v < 2 ^ 32

-- The reference: each byte is added to the low end and pushed through eight rounds.
unfoldable pub crc_by_bits : Bytes → ℕ → ℕ
crc_by_bits [] crc = crc
crc_by_bits (byte ∷ rest) crc = crc_by_bits rest (crc_rounds 8 (bit_xor crc byte))

-- A round moves the digits above the lowest down, and the polynomial goes by the lowest alone.
crc_round-xor : (m y : ℕ) → crc_round (bit_xor (2 * m) y) ≡ bit_xor m (crc_round y)
unfolding crc_round
crc_round-xor m y = ground (
  arith,
  and_one (bit_xor (2 * m) y),
  and_one y,
  xor_low (2 * m) y,
  xor_high (2 * m) y,
  ap (λ (t : ℕ). bit_xor t (y / 2)) (half m),
  xor_assoc m (y / 2) 0xEDB8_8320,
)
  where
    half : (m : ℕ) → 2 * m / 2 ≡ m
    half m = omega arith

crc_rounds-xor : (k h y : ℕ) → crc_rounds k (bit_xor (h * 2 ^ k) y) ≡ bit_xor h (crc_rounds k y)
unfolding crc_rounds
crc_rounds-xor zero h y = ap (λ (t : ℕ). bit_xor t y) (omega arith)
crc_rounds-xor (suc k) h y =
    rw (mul-two-pow-suc h k, crc_round-xor (h * 2 ^ k) y) (crc_rounds-xor k h (crc_round y))

table_from-get : (n i j : ℕ) → j < n → get_elem? (table_from n i) j ≡ some (crc_rounds 8 (i + j))
unfolding table_from
table_from-get zero i j h = absurd (omega arith)
table_from-get (suc n) i zero h = ap (λ (t : ℕ). some (crc_rounds 8 t)) (omega arith)
table_from-get (suc n) i (suc j) h =
    table_from-get n (i + 1) j (omega arith) ∙ ap (λ (t : ℕ). some (crc_rounds 8 t)) (omega arith)

-- Each entry of the table is its index after eight rounds.
table_entry-rounds : (i : ℕ) → i < 256 → table_entry i ≡ crc_rounds 8 i
unfolding table_entry crc_table
table_entry-rounds i h =
    rw (table_from-get 256 0 i h, table_entry) (ap (crc_rounds 8) (omega arith))

split_byte : (x : ℕ) → x ≡ bit_xor (x / 2 ^ 8 * 2 ^ 8) (x % 256)
split_byte x = omega (arith, xor_fields 8 (x / 2 ^ 8) (x % 256) (omega arith))

-- A byte does not reach the digits above its own.
above_byte : (crc byte : ℕ) → IsByte byte → bit_xor crc byte / 2 ^ 8 ≡ crc / 2 ^ 8
above_byte crc byte h = rw (xor_shr 8 crc byte) (high (byte / 2 ^ 8) (omega arith))
  where
    high : (z : ℕ) → z ≡ 0 → bit_xor (crc / 2 ^ 8) z ≡ crc / 2 ^ 8
    high z e = rw e (xor_zero (crc / 2 ^ 8))

rounds_of_byte : (x : ℕ) → crc_rounds 8 x ≡ bit_xor (x / 2 ^ 8) (crc_rounds 8 (x % 256))
rounds_of_byte x = ap (crc_rounds 8) (split_byte x) ∙ crc_rounds-xor 8 (x / 2 ^ 8) (x % 256)

-- One table lookup makes the eight rounds of a byte.
crc_byte-rounds : (crc byte : ℕ) → IsByte byte → crc_byte crc byte ≡ crc_rounds 8 (bit_xor crc byte)
unfolding crc_byte
crc_byte-rounds crc byte h = rw (
  and_byte (bit_xor crc byte),
  table_entry-rounds (bit_xor crc byte % 256) (omega arith),
  rounds_of_byte (bit_xor crc byte),
  above_byte crc byte h,
)

crc_loop-by_bits :
    (bytes : Bytes) (crc : ℕ) → All IsByte bytes → crc_loop bytes crc ≡ crc_by_bits bytes crc
unfolding crc_loop crc_by_bits
crc_loop-by_bits [] crc h = refl
crc_loop-by_bits (byte ∷ rest) crc (hb, hr) =
    rw (crc_byte-rounds crc byte hb) (crc_loop-by_bits rest _ hr)

-- On every byte string `crc32` is the bit-by-bit CRC with the initial value and the final
-- complement of all ones.
pub crc32-by_bits :
    (bytes : Bytes)
    → All IsByte bytes
    → crc32 bytes ≡ bit_xor (crc_by_bits bytes 0xFFFF_FFFF) 0xFFFF_FFFF
unfolding crc32
crc32-by_bits bytes h = rw (crc_loop-by_bits bytes 0xFFFF_FFFF h)

crc_round-IsU32 : (crc : ℕ) → IsU32 crc → IsU32 (crc_round crc)
unfolding crc_round
crc_round-IsU32 crc h = ground (arith, xor_lt 32 (crc / 2) 0xEDB8_8320)

crc_rounds-IsU32 : (k crc : ℕ) → IsU32 crc → IsU32 (crc_rounds k crc)
unfolding crc_rounds
crc_rounds-IsU32 zero crc h = h
crc_rounds-IsU32 (suc k) crc h = crc_rounds-IsU32 k (crc_round crc) (crc_round-IsU32 crc h)

crc_byte-IsU32 : (crc byte : ℕ) → IsU32 crc → IsU32 (crc_byte crc byte)
unfolding crc_byte
crc_byte-IsU32 crc byte h = xor_lt 32 (crc / 2 ^ 8) _ (omega arith) (
    rw (and_byte (bit_xor crc byte), table_entry-rounds (bit_xor crc byte % 256) (omega arith))
      (crc_rounds-IsU32 8 _ (omega arith)))

crc_loop-IsU32 : (bytes : Bytes) (crc : ℕ) → IsU32 crc → IsU32 (crc_loop bytes crc)
unfolding crc_loop
crc_loop-IsU32 [] crc h = h
crc_loop-IsU32 (byte ∷ rest) crc h =
    crc_loop-IsU32 rest (crc_byte crc byte) (crc_byte-IsU32 crc byte h)

pub crc32-lt : (bytes : Bytes) → crc32 bytes < 2 ^ 32
unfolding crc32
crc32-lt bytes =
    xor_lt 32 (crc_loop bytes 0xFFFF_FFFF) 0xFFFF_FFFF
      (crc_loop-IsU32 bytes 0xFFFF_FFFF (omega arith)) (omega arith)
