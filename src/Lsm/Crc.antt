-- ===== src/Lsm/Crc.antt =====
-- 10-database-internals/src/encoding.rs: `crc32` and its table.
pub mod Bitwise
use Prim.Native.Nat.{bit_and, bit_xor}
use rust_fundamentals.Base.{
  ℕ, zero, suc, ◌+◌, ◌/◌, ◌^◌, Option, none, some, List, [], ◌∷◌, get_elem?, ◌==◌, if◌then◌else◌,
}
use rust_fundamentals.Base.Bytes.{Bytes}

-- One round of the inner loop of `crc32_table`.
unfoldable pub crc_round : ℕ → ℕ
crc_round crc = if bit_and crc 1 == 1 then bit_xor (crc / 2) 0xEDB8_8320 else crc / 2

-- The inner loop, by the rounds left.
unfoldable pub crc_rounds : ℕ → ℕ → ℕ
crc_rounds zero crc = crc
crc_rounds (suc j) crc = crc_rounds j (crc_round crc)

-- The outer loop: `n` entries from the `i`-th on.
unfoldable pub table_from : ℕ → ℕ → List ℕ
table_from zero i = []
table_from (suc n) i = crc_rounds 8 i ∷ table_from n (i + 1)

unfoldable pub crc_table : List ℕ
crc_table = table_from 256 0

-- `CRC_TABLE[idx]`. The index is below 256 and the table has 256 entries, so 0 is never taken.
unfoldable pub table_entry : ℕ → ℕ
table_entry idx = elim (get_elem? crc_table idx) [ none ↦ 0 | some entry ↦ entry ]

unfoldable pub crc_byte : ℕ → ℕ → ℕ
crc_byte crc byte = bit_xor (crc / 2 ^ 8) (table_entry (bit_and (bit_xor crc byte) 0xff))

unfoldable pub crc_loop : Bytes → ℕ → ℕ
crc_loop [] crc = crc
crc_loop (byte ∷ rest) crc = crc_loop rest (crc_byte crc byte)

unfoldable pub crc32 : Bytes → ℕ
crc32 bytes = bit_xor (crc_loop bytes 0xFFFF_FFFF) 0xFFFF_FFFF
