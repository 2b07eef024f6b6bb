-- ===== src/Bloom/Hash.antt =====
-- 09-unsafe-ffi/src/hash.rs: FNV-1a and the double hashing of the filter.
use Prim.Native.Nat.{bit_or, bit_xor}
use rust_fundamentals.Base.{ℕ, ◌+◌, ◌*◌, ◌%◌, ◌^◌, Option, none, some, [], ◌∷◌, ltb, if◌then◌else◌}
use rust_fundamentals.Base.Bytes.{Bytes}

abbrev pub fnv_offset : ℕ
fnv_offset = 0xcbf2_9ce4_8422_2325

abbrev pub fnv_prime : ℕ
fnv_prime = 0x0000_0100_0000_01b3

-- `wrapping_mul` keeps the low 64 bits.
unfoldable pub fnv1a : Bytes → ℕ → ℕ
fnv1a [] hash = hash
fnv1a (byte ∷ rest) hash = fnv1a rest (bit_xor hash byte * fnv_prime % 2 ^ 64)

unfoldable pub hash_pair : Bytes → ℕ × ℕ
hash_pair item = (fnv1a item fnv_offset, bit_or (fnv1a item fnv_prime) 1)

-- The remainder by no bits panics.
unfoldable pub bit_index : ℕ → ℕ → ℕ → ℕ → Option ℕ
bit_index h1 h2 i num_bits =
    if ltb 0 num_bits then some ((h1 + i * h2 % 2 ^ 64) % 2 ^ 64 % num_bits) else none
