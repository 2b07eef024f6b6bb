-- ===== src/Bloom/Filter.antt =====
-- 09-unsafe-ffi/src/bloom.rs: the filter. A panic keeps what was written before it: an operation
-- that changes the filter returns the filter it leaves, and whether it came to its end. `inserted`
-- wraps at 64 bits, as in a release build.
pub mod Positions
pub mod Member
pub mod Fresh
pub mod Image
use Prim.Native.Nat.{bit_and, bit_or, max}
use rust_fundamentals.Base.{
  ℕ, zero, suc, ◌+◌, ◌*◌, ◌/◌, ◌%◌, ◌^◌, Bool, true, false, Option, none, some, List, [], ◌∷◌, ◌++◌,
  ◌&&◌, length, get_elem?, leb, ◌==◌, ◌>>=◌, set, replicate, drop, take,
}
use rust_fundamentals.Base.Bytes.{Bytes, to_le_bytes, from_le_bytes, get_range}
use rust_fundamentals.Bloom.Hash.{hash_pair, bit_index}

pub record Bloom : Type 0 where
  pub bits : List ℕ
  pub num_bits : ℕ
  pub num_hashes : ℕ
  pub inserted : ℕ

-- `num_bits.div_ceil(64)`
abbrev pub words_for : ℕ → ℕ
words_for n = (n + 63) / 64

unfoldable pub with_params : ℕ → ℕ → Bloom
with_params num_bits num_hashes =
    let words = max (words_for num_bits) 1 in
    record {
      bits = replicate words 0;
      num_bits = words * 64;
      num_hashes = max num_hashes 1;
      inserted = 0;
    }

-- The floating-point operations that size a filter.
pub record Float : Type 1 where
  pub F64 : Type 0
  pub from_usize : ℕ → F64
  pub to_usize : F64 → ℕ
  pub ln : F64 → F64
  pub neg : F64 → F64
  pub mul : F64 → F64 → F64
  pub div : F64 → F64 → F64
  pub ceil : F64 → F64
  pub round : F64 → F64
  pub ln_2 : F64

-- `Bloom::new`; the product wraps, and the cast of the probe count keeps 32 bits.
unfoldable pub new : (fl : Float) → ℕ → fl.F64 → Bloom
new fl expected_items fp_rate =
    let n = fl.from_usize (max expected_items 1) in
    let m_float = fl.div (fl.neg (fl.mul n (fl.ln fp_rate))) (fl.mul fl.ln_2 fl.ln_2) in
    let m = words_for (fl.to_usize (fl.ceil m_float)) * 64 % 2 ^ 64 in
    let k = fl.to_usize (fl.round (fl.mul (fl.div (fl.from_usize m) n) fl.ln_2)) in
    with_params m (k % 2 ^ 32)

-- Writing behind the words panics.
unfoldable pub set_bit : ℕ → Bloom → Bloom × Bool
set_bit index b = elim (get_elem? b.bits (index / 64)) [
  | none ↦ (b, false)
  | some word ↦ (record b { bits = set b.bits (index / 64) (bit_or word (2 ^ (index % 64))) }, true)
]

unfoldable pub get_bit : ℕ → Bloom → Option Bool
get_bit index b =
    get_elem? b.bits (index / 64) >>= λ word. some (bit_and (word / 2 ^ (index % 64)) 1 == 1)

-- The loop of `add`, by the probes left and the next probe.
unfoldable pub add_loop : ℕ → ℕ → ℕ → ℕ → Bloom → Bloom × Bool
add_loop zero h1 h2 i b = (b, true)
add_loop (suc left) h1 h2 i b = elim (bit_index h1 h2 i b.num_bits) [
  | none ↦ (b, false)
  | some index ↦
      let (b', fine) = set_bit index b in
      elim fine [ true ↦ add_loop left h1 h2 (i + 1) b' | false ↦ (b', false) ]
]

abbrev pub count_add : Bloom × Bool → Bloom × Bool
count_add (b, true) = (record b { inserted = (b.inserted + 1) % 2 ^ 64 }, true)
count_add (b, false) = (b, false)

unfoldable pub add : Bytes → Bloom → Bloom × Bool
add item b = let (h1, h2) = hash_pair item in count_add (add_loop b.num_hashes h1 h2 0 b)

-- `all` stops at the first probe that is not set; `none` is a panic.
unfoldable pub probe_loop : ℕ → ℕ → ℕ → ℕ → Bloom → Option Bool
probe_loop zero h1 h2 i b = some true
probe_loop (suc left) h1 h2 i b = elim (bit_index h1 h2 i b.num_bits) [
  | none ↦ none
  | some index ↦ elim (get_bit index b) [
    | none ↦ none
    | some true ↦ probe_loop left h1 h2 (i + 1) b
    | some false ↦ some false
  ]
]

unfoldable pub contains : Bytes → Bloom → Option Bool
contains item b = let (h1, h2) = hash_pair item in probe_loop b.num_hashes h1 h2 0 b

abbrev pub magic : Bytes
magic = 0x43 ∷ 0x42 ∷ 0x4c ∷ 0x4d ∷ []

abbrev pub version : ℕ
version = 1

unfoldable pub words_to_bytes : List ℕ → Bytes
words_to_bytes [] = []
words_to_bytes (word ∷ words) = to_le_bytes 8 word ++ words_to_bytes words

unfoldable pub to_bytes : Bloom → Bytes
to_bytes b =
    magic
    ++ (version
        ∷ (to_le_bytes 4 b.num_hashes
            ++ (to_le_bytes 8 b.inserted ++ (to_le_bytes 8 b.num_bits ++ words_to_bytes b.bits))))

-- The loop over `chunks_exact(8)`, by the chunks left.
unfoldable pub read_words : ℕ → Bytes → List ℕ
read_words zero tail = []
read_words (suc left) tail = from_le_bytes (take 8 tail) ∷ read_words left (drop 8 tail)

-- `==` of byte slices
unfoldable pub same_bytes : Bytes → Bytes → Bool
same_bytes [] [] = true
same_bytes [] (y ∷ ys) = false
same_bytes (x ∷ xs) [] = false
same_bytes (x ∷ xs) (y ∷ ys) = (x == y) && same_bytes xs ys

abbrev require : Bool → Option (Unit {0})
require true = some tt
require false = none

unfoldable pub from_bytes : Bytes → Option Bloom
from_bytes buf = do
  _ ← require (leb 25 (length buf))
  v ← get_elem? buf 4
  _ ← require (same_bytes (take 4 buf) magic && (v == version))
  num_hashes_bytes ← get_range buf 5 9
  inserted_bytes ← get_range buf 9 17
  num_bits_bytes ← get_range buf 17 25
  let num_bits = from_le_bytes num_bits_bytes
  let word_count = num_bits / 64
  _ ← require (length buf == 25 + word_count * 8)
  let tail = drop 25 buf
  some (record {
    bits = read_words (length tail / 8) tail;
    num_bits = num_bits;
    num_hashes = from_le_bytes num_hashes_bytes;
    inserted = from_le_bytes inserted_bytes;
  })
