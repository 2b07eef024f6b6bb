-- ===== src/Bloom/Tests.antt =====
-- The theorems on the filter and its C interface at concrete inputs.
use rust_fundamentals.Base.{
  ℕ, ◌+◌, ◌%◌, ◌^◌, ◌≡◌, ◌≢◌, ◌↔◌, refl, inl, inr, Bool, true, false, none, some, [], ◌∷◌, length,
  arith, ◌*◌,
}
use rust_fundamentals.Base.Bytes.{Bytes}
use rust_fundamentals.Bloom.Hash.{fnv1a, hash_pair, bit_index, fnv_offset}
use rust_fundamentals.Bloom.Filter.{
  Bloom, Float, with_params, get_bit, set_bit, add_loop, add, probe_loop, contains, to_bytes,
  from_bytes,
}
use rust_fundamentals.Bloom.Filter.Positions.{IsValid}
use rust_fundamentals.Bloom.Filter.Member.{marks_item, marks_any, add_all, contains-add_all}
use rust_fundamentals.Bloom.Filter.Fresh.{with_params-IsValid, contains-with_params}
use rust_fundamentals.Bloom.Filter.Image.{Fits, from_bytes-to_bytes, forged, from_bytes-forged}
use rust_fundamentals.Bloom.Ffi.{
  address, Memory, CBloomBuffer, cbloom_free, cbloom_add, cbloom_contains, cbloom_get_stats,
  cbloom_serialize, cbloom_deserialize, cbloom_buffer_free, update,
}
use rust_fundamentals.Bloom.Ffi.Calls.{
  Tidy, cbloom_contains-cbloom_add, cbloom_deserialize-cbloom_serialize,
}
use rust_fundamentals.Bloom.Ffi.Safe.{Call, execute, execute-Contract}

-- The published vector of the source's test: FNV-1a of `a`.
fnv1a_a : fnv1a (0x61 ∷ []) fnv_offset ≡ 0xaf63_dc4c_8601_ec8c
unfolding fnv1a
fnv1a_a = refl

abbrev cat : Bytes
cat = 0x63 ∷ 0x61 ∷ 0x74 ∷ []

abbrev dog : Bytes
dog = 0x64 ∷ 0x6f ∷ 0x67 ∷ []

-- A filter of 128 bits with three probes that holds one item denies another.
denies_dog : contains dog (add cat (with_params 100 3)).0 ≡ some false
unfolding with_params add add_loop set_bit get_bit probe_loop contains hash_pair fnv1a bit_index
denies_dog = refl

contains-add_all_example : contains cat (add_all (dog ∷ cat ∷ []) (with_params 100 3)) ≡ some true
contains-add_all_example =
    contains-add_all (with_params 100 3) (dog ∷ cat ∷ []) cat (with_params-IsValid 100 3)
      (inr (inl refl))

contains-with_params_example :
    (answer : Bool) × (contains dog (add_all (cat ∷ []) (with_params 100 3)) ≡ some answer)
    × ((answer ≡ true) ↔ (
        (j : ℕ)
        → marks_item dog (with_params 100 3).num_hashes (with_params 100 3).num_bits j ≡ true
        → marks_any (cat ∷ []) (with_params 100 3).num_hashes (with_params 100 3).num_bits j
          ≡ true))
contains-with_params_example = contains-with_params 100 3 (cat ∷ []) dog

-- Whole numbers in place of the floating-point ones.
abbrev whole_numbers : Float
whole_numbers = record {
  F64 = ℕ;
  from_usize = λ n. n;
  to_usize = λ n. n;
  ln = λ x. x;
  neg = λ x. x;
  mul = λ x y. x * y;
  div = λ x y. x;
  ceil = λ x. x;
  round = λ x. x;
  ln_2 = 1;
}

abbrev small : Bloom
small = record { bits = 5 ∷ []; num_bits = 64; num_hashes = 2; inserted = 1 }

small-IsValid : IsValid small
small-IsValid = record { aligned = refl; nonempty = omega arith; probed = omega arith }

small-Fits : Fits small
small-Fits = record {
  hashes_fit = omega arith;
  inserted_fit = omega arith;
  bits_fit = omega arith;
  words_fit = (omega arith, tt);
  words_match = refl;
}

from_bytes-to_bytes_example : from_bytes (to_bytes small) ≡ some small
from_bytes-to_bytes_example = from_bytes-to_bytes small small-Fits

from_bytes-forged_example :
    (from_bytes (to_bytes (forged 7 3)) ≡ some (forged 7 3))
    × (contains cat (forged 7 3) ≡ none)
    × (add cat (forged 7 3) ≡ (forged 7 3, false))
from_bytes-forged_example = from_bytes-forged 7 3 cat (omega arith) (omega arith) (omega arith)

-- One live filter, behind the handle 0.
abbrev memory : Memory
memory = record { next = 1; filters = update (λ q. none) 0 (some small); buffers = λ q. none }

memory-Tidy : Tidy memory
memory-Tidy = record { free_filters = λ q h. ground arith; free_buffers = λ q h. refl }

cbloom_contains-cbloom_add_example :
    (mem' : Memory) × (b' : Bloom) × (cbloom_add (address 0) (some cat) memory ≡ some (tt, mem'))
    × (cbloom_contains (address 0) (some cat) mem' ≡ some (true, mem'))
    × (cbloom_get_stats (address 0) mem'
        ≡ some (record { num_bits = 64; num_hashes = 2; approx_items = (1 + 1) % 2 ^ 64 }, mem'))
    × (mem'.filters 0 ≡ some b')
    × IsValid b'
    × ((q : ℕ) → 0 ≢ q → mem'.filters q ≡ memory.filters q)
cbloom_contains-cbloom_add_example =
    cbloom_contains-cbloom_add memory 0 small cat refl small-IsValid

cbloom_deserialize-cbloom_serialize_example :
    (buf : CBloomBuffer) × (r : ℕ) × (bytes : Bytes) × (q : ℕ) × (mem' : Memory) × (mem'' : Memory)
    × (cbloom_serialize (address 0) memory ≡ some (buf, mem'))
    × (buf.location ≡ address r)
    × (mem'.buffers r ≡ some bytes)
    × (buf.len ≡ length bytes)
    × (cbloom_deserialize (some bytes) mem' ≡ some (address q, mem''))
    × (memory.filters q ≡ none)
    × (mem''.filters q ≡ some small)
    × (mem''.filters 0 ≡ some small)
    × (mem''.buffers r ≡ some bytes)
    × ((freed : Memory) × (cbloom_buffer_free buf mem'' ≡ some (tt, freed)))
cbloom_deserialize-cbloom_serialize_example =
    cbloom_deserialize-cbloom_serialize memory 0 small memory-Tidy refl small-Fits

abbrev emptied : Memory
emptied = record memory { filters = update memory.filters 0 none }

frees : cbloom_free (address 0) memory ≡ some (tt, emptied)
unfolding cbloom_free
frees = refl

execute-Contract_example :
    (mem' : Memory) × (execute whole_numbers
        (Call.add_str (address 0) (some (0x63 ∷ 0 ∷ [])))
        memory
      ≡ some mem')
    × Tidy mem'
execute-Contract_example =
    execute-Contract whole_numbers (Call.add_str (address 0) (some (0x63 ∷ 0 ∷ []))) memory
      ((small, refl), inr (inl refl)) memory-Tidy
