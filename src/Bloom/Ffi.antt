-- ===== src/Bloom/Ffi.antt =====
-- 09-unsafe-ffi/src/ffi.rs: the C interface over a memory of live filters and buffers. `none` is
-- undefined behaviour: a pointer that is not live, a string with no NUL. `catch_unwind` is the case
-- of a panic: what was written before it stays, and the neutral value comes back.
pub mod Calls
pub mod Safe
use rust_fundamentals.Base.{
  ℕ, ◌+◌, ◌*◌, ◌-◌, ◌^◌, Bool, true, false, Option, none, some, List, [], ◌∷◌, length, leb, ◌==◌,
  if◌then◌else◌, ◌>>=◌,
}
use rust_fundamentals.Base.Bytes.{Bytes}
use rust_fundamentals.Bloom.Filter.{Bloom, Float}
use rust_fundamentals.Bloom.Filter

-- `*mut Bloom`, `*const Bloom` and `*mut u8`
pub data Pointer : Type 0 where
  null : Pointer
  address : ℕ → Pointer

-- The leaked boxes: filters and byte buffers, at addresses below `next`.
pub record Memory : Type 0 where
  pub next : ℕ
  pub filters : ℕ → Option Bloom
  pub buffers : ℕ → Option Bytes

pub record CBloomStats : Type 0 where
  pub num_bits : ℕ
  pub num_hashes : ℕ
  pub approx_items : ℕ

pub record CBloomBuffer : Type 0 where
  pub location : Pointer
  pub len : ℕ

abbrev pub M : Type 0 → Type 0
M A = Memory → Option (A × Memory)

abbrev pub update : {A : Type 0} → (ℕ → Option A) → ℕ → Option A → ℕ → Option A
update f p v q = if p == q then v else f q

-- `Box::into_raw(Box::new(bloom))`
unfoldable pub leak : Bloom → M Pointer
leak b mem = some (
  address mem.next,
  record mem { next = mem.next + 1; filters = update mem.filters mem.next (some b) },
)

-- A vector of more than `isize::MAX` bytes panics.
abbrev pub allocates : Bloom → Bool
allocates b = leb (length b.bits * 8) (2 ^ 63 - 1)

unfoldable pub cbloom_new : (fl : Float) → ℕ → fl.F64 → M Pointer
cbloom_new fl expected_items fp_rate mem =
    let bloom = Filter.new fl expected_items fp_rate in
    if allocates bloom then leak bloom mem else some (null, mem)

unfoldable pub cbloom_free : Pointer → M (Unit {0})
cbloom_free null mem = some (tt, mem)
cbloom_free (address p) mem =
    mem.filters p >>= λ b. some (tt, record mem { filters = update mem.filters p none })

-- The addition through a handle; what a panic leaves is stored as well.
unfoldable pub add_to : Pointer → Bytes → M (Unit {0})
add_to null item mem = some (tt, mem)
add_to (address p) item mem = mem.filters p >>= λ b.
    some (tt, record mem { filters = update mem.filters p (some (Filter.add item b).0) })

-- The bytes at `data`, if it is not null, are an argument.
unfoldable pub cbloom_add : Pointer → Option Bytes → M (Unit {0})
cbloom_add bf none mem = some (tt, mem)
cbloom_add bf (some item) mem = add_to bf item mem

-- `CStr::from_ptr(s).to_bytes()`
unfoldable pub to_nul : Bytes → Option Bytes
to_nul [] = none
to_nul (c ∷ rest) =
    let more = to_nul rest in if c == 0 then some [] else more >>= λ cs. some (c ∷ cs)

-- A null handle is found before the string is read.
unfoldable pub cbloom_add_str : Pointer → Option Bytes → M (Unit {0})
cbloom_add_str bf none mem = some (tt, mem)
cbloom_add_str null (some s) mem = some (tt, mem)
cbloom_add_str (address p) (some s) mem = to_nul s >>= λ item. add_to (address p) item mem

-- `unwrap_or(false)` of a query.
abbrev pub or_false : Option Bool → Bool
or_false none = false
or_false (some answer) = answer

unfoldable pub contained_in : Pointer → Bytes → M Bool
contained_in null item mem = some (false, mem)
contained_in (address p) item mem =
    mem.filters p >>= λ b. some (or_false (Filter.contains item b), mem)

unfoldable pub cbloom_contains : Pointer → Option Bytes → M Bool
cbloom_contains bf none mem = some (false, mem)
cbloom_contains bf (some item) mem = contained_in bf item mem

unfoldable pub cbloom_contains_str : Pointer → Option Bytes → M Bool
cbloom_contains_str bf none mem = some (false, mem)
cbloom_contains_str null (some s) mem = some (false, mem)
cbloom_contains_str (address p) (some s) mem =
    to_nul s >>= λ item. contained_in (address p) item mem

unfoldable pub cbloom_get_stats : Pointer → M CBloomStats
cbloom_get_stats null mem = some (record { num_bits = 0; num_hashes = 0; approx_items = 0 }, mem)
cbloom_get_stats (address p) mem = mem.filters p >>= λ b.
    some
      (record { num_bits = b.num_bits; num_hashes = b.num_hashes; approx_items = b.inserted }, mem)

unfoldable pub cbloom_serialize : Pointer → M CBloomBuffer
cbloom_serialize null mem = some (record { location = null; len = 0 }, mem)
cbloom_serialize (address p) mem = mem.filters p >>= λ b.
    let bytes = Filter.to_bytes b in
    some (
      record { location = address mem.next; len = length bytes },
      record mem { next = mem.next + 1; buffers = update mem.buffers mem.next (some bytes) },
    )

-- A box of another length than was leaked is undefined behaviour.
unfoldable pub cbloom_buffer_free : CBloomBuffer → M (Unit {0})
cbloom_buffer_free buf mem = elim buf.location [
  | null ↦ some (tt, mem)
  | address p ↦ mem.buffers p >>= λ bytes.
      if length bytes == buf.len
      then some (tt, record mem { buffers = update mem.buffers p none })
      else none
]

unfoldable pub cbloom_deserialize : Option Bytes → M Pointer
cbloom_deserialize none mem = some (null, mem)
cbloom_deserialize (some bytes) mem = elim (Filter.from_bytes bytes) [
  | some bloom ↦ leak bloom mem
  | none ↦ some (null, mem)
]
