-- ===== src/Bloom/Ffi/Safe.antt =====
-- Calls that keep the contract of 09-unsafe-ffi/src/ffi.rs.
use rust_fundamentals.Base.{
  ℕ, ◌+◌, ◌≡◌, refl, ap, ◌∙◌, inl, inr, Option, none, some, [], ◌∷◌, length, ◌==◌, eq→==,
  Option-cases, Bool-cases, arith, ◌>>=◌, In,
}
use rust_fundamentals.Base.Bytes.{Bytes}
use rust_fundamentals.Bloom.Filter.{Bloom, Float, from_bytes}
use rust_fundamentals.Bloom.Filter
use rust_fundamentals.Bloom.Ffi.{
  Pointer, null, address, Memory, CBloomBuffer, update, leak, allocates, cbloom_new, cbloom_free,
  add_to, cbloom_add, cbloom_add_str, to_nul, contained_in, cbloom_contains, cbloom_contains_str,
  cbloom_get_stats, cbloom_serialize, cbloom_buffer_free, cbloom_deserialize,
}
use rust_fundamentals.Bloom.Ffi.Calls.{Tidy, update_other}

pub data Call (fl : Float) : Type 0 where
  new_filter : ℕ → fl.F64 → Call fl
  free : Pointer → Call fl
  add : Pointer → Option Bytes → Call fl
  add_str : Pointer → Option Bytes → Call fl
  contains : Pointer → Option Bytes → Call fl
  contains_str : Pointer → Option Bytes → Call fl
  get_stats : Pointer → Call fl
  serialize : Pointer → Call fl
  buffer_free : CBloomBuffer → Call fl
  deserialize : Option Bytes → Call fl

abbrev forget : {A : Type 0} → Option (A × Memory) → Option Memory
forget none = none
forget (some (a, mem)) = some mem

-- The memory after a call.
unfoldable pub execute : (fl : Float) → Call fl → Memory → Option Memory
execute fl (new_filter n p) mem = forget (cbloom_new fl n p mem)
execute fl (free bf) mem = forget (cbloom_free bf mem)
execute fl (add bf item) mem = forget (cbloom_add bf item mem)
execute fl (add_str bf s) mem = forget (cbloom_add_str bf s mem)
execute fl (contains bf item) mem = forget (cbloom_contains bf item mem)
execute fl (contains_str bf s) mem = forget (cbloom_contains_str bf s mem)
execute fl (get_stats bf) mem = forget (cbloom_get_stats bf mem)
execute fl (serialize bf) mem = forget (cbloom_serialize bf mem)
execute fl (buffer_free buf) mem = forget (cbloom_buffer_free buf mem)
execute fl (deserialize bytes) mem = forget (cbloom_deserialize bytes mem)

-- A handle that is null or live.
abbrev pub Live : Pointer → Memory → Type 0
Live null mem = Unit {0}
Live (address p) mem = (b : Bloom) × (mem.filters p ≡ some b)

-- A string that is null or has its NUL.
abbrev pub Ended : Option Bytes → Type 0
Ended none = Unit {0}
Ended (some s) = In 0 s

abbrev pub Owned : CBloomBuffer → Pointer → Memory → Type 0
Owned buf null mem = Unit {0}
Owned buf (address p) mem =
    (bytes : Bytes) × (mem.buffers p ≡ some bytes) × (length bytes ≡ buf.len)

-- What the header asks of a caller.
abbrev pub Contract : (fl : Float) → Call fl → Memory → Type 0
Contract fl (new_filter n p) mem = Unit {0}
Contract fl (free bf) mem = Live bf mem
Contract fl (add bf item) mem = Live bf mem
Contract fl (add_str bf s) mem = Live bf mem × Ended s
Contract fl (contains bf item) mem = Live bf mem
Contract fl (contains_str bf s) mem = Live bf mem × Ended s
Contract fl (get_stats bf) mem = Live bf mem
Contract fl (serialize bf) mem = Live bf mem
Contract fl (buffer_free buf) mem = Owned buf buf.location mem
Contract fl (deserialize bytes) mem = Unit {0}

-- A call comes to an end, in a tidy memory.
abbrev pub Ends : Option Memory → Type 0
Ends r = (mem : Memory) × (r ≡ some mem) × Tidy mem

to_nul-Ended : (s : Bytes) → In 0 s → (cs : Bytes) × (to_nul s ≡ some cs)
unfolding to_nul
to_nul-Ended [] h = elim h [ ]
to_nul-Ended (c ∷ rest) (inl e) = ([], rw (← e))
to_nul-Ended (c ∷ rest) (inr later) =
    let (cs, ih) = to_nul-Ended rest later in
    elim (Bool-cases (c == 0)) [
      | inl nul ↦ ([], rw nul)
      | inr other ↦ (c ∷ cs, rw (other, ih, ◌>>=◌))
    ]

filters-Tidy :
    (mem : Memory) (p : ℕ) (b : Bloom) (v : Option Bloom)
    → Tidy mem
    → mem.filters p ≡ some b
    → Tidy (record mem { filters = update mem.filters p v })
filters-Tidy mem p b v t live = record {
  free_filters = λ q h.
      update_other mem.filters p v q (λ e. cc (t.free_filters q h, ap mem.filters e))
      ∙ t.free_filters q h;
  free_buffers = t.free_buffers;
}

leak-Ends : (mem : Memory) (b : Bloom) → Tidy mem → Ends (forget (leak b mem))
unfolding leak
leak-Ends mem b t = (
  record mem { next = mem.next + 1; filters = update mem.filters mem.next (some b) },
  refl,
  record {
    free_filters = λ q h.
        update_other mem.filters mem.next (some b) q (λ e. omega (arith, e, h))
        ∙ t.free_filters q (omega arith);
    free_buffers = λ q h. t.free_buffers q (omega arith);
  },
)

add_to-Ends :
    (bf : Pointer) (item : Bytes) (mem : Memory)
    → Live bf mem
    → Tidy mem
    → Ends (forget (add_to bf item mem))
unfolding add_to
add_to-Ends null item mem l t = (mem, refl, t)
add_to-Ends (address p) item mem (b, e) t = (
  record mem { filters = update mem.filters p (some (Filter.add item b).0) },
  rw (e, ◌>>=◌),
  filters-Tidy mem p b (some (Filter.add item b).0) t e,
)

contained_in-Ends :
    (bf : Pointer) (item : Bytes) (mem : Memory)
    → Live bf mem
    → Tidy mem
    → Ends (forget (contained_in bf item mem))
unfolding contained_in
contained_in-Ends null item mem l t = (mem, refl, t)
contained_in-Ends (address p) item mem (b, e) t = (mem, rw (e, ◌>>=◌), t)

new-Ends :
    (fl : Float) (n : ℕ) (p : fl.F64) (mem : Memory)
    → Tidy mem
    → Ends (forget (cbloom_new fl n p mem))
unfolding cbloom_new
new-Ends fl n p mem t =
    let b = Filter.new fl n p in
    elim (Bool-cases (allocates b)) [
      | inl room ↦ rw room (leak-Ends mem b t)
      | inr full ↦ rw full (mem, refl, t)
    ]

deserialize-Ends :
    (bytes : Bytes) (mem : Memory) → Tidy mem → Ends (forget (cbloom_deserialize (some bytes) mem))
unfolding cbloom_deserialize
deserialize-Ends bytes mem t = elim (Option-cases (from_bytes bytes)) [
  | inl bad ↦ rw (bad, cbloom_deserialize) (mem, refl, t)
  | inr (b, good) ↦ rw (good, cbloom_deserialize) (leak-Ends mem b t)
]

serialize-Ends :
    (p : ℕ) (b : Bloom) (mem : Memory)
    → mem.filters p ≡ some b
    → Tidy mem
    → Ends (forget (cbloom_serialize (address p) mem))
unfolding cbloom_serialize
serialize-Ends p b mem e t = (
  record mem {
    next = mem.next + 1;
    buffers = update mem.buffers mem.next (some (Filter.to_bytes b));
  },
  rw (e, ◌>>=◌),
  record {
    free_filters = λ q h. t.free_filters q (omega arith);
    free_buffers = λ q h.
        update_other mem.buffers mem.next (some (Filter.to_bytes b)) q (λ x. omega (arith, x, h))
        ∙ t.free_buffers q (omega arith);
  },
)

buffer_free-Ends :
    (location : Pointer) (len : ℕ) (mem : Memory)
    → Owned (record { location = location; len = len }) location mem
    → Tidy mem
    → Ends (forget (cbloom_buffer_free (record { location = location; len = len }) mem))
unfolding cbloom_buffer_free
buffer_free-Ends null len mem o t = (mem, refl, t)
buffer_free-Ends (address p) len mem (bytes, e, l) t = (
  record mem { buffers = update mem.buffers p none },
  rw (e, ◌>>=◌) (rw (eq→== (length bytes) len l)),
  record {
    free_filters = t.free_filters;
    free_buffers = λ q h.
        update_other mem.buffers p none q (λ x. cc (t.free_buffers q h, ap mem.buffers x))
        ∙ t.free_buffers q h;
  },
)

-- Every call that keeps the contract of the header (a handle is null or live, a string has its NUL,
-- a buffer is null or one that `cbloom_serialize` made, with its length) comes back, with no
-- undefined behaviour and whatever panics inside, and leaves a memory in which nothing lives at the
-- addresses that are yet to be handed out.
pub execute-Contract :
    (fl : Float) (call : Call fl) (mem : Memory)
    → Contract fl call mem
    → Tidy mem
    → (mem' : Memory) × (execute fl call mem ≡ some mem') × Tidy mem'
unfolding execute cbloom_free cbloom_add cbloom_add_str cbloom_contains cbloom_contains_str
    cbloom_get_stats cbloom_serialize cbloom_deserialize
execute-Contract fl (new_filter n p) mem c t = new-Ends fl n p mem t
execute-Contract fl (free null) mem c t = (mem, refl, t)
execute-Contract fl (free (address p)) mem (b, e) t = (
  record mem { filters = update mem.filters p none },
  rw (e, ◌>>=◌),
  filters-Tidy mem p b none t e,
)
execute-Contract fl (add bf none) mem c t = (mem, refl, t)
execute-Contract fl (add bf (some item)) mem c t = add_to-Ends bf item mem c t
execute-Contract fl (add_str bf none) mem c t = (mem, refl, t)
execute-Contract fl (add_str null (some s)) mem c t = (mem, refl, t)
execute-Contract fl (add_str (address p) (some s)) mem (c, ended) t =
    let (cs, e) = to_nul-Ended s ended in rw (e, ◌>>=◌) (add_to-Ends (address p) cs mem c t)
execute-Contract fl (contains bf none) mem c t = (mem, refl, t)
execute-Contract fl (contains bf (some item)) mem c t = contained_in-Ends bf item mem c t
execute-Contract fl (contains_str bf none) mem c t = (mem, refl, t)
execute-Contract fl (contains_str null (some s)) mem c t = (mem, refl, t)
execute-Contract fl (contains_str (address p) (some s)) mem (c, ended) t =
    let (cs, e) = to_nul-Ended s ended in rw (e, ◌>>=◌) (contained_in-Ends (address p) cs mem c t)
execute-Contract fl (get_stats null) mem c t = (mem, refl, t)
execute-Contract fl (get_stats (address p)) mem (b, e) t = (mem, rw (e, ◌>>=◌), t)
execute-Contract fl (serialize null) mem c t = (mem, refl, t)
execute-Contract fl (serialize (address p)) mem (b, e) t = serialize-Ends p b mem e t
execute-Contract fl (buffer_free buf) mem c t = buffer_free-Ends buf.location buf.len mem c t
execute-Contract fl (deserialize none) mem c t = (mem, refl, t)
execute-Contract fl (deserialize (some bytes)) mem c t = deserialize-Ends bytes mem t
