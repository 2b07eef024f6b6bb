-- ===== src/Bloom/Ffi/Calls.antt =====
-- What a C program sees of one filter, 09-unsafe-ffi/src/ffi.rs.
use rust_fundamentals.Base.{
  ℕ, ◌+◌, ◌≤◌, ◌%◌, ◌^◌, ◌≡◌, ◌≢◌, refl, sym, ap, ◌∙◌, inl, inr, true, Option, none, some, length,
  [], ◌∷◌, ==_refl, ne→==, Option-cases, arith, ◌>>=◌,
}
use rust_fundamentals.Base.Bytes.{Bytes}
use rust_fundamentals.Bloom.Filter.{Bloom, to_bytes, from_bytes, contains}
use rust_fundamentals.Bloom.Filter
use rust_fundamentals.Bloom.Filter.Positions.{IsValid}
use rust_fundamentals.Bloom.Filter.Member.{add-Counted, contains-add_all}
use rust_fundamentals.Bloom.Filter.Image.{Fits, from_bytes-to_bytes}
use rust_fundamentals.Bloom.Ffi.{
  address, Memory, CBloomBuffer, update, leak, cbloom_free, add_to, cbloom_add, contained_in,
  cbloom_contains, cbloom_get_stats, cbloom_serialize, cbloom_buffer_free, cbloom_deserialize,
}

-- Nothing lives at the addresses that are yet to be handed out.
pub record Tidy (mem : Memory) : Type 0 where
  pub free_filters : (q : ℕ) → mem.next ≤ q → mem.filters q ≡ none
  pub free_buffers : (q : ℕ) → mem.next ≤ q → mem.buffers q ≡ none

pub update_self : {A : Type 0} (f : ℕ → Option A) (p : ℕ) (v : Option A) → update f p v p ≡ v
update_self f p v = rw (==_refl p)

pub update_other :
    {A : Type 0} (f : ℕ → Option A) (p : ℕ) (v : Option A) (q : ℕ) → p ≢ q → update f p v q ≡ f q
update_other f p v q h = rw (ne→== p q h)

-- The memory after an addition.
abbrev pub added : ℕ → Bytes → Bloom → Memory → Memory
added p item b mem = record mem { filters = update mem.filters p (some (Filter.add item b).0) }

pub cbloom_add-added :
    (mem : Memory) (p : ℕ) (b : Bloom) (item : Bytes)
    → mem.filters p ≡ some b
    → cbloom_add (address p) (some item) mem ≡ some (tt, added p item b mem)
unfolding cbloom_add add_to
cbloom_add-added mem p b item e = rw (e, ◌>>=◌)

-- After an addition through the handle of a valid filter, a query through it answers `true`, the
-- statistics show the same parameters and one item more (in 64 bits), the filter is valid again,
-- and no other filter has changed.
pub cbloom_contains-cbloom_add :
    (mem : Memory) (p : ℕ) (b : Bloom) (item : Bytes)
    → mem.filters p ≡ some b
    → IsValid b
    → (mem' : Memory) × (b' : Bloom) × (cbloom_add (address p) (some item) mem ≡ some (tt, mem'))
      × (cbloom_contains (address p) (some item) mem' ≡ some (true, mem'))
      × (cbloom_get_stats (address p) mem'
          ≡ some (
            record {
              num_bits = b.num_bits;
              num_hashes = b.num_hashes;
              approx_items = (b.inserted + 1) % 2 ^ 64;
            },
            mem',
          ))
      × (mem'.filters p ≡ some b')
      × IsValid b'
      × ((q : ℕ) → p ≢ q → mem'.filters q ≡ mem.filters q)
unfolding cbloom_contains contained_in cbloom_get_stats
cbloom_contains-cbloom_add mem p b item e v =
    let c = add-Counted item b v in
    let b' = (Filter.add item b).0 in
    let here = update_self mem.filters p (some b') in
    (
      added p item b mem,
      b',
      cbloom_add-added mem p b item e,
      rw (here, ◌>>=◌) (rw (contains-add_all b (item ∷ []) item v (inl refl))),
      rw (here, ◌>>=◌) (cc (c.same_bits, c.same_hashes, c.inserted)),
      here,
      c.valid,
      update_other mem.filters p (some b'),
    )

-- Of a filter that fits, a buffer is made, and the bytes that are stored in it, of the length that
-- the caller is told, are read by `cbloom_deserialize` into a new handle, with the same filter behind
-- it; the first handle keeps its filter, the buffer its bytes, and the buffer can be freed.
pub cbloom_deserialize-cbloom_serialize :
    (mem : Memory) (p : ℕ) (b : Bloom)
    → Tidy mem
    → mem.filters p ≡ some b
    → Fits b
    → (buf : CBloomBuffer) × (r : ℕ) × (bytes : Bytes) × (q : ℕ) × (mem' : Memory)
      × (mem'' : Memory) × (cbloom_serialize (address p) mem ≡ some (buf, mem'))
      × (buf.location ≡ address r)
      × (mem'.buffers r ≡ some bytes)
      × (buf.len ≡ length bytes)
      × (cbloom_deserialize (some bytes) mem' ≡ some (address q, mem''))
      × (mem.filters q ≡ none)
      × (mem''.filters q ≡ some b)
      × (mem''.filters p ≡ some b)
      × (mem''.buffers r ≡ some bytes)
      × ((freed : Memory) × (cbloom_buffer_free buf mem'' ≡ some (tt, freed)))
unfolding cbloom_serialize cbloom_deserialize leak cbloom_buffer_free
cbloom_deserialize-cbloom_serialize mem p b t e f =
    let bytes = to_bytes b in
    let mem' : Memory = record mem {
      next = mem.next + 1;
      buffers = update mem.buffers mem.next (some bytes);
    } in
    let mem'' : Memory = record mem' {
      next = mem.next + 1 + 1;
      filters = update mem.filters (mem.next + 1) (some b);
    } in
    let empty = t.free_filters (mem.next + 1) (omega arith) in
    (
      record { location = address mem.next; len = length bytes },
      mem.next,
      bytes,
      mem.next + 1,
      mem',
      mem'',
      rw (e, ◌>>=◌),
      refl,
      update_self mem.buffers mem.next (some bytes),
      refl,
      rw (from_bytes-to_bytes b f, cbloom_deserialize),
      empty,
      update_self mem.filters (mem.next + 1) (some b),
      update_other mem.filters (mem.next + 1) (some b) p (λ x. cc (ap mem.filters x)) ∙ e,
      update_self mem.buffers mem.next (some bytes),
      (
        record mem'' { buffers = update mem'.buffers mem.next none },
        rw (update_self mem.buffers mem.next (some bytes), ◌>>=◌) (rw (==_refl (length bytes))),
      ),
    )

Memory-of_some :
    {m m' : Memory} → ◌≡◌ {A = Option (Unit {0} × Memory)} (some (tt, m)) (some (tt, m')) → m ≡ m'
Memory-of_some e = cc

cbloom_free-gone :
    (mem mem' : Memory) (p : ℕ)
    → cbloom_free (address p) mem ≡ some (tt, mem')
    → mem'.filters p ≡ none
unfolding cbloom_free
cbloom_free-gone mem mem' p h = elim (Option-cases (mem.filters p)) [
  | inl dead ↦ absurd (cc (rw (dead, ◌>>=◌) at h))
  | inr (b, live) ↦
      ap (λ (m : Memory). m.filters p) (sym (Memory-of_some (rw (live, ◌>>=◌) at h)))
      ∙ update_self mem.filters p none
]

-- Freeing a handle is undefined behaviour the second time, and so is every use of it afterwards,
-- whatever the call is given.
pub cbloom_free_twice :
    (mem mem' : Memory) (p : ℕ) (item : Bytes)
    → cbloom_free (address p) mem ≡ some (tt, mem')
    → (cbloom_free (address p) mem' ≡ none)
      × (cbloom_add (address p) (some item) mem' ≡ none)
      × (cbloom_contains (address p) (some item) mem' ≡ none)
      × (cbloom_get_stats (address p) mem' ≡ none)
      × (cbloom_serialize (address p) mem' ≡ none)
unfolding cbloom_free cbloom_add add_to cbloom_contains contained_in cbloom_get_stats
    cbloom_serialize
cbloom_free_twice mem mem' p item h =
    let gone = cbloom_free-gone mem mem' p h in
    (rw (gone, ◌>>=◌), rw (gone, ◌>>=◌), rw (gone, ◌>>=◌), rw (gone, ◌>>=◌), rw (gone, ◌>>=◌))
