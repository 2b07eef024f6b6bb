-- ===== src/Bloom/Filter/Member.antt =====
-- Adding and asking, 09-unsafe-ffi/src/bloom.rs, against the set of marked positions.
use rust_fundamentals.Base.{
  ℕ, zero, suc, ◌+◌, ◌%◌, ◌^◌, ◌≡◌, ◌↔◌, refl, sym, ap, ◌∙◌, inl, inr, Bool, true, false, ◌||◌,
  some, List, [], ◌∷◌, ◌==◌, ==_refl, ==→eq, if◌then◌else◌, Bool-cases, arith, In,
}
use rust_fundamentals.Base.Bytes.{Bytes}
use rust_fundamentals.Bloom.Hash.{hash_pair}
use rust_fundamentals.Bloom.Filter.{Bloom, get_bit, add_loop, count_add, add, probe_loop, contains}
use rust_fundamentals.Bloom.Filter.Positions.{
  IsValid, get_bit_cases, written, set_bit-written, written-IsValid, get_bit-written, probe,
  bit_index-probe,
}

-- Position `j` is one of the `left` probes from the `i`-th on.
unfoldable pub marks : ℕ → ℕ → ℕ → ℕ → ℕ → ℕ → Bool
marks zero h1 h2 i m j = false
marks (suc left) h1 h2 i m j = (probe h1 h2 i m == j) || marks left h1 h2 (i + 1) m j

-- Position `j` is one of the probes of an item, in a filter of `m` bits and `k` probes.
unfoldable pub marks_item : Bytes → ℕ → ℕ → ℕ → Bool
marks_item item k m j = marks k (hash_pair item).0 (hash_pair item).1 0 m j

-- What a loop of probes leaves.
record Marked (marked : ℕ → Bool) (b : Bloom) (r : Bloom × Bool) : Type 0 where
  pub fine : r.1 ≡ true
  pub valid : IsValid r.0
  pub same_bits : r.0.num_bits ≡ b.num_bits
  pub same_hashes : r.0.num_hashes ≡ b.num_hashes
  pub same_inserted : r.0.inserted ≡ b.inserted
  pub view : (j : ℕ) → get_bit j r.0 ≡ (if marked j then some true else get_bit j b)

Marked-written :
    (b : Bloom) (first : ℕ) (rest : ℕ → Bool) (b' : Bloom) (r : Bloom × Bool)
    → b'.num_bits ≡ b.num_bits
    → b'.num_hashes ≡ b.num_hashes
    → b'.inserted ≡ b.inserted
    → ((j : ℕ) → get_bit j b' ≡ (if first == j then some true else get_bit j b))
    → Marked rest b' r
    → Marked (λ j. (first == j) || rest j) b r
Marked-written b first rest b' r e1 e2 e3 v m = record {
  fine = m.fine;
  valid = m.valid;
  same_bits = m.same_bits ∙ e1;
  same_hashes = m.same_hashes ∙ e2;
  same_inserted = m.same_inserted ∙ e3;
  view = λ j. ground (arith, m.view j, v j);
}

add_loop-Marked :
    (left h1 h2 i : ℕ) (b : Bloom)
    → IsValid b
    → Marked (marks left h1 h2 i b.num_bits) b (add_loop left h1 h2 i b)
unfolding add_loop marks
add_loop-Marked zero h1 h2 i b v = record {
  fine = refl;
  valid = v;
  same_bits = refl;
  same_hashes = refl;
  same_inserted = refl;
  view = λ j. refl;
}
add_loop-Marked (suc left) h1 h2 i b v =
    let p = probe h1 h2 i b.num_bits in
    let (indexed, inside) = bit_index-probe h1 h2 i b.num_bits v.nonempty in
    let (w, e, wrote) = set_bit-written b p v inside in
    rw (indexed, add_loop)
      (rw (wrote, add_loop)
        (rw wrote (
          Marked-written b p (marks left h1 h2 (i + 1) b.num_bits) (written p w b)
            (add_loop left h1 h2 (i + 1) (written p w b)) refl refl refl
            (λ j. get_bit-written b p j w v inside e)
            (add_loop-Marked left h1 h2 (i + 1) (written p w b) (written-IsValid b p w v)))))

-- Every probe from the `i`-th on finds its position set.
abbrev AllSet : ℕ → ℕ → ℕ → ℕ → Bloom → Type 0
AllSet left h1 h2 i b = (j : ℕ) → marks left h1 h2 i b.num_bits j ≡ true → get_bit j b ≡ some true

probe_loop-AllSet :
    (left h1 h2 i : ℕ) (b : Bloom)
    → IsValid b
    → AllSet left h1 h2 i b
    → probe_loop left h1 h2 i b ≡ some true
unfolding probe_loop marks
probe_loop-AllSet zero h1 h2 i b v h = refl
probe_loop-AllSet (suc left) h1 h2 i b v h =
    let p = probe h1 h2 i b.num_bits in
    let (indexed, inside) = bit_index-probe h1 h2 i b.num_bits v.nonempty in
    let set : get_bit p b ≡ some true = h p (rw ==_refl refl) in
    rw (indexed, probe_loop)
      (rw (set, probe_loop) (probe_loop-AllSet left h1 h2 (i + 1) b v (λ j t. h j (ground arith))))

AllSet-probe_loop :
    (left h1 h2 i : ℕ) (b : Bloom)
    → IsValid b
    → probe_loop left h1 h2 i b ≡ some true
    → AllSet left h1 h2 i b
unfolding probe_loop marks
AllSet-probe_loop zero h1 h2 i b v h j t = cc
AllSet-probe_loop (suc left) h1 h2 i b v h j t =
    let p = probe h1 h2 i b.num_bits in
    let (indexed, inside) = bit_index-probe h1 h2 i b.num_bits v.nonempty in
    let h' = rw (indexed, probe_loop) at h in
    elim (get_bit_cases b p v inside) [
      | inl set ↦ elim (Bool-cases (p == j)) [
        | inl here ↦ rw (← ==→eq p j here) set
        | inr there ↦
            AllSet-probe_loop left h1 h2 (i + 1) b v (rw (set, probe_loop) at h') j (rw there at t)
      ]
      | inr clear ↦ absurd (cc (rw (clear, probe_loop) at h'))
    ]

-- A query never panics.
probe_loop_total :
    (left h1 h2 i : ℕ) (b : Bloom)
    → IsValid b
    → (answer : Bool) × (probe_loop left h1 h2 i b ≡ some answer)
unfolding probe_loop
probe_loop_total zero h1 h2 i b v = (true, refl)
probe_loop_total (suc left) h1 h2 i b v =
    let p = probe h1 h2 i b.num_bits in
    let (indexed, inside) = bit_index-probe h1 h2 i b.num_bits v.nonempty in
    rw (indexed, probe_loop)
      (elim (get_bit_cases b p v inside) [
        | inl set ↦ rw (set, probe_loop) (probe_loop_total left h1 h2 (i + 1) b v)
        | inr clear ↦ (false, rw (clear, probe_loop))
      ])

pub record Counted (item : Bytes) (b : Bloom) (r : Bloom × Bool) : Type 0 where
  pub fine : r.1 ≡ true
  pub valid : IsValid r.0
  pub same_bits : r.0.num_bits ≡ b.num_bits
  pub same_hashes : r.0.num_hashes ≡ b.num_hashes
  pub inserted : r.0.inserted ≡ (b.inserted + 1) % 2 ^ 64
  pub view :
      (j : ℕ)
      → get_bit j r.0
        ≡ (if marks_item item b.num_hashes b.num_bits j then some true else get_bit j b)

count_add-Counted :
    (item : Bytes) (b : Bloom) (r : Bloom × Bool)
    → Marked (marks_item item b.num_hashes b.num_bits) b r
    → Counted item b (count_add r)
unfolding get_bit
count_add-Counted item b (b', true) m = record {
  fine = refl;
  valid = record {
    aligned = m.valid.aligned;
    nonempty = m.valid.nonempty;
    probed = m.valid.probed;
  };
  same_bits = m.same_bits;
  same_hashes = m.same_hashes;
  inserted = ap (λ (t : ℕ). (t + 1) % 2 ^ 64) m.same_inserted;
  view = m.view;
}
count_add-Counted item b (b', false) m = absurd (cc m.fine)

pub add-Counted : (item : Bytes) (b : Bloom) → IsValid b → Counted item b (add item b)
unfolding add marks_item
add-Counted item b v =
    let (h1, h2) = hash_pair item in
    count_add-Counted item b (add_loop b.num_hashes h1 h2 0 b)
      (add_loop-Marked b.num_hashes h1 h2 0 b v)

-- Items added one behind another.
abbrev pub add_all : List Bytes → Bloom → Bloom
add_all [] b = b
add_all (item ∷ items) b = add_all items (add item b).0

-- Position `j` is a probe of one of the items.
abbrev pub marks_any : List Bytes → ℕ → ℕ → ℕ → Bool
marks_any [] k m j = false
marks_any (item ∷ items) k m j = marks_item item k m j || marks_any items k m j

pub record Grown (items : List Bytes) (b r : Bloom) : Type 0 where
  pub valid : IsValid r
  pub same_bits : r.num_bits ≡ b.num_bits
  pub same_hashes : r.num_hashes ≡ b.num_hashes
  pub view :
      (j : ℕ)
      → get_bit j r ≡ (if marks_any items b.num_hashes b.num_bits j then some true else get_bit j b)

pub add_all-Grown : (items : List Bytes) (b : Bloom) → IsValid b → Grown items b (add_all items b)
add_all-Grown [] b v = record { valid = v; same_bits = refl; same_hashes = refl; view = λ j. refl }
add_all-Grown (item ∷ items) b v =
    let c = add-Counted item b v in
    let g = add_all-Grown items (add item b).0 c.valid in
    record {
      valid = g.valid;
      same_bits = g.same_bits ∙ c.same_bits;
      same_hashes = g.same_hashes ∙ c.same_hashes;
      view = λ j. ground (
        arith,
        g.view j,
        c.view j,
        ap (λ (k : ℕ). marks_any items k (add item b).0.num_bits j) c.same_hashes,
        ap (λ (m : ℕ). marks_any items b.num_hashes m j) c.same_bits,
      );
    }

marks_any-In :
    (x : Bytes) (items : List Bytes) (k m j : ℕ)
    → In x items
    → marks_item x k m j ≡ true
    → marks_any items k m j ≡ true
marks_any-In x [] k m j added h = elim added [ ]
marks_any-In x (item ∷ items) k m j (inl e) h = rw (ap (λ t. marks_item t k m j) (sym e) ∙ h)
marks_any-In x (item ∷ items) k m j (inr later) h =
    let ih = marks_any-In x items k m j later h in ground (arith, ih)

-- What the query answers: `true` exactly where all probes of the item are set.
pub contains-marks :
    (item : Bytes) (b : Bloom)
    → IsValid b
    → (contains item b ≡ some true)
      ↔ ((j : ℕ) → marks_item item b.num_hashes b.num_bits j ≡ true → get_bit j b ≡ some true)
unfolding contains marks_item
contains-marks item b v =
    let (h1, h2) = hash_pair item in
    (AllSet-probe_loop b.num_hashes h1 h2 0 b v, probe_loop-AllSet b.num_hashes h1 h2 0 b v)

-- No false negatives: in a valid filter every item that has been added is found, whatever was
-- added before and afterwards.
pub contains-add_all :
    (b : Bloom) (items : List Bytes) (x : Bytes)
    → IsValid b
    → In x items
    → contains x (add_all items b) ≡ some true
contains-add_all b items x v added =
    let g = add_all-Grown items b v in
    (contains-marks x (add_all items b) g.valid).1 (λ j t.
      g.view j
      ∙ rw
          (marks_any-In x items b.num_hashes b.num_bits j added
            (rw (g.same_hashes, g.same_bits) at t))
          refl)

pub contains_total :
    (item : Bytes) (b : Bloom) → IsValid b → (answer : Bool) × (contains item b ≡ some answer)
unfolding contains
contains_total item b v = let (h1, h2) = hash_pair item in probe_loop_total b.num_hashes h1 h2 0 b v
