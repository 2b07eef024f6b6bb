-- ===== src/Bloom/Filter/Fresh.antt =====
-- New filters, 09-unsafe-ffi/src/bloom.rs, and what a filter that grew from one answers.
use Prim.Native.Nat.{max}
use rust_fundamentals.Base.{
  ℕ, zero, suc, ◌*◌, ◌/◌, ◌%◌, ◌^◌, ◌≡◌, ◌↔◌, refl, sym, ap, ◌∙◌, Bool, true, false, some, Option,
  List, get_elem?, replicate, length-replicate, ◌≢◌, ◌==◌, ne→==, some_injective, if◌then◌else◌,
  arith, ◌>>=◌,
}
use rust_fundamentals.Base.Bytes.{Bytes}
use rust_fundamentals.Base.BitOr.{bit}
use rust_fundamentals.Base.Bits.{and_one}
use rust_fundamentals.Bloom.Filter.{Float, with_params, new, get_bit, contains, words_for}
use rust_fundamentals.Bloom.Filter.Positions.{IsValid}
use rust_fundamentals.Bloom.Filter.Member.{
  marks_item, marks_any, add_all, add_all-Grown, contains-marks, contains_total,
}

pub with_params-IsValid : (m k : ℕ) → IsValid (with_params m k)
unfolding with_params
with_params-IsValid m k = record {
  aligned = ap (λ (t : ℕ). t * 64) (sym (length-replicate (max (words_for m) 1) 0));
  nonempty = omega arith;
  probed = omega arith;
}

read_zero : (k : ℕ) → (bit k 0 == 1) ≡ false
read_zero k = rw (and_one (0 / 2 ^ k)) (ne→== (0 / 2 ^ k % 2) 1 (λ e. absurd (grind arith)))

read_zeros :
    (n i k : ℕ) → (get_elem? (replicate n 0) i >>= λ word. some (bit k word == 1)) ≢ some true
read_zeros zero i k h = cc
read_zeros (suc n) zero k h = cc (read_zero k)
read_zeros (suc n) (suc i) k h = read_zeros n i k h

-- A new filter has no position set.
get_bit-with_params : (m k j : ℕ) → get_bit j (with_params m k) ≢ some true
unfolding get_bit with_params
get_bit-with_params m k j h = read_zeros (max (words_for m) 1) (j / 64) (j % 64) h

view_marks :
    (mark : Bool) (o : Option Bool)
    → o ≢ some true
    → (if mark then some true else o) ≡ some true
    → mark ≡ true
view_marks true o n h = refl
view_marks false o n h = absurd (n h)

-- A filter made with any number of bits and probes answers after any items, without a panic, and
-- the answer is `true` exactly when each of the probes of the item asked for is a probe of one of
-- the items added.
pub contains-with_params :
    (m k : ℕ) (items : List Bytes) (x : Bytes)
    → (answer : Bool) × (contains x (add_all items (with_params m k)) ≡ some answer)
      × ((answer ≡ true) ↔ (
          (j : ℕ)
          → marks_item x (with_params m k).num_hashes (with_params m k).num_bits j ≡ true
          → marks_any items (with_params m k).num_hashes (with_params m k).num_bits j ≡ true))
contains-with_params m k items x =
    let b = with_params m k in
    let g = add_all-Grown items b (with_params-IsValid m k) in
    let (asked, answered) = contains-marks x (add_all items b) g.valid in
    let (answer, total) = contains_total x (add_all items b) g.valid in
    (
      answer,
      total,
      (
        λ said j t.
            view_marks (marks_any items b.num_hashes b.num_bits j) (get_bit j b)
              (get_bit-with_params m k j)
              (sym (g.view j) ∙ asked (total ∙ ap some said) j (rw (g.same_hashes, g.same_bits) t)),
        λ h. some_injective (
            sym total
            ∙ answered (λ j t. g.view j ∙ rw (h j (rw (g.same_hashes, g.same_bits) at t)) refl)),
      ),
    )

-- Whatever the floating-point sizing computes, the filter is one of those above: it has a probe and
-- a positive number of bits that is a multiple of 64 and the length of its words.
pub new-IsValid : (fl : Float) (n : ℕ) (p : fl.F64) → IsValid (new fl n p)
unfolding new
new-IsValid fl n p = with_params-IsValid _ _
