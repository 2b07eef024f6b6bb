-- ===== src/Bloom/Filter/Positions.antt =====
-- Single positions of the filter of 09-unsafe-ffi/src/bloom.rs.
use Prim.Native.Nat.{bit_or}
use rust_fundamentals.Base.{
  ℕ, ◌+◌, ◌*◌, ◌/◌, ◌%◌, ◌^◌, ◌<◌, ◌≡◌, refl, ap, ◌≢◌, ◌⊎◌, inl, inr, Bool, true, false, Option,
  some, List, length, get_elem?, set, ◌==◌, lt→ltb, ==→eq, ==→ne, ne→==, if◌then◌else◌, Bool-cases,
  arith, ◌>>=◌, length-set, get_elem?-inside, get_elem?-set_self, get_elem?-set_other,
}
use rust_fundamentals.Base.BitOr.{bit, bit_or_self, bit_or_other}
use rust_fundamentals.Bloom.Hash.{bit_index}
use rust_fundamentals.Bloom.Filter.{Bloom, set_bit, get_bit}

-- What every filter that the constructors make has.
pub record IsValid (b : Bloom) : Type 0 where
  pub aligned : b.num_bits ≡ length b.bits * 64
  pub nonempty : 0 < b.num_bits
  pub probed : 0 < b.num_hashes

-- Of a position inside the filter, the word it stands in.
word_inside :
    (b : Bloom) (index : ℕ)
    → IsValid b
    → index < b.num_bits
    → (w : ℕ) × (get_elem? b.bits (index / 64) ≡ some w)
word_inside b index v h = get_elem?-inside b.bits (index / 64) (omega (arith, v.aligned))

Bool-some : (t : Bool) → (some t ≡ some true) ⊎ (some t ≡ some false)
Bool-some true = inl refl
Bool-some false = inr refl

pub get_bit_cases :
    (b : Bloom) (index : ℕ)
    → IsValid b
    → index < b.num_bits
    → (get_bit index b ≡ some true) ⊎ (get_bit index b ≡ some false)
unfolding get_bit
get_bit_cases b index v h =
    let (w, e) = word_inside b index v h in rw (e, ◌>>=◌) (Bool-some (bit (index % 64) w == 1))

-- The filter behind a write.
abbrev pub written : ℕ → ℕ → Bloom → Bloom
written index w b = record b { bits = set b.bits (index / 64) (bit_or w (2 ^ (index % 64))) }

pub set_bit-written :
    (b : Bloom) (index : ℕ)
    → IsValid b
    → index < b.num_bits
    → (w : ℕ) × (get_elem? b.bits (index / 64) ≡ some w)
      × (set_bit index b ≡ (written index w b, true))
unfolding set_bit
set_bit-written b index v h = let (w, e) = word_inside b index v h in (w, e, rw (e, set_bit))

pub written-IsValid : (b : Bloom) (index w : ℕ) → IsValid b → IsValid (written index w b)
written-IsValid b index w v = record {
  aligned = omega (arith, v.aligned, length-set b.bits (index / 64) (bit_or w (2 ^ (index % 64))));
  nonempty = v.nonempty;
  probed = v.probed;
}

-- Reading a position behind a write of position `i`, with the words taken out.
abbrev read_at : ℕ → List ℕ → Option Bool
read_at j words = get_elem? words (j / 64) >>= λ word. some (bit (j % 64) word == 1)

read_same_word :
    (ws : List ℕ) (i j w : ℕ)
    → i / 64 < length ws
    → get_elem? ws (i / 64) ≡ some w
    → i / 64 ≡ j / 64
    → read_at j (set ws (i / 64) (bit_or w (2 ^ (i % 64))))
      ≡ (if i == j then some true else read_at j ws)
read_same_word ws i j w lt e same = elim (Bool-cases (i == j)) [
  | inl eq ↦
      rw (eq, ← ==→eq i j eq, get_elem?-set_self ws (i / 64) (bit_or w (2 ^ (i % 64))) lt, ◌>>=◌)
        (ap (λ (t : ℕ). some (t == 1)) (bit_or_self (i % 64) w))
  | inr ne ↦
      rw (ne, ← same, get_elem?-set_self ws (i / 64) (bit_or w (2 ^ (i % 64))) lt, e, ◌>>=◌)
        (ap (λ (t : ℕ). some (t == 1))
          (bit_or_other (i % 64) (j % 64) w (λ x. ==→ne i j ne (omega (arith, x, same)))))
]

read_other_word :
    (ws : List ℕ) (i j v : ℕ)
    → i / 64 ≢ j / 64
    → read_at j (set ws (i / 64) v) ≡ (if i == j then some true else read_at j ws)
read_other_word ws i j v other = rw (ne→== i j (λ x. other (ap (λ (t : ℕ). t / 64) x))) (
    ap (λ o. o >>= λ word. some (bit (j % 64) word == 1))
      (get_elem?-set_other ws (i / 64) (j / 64) v other))

pub get_bit-written :
    (b : Bloom) (i j w : ℕ)
    → IsValid b
    → i < b.num_bits
    → get_elem? b.bits (i / 64) ≡ some w
    → get_bit j (written i w b) ≡ (if i == j then some true else get_bit j b)
unfolding get_bit
get_bit-written b i j w v h e = elim (Bool-cases (i / 64 == j / 64)) [
  | inl same ↦
      read_same_word b.bits i j w (omega (arith, v.aligned)) e (==→eq (i / 64) (j / 64) same)
  | inr other ↦ read_other_word b.bits i j (bit_or w (2 ^ (i % 64))) (==→ne (i / 64) (j / 64) other)
]

-- The position of a probe, in a filter with a bit at least.
abbrev pub probe : ℕ → ℕ → ℕ → ℕ → ℕ
probe h1 h2 i m = (h1 + i * h2 % 2 ^ 64) % 2 ^ 64 % m

pub bit_index-probe :
    (h1 h2 i m : ℕ) → 0 < m → (bit_index h1 h2 i m ≡ some (probe h1 h2 i m)) × (probe h1 h2 i m < m)
unfolding bit_index
bit_index-probe h1 h2 i m h = (rw (lt→ltb 0 m h), grind arith)
