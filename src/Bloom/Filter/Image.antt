-- ===== src/Bloom/Filter/Image.antt =====
-- `to_bytes` and `from_bytes`, 09-unsafe-ffi/src/bloom.rs.
use rust_fundamentals.Base.{
  ℕ, zero, suc, ◌+◌, ◌*◌, ◌/◌, ◌^◌, ◌<◌, ◌≡◌, refl, ap, subst, ◌≤◌, true, false, none, some, List,
  [], ◌∷◌, ◌++◌, length, length-append, take, drop, take-append, drop-append, get_elem?, le→leb,
  ==_refl, eq→==, arith, ◌>>=◌, All,
}
use rust_fundamentals.Base.Bytes.{
  Bytes, to_le_bytes, get_range, At-start, At-skip, get_range-At, drop-At, length-to_le_bytes,
  from_le_bytes-to_le_bytes,
}
use rust_fundamentals.Bloom.Hash.{bit_index}
use rust_fundamentals.Bloom.Filter.{
  Bloom, magic, version, words_to_bytes, to_bytes, read_words, same_bytes, from_bytes, contains,
  add, probe_loop, add_loop,
}

-- What the Rust types hold, and as many words as the number of bits says.
pub record Fits (b : Bloom) : Type 0 where
  pub hashes_fit : b.num_hashes < 2 ^ 32
  pub inserted_fit : b.inserted < 2 ^ 64
  pub bits_fit : b.num_bits < 2 ^ 64
  pub words_fit : All (λ w. w < 2 ^ 64) b.bits
  pub words_match : length b.bits ≡ b.num_bits / 64

length-words_to_bytes : (ws : List ℕ) → length (words_to_bytes ws) ≡ length ws * 8
unfolding words_to_bytes
length-words_to_bytes [] = refl
length-words_to_bytes (w ∷ ws) = omega (
  arith,
  length-append (to_le_bytes 8 w) (words_to_bytes ws),
  length-to_le_bytes 8 w,
  length-words_to_bytes ws,
)

read_words-words_to_bytes :
    (ws : List ℕ) → All (λ w. w < 2 ^ 64) ws → read_words (length ws) (words_to_bytes ws) ≡ ws
unfolding read_words words_to_bytes
read_words-words_to_bytes [] fit = refl
read_words-words_to_bytes (w ∷ ws) (fit, fits) =
    let word = to_le_bytes 8 w in
    let rest = words_to_bytes ws in
    let len = length-to_le_bytes 8 w in
    let front : take 8 (word ++ rest) ≡ word =
      subst (λ n. take n (word ++ rest) ≡ word) len (take-append word rest) in
    let back : drop 8 (word ++ rest) ≡ rest =
      subst (λ n. drop n (word ++ rest) ≡ rest) len (drop-append word rest) in
    rw (front, back, from_le_bytes-to_le_bytes 8 w fit)
      (ap (λ t. w ∷ t) (read_words-words_to_bytes ws fits))

-- The fields of the image, read one by one.
record Reads (buf : Bytes) (b : Bloom) : Type 0 where
  pub long : 25 ≤ length buf
  pub magic_read : take 4 buf ≡ magic
  pub version_read : get_elem? buf 4 ≡ some version
  pub hashes_read : get_range buf 5 9 ≡ some (to_le_bytes 4 b.num_hashes)
  pub inserted_read : get_range buf 9 17 ≡ some (to_le_bytes 8 b.inserted)
  pub bits_read : get_range buf 17 25 ≡ some (to_le_bytes 8 b.num_bits)
  pub tail_read : drop 25 buf ≡ words_to_bytes b.bits
  pub whole : length buf ≡ 25 + length b.bits * 8

Reads-to_bytes : (b : Bloom) → Reads (to_bytes b) b
unfolding to_bytes
Reads-to_bytes b =
    let k = to_le_bytes 4 b.num_hashes in
    let n = to_le_bytes 8 b.inserted in
    let m = to_le_bytes 8 b.num_bits in
    let ws = words_to_bytes b.bits in
    let lk = length-to_le_bytes 4 b.num_hashes in
    let ln = length-to_le_bytes 8 b.inserted in
    let lm = length-to_le_bytes 8 b.num_bits in
    let a0 = At-start (to_bytes b) in
    let a1 =
      At-skip (0x43 ∷ 0x42 ∷ 0x4c ∷ 0x4d ∷ version ∷ []) (k ++ (n ++ (m ++ ws))) {w = 5} a0 refl in
    let a2 = At-skip k (n ++ (m ++ ws)) a1 lk in
    let a3 = At-skip n (m ++ ws) a2 ln in
    let a4 = At-skip m ws a3 lm in
    record {
      long = omega (
        arith,
        length-append k (n ++ (m ++ ws)),
        length-append n (m ++ ws),
        length-append m ws,
        lk,
        ln,
        lm,
      );
      magic_read = refl;
      version_read = refl;
      hashes_read = get_range-At k (n ++ (m ++ ws)) a1 lk;
      inserted_read = get_range-At n (m ++ ws) a2 ln;
      bits_read = get_range-At m ws a3 lm;
      tail_read = drop-At ws a4;
      whole = omega (
        arith,
        length-append k (n ++ (m ++ ws)),
        length-append n (m ++ ws),
        length-append m ws,
        lk,
        ln,
        lm,
        length-words_to_bytes b.bits,
      );
    }

same_bytes_refl : (xs : Bytes) → same_bytes xs xs ≡ true
unfolding same_bytes
same_bytes_refl [] = refl
same_bytes_refl (x ∷ xs) = rw (==_refl x) (same_bytes_refl xs)

from_bytes-Reads : (buf : Bytes) (b : Bloom) → Fits b → Reads buf b → from_bytes buf ≡ some b
unfolding from_bytes
from_bytes-Reads buf b f r =
    let m = from_le_bytes-to_le_bytes 8 b.num_bits f.bits_fit in
    let whole : length buf ≡ 25 + b.num_bits / 64 * 8 = omega (arith, r.whole, f.words_match) in
    let count : length (words_to_bytes b.bits) / 8 ≡ length b.bits =
      omega (arith, length-words_to_bytes b.bits) in
    let words : read_words (length (drop 25 buf) / 8) (drop 25 buf) ≡ b.bits =
      rw (r.tail_read, count) (read_words-words_to_bytes b.bits f.words_fit) in
    rw
      (
        le→leb 25 (length buf) r.long,
        r.version_read,
        r.magic_read,
        same_bytes_refl magic,
        r.hashes_read,
        r.inserted_read,
        r.bits_read,
        ◌>>=◌,
      )
      (rw (m, eq→== (length buf) (25 + b.num_bits / 64 * 8) whole, ◌>>=◌)
        (cc (
          words,
          from_le_bytes-to_le_bytes 4 b.num_hashes f.hashes_fit,
          from_le_bytes-to_le_bytes 8 b.inserted f.inserted_fit,
        )))

-- A filter whose fields fit their types, with a word for each 64 bits, is read back from its bytes
-- as it was.
pub from_bytes-to_bytes : (b : Bloom) → Fits b → from_bytes (to_bytes b) ≡ some b
from_bytes-to_bytes b f = from_bytes-Reads (to_bytes b) b f (Reads-to_bytes b)

-- A header that claims no bits.
abbrev pub forged : ℕ → ℕ → Bloom
forged num_hashes inserted = record {
  bits = [];
  num_bits = 0;
  num_hashes = num_hashes;
  inserted = inserted;
}

-- `from_bytes` accepts a header that claims no bits, with any count of probes and of items, and
-- with a probe at least every query of the filter panics, and every addition too, before it
-- changes anything.
pub from_bytes-forged :
    (num_hashes inserted : ℕ) (item : Bytes)
    → 0 < num_hashes
    → num_hashes < 2 ^ 32
    → inserted < 2 ^ 64
    → (from_bytes (to_bytes (forged num_hashes inserted)) ≡ some (forged num_hashes inserted))
      × (contains item (forged num_hashes inserted) ≡ none)
      × (add item (forged num_hashes inserted) ≡ (forged num_hashes inserted, false))
unfolding contains add probe_loop add_loop bit_index
from_bytes-forged zero inserted item h p q = absurd (omega arith)
from_bytes-forged (suc k) inserted item h p q = (
  from_bytes-to_bytes (forged (suc k) inserted) (record {
    hashes_fit = p;
    inserted_fit = q;
    bits_fit = omega arith;
    words_fit = tt;
    words_match = refl;
  }),
  refl,
  refl,
)
