-- ===== src/Brc/Parse.antt =====
-- 08-performance/src/parse.rs: a line's station and temperature. `none` is a panic; the digits are
-- bytes whose subtraction wraps, as in a release build.
pub mod RoundTrip
use rust_fundamentals.Base.{
  ℕ, suc, ◌+◌, ◌*◌, ◌%◌, ◌≡◌, Bool, true, false, Option, none, some, List, [], ◌∷◌, take, drop,
  ◌==◌, if◌then◌else◌, ◌>>=◌,
}
use rust_fundamentals.Base.Bytes.{Bytes}
use rust_fundamentals.Base.Decimal.{ℤ, pos, negated}

-- The index of the first byte that is `c`, and those of all of them, from the offset `at` on.
unfoldable pub first_index : ℕ → Bytes → Option ℕ
first_index c [] = none
first_index c (x ∷ xs) =
    let later = first_index c xs in if x == c then some 0 else later >>= λ i. some (suc i)

unfoldable pub all_indices : ℕ → ℕ → Bytes → List ℕ
all_indices c at [] = []
all_indices c at (x ∷ xs) =
    let later = all_indices c (at + 1) xs in if x == c then at ∷ later else later

-- The crate `memchr`, as documented.
pub record Memchr : Type 0 where
  pub memchr : ℕ → Bytes → Option ℕ
  pub memchr_iter : ℕ → Bytes → List ℕ
  pub memchr_first : (c : ℕ) (hay : Bytes) → memchr c hay ≡ first_index c hay
  pub memchr_all : (c : ℕ) (hay : Bytes) → memchr_iter c hay ≡ all_indices c 0 hay

unfoldable pub split_line : Memchr → Bytes → Option (Bytes × Bytes)
split_line mc line = mc.memchr b';' line >>= λ i. some (take i line, drop (i + 1) line)

-- `(d - b'0') as i32`
abbrev pub digit : ℕ → ℕ
digit d = (d + 208) % 256

-- The second match of `parse_temp`.
unfoldable pub tenths : Bytes → Option ℕ
tenths (d1 ∷ point ∷ d2 ∷ []) = if point == b'.' then some (digit d1 * 10 + digit d2) else none
tenths (d1 ∷ d2 ∷ point ∷ d3 ∷ []) =
    if point == b'.' then some (digit d1 * 100 + digit d2 * 10 + digit d3) else none
tenths other = none

-- The first match of `parse_temp`: the sign, and the bytes behind it.
abbrev pub strip_minus : Bytes → Bool × Bytes
strip_minus [] = (false, [])
strip_minus (c ∷ rest) = if c == b'-' then (true, rest) else (false, c ∷ rest)

unfoldable pub parse_temp : Bytes → Option ℤ
parse_temp bytes =
    let (neg, digits) = strip_minus bytes in
    tenths digits >>= λ v. some (if neg then negated v else pos v)
