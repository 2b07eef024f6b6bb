-- ===== src/Base/Decimal.antt =====
-- Decimal numerals: `to_string` of an integer and `str::parse` of the standard library. Bytes that
-- are not ASCII are no digits, so what `from_utf8` refuses before `parse` is refused as well.
use Prim.Native.Nat.{ℕ, zero, suc, ◌+◌, ◌-◌, ◌*◌, ◌/◌, ◌%◌, ◌^◌, ◌≤◌, ◌<◌}
use mathlib.Core.Path.{◌≡◌, refl, sym, ap, ◌∙◌}
use mathlib.Core.Logic.{inl, inr}
use mathlib.Core.Option.{Option, none, some}
use mathlib.Core.List.{[], ◌∷◌, ◌++◌}
use native.Mathlib.Omega.{arith}
use rust_fundamentals.Base.Tests.{
  if◌then◌else◌, Bool-cases, Option-cases, ltb, leb, ◌==◌, ltb→lt, ltb→ge, le→leb, ne→==,
}
use rust_fundamentals.Base.Lists.{◌>>=◌}
use rust_fundamentals.Base.Bytes.{Bytes}

-- The library's integers, over the native numbers.
pub data ℤ : Type 0 where
  pos : ℕ → ℤ
  negsuc : ℕ → ℤ

unfoldable pub numeral : ℕ → ℕ → Bytes
numeral zero n = []
numeral (suc fuel) n =
    let rest = numeral fuel (n / 10) in
    if ltb n 10 then (48 + n) ∷ [] else rest ++ ((48 + n % 10) ∷ [])

-- `to_string` of a natural number; a digit takes a unit of fuel.
abbrev pub to_decimal : ℕ → Bytes
to_decimal n = numeral (suc n) n

unfoldable pub show_int : ℤ → Bytes
show_int (pos n) = to_decimal n
show_int (negsuc n) = 45 ∷ to_decimal (suc n)

unfoldable pub digit : ℕ → Option ℕ
digit c = if leb 48 c then (if ltb c 58 then some (c - 48) else none) else none

-- The digits read so far make the number.
unfoldable pub read_digits : ℕ → Bytes → Option ℕ
read_digits n [] = some n
read_digits n (c ∷ cs) = digit c >>= λ d. read_digits (n * 10 + d) cs

-- There is a digit at least.
unfoldable pub read_number : Bytes → Option ℕ
read_number [] = none
read_number (c ∷ cs) = read_digits 0 (c ∷ cs)

abbrev pub negated : ℕ → ℤ
negated zero = pos 0
negated (suc n) = negsuc n

abbrev at_most : ℕ → ℕ → Option ℕ
at_most bound n = if leb n bound then some n else none

-- A signed integer of w + 1 bits: a sign is allowed, and there is a digit at least.
unfoldable pub parse_signed : ℕ → Bytes → Option ℤ
parse_signed w [] = none
parse_signed w (c ∷ cs) =
    let minus = read_number cs >>= λ n. at_most (2 ^ w) n >>= λ m. some (negated m) in
    let plus = read_number cs >>= λ n. at_most (2 ^ w - 1) n >>= λ m. some (pos m) in
    let bare = read_number (c ∷ cs) >>= λ n. at_most (2 ^ w - 1) n >>= λ m. some (pos m) in
    if c == 45 then minus else (if c == 43 then plus else bare)

-- An unsigned integer of w bits; a plus is allowed.
unfoldable pub parse_unsigned : ℕ → Bytes → Option ℕ
parse_unsigned w [] = none
parse_unsigned w (c ∷ cs) =
    let plus = read_number cs >>= λ n. at_most (2 ^ w - 1) n in
    let bare = read_number (c ∷ cs) >>= λ n. at_most (2 ^ w - 1) n in if c == 43 then plus else bare

-- `str::parse` at `i64`, `u64` and `u16`
unfoldable pub parse_i64 : Bytes → Option ℤ
unfolding parse_signed
parse_i64 = parse_signed 63

unfoldable pub parse_u64 : Bytes → Option ℕ
unfolding parse_unsigned
parse_u64 = parse_unsigned 64

unfoldable pub parse_u16 : Bytes → Option ℕ
unfolding parse_unsigned
parse_u16 = parse_unsigned 16

read_digits-snoc :
    (acc : ℕ) (xs : Bytes) (d n : ℕ)
    → read_digits acc xs ≡ some n
    → d < 10
    → read_digits acc (xs ++ ((48 + d) ∷ [])) ≡ some (n * 10 + d)
unfolding read_digits digit
read_digits-snoc acc [] d n e h = ground arith
read_digits-snoc acc (x ∷ xs) d n e h = elim (Option-cases (digit x)) [
  | inl bad ↦ absurd (cc (rw (bad, ◌>>=◌) at e))
  | inr (k, good) ↦
      rw (good, ◌>>=◌) (read_digits-snoc (acc * 10 + k) xs d n (rw (good, ◌>>=◌) at e) h)
]

read_digits-numeral : (fuel n : ℕ) → n < fuel → read_digits 0 (numeral fuel n) ≡ some n
unfolding read_digits numeral digit
read_digits-numeral zero n h = absurd (omega arith)
read_digits-numeral (suc fuel) n h = elim (Bool-cases (ltb n 10)) [
  | inl small ↦ rw small (ground (arith, ltb→lt n 10 small))
  | inr large ↦ rw large (
      read_digits-snoc 0 (numeral fuel (n / 10)) (n % 10) (n / 10)
        (read_digits-numeral fuel (n / 10) (omega (arith, ltb→ge n 10 large))) (omega arith)
      ∙ ap some (omega arith))
]

-- A numeral begins with a digit.
numeral_head :
    (fuel n : ℕ) → n < fuel → (c : ℕ) × (cs : Bytes) × (numeral fuel n ≡ c ∷ cs) × (48 ≤ c)
unfolding numeral
numeral_head zero n h = absurd (omega arith)
numeral_head (suc fuel) n h = elim (Bool-cases (ltb n 10)) [
  | inl small ↦ rw small (48 + n, [], refl, omega arith)
  | inr large ↦
      let (c, cs, e, le) = numeral_head fuel (n / 10) (omega (arith, ltb→ge n 10 large)) in
      rw large (c, cs ++ ((48 + n % 10) ∷ []), ap (λ t. t ++ ((48 + n % 10) ∷ [])) e, le)
]

pub read_number-to_decimal : (n : ℕ) → read_number (to_decimal n) ≡ some n
unfolding read_number
read_number-to_decimal n =
    let (c, cs, e, le) = numeral_head (suc n) n (omega arith) in
    ap read_number e ∙ ap (read_digits 0) (sym e) ∙ read_digits-numeral (suc n) n (omega arith)

-- The numbers of 64 bits.
abbrev pub InI64 : ℤ → Type 0
InI64 (pos n) = n < 2 ^ 63
InI64 (negsuc n) = n < 2 ^ 63

parse_i64_bare :
    (bytes : Bytes) (c : ℕ) (cs : Bytes) (n : ℕ)
    → bytes ≡ c ∷ cs
    → 48 ≤ c
    → read_number bytes ≡ some n
    → n < 2 ^ 63
    → parse_i64 bytes ≡ some (pos n)
unfolding parse_i64
parse_i64_bare bytes c cs n e le read h =
    let read' : read_number (c ∷ cs) ≡ some n = ap read_number (sym e) ∙ read in
    rw (
      e,
      ne→== c 45 (λ x. omega (arith, x, le)),
      ne→== c 43 (λ x. omega (arith, x, le)),
      read',
      le→leb n (2 ^ 63 - 1) (omega arith),
    )

parse_i64_minus : (n : ℕ) → n < 2 ^ 63 → parse_i64 (45 ∷ to_decimal (suc n)) ≡ some (negsuc n)
unfolding parse_i64
parse_i64_minus n h =
    rw (read_number-to_decimal (suc n), le→leb (suc n) (2 ^ 63) (omega arith), ◌>>=◌)

-- `parse::<i64>` reads what `to_string` wrote.
pub parse_i64-show_int : (z : ℤ) → InI64 z → parse_i64 (show_int z) ≡ some z
unfolding show_int
parse_i64-show_int (pos n) h =
    let (c, cs, e, le) = numeral_head (suc n) n (omega arith) in
    parse_i64_bare (to_decimal n) c cs n e le (read_number-to_decimal n) h
parse_i64-show_int (negsuc n) h = parse_i64_minus n h

at_most-le : (bound n : ℕ) {m : ℕ} → at_most bound n ≡ some m → m ≤ bound
at_most-le bound n h = ground arith

pub parse_u16-lt : (bytes : Bytes) {n : ℕ} → parse_u16 bytes ≡ some n → n < 2 ^ 16
unfolding parse_u16
parse_u16-lt [] h = absurd (cc h)
parse_u16-lt (c ∷ cs) {n} h = elim (Bool-cases (c == 43)) [
  | inl plus ↦ bounded (read_number cs) (rw plus at h)
  | inr bare ↦ bounded (read_number (c ∷ cs)) (rw bare at h)
]
  where
    bounded : (o : Option ℕ) {n : ℕ} → (o >>= λ n. at_most (2 ^ 16 - 1) n) ≡ some n → n < 2 ^ 16
    bounded none h = absurd (cc h)
    bounded (some m) h = omega (arith, at_most-le (2 ^ 16 - 1) m h)
