-- ===== src/Brc/Parse/RoundTrip.antt =====
-- What 08-performance/src/parse.rs reads back from lines of the fixed format.
use native.Mathlib.Numerals.{add-one}
use rust_fundamentals.Base.{
  ℕ, suc, ◌+◌, ◌/◌, ◌%◌, ◌<◌, ◌≡◌, ◌≢◌, refl, ap, inl, inr, some, [], ◌∷◌, ◌++◌, length, drop,
  take-append, ltb, ne→==, ==_refl, if◌then◌else◌, Bool-cases, ltb→lt, ltb→ge, arith, ◌>>=◌, All,
}
use rust_fundamentals.Base.Bytes.{Bytes}
use rust_fundamentals.Base.Decimal.{ℤ, pos, negsuc}
use rust_fundamentals.Base.Int.{neg_part, pos_part}
use rust_fundamentals.Brc.Parse.{Memchr, first_index, split_line, tenths, parse_temp}

-- Tenths of a degree with one digit behind the point, and one or two before it.
abbrev pub show_tenths : ℕ → Bytes
show_tenths n =
    if ltb n 100
    then (48 + n / 10) ∷ b'.' ∷ (48 + n % 10) ∷ []
    else (48 + n / 100) ∷ (48 + n / 10 % 10) ∷ b'.' ∷ (48 + n % 10) ∷ []

abbrev pub show_temp : ℤ → Bytes
show_temp (pos n) = show_tenths n
show_temp (negsuc n) = b'-' ∷ show_tenths (suc n)

tenths-show_tenths : (n : ℕ) → n < 1000 → tenths (show_tenths n) ≡ some n
unfolding tenths
tenths-show_tenths n h = elim (Bool-cases (ltb n 100)) [
  | inl small ↦ rw small (ap some (omega (arith, ltb→lt n 100 small)))
  | inr large ↦ rw large (ap some (omega (arith, ltb→ge n 100 large)))
]

parse_positive : (n : ℕ) → n < 1000 → parse_temp (show_tenths n) ≡ some (pos n)
unfolding parse_temp tenths
parse_positive n h = elim (Bool-cases (ltb n 100)) [
  | inl small ↦ rw small (
      rw (ne→== (48 + n / 10) b'-' (λ e. omega (arith, e)))
        (ap (λ (t : ℕ). some (pos t)) (omega (arith, ltb→lt n 100 small))))
  | inr large ↦ rw large (
      rw (ne→== (48 + n / 100) b'-' (λ e. omega (arith, e)))
        (ap (λ (t : ℕ). some (pos t)) (omega (arith, ltb→ge n 100 large))))
]

parse_negative : (n : ℕ) → suc n < 1000 → parse_temp (b'-' ∷ show_tenths (suc n)) ≡ some (negsuc n)
unfolding parse_temp
parse_negative n h = rw (tenths-show_tenths (suc n) h, ◌>>=◌)

parse_temp-show_temp : (t : ℤ) → pos_part t + neg_part t < 1000 → parse_temp (show_temp t) ≡ some t
parse_temp-show_temp (pos n) h = parse_positive n (omega arith)
parse_temp-show_temp (negsuc n) h = parse_negative n (omega arith)

first_index-append :
    (c : ℕ) (xs ys : Bytes)
    → All (λ x. x ≢ c) xs
    → first_index c (xs ++ (c ∷ ys)) ≡ some (length xs)
unfolding first_index
first_index-append c [] ys h = rw (==_refl c)
first_index-append c (x ∷ xs) ys (h, hs) = rw (ne→== x c h, first_index-append c xs ys hs, ◌>>=◌)

drop_behind : (xs : Bytes) (y : ℕ) (ys : Bytes) → drop (suc (length xs)) (xs ++ (y ∷ ys)) ≡ ys
drop_behind [] y ys = refl
drop_behind (x ∷ xs) y ys = drop_behind xs y ys

drop-append_suc : (xs : Bytes) (y : ℕ) (ys : Bytes) → drop (length xs + 1) (xs ++ (y ∷ ys)) ≡ ys
drop-append_suc xs y ys = rw add-one (drop_behind xs y ys)

-- A line of a station's name without a semicolon, a semicolon and a temperature of either sign
-- below 100 degrees is split and read back as they were.
pub parse_temp-split_line :
    (mc : Memchr) (name : Bytes) (t : ℤ)
    → All (λ c. c ≢ b';') name
    → pos_part t + neg_part t < 1000
    → (split_line mc (name ++ (b';' ∷ show_temp t)) ≡ some (name, show_temp t))
      × (parse_temp (show_temp t) ≡ some t)
unfolding split_line
parse_temp-split_line mc name t clean small = (
  rw (
    mc.memchr_first b';' (name ++ (b';' ∷ show_temp t)),
    first_index-append b';' name (show_temp t) clean,
    ◌>>=◌,
    take-append name (b';' ∷ show_temp t),
    drop-append_suc name b';' (show_temp t),
  ),
  parse_temp-show_temp t small,
)
