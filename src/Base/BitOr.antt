-- ===== src/Base/BitOr.antt =====
-- `|` of unsigned integers, by its binary digits.
use Prim.Native.Nat.{
  ℕ, zero, suc, ◌+◌, ◌*◌, ◌/◌, ◌%◌, ◌^◌, ◌<◌, bit_or, bit_and, bit_or-bitwise, max,
}
use mathlib.Core.Path.{◌≡◌, refl, ap, ◌∙◌}
use mathlib.Core.Logic.{◌≢◌}
use native.Mathlib.Omega.{arith}
use native.Mathlib.Nat.{pow-suc, div-one}
use rust_fundamentals.Base.Bits.{digits_agree, div-two-pow-suc, and_one}

or_digits : (a b : ℕ) → bit_or a b ≡ bit_or (a / 2) (b / 2) * 2 + max (a % 2) (b % 2)
or_digits zero b = simp bit_or-bitwise (omega arith)
or_digits (suc a) b = simp bit_or-bitwise (
    ap (λ (t : ℕ). t * 2 + max (suc a % 2) (b % 2))
      (digits_agree (λ y. y) max (suc a / 2) (b / 2) a (suc a / 2) (omega arith) (omega arith)))

or_low : (a b : ℕ) → bit_or a b % 2 ≡ max (a % 2) (b % 2)
or_low a b = omega (arith, or_digits a b)

or_high : (a b : ℕ) → bit_or a b / 2 ≡ bit_or (a / 2) (b / 2)
or_high a b = omega (arith, or_digits a b)

or_shr : (k a b : ℕ) → bit_or a b / 2 ^ k ≡ bit_or (a / 2 ^ k) (b / 2 ^ k)
or_shr zero a b = simp div-one
or_shr (suc k) a b =
    rw (div-two-pow-suc (bit_or a b) k, div-two-pow-suc a k, div-two-pow-suc b k, or_high a b)
      (or_shr k (a / 2) (b / 2))

pub or_lt : (w a b : ℕ) → a < 2 ^ w → b < 2 ^ w → bit_or a b < 2 ^ w
or_lt zero zero zero p q = omega arith
or_lt zero a (suc b) p q = absurd (omega arith)
or_lt zero (suc a) zero p q = absurd (omega arith)
or_lt (suc w) a b p q = omega (
  arith,
  pow-suc 2 w,
  or_high a b,
  or_lt w (a / 2) (b / 2) (omega (arith, pow-suc 2 w)) (omega (arith, pow-suc 2 w)),
)

-- The `j`-th bit, as the programs test it.
abbrev pub bit : ℕ → ℕ → ℕ
bit j w = bit_and (w / 2 ^ j) 1

bit_pow_self : (k : ℕ) → 2 ^ k / 2 ^ k % 2 ≡ 1
bit_pow_self zero = refl
bit_pow_self (suc k) =
    ap (λ (t : ℕ). t % 2) (div-two-pow-suc (2 ^ suc k) k)
    ∙ ap (λ (t : ℕ). t / 2 ^ k % 2) (omega (arith, pow-suc 2 k))
    ∙ bit_pow_self k

bit_pow_other : (k j : ℕ) → k ≢ j → 2 ^ k / 2 ^ j % 2 ≡ 0
bit_pow_other zero zero h = absurd (h refl)
bit_pow_other zero (suc j) h = ap (λ (t : ℕ). t % 2) (div-two-pow-suc 1 j) ∙ zero_div j
  where
    zero_div : (j : ℕ) → 0 / 2 ^ j % 2 ≡ 0
    zero_div j = grind arith
bit_pow_other (suc k) zero h = omega (arith, pow-suc 2 k, div-one (2 ^ suc k))
bit_pow_other (suc k) (suc j) h =
    ap (λ (t : ℕ). t % 2) (div-two-pow-suc (2 ^ suc k) j)
    ∙ ap (λ (t : ℕ). t / 2 ^ j % 2) (omega (arith, pow-suc 2 k))
    ∙ bit_pow_other k j (λ e. h (ap suc e))

-- Setting a bit sets it, and no other.
pub bit_or_self : (k w : ℕ) → bit k (bit_or w (2 ^ k)) ≡ 1
bit_or_self k w =
    and_one (bit_or w (2 ^ k) / 2 ^ k)
    ∙ omega (arith, or_shr k w (2 ^ k), or_low (w / 2 ^ k) (2 ^ k / 2 ^ k), bit_pow_self k)

pub bit_or_other : (k j w : ℕ) → k ≢ j → bit j (bit_or w (2 ^ k)) ≡ bit j w
bit_or_other k j w h =
    and_one (bit_or w (2 ^ k) / 2 ^ j)
    ∙ omega (
      arith,
      or_shr j w (2 ^ k),
      or_low (w / 2 ^ j) (2 ^ k / 2 ^ j),
      bit_pow_other k j h,
      and_one (w / 2 ^ j),
    )
