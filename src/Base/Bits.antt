-- ===== src/Base/Bits.antt =====
-- `^`, `&` and `>>` of unsigned integers, by their lowest binary digit.
use Prim.Native.Nat.{
  ℕ, zero, suc, ◌+◌, ◌*◌, ◌/◌, ◌%◌, ◌^◌, ◌≤◌, ◌<◌, bit_xor, bit_and, digits, bit_xor-bitwise,
  bit_and-bitwise, differ, min,
}
use mathlib.Core.Path.{◌≡◌, refl, ap, sym}
use native.Mathlib.Omega.{arith}
use native.Mathlib.Nat.{pow-suc, pow-succ', div-div-eq-div-mul, div-one}

-- Any two fuels that are enough for the first number agree.
module _ (rest : ℕ → ℕ) (digit : ℕ → ℕ → ℕ) where
  pub digits_agree :
      (x y m n : ℕ) → x ≤ m → x ≤ n → digits rest digit m x y ≡ digits rest digit n x y
  digits_agree zero y zero zero below below' = refl
  digits_agree zero y zero (suc n) below below' = refl
  digits_agree zero y (suc m) zero below below' = refl
  digits_agree zero y (suc m) (suc n) below below' = refl
  digits_agree (suc x) y zero n below below' = absurd (omega arith)
  digits_agree (suc x) y (suc m) zero below below' = absurd (omega arith)
  digits_agree (suc x) y (suc m) (suc n) below below' =
      ap (λ (t : ℕ). t * 2 + digit (suc x % 2) (y % 2))
        (digits_agree (suc x / 2) (y / 2) m n (omega arith) (omega arith))

differ_digits : (x y : ℕ) → x < 2 → y < 2 → differ x y ≡ (x + y) % 2
differ_digits zero y p q = omega arith
differ_digits (suc zero) zero p q = refl
differ_digits (suc zero) (suc zero) p q = refl
differ_digits (suc zero) (suc (suc y)) p q = absurd (omega arith)
differ_digits (suc (suc x)) y p q = absurd (omega arith)

xor_digits : (a b : ℕ) → bit_xor a b ≡ bit_xor (a / 2) (b / 2) * 2 + differ (a % 2) (b % 2)
xor_digits zero b = simp bit_xor-bitwise (omega arith)
xor_digits (suc a) b = simp bit_xor-bitwise (
    ap (λ (t : ℕ). t * 2 + differ (suc a % 2) (b % 2))
      (digits_agree (λ y. y) differ (suc a / 2) (b / 2) a (suc a / 2) (omega arith) (omega arith)))

and_digits : (a b : ℕ) → bit_and a b ≡ bit_and (a / 2) (b / 2) * 2 + min (a % 2) (b % 2)
and_digits zero b = simp bit_and-bitwise (omega arith)
and_digits (suc a) b = simp bit_and-bitwise (
    ap (λ (t : ℕ). t * 2 + min (suc a % 2) (b % 2))
      (digits_agree (λ y. 0) min (suc a / 2) (b / 2) a (suc a / 2) (omega arith) (omega arith)))

-- The lowest digit of an exclusive or, and the other digits.
pub xor_low : (a b : ℕ) → bit_xor a b % 2 ≡ (a + b) % 2
xor_low a b =
    omega (arith, xor_digits a b, differ_digits (a % 2) (b % 2) (omega arith) (omega arith))

pub xor_high : (a b : ℕ) → bit_xor a b / 2 ≡ bit_xor (a / 2) (b / 2)
xor_high a b =
    omega (arith, xor_digits a b, differ_digits (a % 2) (b % 2) (omega arith) (omega arith))

-- Numbers with the same lowest digit and the same other digits are equal.
eq_of_halves : (a b : ℕ) → a % 2 ≡ b % 2 → a / 2 ≡ b / 2 → a ≡ b
eq_of_halves a b p q = omega arith

-- The laws hold for numbers of `w` digits, hence for all.
xor_assoc_width :
    (w a b c : ℕ) → a ≤ w → b ≤ w → c ≤ w → bit_xor (bit_xor a b) c ≡ bit_xor a (bit_xor b c)
xor_assoc_width zero zero zero zero p q r = refl
xor_assoc_width zero a b (suc c) p q r = absurd (omega arith)
xor_assoc_width zero a (suc b) zero p q r = absurd (omega arith)
xor_assoc_width zero (suc a) zero zero p q r = absurd (omega arith)
xor_assoc_width (suc w) a b c p q r =
    eq_of_halves _ _
      (omega (arith, xor_low (bit_xor a b) c, xor_low a b, xor_low a (bit_xor b c), xor_low b c))
      (rw (xor_high (bit_xor a b) c, xor_high a b, xor_high a (bit_xor b c), xor_high b c)
        (xor_assoc_width w (a / 2) (b / 2) (c / 2) (omega arith) (omega arith) (omega arith)))

pub xor_assoc : (a b c : ℕ) → bit_xor (bit_xor a b) c ≡ bit_xor a (bit_xor b c)
xor_assoc a b c = xor_assoc_width (a + b + c) a b c (omega arith) (omega arith) (omega arith)

xor_comm_width : (w a b : ℕ) → a ≤ w → b ≤ w → bit_xor a b ≡ bit_xor b a
xor_comm_width zero zero zero p q = refl
xor_comm_width zero a (suc b) p q = absurd (omega arith)
xor_comm_width zero (suc a) zero p q = absurd (omega arith)
xor_comm_width (suc w) a b p q =
    eq_of_halves _ _ (omega (arith, xor_low a b, xor_low b a)) (
      rw (xor_high a b, xor_high b a)
        (xor_comm_width w (a / 2) (b / 2) (omega arith) (omega arith)))

pub xor_comm : (a b : ℕ) → bit_xor a b ≡ bit_xor b a
xor_comm a b = xor_comm_width (a + b) a b (omega arith) (omega arith)

pub zero_xor : (b : ℕ) → bit_xor 0 b ≡ b
zero_xor b = simp bit_xor-bitwise

pub xor_zero : (a : ℕ) → bit_xor a 0 ≡ a
xor_zero a = rw xor_comm (zero_xor a)

pub xor_lt : (w a b : ℕ) → a < 2 ^ w → b < 2 ^ w → bit_xor a b < 2 ^ w
xor_lt zero zero zero p q = omega arith
xor_lt zero a (suc b) p q = absurd (omega arith)
xor_lt zero (suc a) zero p q = absurd (omega arith)
xor_lt (suc w) a b p q = omega (
  arith,
  pow-suc 2 w,
  xor_high a b,
  xor_lt w (a / 2) (b / 2) (omega (arith, pow-suc 2 w)) (omega (arith, pow-suc 2 w)),
)

-- A mask of eight ones.
and_zero_width : (w a : ℕ) → a ≤ w → bit_and a 0 ≡ 0
and_zero_width w zero h = refl
and_zero_width zero (suc a) h = absurd (omega arith)
and_zero_width (suc w) (suc a) h =
    omega (arith, and_digits (suc a) 0, and_zero_width w (suc a / 2) (omega arith))

pub and_zero : (a : ℕ) → bit_and a 0 ≡ 0
and_zero a = and_zero_width a a (omega arith)

pub and_one : (a : ℕ) → bit_and a 1 ≡ a % 2
and_one a = omega (arith, and_digits a 1, and_zero (a / 2))

and_nibble : (a : ℕ) → bit_and a 0xf ≡ a % 16
and_nibble a = omega (
  arith,
  and_digits a 15,
  and_digits (a / 2) 7,
  and_digits (a / 2 / 2) 3,
  and_one (a / 2 / 2 / 2),
)

pub and_byte : (a : ℕ) → bit_and a 0xff ≡ a % 256
and_byte a = omega (
  arith,
  and_digits a 255,
  and_digits (a / 2) 127,
  and_digits (a / 2 / 2) 63,
  and_digits (a / 2 / 2 / 2) 31,
  and_nibble (a / 2 / 2 / 2 / 2),
)

pub mul-two-pow-suc : (h k : ℕ) → h * 2 ^ suc k ≡ 2 * (h * 2 ^ k)
mul-two-pow-suc h k = omega (arith, ap (λ (t : ℕ). h * t) (pow-suc 2 k))

-- Above the `k` digits of `l` an exclusive or is a sum.
pub xor_fields : (k h l : ℕ) → l < 2 ^ k → bit_xor (h * 2 ^ k) l ≡ h * 2 ^ k + l
xor_fields zero h zero p = rw (xor_zero (h * 2 ^ 0)) (omega arith)
xor_fields zero h (suc l) p = absurd (omega arith)
xor_fields (suc k) h l p = eq_of_halves _ _ (omega (arith, xor_low (h * 2 ^ suc k) l)) (
    omega (
      arith,
      xor_high (h * 2 ^ suc k) l,
      ap (λ (t : ℕ). bit_xor t (l / 2)) half,
      mul-two-pow-suc h k,
      xor_fields k h (l / 2) (omega (arith, pow-suc 2 k)),
    ))
  where
    half : h * 2 ^ suc k / 2 ≡ h * 2 ^ k
    half = omega (arith, mul-two-pow-suc h k)

pub div-two-pow-suc : (a k : ℕ) → a / 2 ^ suc k ≡ a / 2 / 2 ^ k
div-two-pow-suc a k = rw pow-succ' (sym (div-div-eq-div-mul a 2 (2 ^ k)))

pub xor_shr : (k a b : ℕ) → bit_xor a b / 2 ^ k ≡ bit_xor (a / 2 ^ k) (b / 2 ^ k)
xor_shr zero a b = simp div-one
xor_shr (suc k) a b =
    rw (div-two-pow-suc (bit_xor a b) k, div-two-pow-suc a k, div-two-pow-suc b k, xor_high a b)
      (xor_shr k (a / 2) (b / 2))
