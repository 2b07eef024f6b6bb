-- ===== src/Brc/FxHash.antt =====
-- 08-performance/src/hash.rs: the hasher of the stations' map.
use Prim.Native.Nat.{bit_or, bit_xor}
use native.Mathlib.Nat.{suc-add, zero-add}
use rust_fundamentals.Base.{
  ℕ, zero, suc, ◌+◌, ◌*◌, ◌/◌, ◌%◌, ◌^◌, ◌≡◌, ap, ◌∙◌, [], ◌∷◌, ◌++◌, length, length-append,
  length-drop, take-append_le, drop-append_le, ◌≤◌, take, drop, replicate, arith,
}
use rust_fundamentals.Base.Bytes.{Bytes, from_le_bytes}

abbrev pub seed : ℕ
seed = 0x51_7c_c1_b7_27_22_0a_95

-- `rotate_left(5)` of 64 bits
abbrev pub rotate_left_5 : ℕ → ℕ
rotate_left_5 h = bit_or (h * 2 ^ 5 % 2 ^ 64) (h / 2 ^ 59)

unfoldable pub mix : ℕ → ℕ → ℕ
mix word h = bit_xor (rotate_left_5 h) word * seed % 2 ^ 64

-- A chunk in a buffer of eight zeros.
abbrev pub padded : Bytes → Bytes
padded chunk = take 8 (chunk ++ replicate 8 0)

-- The loop over `chunks(8)`, by the chunks left.
unfoldable pub write_loop : ℕ → Bytes → ℕ → ℕ
write_loop zero bytes h = h
write_loop (suc left) bytes h =
    write_loop left (drop 8 bytes) (mix (from_le_bytes (padded (take 8 bytes))) h)

unfoldable pub write : Bytes → ℕ → ℕ
write bytes h = write_loop ((length bytes + 7) / 8) bytes h

-- `n` groups of eight bytes.
abbrev Words : ℕ → Bytes → Type 0
Words n bytes = length bytes ≡ 8 * n

write_loop-append :
    (n m : ℕ) (xs ys : Bytes) (h : ℕ)
    → Words n xs
    → write_loop (n + m) (xs ++ ys) h ≡ write_loop m ys (write_loop n xs h)
unfolding write_loop
write_loop-append zero m [] ys h e = rw zero-add
write_loop-append zero m (x ∷ xs) ys h e = absurd (omega (arith, e))
write_loop-append (suc n) m xs ys h e =
    let long : 8 ≤ length xs = omega (arith, e) in
    rw suc-add (
      ap (λ t. write_loop (n + m) (drop 8 (xs ++ ys)) (mix (from_le_bytes (padded t)) h))
        (take-append_le 8 xs ys long)
      ∙ ap (λ t. write_loop (n + m) t (mix (from_le_bytes (padded (take 8 xs))) h))
          (drop-append_le 8 xs ys long)
      ∙ write_loop-append n m (drop 8 xs) ys (mix (from_le_bytes (padded (take 8 xs))) h)
          (omega (arith, e, length-drop 8 xs)))

-- Bytes written in two parts hash as the whole, where the first part is a multiple of eight long.
pub write-append :
    (n : ℕ) (xs ys : Bytes) (h : ℕ) → length xs ≡ 8 * n → write (xs ++ ys) h ≡ write ys (write xs h)
unfolding write
write-append n xs ys h e =
    let whole : (length (xs ++ ys) + 7) / 8 ≡ n + (length ys + 7) / 8 =
      omega (arith, e, length-append xs ys) in
    let first : (length xs + 7) / 8 ≡ n = omega (arith, e) in
    rw (whole, first) (write_loop-append n ((length ys + 7) / 8) xs ys h e)
