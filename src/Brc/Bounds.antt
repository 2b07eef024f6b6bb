-- ===== src/Brc/Bounds.antt =====
-- The widths of 08-performance/src/aggregate.rs: sums of tenths in 64 bits, extremes in 32.
use native.Mathlib.Nat.{add-zero}
use rust_fundamentals.Base.{
  some_injective, ℕ, zero, suc, ◌+◌, ◌*◌, ◌^◌, ◌≤◌, ◌<◌, ◌≡◌, refl, subst, ap, inl, inr, true,
  false, Bool, some, List, [], ◌∷◌, length, All, Bool-cases, Option-cases, arith, if◌then◌else◌,
  ◌>>=◌,
}
use rust_fundamentals.Base.Bytes.{Bytes}
use rust_fundamentals.Base.Decimal.{ℤ, pos, negated}
use rust_fundamentals.Base.Int.{pos_part, neg_part, ◌+ℤ◌, min_ℤ, max_ℤ}
use rust_fundamentals.Base.Map.{key_eq}
use rust_fundamentals.Brc.Parse.{Memchr, split_line, tenths, strip_minus, parse_temp}
use rust_fundamentals.Brc.Stats.{Stats, default, record_temp, record_all}
use rust_fundamentals.Brc.Runner.Lines.{row, rows}
use rust_fundamentals.Brc.Runner.Merge.{temps}
use rust_fundamentals.Brc.Runner.Parallel.{summary}

-- The absolute value.
abbrev pub size : ℤ → ℕ
size z = pos_part z + neg_part z

-- The largest number of tenths that three bytes can make.
abbrev pub most : ℕ
most = 28305

tenths-le-most : (bytes : Bytes) (v : ℕ) → tenths bytes ≡ some v → v ≤ most
unfolding tenths
tenths-le-most [] v h = absurd (cc h)
tenths-le-most (a ∷ []) v h = absurd (cc h)
tenths-le-most (a ∷ b ∷ []) v h = absurd (cc h)
tenths-le-most (a ∷ b ∷ c ∷ []) v h = ground arith
tenths-le-most (a ∷ b ∷ c ∷ d ∷ []) v h = ground arith
tenths-le-most (a ∷ b ∷ c ∷ d ∷ e ∷ rest) v h = absurd (cc h)

size-signed : (neg : Bool) (v : ℕ) → size (if neg then negated v else pos v) ≡ v
size-signed true zero = omega arith
size-signed true (suc v) = omega arith
size-signed false v = omega arith

parse_temp-size : (bytes : Bytes) (t : ℤ) → parse_temp bytes ≡ some t → size t ≤ most
unfolding parse_temp
parse_temp-size bytes t h = elim (Option-cases (tenths (strip_minus bytes).1)) [
  | inl bad ↦ absurd (cc (rw (bad, ◌>>=◌) at h))
  | inr (v, good) ↦
      let e : some (if (strip_minus bytes).0 then negated v else pos v) ≡ some t =
        rw (good, ◌>>=◌) at h in
      rw (← some_injective e) (
        omega
          (arith, size-signed (strip_minus bytes).0 v, tenths-le-most (strip_minus bytes).1 v good))
]

-- Rows of readable lines are small, and as many as the lines.
abbrev Small : Bytes × ℤ → Type 0
Small r = size r.1 ≤ most

row-Small : (mc : Memchr) (line : Bytes) (r : Bytes × ℤ) → row mc line ≡ some r → Small r
unfolding row
row-Small mc line r h = elim (Option-cases (split_line mc line)) [
  | inl bad ↦ absurd (cc (rw (bad, ◌>>=◌) at h))
  | inr (parts, good) ↦
      let h' : (parse_temp parts.1 >>= λ temp. some (parts.0, temp)) ≡ some r =
        rw (good, ◌>>=◌) at h in
      elim (Option-cases (parse_temp parts.1)) [
        | inl bad ↦ absurd (cc (rw (bad, ◌>>=◌) at h'))
        | inr (temp, read) ↦
            rw (← some_injective (rw (read, ◌>>=◌) at h')) (parse_temp-size parts.1 temp read)
      ]
]

rows-Small :
    (mc : Memchr) (ls : List Bytes) (rs : List (Bytes × ℤ))
    → rows mc ls ≡ some rs
    → All Small rs × (length rs ≡ length ls)
unfolding rows
rows-Small mc [] rs h = rw (← some_injective h) (tt, refl)
rows-Small mc (line ∷ ls) rs h = elim (Option-cases (row mc line)) [
  | inl bad ↦ absurd (cc (rw (bad, ◌>>=◌) at h))
  | inr (r, good) ↦
      let h' : (rows mc ls >>= λ rest. some (r ∷ rest)) ≡ some rs = rw (good, ◌>>=◌) at h in
      elim (Option-cases (rows mc ls)) [
        | inl bad ↦ absurd (cc (rw (bad, ◌>>=◌) at h'))
        | inr (rest, good') ↦
            let (small, as_many) = rows-Small mc ls rest good' in
            rw (← some_injective (rw (good', ◌>>=◌) at h'))
              ((row-Small mc line r good, small), ap suc as_many)
      ]
]

temps-Small :
    (station : Bytes) (rs : List (Bytes × ℤ))
    → All Small rs
    → All (λ t. size t ≤ most) (temps station rs) × (length (temps station rs) ≤ length rs)
unfolding temps
temps-Small station [] small = (tt, omega arith)
temps-Small station (r ∷ rs) (small, smalls) =
    let (ih, short) = temps-Small station rs smalls in
    elim (Bool-cases (key_eq r.0 station)) [
      | inl same ↦ rw same ((small, ih), omega arith)
      | inr other ↦ rw other (ih, omega arith)
    ]

-- An accumulator of at most `n` small measurements.
record Bounded (n : ℕ) (s : Stats) : Type 0 where
  pub sum_bound : size s.sum ≤ n * most
  pub min_bound : (pos_part s.min < 2 ^ 31) × (neg_part s.min ≤ 2 ^ 31)
  pub max_bound : (pos_part s.max < 2 ^ 31) × (neg_part s.max ≤ 2 ^ 31)
  pub counted : s.count ≤ n

record_temp-Bounded :
    (n : ℕ) (t : ℤ) (s : Stats) → size t ≤ most → Bounded n s → Bounded (suc n) (record_temp t s)
unfolding record_temp ◌+ℤ◌ min_ℤ max_ℤ
record_temp-Bounded n t s small b = record {
  sum_bound = ground (arith, b.sum_bound);
  min_bound = ground (arith, b.min_bound);
  max_bound = ground (arith, b.max_bound);
  counted = omega (arith, b.counted);
}

record_all-Bounded :
    (ts : List ℤ) (n : ℕ) (s : Stats)
    → All (λ t. size t ≤ most) ts
    → Bounded n s
    → Bounded (n + length ts) (record_all ts s)
record_all-Bounded [] n s small b = rw add-zero b
record_all-Bounded (t ∷ ts) n s (small, smalls) b =
    subst (λ k. Bounded k (record_all ts (record_temp t s))) (omega arith)
      (record_all-Bounded ts (suc n) (record_temp t s) smalls (record_temp-Bounded n t s small b))

default-Bounded : Bounded 0 default
default-Bounded = record {
  sum_bound = omega arith;
  min_bound = (omega arith, omega arith);
  max_bound = (omega arith, omega arith);
  counted = omega arith;
}

summary-Bounded :
    (ts : List ℤ) (s : Stats)
    → All (λ t. size t ≤ most) ts
    → summary ts ≡ some s
    → Bounded (0 + length ts) s
unfolding summary
summary-Bounded [] s smalls total = absurd (cc total)
summary-Bounded (t ∷ ts) s smalls total =
    subst (Bounded (0 + length (t ∷ ts))) (some_injective total)
      (record_all-Bounded (t ∷ ts) 0 default smalls default-Bounded)

-- With at most 2^48 readable lines no accumulator leaves its width: for every station the sum of
-- tenths lies in 64 bits, minimum and maximum lie in 32 bits, and no more measurements are counted
-- than there are lines.
pub summary_bounds :
    (mc : Memchr) (ls : List Bytes) (station : Bytes) {rs : List (Bytes × ℤ)} {s : Stats}
    → rows mc ls ≡ some rs
    → length ls ≤ 2 ^ 48
    → summary (temps station rs) ≡ some s
    → (size s.sum < 2 ^ 63)
      × ((pos_part s.min < 2 ^ 31) × (neg_part s.min ≤ 2 ^ 31))
      × ((pos_part s.max < 2 ^ 31) × (neg_part s.max ≤ 2 ^ 31))
      × (s.count ≤ length ls)
summary_bounds mc ls station {rs} {s} read few total =
    let (small, as_many) = rows-Small mc ls rs read in
    let (smalls, short) = temps-Small station rs small in
    let b = summary-Bounded (temps station rs) s smalls total in
    (
      omega (arith, b.sum_bound, as_many, short),
      b.min_bound,
      b.max_bound,
      omega (arith, b.counted, as_many, short),
    )
