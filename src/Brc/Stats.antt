-- ===== src/Brc/Stats.antt =====
-- 08-performance/src/aggregate.rs: the accumulator of a station. `i32` and `i64` are integers;
-- Brc/Bounds says that they stay in their widths. The mean and the text of the result, which are
-- computed in floating point, are left out.
use native.Mathlib.Nat.{add_assoc, add-zero}
use rust_fundamentals.Base.{ℕ, ◌+◌, ◌-◌, ◌^◌, ◌≡◌, ap, ◌∙◌, refl, List, [], ◌∷◌, arith}
use rust_fundamentals.Base.Decimal.{ℤ, pos, negsuc}
use rust_fundamentals.Base.Int.{◌+ℤ◌, min_ℤ, max_ℤ, +ℤ_assoc, +ℤ_zero, min_ℤ_assoc, max_ℤ_assoc}

pub record Stats : Type 0 where
  pub min : ℤ
  pub max : ℤ
  pub sum : ℤ
  pub count : ℕ

-- `i32::MAX`, `i32::MIN`
abbrev pub i32_max : ℤ
i32_max = pos (2 ^ 31 - 1)

abbrev pub i32_min : ℤ
i32_min = negsuc (2 ^ 31 - 1)

abbrev pub default : Stats
default = record { min = i32_max; max = i32_min; sum = pos 0; count = 0 }

unfoldable pub record_temp : ℤ → Stats → Stats
record_temp temp s = record {
  min = min_ℤ s.min temp;
  max = max_ℤ s.max temp;
  sum = s.sum +ℤ temp;
  count = s.count + 1;
}

unfoldable pub merge : Stats → Stats → Stats
merge other s = record {
  min = min_ℤ s.min other.min;
  max = max_ℤ s.max other.max;
  sum = s.sum +ℤ other.sum;
  count = s.count + other.count;
}

-- Measurements recorded one behind another.
abbrev pub record_all : List ℤ → Stats → Stats
record_all [] s = s
record_all (t ∷ ts) s = record_all ts (record_temp t s)

-- No minimum above and no maximum below what `default` starts with.
pub record Capped (s : Stats) : Type 0 where
  pub capped_min : min_ℤ s.min i32_max ≡ s.min
  pub capped_max : max_ℤ s.max i32_min ≡ s.max

pub default-Capped : Capped default
unfolding min_ℤ max_ℤ
default-Capped = record { capped_min = refl; capped_max = refl }

pub record_temp-Capped : (t : ℤ) (s : Stats) → Capped s → Capped (record_temp t s)
unfolding record_temp min_ℤ max_ℤ
record_temp-Capped t s c = record {
  capped_min = ground (arith, c.capped_min);
  capped_max = ground (arith, c.capped_max);
}

pub record_all-Capped : (ts : List ℤ) (s : Stats) → Capped s → Capped (record_all ts s)
record_all-Capped [] s c = c
record_all-Capped (t ∷ ts) s c = record_all-Capped ts (record_temp t s) (record_temp-Capped t s c)

merge-record_temp :
    (t : ℤ) (other s : Stats) → merge (record_temp t other) s ≡ record_temp t (merge other s)
unfolding merge record_temp
merge-record_temp t other s = cc (
  min_ℤ_assoc s.min other.min t,
  max_ℤ_assoc s.max other.max t,
  +ℤ_assoc s.sum other.sum t,
  add_assoc s.count other.count 1,
)

merge-record_all :
    (ts : List ℤ) (other s : Stats) → merge (record_all ts other) s ≡ record_all ts (merge other s)
merge-record_all [] other s = refl
merge-record_all (t ∷ ts) other s =
    merge-record_all ts (record_temp t other) s ∙ ap (record_all ts) (merge-record_temp t other s)

merge-default : (s : Stats) → Capped s → merge default s ≡ s
unfolding merge
merge-default s c = cc (c.capped_min, c.capped_max, +ℤ_zero s.sum, add-zero s.count)

-- Merging the accumulator of a part is recording that part.
pub merge_part :
    (ts : List ℤ) (s : Stats) → Capped s → merge (record_all ts default) s ≡ record_all ts s
merge_part ts s c = merge-record_all ts default s ∙ ap (record_all ts) (merge-default s c)
