-- ===== src/Brc/Runner/Lines.antt =====
-- The loop of `aggregate`, 08-performance/src/runner.rs, as recording the rows of whole lines.
use rust_fundamentals.Base.{
  ℕ, ◌+◌, ◌-◌, ◌≡◌, refl, ap, ◌∙◌, inl, inr, true, false, Option, some, List, [], ◌∷◌, ◌++◌,
  append_assoc, length, length-append, take, drop, take-append, drop-append, ◌==◌, Bool-cases,
  Option-cases, arith, ◌>>=◌,
}
use rust_fundamentals.Base.Bytes.{Bytes}
use rust_fundamentals.Base.Decimal.{ℤ}
use rust_fundamentals.Brc.Parse.{Memchr, all_indices, split_line, parse_temp}
use rust_fundamentals.Brc.Runner.{newline, FastMap, record_in, aggregate_loop, aggregate}

-- The lines that a newline ends, and what is left behind the last; `line` was read before.
unfoldable pub lines : Bytes → Bytes → List Bytes
lines line [] = []
lines line (c ∷ rest) = elim (c == newline) [
  | true ↦ line ∷ lines [] rest
  | false ↦ lines (line ++ (c ∷ [])) rest
]

unfoldable pub left_over : Bytes → Bytes → Bytes
left_over line [] = line
left_over line (c ∷ rest) = elim (c == newline) [
  | true ↦ left_over [] rest
  | false ↦ left_over (line ++ (c ∷ [])) rest
]

pub lines-append :
    (line xs ys : Bytes) → lines line (xs ++ ys) ≡ lines line xs ++ lines (left_over line xs) ys
unfolding lines left_over
lines-append line [] ys = refl
lines-append line (c ∷ xs) ys = elim (Bool-cases (c == newline)) [
  | inl nl ↦ rw (nl, lines) (rw (nl, lines, left_over) (ap (λ t. line ∷ t) (lines-append [] xs ys)))
  | inr other ↦
      rw (other, lines) (rw (other, lines, left_over) (lines-append (line ++ (c ∷ [])) xs ys))
]

-- A line's station and temperature, or a panic.
unfoldable pub row : Memchr → Bytes → Option (Bytes × ℤ)
row mc line = split_line mc line >>= λ parts. parse_temp parts.1 >>= λ temp. some (parts.0, temp)

unfoldable pub rows : Memchr → List Bytes → Option (List (Bytes × ℤ))
rows mc [] = some []
rows mc (line ∷ ls) = row mc line >>= λ r. rows mc ls >>= λ rs. some (r ∷ rs)

abbrev pub record_rows : List (Bytes × ℤ) → FastMap → FastMap
record_rows [] map = map
record_rows ((name, temp) ∷ rs) map = record_rows rs (record_in name temp map)

row_step :
    (mc : Memchr) (line : Bytes) (next : Bytes → ℤ → Option FastMap) (ls : List Bytes)
    (map : FastMap)
    → ((name : Bytes) (temp : ℤ)
        → next name temp ≡ (rows mc ls >>= λ rs. some (record_rows rs (record_in name temp map))))
    → (split_line mc line >>= λ parts. parse_temp parts.1 >>= λ temp. next parts.0 temp)
      ≡ (rows mc (line ∷ ls) >>= λ rs. some (record_rows rs map))
unfolding rows row
row_step mc line next ls map h = elim (Option-cases (split_line mc line)) [
  | inl bad ↦ rw (bad, ◌>>=◌)
  | inr (parts, good) ↦
      rw (good, ◌>>=◌)
        (elim (Option-cases (parse_temp parts.1)) [
          | inl bad ↦ rw (bad, ◌>>=◌)
          | inr (temp, read) ↦
              rw (read, ◌>>=◌)
                (h parts.0 temp ∙ elim (Option-cases (rows mc ls)) [
                  | inl bad ↦ rw (bad, ◌>>=◌)
                  | inr (rs, good') ↦ rw (good', ◌>>=◌)
                ])
        ])
]

cut_line :
    (buf before line rest : Bytes) (start base : ℕ)
    → buf ≡ before ++ (line ++ rest)
    → start ≡ length before
    → base ≡ start + length line
    → take (base - start) (drop start buf) ≡ line
cut_line buf before line rest start base e es eb =
    rw (e, es, drop-append before (line ++ rest))
      (ap (λ (n : ℕ). take n (line ++ rest)) (omega (arith, es, eb)) ∙ take-append line rest)

aggregate_loop-rows :
    (mc : Memchr) (buf before line rest : Bytes) (map : FastMap) (start base : ℕ)
    → buf ≡ before ++ (line ++ rest)
    → start ≡ length before
    → base ≡ start + length line
    → aggregate_loop mc buf start (all_indices newline base rest) map
      ≡ (rows mc (lines line rest) >>= λ rs. some (record_rows rs map))
unfolding aggregate_loop all_indices lines
aggregate_loop-rows mc buf before line [] map start base e es eb = unfold rows in refl
aggregate_loop-rows mc buf before line (c ∷ rest) map start base e es eb =
    elim (Bool-cases (c == newline)) [
      | inl nl ↦
          rw (nl, all_indices)
            (rw (nl, lines)
              (rw (cut_line buf before line (c ∷ rest) start base e es eb) (
                row_step mc line
                  (λ name temp.
                    aggregate_loop mc buf (base + 1) (all_indices newline (base + 1) rest)
                      (record_in name temp map))
                  (lines [] rest) map
                  (λ name temp.
                    aggregate_loop-rows mc buf (before ++ (line ++ (c ∷ []))) [] rest
                      (record_in name temp map) (base + 1) (base + 1) (e ∙ simp append_assoc)
                      (omega (
                        arith,
                        length-append before (line ++ (c ∷ [])),
                        length-append line (c ∷ []),
                        es,
                        eb,
                      ))
                      (omega arith)))))
      | inr other ↦
          rw (other, all_indices)
            (rw (other, lines)
              (aggregate_loop-rows mc buf before (line ++ (c ∷ [])) rest map start (base + 1)
                (e ∙ simp append_assoc) es (omega (arith, length-append line (c ∷ []), eb))))
    ]

-- The hot loop records the rows of the lines that a newline ends.
pub aggregate-rows :
    (mc : Memchr) (buf : Bytes)
    → aggregate mc buf ≡ (rows mc (lines [] buf) >>= λ rs. some (record_rows rs []))
unfolding aggregate
aggregate-rows mc buf =
    ap (λ nls. aggregate_loop mc buf 0 nls []) (mc.memchr_all newline buf)
    ∙ aggregate_loop-rows mc buf [] [] buf [] 0 0 refl refl refl

pub rows-append :
    (mc : Memchr) (xs ys : List Bytes)
    → rows mc (xs ++ ys) ≡ (rows mc xs >>= λ rs. rows mc ys >>= λ ss. some (rs ++ ss))
unfolding rows
rows-append mc [] ys = elim (Option-cases (rows mc ys)) [
  | inl bad ↦ rw (bad, ◌>>=◌)
  | inr (ss, good) ↦ rw (good, ◌>>=◌)
]
rows-append mc (x ∷ xs) ys = elim (Option-cases (row mc x)) [
  | inl bad ↦ rw (bad, ◌>>=◌)
  | inr (r, good) ↦
      rw (good, ◌>>=◌)
        (rw (rows-append mc xs ys) (elim (Option-cases (rows mc xs)) [
          | inl bad ↦ rw (bad, ◌>>=◌)
          | inr (rs, good') ↦
              rw (good', ◌>>=◌)
                (elim (Option-cases (rows mc ys)) [
                  | inl bad ↦ rw (bad, ◌>>=◌)
                  | inr (ss, good'') ↦ rw (good'', ◌>>=◌)
                ])
        ]))
]

pub record_rows-append :
    (rs ss : List (Bytes × ℤ)) (map : FastMap)
    → record_rows (rs ++ ss) map ≡ record_rows ss (record_rows rs map)
record_rows-append [] ss map = refl
record_rows-append ((name, temp) ∷ rs) ss map = record_rows-append rs ss (record_in name temp map)
