-- ===== src/Rudis/Resp/Lines.antt =====
-- The framing line: where it ends and what it holds.
use rust_fundamentals.Base.{
  ℕ, zero, suc, ◌+◌, ◌≡◌, ◌≢◌, refl, ap, ◌∙◌, subst, ◌&&◌, Option, none, some, [], ◌∷◌, ◌++◌,
  length, ◌==◌, ne→==, ltb, All, arith, Bool-cases, inl, inr,
}
use rust_fundamentals.Base.Bytes.{Bytes, get_range, At-start, At-skip, get_range-At}
use rust_fundamentals.Base.Decimal.{ℤ, pos, negsuc, numeral, show_int}
use rust_fundamentals.Rudis.Resp.{find_crlf, parse, at_line_end, with_line, by_tag}

not_later : (o : Option ℕ) → (elim o [ none ↦ none | some i ↦ some (suc i) ]) ≡ none → o ≡ none
not_later none h = refl
not_later (some i) h = absurd (cc h)

-- The end of the line is found behind bytes that have no end of a line.
pub find_crlf-append :
    (xs rest : Bytes)
    → find_crlf xs ≡ none
    → find_crlf (xs ++ (0x0D ∷ 0x0A ∷ rest)) ≡ some (length xs)
unfolding find_crlf
find_crlf-append [] rest h = refl
find_crlf-append (x ∷ []) rest h = elim (Bool-cases (x == 0x0D)) [ inl e ↦ rw e | inr e ↦ rw e ]
find_crlf-append (x ∷ y ∷ xs) rest h = elim (Bool-cases (x == 0x0D && y == 0x0A)) [
  | inl e ↦ absurd (cc (rw e at h))
  | inr e ↦ rw (e, find_crlf-append (y ∷ xs) rest (not_later (find_crlf (y ∷ xs)) (rw e at h)))
]

pub find_crlf-cons :
    (tag : ℕ) (line : Bytes) → tag ≢ 0x0D → find_crlf line ≡ none → find_crlf (tag ∷ line) ≡ none
unfolding find_crlf
find_crlf-cons tag [] p h = refl
find_crlf-cons tag (y ∷ ys) p h = rw (ne→== tag 0x0D p, h)

-- Bytes without a carriage return have no end of a line.
pub find_crlf-absent : (xs : Bytes) → All (λ c. c ≢ 0x0D) xs → find_crlf xs ≡ none
unfolding find_crlf
find_crlf-absent [] h = refl
find_crlf-absent (x ∷ []) h = refl
find_crlf-absent (x ∷ y ∷ xs) (p, h) = rw (ne→== x 0x0D p, find_crlf-absent (y ∷ xs) h)

All-append-ne :
    (xs : Bytes) (c : ℕ) → All (λ d. d ≢ 0x0D) xs → c ≢ 0x0D → All (λ d. d ≢ 0x0D) (xs ++ (c ∷ []))
All-append-ne [] c h p = (p, tt)
All-append-ne (x ∷ xs) c (q, h) p = (q, All-append-ne xs c h p)

numeral_line : (fuel n : ℕ) → All (λ c. c ≢ 0x0D) (numeral fuel n)
unfolding numeral
numeral_line zero n = tt
numeral_line (suc fuel) n = elim (Bool-cases (ltb n 10)) [
  | inl small ↦ rw small ((λ e. omega (arith, e)), tt)
  | inr large ↦
      rw large (All-append-ne (numeral fuel _) _ (numeral_line fuel _) (λ e. omega (arith, e)))
]

pub show_int_line : (z : ℤ) → All (λ c. c ≢ 0x0D) (show_int z)
unfolding show_int
show_int_line (pos n) = numeral_line (suc n) n
show_int_line (negsuc n) = ((λ e. omega (arith, e)), numeral_line (suc (suc n)) (suc n))

-- `parse` on a type byte, a line without an end of a line, and its end.
pub parse-line :
    (fuel tag : ℕ) (line rest : Bytes)
    → find_crlf (tag ∷ line) ≡ none
    → parse (suc fuel) (tag ∷ (line ++ (0x0D ∷ 0x0A ∷ rest)))
      ≡ by_tag (parse fuel) tag (tag ∷ (line ++ (0x0D ∷ 0x0A ∷ rest))) line (length line + 3)
unfolding parse
parse-line fuel tag line rest h =
    let buf = tag ∷ (line ++ (0x0D ∷ 0x0A ∷ rest)) in
    ap (at_line_end (parse fuel) tag buf) (find_crlf-append (tag ∷ line) rest h)
    ∙ ap (with_line (parse fuel) tag buf (suc (length line))) slice
    ∙ ap (by_tag (parse fuel) tag buf line) (omega arith)
  where
    slice : get_range (tag ∷ (line ++ (0x0D ∷ 0x0A ∷ rest))) 1 (suc (length line)) ≡ some line
    slice =
        subst (λ k. get_range (tag ∷ (line ++ (0x0D ∷ 0x0A ∷ rest))) 1 k ≡ some line) (omega arith)
          (get_range-At line (0x0D ∷ 0x0A ∷ rest) (At-skip (tag ∷ []) _ (At-start _) refl) refl)
