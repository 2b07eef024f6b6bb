-- ===== src/Log/Runner/Cuts.antt =====
-- Cutting the input of 04-concurrency/src/parallel.rs behind newlines cuts no line.
use rust_fundamentals.Base.{
  ℕ, ◌-◌, ◌≤◌, ◌≡◌, ◌⊎◌, refl, sym, ap, ◌∙◌, subst, inl, inr, List, [], ◌++◌, append-nil, take,
  drop, take-append-drop, take-add, drop-add, drop-nil, take_of_drop, arith,
}
use rust_fundamentals.Base.Bytes.{Bytes}
use rust_fundamentals.Log.Lossy.{Text, from_utf8_lossy, lines, between, lines_from, lossy_from}
use rust_fundamentals.Log.Lossy.Cut.{
  decoded, decoder_after, decoder_after-append, decoded-append, ended, line_after,
  line_after-append, lossy_from-append, lines_from-append,
}

abbrev pub text_lines : Bytes → List Text
text_lines bytes = lines (from_utf8_lossy bytes)

-- Behind these bytes decoding and the lines start afresh.
abbrev pub Fresh : Bytes → Type 0
Fresh bytes = (decoder_after between bytes ≡ between) × (line_after [] (decoded between bytes) ≡ [])

lines-ended :
    (xs ys : Bytes)
    → Fresh xs
    → text_lines (xs ++ ys) ≡ ended [] (decoded between xs) ++ text_lines ys
lines-ended xs ys (d, l) =
    ap lines (lossy_from-append between xs ys)
    ∙ lines_from-append [] (decoded between xs) _
    ∙ rw (l, d) refl

pub no_lines : text_lines [] ≡ []
unfolding lines_from lossy_from
no_lines = refl

lines-append : (xs ys : Bytes) → Fresh xs → text_lines (xs ++ ys) ≡ text_lines xs ++ text_lines ys
lines-append xs ys f =
    lines-ended xs ys f
    ∙ ap (λ t. t ++ text_lines ys)
        (sym (append-nil (ended [] (decoded between xs)))
          ∙ ap (λ t. ended [] (decoded between xs) ++ t) (sym no_lines)
          ∙ sym (lines-ended xs [] f)
          ∙ ap text_lines (append-nil xs))

-- What fresh bytes are continued with is fresh when the whole is.
Fresh-rest : (xs ys : Bytes) → Fresh xs → Fresh (xs ++ ys) → Fresh ys
Fresh-rest xs ys (d, l) (e, m) =
    let same = decoder_after-append between xs ys ∙ ap (λ s. decoder_after s ys) d in
    let text = decoded-append between xs ys ∙ ap (λ s. decoded between xs ++ decoded s ys) d in
    (
      sym same ∙ e,
      ap (λ t. line_after t (decoded between ys)) (sym l)
          ∙ sym (line_after-append [] (decoded between xs) (decoded between ys))
          ∙ ap (line_after []) (sym text)
          ∙ m,
    )

abbrev pub Boundary : Bytes → ℕ → Type 0
Boundary text b = Fresh (take b text) ⊎ (drop b text ≡ [])

pub Boundary-zero : (text : Bytes) → Boundary text 0
unfolding decoded line_after
Boundary-zero text = inl (refl, refl)

part-take :
    (text : Bytes) (a b : ℕ) → a ≤ b → take b text ≡ take a text ++ take (b - a) (drop a text)
part-take text a b h = ap (λ n. take n text) (omega arith) ∙ take-add a (b - a) text

part-drop : (text : Bytes) (a b : ℕ) → a ≤ b → drop b text ≡ drop (b - a) (drop a text)
part-drop text a b h = ap (λ n. drop n text) (omega arith) ∙ drop-add a (b - a) text

-- The part between two places and what is behind it.
pub part-rest :
    (text : Bytes) (a b : ℕ) → a ≤ b → take (b - a) (drop a text) ++ drop b text ≡ drop a text
part-rest text a b h =
    ap (λ t. take (b - a) (drop a text) ++ t) (part-drop text a b h)
    ∙ take-append-drop (b - a) (drop a text)

last_part :
    (text : Bytes) (a b : ℕ)
    → a ≤ b
    → drop b text ≡ []
    → text_lines (take (b - a) (drop a text)) ++ text_lines (drop b text) ≡ text_lines (drop a text)
last_part text a b h end =
    ap (λ t. text_lines (take (b - a) (drop a text)) ++ text_lines t) end
    ∙ ap (λ t. text_lines (take (b - a) (drop a text)) ++ t) no_lines
    ∙ append-nil (text_lines (take (b - a) (drop a text)))
    ∙ ap text_lines (take_of_drop (b - a) (drop a text) (sym (part-drop text a b h) ∙ end))

pub part-lines :
    (text : Bytes) (a b : ℕ)
    → a ≤ b
    → Boundary text a
    → Boundary text b
    → text_lines (take (b - a) (drop a text)) ++ text_lines (drop b text) ≡ text_lines (drop a text)
part-lines text a b h p (inr end) = last_part text a b h end
part-lines text a b h (inr end) (inl f) =
    last_part text a b h (part-drop text a b h ∙ ap (drop (b - a)) end ∙ drop-nil (b - a))
part-lines text a b h (inl e) (inl f) =
    sym (
      lines-append (take (b - a) (drop a text)) (drop b text) (
        Fresh-rest (take a text) (take (b - a) (drop a text)) e
          (subst Fresh (part-take text a b h) f)))
    ∙ ap text_lines (part-rest text a b h)
