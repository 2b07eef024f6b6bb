-- ===== src/Log/Lossy/Cut.antt =====
-- Decoding and the lines of a text that is cut, for the functions in Log/Lossy: behind a newline both start
-- afresh.
use rust_fundamentals.Base.{
  ◌≡◌, refl, sym, ap, ◌∙◌, inl, inr, Bool-cases, true, false, List, [], ◌∷◌, ◌++◌, append_assoc,
  append-nil, ◌==◌,
}
use rust_fundamentals.Base.Bytes.{Bytes}
use rust_fundamentals.Log.Lossy.{
  Text, newline, Range, any_tail, from_a0, to_9f, from_90, to_8f, in_range, Decoder, between,
  inside, first_byte, decode, lossy_from, strip_return, lines_from,
}

-- What bytes give before their end, and the state they leave.
unfoldable pub decoded : Decoder → Bytes → Text
decoded state [] = []
decoded state (b ∷ bs) = (decode state b).0 ++ decoded (decode state b).1 bs

abbrev pub decoder_after : Decoder → Bytes → Decoder
decoder_after state [] = state
decoder_after state (b ∷ bs) = decoder_after (decode state b).1 bs

pub lossy_from-append :
    (state : Decoder) (xs ys : Bytes)
    → lossy_from state (xs ++ ys) ≡ decoded state xs ++ lossy_from (decoder_after state xs) ys
unfolding lossy_from decoded
lossy_from-append state [] ys = refl
lossy_from-append state (x ∷ xs) ys =
    rw (lossy_from-append (decode state x).1 xs ys) (sym (append_assoc (decode state x).0 _ _))

-- The lines that newlines end, and the characters behind the last one.
unfoldable pub ended : Text → Text → List Text
ended line [] = []
ended line (c ∷ cs) = elim (c == newline) [
  | true ↦ strip_return line ∷ ended [] cs
  | false ↦ ended (line ++ (c ∷ [])) cs
]

unfoldable pub line_after : Text → Text → Text
line_after line [] = line
line_after line (c ∷ cs) = elim (c == newline) [
  | true ↦ line_after [] cs
  | false ↦ line_after (line ++ (c ∷ [])) cs
]

pub lines_from-append :
    (line xs ys : Text)
    → lines_from line (xs ++ ys) ≡ ended line xs ++ lines_from (line_after line xs) ys
unfolding lines_from ended line_after
lines_from-append line [] ys = refl
lines_from-append line (c ∷ xs) ys = elim (Bool-cases (c == newline)) [
  | inl nl ↦
      rw (nl, lines_from)
        (rw (nl, ended, line_after) (ap (λ t. strip_return line ∷ t) (lines_from-append [] xs ys)))
  | inr other ↦
      rw (other, lines_from)
        (rw (other, ended, line_after) (lines_from-append (line ++ (c ∷ [])) xs ys))
]

pub line_after-append :
    (line xs ys : Text) → line_after line (xs ++ ys) ≡ line_after (line_after line xs) ys
unfolding line_after
line_after-append line [] ys = refl
line_after-append line (c ∷ xs) ys = elim (Bool-cases (c == newline)) [
  | inl nl ↦ rw (nl, line_after) (line_after-append [] xs ys)
  | inr other ↦ rw (other, line_after) (line_after-append (line ++ (c ∷ [])) xs ys)
]

pub decoded-append :
    (state : Decoder) (xs ys : Bytes)
    → decoded state (xs ++ ys) ≡ decoded state xs ++ decoded (decoder_after state xs) ys
unfolding decoded
decoded-append state [] ys = refl
decoded-append state (x ∷ xs) ys =
    rw (decoded-append (decode state x).1 xs ys) (sym (append_assoc (decode state x).0 _ _))

pub decoder_after-append :
    (state : Decoder) (xs ys : Bytes)
    → decoder_after state (xs ++ ys) ≡ decoder_after (decoder_after state xs) ys
decoder_after-append state [] ys = refl
decoder_after-append state (x ∷ xs) ys = decoder_after-append (decode state x).1 xs ys

out_of_range : (range : Range) → in_range range newline ≡ false
unfolding in_range
out_of_range any_tail = refl
out_of_range from_a0 = refl
out_of_range to_9f = refl
out_of_range from_90 = refl
out_of_range to_8f = refl

-- A newline ends any character, and the line.
decode-newline :
    (state : Decoder) (line : Text)
    → ((decode state newline).1 ≡ between) × (line_after line (decode state newline).0 ≡ [])
unfolding decode first_byte line_after
decode-newline between line = (refl, refl)
decode-newline (inside missing range read) line = rw (out_of_range range) (refl, refl)

-- Behind bytes that end with a newline, decoding and the lines start afresh.
pub behind_newline :
    (xs : Bytes)
    → (decoder_after between (xs ++ (newline ∷ [])) ≡ between)
      × (line_after [] (decoded between (xs ++ (newline ∷ []))) ≡ [])
unfolding decoded
behind_newline xs =
    let state = decoder_after between xs in
    let line = line_after [] (decoded between xs) in
    let (d, l) = decode-newline state line in
    (
      decoder_after-append between xs (newline ∷ []) ∙ d,
      ap (line_after []) (decoded-append between xs (newline ∷ []))
          ∙ line_after-append [] (decoded between xs) ((decode state newline).0 ++ [])
          ∙ ap (line_after line) (append-nil (decode state newline).0)
          ∙ l,
    )
