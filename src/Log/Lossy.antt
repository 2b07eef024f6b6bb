-- ===== src/Log/Lossy.antt =====
-- What 04-concurrency/src uses of the text functions of the standard library:
-- `String::from_utf8_lossy`, `str::lines` and `str::split_whitespace`. Text is a list of code points.
pub mod Cut
use rust_fundamentals.Base.{
  ℕ, ◌+◌, ◌-◌, ◌*◌, ◌≡◌, refl, sym, ap, ◌∙◌, inl, inr, Bool-cases, Bool, true, false, ◌&&◌, List,
  [], ◌∷◌, ◌++◌, append_assoc, append-nil, ltb, leb, ◌==◌, if◌then◌else◌,
}
use rust_fundamentals.Base.Bytes.{Bytes}
use rust_fundamentals.Base.Chars.{is_whitespace}

abbrev pub Text : Type 0
Text = List ℕ

abbrev pub newline : ℕ
newline = 10

-- `U+FFFD`, which stands for a sequence of bytes that is not UTF-8.
abbrev pub replacement : ℕ
replacement = 0xfffd

-- What the next byte of a character can be: the second byte of some characters has a shorter range
-- than a byte `0b10xxxxxx`.
pub data Range : Type 0 where
  any_tail : Range
  from_a0 : Range
  to_9f : Range
  from_90 : Range
  to_8f : Range

unfoldable pub in_range : Range → ℕ → Bool
in_range any_tail b = leb 0x80 b && leb b 0xbf
in_range from_a0 b = leb 0xa0 b && leb b 0xbf
in_range to_9f b = leb 0x80 b && leb b 0x9f
in_range from_90 b = leb 0x90 b && leb b 0xbf
in_range to_8f b = leb 0x80 b && leb b 0x8f

-- Between characters, or inside one: how many bytes are missing, the range of the next one and the
-- number read so far.
pub data Decoder : Type 0 where
  between : Decoder
  inside : ℕ → Range → ℕ → Decoder

-- A first byte: what it gives, and what it begins.
unfoldable pub first_byte : ℕ → List ℕ × Decoder
first_byte b =
    if ltb b 0x80
    then (b ∷ [], between)
    else if ltb b 0xc2
    then (replacement ∷ [], between)
    else if ltb b 0xe0
    then ([], inside 1 any_tail (b - 0xc0))
    else if b == 0xe0
    then ([], inside 2 from_a0 0)
    else if b == 0xed
    then ([], inside 2 to_9f 13)
    else if ltb b 0xf0
    then ([], inside 2 any_tail (b - 0xe0))
    else if b == 0xf0
    then ([], inside 3 from_90 0)
    else if ltb b 0xf4
    then ([], inside 3 any_tail (b - 0xf0))
    else if b == 0xf4
    then ([], inside 3 to_8f 4)
    else (replacement ∷ [], between)

-- A byte out of its range ends a bad sequence and is read as a first byte.
unfoldable pub decode : Decoder → ℕ → List ℕ × Decoder
decode between b = first_byte b
decode (inside missing range read) b =
    let (out, state) = first_byte b in
    let more = read * 64 + (b - 0x80) in
    if in_range range b
    then (if leb missing 1 then (more ∷ [], between) else ([], inside (missing - 1) any_tail more))
    else (replacement ∷ out, state)

-- The end of the bytes inside a character.
abbrev pub finish : Decoder → Text
finish between = []
finish (inside missing range read) = replacement ∷ []

unfoldable pub lossy_from : Decoder → Bytes → Text
lossy_from state [] = finish state
lossy_from state (b ∷ bs) = (decode state b).0 ++ lossy_from (decode state b).1 bs

abbrev pub from_utf8_lossy : Bytes → Text
from_utf8_lossy = lossy_from between

abbrev pub is_empty : List ℕ → Bool
is_empty [] = true
is_empty (c ∷ cs) = false

-- A carriage return before the newline belongs to the line's end.
unfoldable pub strip_return : Text → Text
strip_return [] = []
strip_return (c ∷ []) = if c == 13 then [] else c ∷ []
strip_return (c ∷ d ∷ cs) = c ∷ strip_return (d ∷ cs)

-- The characters of the current line were read before.
unfoldable pub lines_from : Text → Text → List Text
lines_from line [] = if is_empty line then [] else line ∷ []
lines_from line (c ∷ cs) = elim (c == newline) [
  | true ↦ strip_return line ∷ lines_from [] cs
  | false ↦ lines_from (line ++ (c ∷ [])) cs
]

abbrev pub lines : Text → List Text
lines = lines_from []

unfoldable pub words_from : Text → Text → List Text
words_from word [] = if is_empty word then [] else word ∷ []
words_from word (c ∷ cs) = elim (is_whitespace c) [
  | true ↦ let rest = words_from [] cs in if is_empty word then rest else word ∷ rest
  | false ↦ words_from (word ++ (c ∷ [])) cs
]

abbrev pub split_whitespace : Text → List Text
split_whitespace = words_from []
