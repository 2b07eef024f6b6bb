-- ===== src/Rudis/Resp.antt =====
-- 07-systems-programming/src/resp.rs: the wire format of requests and replies. A `String` is its
-- bytes; the messages of protocol errors and the capacity that an array reserves are left out.
pub mod Lines
pub mod RoundTrip
pub mod Total
use rust_fundamentals.Base.{
  ℕ, zero, suc, ◌+◌, ◌-◌, ◌≤◌, ◌<◌, ◌^◌, ◌≡◌, Bool, true, false, ◌&&◌, Option, none, some, List, [],
  ◌∷◌, ◌++◌, length, take, drop, ◌==◌, ltb, leb, if◌then◌else◌,
}
use rust_fundamentals.Base.Bytes.{Bytes, get_range}
use rust_fundamentals.Base.Decimal.{ℤ, pos, negsuc, to_decimal, show_int, parse_i64}

mutual
  pub data Resp : Type 0 where
    simple : Bytes → Resp
    error : Bytes → Resp
    integer : ℤ → Resp
    bulk : Bytes → Resp
    null : Resp
    array : Items → Resp

  pub data Items : Type 0 where
    empty : Items
    item : Resp → Items → Items

unfoldable pub push : Items → Resp → Items
push empty v = item v empty
push (item x xs) v = item x (push xs v)

unfoldable pub count : Items → ℕ
count empty = 0
count (item x xs) = suc (count xs)

-- What `parse` gives: a value and the bytes it took, `Ok(None)`, `Err`, a slice out of range, or that
-- the model's fuel ran out.
pub data Parsed : Type 0 where
  parsed : Resp → ℕ → Parsed
  partial : Parsed
  protocol : Parsed
  panic : Parsed
  stuck : Parsed

unfoldable pub find_crlf : Bytes → Option ℕ
find_crlf [] = none
find_crlf (x ∷ []) = none
find_crlf (x ∷ y ∷ buf) =
    let rest = find_crlf (y ∷ buf) in
    let later : Option ℕ = elim rest [ none ↦ none | some i ↦ some (suc i) ] in
    if x == 13 && y == 10 then some 0 else later

abbrev in_range : ℕ → ℕ → ℕ → Bool
in_range low high c = leb low c && leb c high

-- How many bytes follow the first byte of a character, and the range of the first of them.
unfoldable pub lead : ℕ → Option (ℕ × ℕ × ℕ)
lead c =
    if ltb c 0x80
    then some (0, 0x80, 0xBF)
    else if in_range 0xC2 0xDF c
    then some (1, 0x80, 0xBF)
    else if c == 0xE0
    then some (2, 0xA0, 0xBF)
    else if c == 0xED
    then some (2, 0x80, 0x9F)
    else if in_range 0xE1 0xEF c
    then some (2, 0x80, 0xBF)
    else if c == 0xF0
    then some (3, 0x90, 0xBF)
    else if in_range 0xF1 0xF3 c
    then some (3, 0x80, 0xBF)
    else if c == 0xF4
    then some (3, 0x80, 0x8F)
    else none

-- `std::str::from_utf8`, in the middle of a character of which some bytes are to come.
unfoldable pub utf8_from : ℕ → ℕ → ℕ → Bytes → Bool
utf8_from zero low high [] = true
utf8_from (suc n) low high [] = false
utf8_from zero low high (c ∷ cs) = elim (lead c) [
  | none ↦ false
  | some (n, next_low, next_high) ↦ utf8_from n next_low next_high cs
]
utf8_from (suc n) low high (c ∷ cs) = in_range low high c && utf8_from n 0x80 0xBF cs

abbrev pub from_utf8 : Bytes → Option Bytes
from_utf8 line = if utf8_from 0 0x80 0xBF line then some line else none

abbrev pub text_of : (Bytes → Resp) → Option Bytes → ℕ → Parsed
text_of make none after_line = protocol
text_of make (some text) after_line = parsed (make text) after_line

abbrev pub integer_of : Option ℤ → ℕ → Parsed
integer_of none after_line = protocol
integer_of (some n) after_line = parsed (integer n) after_line

abbrev pub bulk_of : Option ℤ → Bytes → ℕ → Parsed
bulk_of none buf after_line = protocol
bulk_of (some (negsuc n)) buf after_line = parsed null after_line
bulk_of (some (pos n)) buf after_line =
    if ltb (length buf) (after_line + n + 2)
    then partial
    else parsed (bulk (take n (drop after_line buf))) (after_line + n + 2)

-- Only a whole item goes on to the next one.
abbrev pub after_item : Parsed → (Resp → ℕ → Parsed) → Parsed
after_item (parsed value used) next = next value used
after_item partial next = partial
after_item protocol next = protocol
after_item panic next = panic
after_item stuck next = stuck

-- The loop over the items of an array.
unfoldable pub parse_items : (Bytes → Parsed) → ℕ → Bytes → ℕ → Items → Parsed
parse_items parse_one zero buf consumed items = parsed (array items) consumed
parse_items parse_one (suc n) buf consumed items =
    after_item (parse_one (drop consumed buf))
      (λ value used. parse_items parse_one n buf (consumed + used) (push items value))

abbrev pub array_of : (Bytes → Parsed) → Option ℤ → Bytes → ℕ → Parsed
array_of parse_one none buf after_line = protocol
array_of parse_one (some (negsuc n)) buf after_line = parsed null after_line
array_of parse_one (some (pos n)) buf after_line = parse_items parse_one n buf after_line empty

-- The match on the type byte.
unfoldable pub by_tag : (Bytes → Parsed) → ℕ → Bytes → Bytes → ℕ → Parsed
by_tag parse_one tag buf line after_line =
    if tag == 0x2B
    then text_of simple (from_utf8 line) after_line
    else if tag == 0x2D
    then text_of error (from_utf8 line) after_line
    else if tag == 0x3A
    then integer_of (parse_i64 line) after_line
    else if tag == 0x24
    then bulk_of (parse_i64 line) buf after_line
    else if tag == 0x2A
    then array_of parse_one (parse_i64 line) buf after_line
    else protocol

-- The slice `buf[1..line_end]`.
abbrev pub with_line : (Bytes → Parsed) → ℕ → Bytes → ℕ → Option Bytes → Parsed
with_line parse_one tag buf line_end none = panic
with_line parse_one tag buf line_end (some line) = by_tag parse_one tag buf line (line_end + 2)

abbrev pub at_line_end : (Bytes → Parsed) → ℕ → Bytes → Option ℕ → Parsed
at_line_end parse_one tag buf none = partial
at_line_end parse_one tag buf (some line_end) =
    with_line parse_one tag buf line_end (get_range buf 1 line_end)

-- `parse`, on fuel for the nesting.
unfoldable pub parse : ℕ → Bytes → Parsed
parse zero buf = stuck
parse (suc fuel) [] = partial
parse (suc fuel) (tag ∷ rest) = at_line_end (parse fuel) tag (tag ∷ rest) (find_crlf (tag ∷ rest))

abbrev pub crlf : Bytes
crlf = 0x0D ∷ 0x0A ∷ []

-- What `encode` appends.
abbrev mutual
  pub encode : Resp → Bytes
  encode (simple s) = 0x2B ∷ (s ++ crlf)
  encode (error s) = 0x2D ∷ (s ++ crlf)
  encode (integer n) = 0x3A ∷ (show_int n ++ crlf)
  encode (bulk b) = 0x24 ∷ (to_decimal (length b) ++ (crlf ++ (b ++ crlf)))
  encode null = 0x24 ∷ 0x2D ∷ 0x31 ∷ crlf
  encode (array items) = 0x2A ∷ (to_decimal (count items) ++ (crlf ++ encode_items items))

  pub encode_items : Items → Bytes
  encode_items empty = []
  encode_items (item x xs) = encode x ++ encode_items xs
