-- ===== src/Rudis/Resp/Total.antt =====
-- `parse` ends on every buffer: the fuel is enough for the nesting.
use rust_fundamentals.Base.{
  ℕ, zero, suc, ◌+◌, ◌<◌, ◌≡◌, ◌≢◌, refl, Bool, true, false, Option, none, some, [], ◌∷◌, length,
  drop, length-drop, ◌==◌, ltb, if◌then◌else◌, arith,
}
use rust_fundamentals.Base.Bytes.{Bytes, get_range}
use rust_fundamentals.Base.Decimal.{ℤ, pos, negsuc, parse_i64}
use rust_fundamentals.Rudis.Resp.{
  Resp, Items, empty, push, simple, error, Parsed, parsed, partial, protocol, panic, stuck,
  find_crlf, from_utf8, text_of, integer_of, bulk_of, after_item, parse_items, array_of, by_tag,
  with_line, at_line_end, parse,
}

-- The parser has an outcome of the program.
abbrev pub Ends : Parsed → Type 0
Ends o = o ≢ stuck

if_Ends : (b : Bool) (x y : Parsed) → Ends x → Ends y → Ends (if b then x else y)
if_Ends true x y p q = p
if_Ends false x y p q = q

text_of-Ends : (make : Bytes → Resp) (text : Option Bytes) (n : ℕ) → Ends (text_of make text n)
text_of-Ends make none n = λ e. cc e
text_of-Ends make (some text) n = λ e. cc e

integer_of-Ends : (z : Option ℤ) (n : ℕ) → Ends (integer_of z n)
integer_of-Ends none n = λ e. cc e
integer_of-Ends (some z) n = λ e. cc e

bulk_of-Ends : (z : Option ℤ) (buf : Bytes) (n : ℕ) → Ends (bulk_of z buf n)
bulk_of-Ends none buf n = λ e. cc e
bulk_of-Ends (some (negsuc k)) buf n = λ e. cc e
bulk_of-Ends (some (pos k)) buf n =
    if_Ends (ltb (length buf) (n + k + 2)) partial _ (λ e. cc e) (λ e. cc e)

after_item-Ends :
    (o : Parsed) (next : Resp → ℕ → Parsed)
    → Ends o
    → ((v : Resp) (n : ℕ) → Ends (next v n))
    → Ends (after_item o next)
after_item-Ends (parsed v n) next p q = q v n
after_item-Ends partial next p q = p
after_item-Ends protocol next p q = p
after_item-Ends panic next p q = p
after_item-Ends stuck next p q = absurd (p refl)

-- Each item starts behind the type byte.
parse_items-Ends :
    (fuel n : ℕ) (buf : Bytes) (consumed : ℕ) (items : Items)
    → ((rest : Bytes) → length rest < fuel → Ends (parse fuel rest))
    → 0 < fuel
    → length buf < fuel + consumed
    → Ends (parse_items (parse fuel) n buf consumed items)
unfolding parse_items
parse_items-Ends fuel zero buf consumed items p q h = λ e. cc e
parse_items-Ends fuel (suc n) buf consumed items p q h =
    after_item-Ends (parse fuel (drop consumed buf)) _
      (p (drop consumed buf) (omega (arith, length-drop consumed buf)))
      (λ v used. parse_items-Ends fuel n buf (consumed + used) (push items v) p q (omega arith))

array_of-Ends :
    (fuel : ℕ) (z : Option ℤ) (buf : Bytes) (after_line : ℕ)
    → ((rest : Bytes) → length rest < fuel → Ends (parse fuel rest))
    → 0 < fuel
    → length buf < fuel + after_line
    → Ends (array_of (parse fuel) z buf after_line)
array_of-Ends fuel none buf after_line p q h = λ e. cc e
array_of-Ends fuel (some (negsuc n)) buf after_line p q h = λ e. cc e
array_of-Ends fuel (some (pos n)) buf after_line p q h =
    parse_items-Ends fuel n buf after_line empty p q h

by_tag-Ends :
    (fuel tag : ℕ) (buf line : Bytes) (after_line : ℕ)
    → ((rest : Bytes) → length rest < fuel → Ends (parse fuel rest))
    → 0 < fuel
    → length buf < fuel + after_line
    → Ends (by_tag (parse fuel) tag buf line after_line)
unfolding by_tag
by_tag-Ends fuel tag buf line after_line p q h =
    if_Ends (tag == 0x2B) _ _ (text_of-Ends simple (from_utf8 line) after_line) (
      if_Ends (tag == 0x2D) _ _ (text_of-Ends error (from_utf8 line) after_line) (
        if_Ends (tag == 0x3A) _ _ (integer_of-Ends (parse_i64 line) after_line) (
          if_Ends (tag == 0x24) _ _ (bulk_of-Ends (parse_i64 line) buf after_line) (
            if_Ends (tag == 0x2A) _ protocol
              (array_of-Ends fuel (parse_i64 line) buf after_line p q h) (λ e. cc e)))))

at_line_end-Ends :
    (fuel tag : ℕ) (rest : Bytes) (line_end : Option ℕ)
    → ((later : Bytes) → length later < fuel → Ends (parse fuel later))
    → length rest < fuel
    → Ends (at_line_end (parse fuel) tag (tag ∷ rest) line_end)
at_line_end-Ends fuel tag rest none p h = λ e. cc e
at_line_end-Ends fuel tag rest (some i) p h = sliced (get_range (tag ∷ rest) 1 i)
  where
    sliced : (line : Option Bytes) → Ends (with_line (parse fuel) tag (tag ∷ rest) i line)
    sliced none = λ e. cc e
    sliced (some line) =
        by_tag-Ends fuel tag (tag ∷ rest) line (i + 2) p (omega arith) (omega arith)

-- Fuel above the length of the buffer is enough: `parse` has an outcome of the program.
pub parse-Ends : (fuel : ℕ) (buf : Bytes) → length buf < fuel → Ends (parse fuel buf)
unfolding parse
parse-Ends zero buf h = absurd (omega arith)
parse-Ends (suc fuel) [] h = λ e. cc e
parse-Ends (suc fuel) (tag ∷ rest) h =
    at_line_end-Ends fuel tag rest (find_crlf (tag ∷ rest)) (parse-Ends fuel) (omega arith)

-- A buffer that begins with the end of a line makes `parse` panic, whatever follows: the slice behind
-- the type byte would end before it begins.
pub parse_blank : (fuel : ℕ) (rest : Bytes) → parse (suc fuel) (0x0D ∷ 0x0A ∷ rest) ≡ panic
unfolding parse find_crlf get_range
parse_blank fuel rest = refl
