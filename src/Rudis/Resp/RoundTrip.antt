-- ===== src/Rudis/Resp/RoundTrip.antt =====
-- `parse` reads what `encode` wrote.
use rust_fundamentals.Base.{
  ℕ, zero, suc, ◌+◌, ◌<◌, ◌^◌, ◌≡◌, ◌≢◌, refl, sym, ap, ◌∙◌, subst, true, some, none, [], ◌∷◌, ◌++◌,
  length, take-append, length-append, append_assoc, ge→ltb, arith,
}
use rust_fundamentals.Base.Bytes.{Bytes, At, At-start, At-skip, drop-At, length-At}
use rust_fundamentals.Base.Decimal.{
  ℤ, pos, InI64, show_int, to_decimal, parse_i64, read_number, read_digits, digit,
  parse_i64-show_int,
}
use rust_fundamentals.Rudis.Resp.{
  Resp, Items, simple, error, integer, bulk, null, array, empty, item, push, count, parsed,
  find_crlf, utf8_from, integer_of, bulk_of, array_of, after_item, parse_items, by_tag, parse, crlf,
  encode, encode_items,
}
use rust_fundamentals.Rudis.Resp.Lines.{find_crlf-cons, find_crlf-absent, show_int_line, parse-line}

-- The text of a status line is UTF-8 without an end of a line, and the numbers fit into 64 bits.
abbrev mutual
  pub WellFormed : Resp → Type 0
  WellFormed (simple s) = (find_crlf s ≡ none) × (utf8_from 0 0x80 0xBF s ≡ true)
  WellFormed (error s) = (find_crlf s ≡ none) × (utf8_from 0 0x80 0xBF s ≡ true)
  WellFormed (integer n) = InI64 n
  WellFormed (bulk b) = length b < 2 ^ 63
  WellFormed null = Unit {0}
  WellFormed (array items) = (count items < 2 ^ 63) × AllFormed items

  pub AllFormed : Items → Type 0
  AllFormed empty = Unit {0}
  AllFormed (item x xs) = WellFormed x × AllFormed xs

join : Items → Items → Items
join empty ys = ys
join (item x xs) ys = item x (join xs ys)

join-empty : (xs : Items) → join xs empty ≡ xs
unfolding join
join-empty empty = refl
join-empty (item x xs) = ap (item x) (join-empty xs)

join-push : (xs : Items) (v : Resp) (ys : Items) → join (push xs v) ys ≡ join xs (item v ys)
unfolding push join
join-push empty v ys = refl
join-push (item x xs) v ys = ap (item x) (join-push xs v ys)

-- `parse` on a type byte and the line of a number.
parse-number :
    (fuel tag : ℕ) (z : ℤ) (rest : Bytes)
    → tag ≢ 0x0D
    → parse (suc fuel) (tag ∷ (show_int z ++ (0x0D ∷ 0x0A ∷ rest)))
      ≡ by_tag
          (parse fuel)
          tag
          (tag ∷ (show_int z ++ (0x0D ∷ 0x0A ∷ rest)))
          (show_int z)
          (length (show_int z) + 3)
parse-number fuel tag z rest p =
    parse-line fuel tag (show_int z) rest
      (find_crlf-cons tag (show_int z) p (find_crlf-absent (show_int z) (show_int_line z)))

parse-text :
    (fuel tag : ℕ) (s rest : Bytes)
    → tag ≢ 0x0D
    → find_crlf s ≡ none
    → parse (suc fuel) ((tag ∷ (s ++ crlf)) ++ rest)
      ≡ by_tag (parse fuel) tag (tag ∷ (s ++ (0x0D ∷ 0x0A ∷ rest))) s (length s + 3)
parse-text fuel tag s rest p h =
    ap (λ t. parse (suc fuel) (tag ∷ t)) (append_assoc s crlf rest)
    ∙ parse-line fuel tag s rest (find_crlf-cons tag s p h)

parse-simple :
    (fuel : ℕ) (s rest : Bytes)
    → WellFormed (simple s)
    → parse (suc fuel) (encode (simple s) ++ rest) ≡ parsed (simple s) (length (encode (simple s)))
unfolding by_tag
parse-simple fuel s rest (line, text) =
    parse-text fuel 0x2B s rest (λ e. omega (arith, e)) line
    ∙ rw text (ap (parsed (simple s)) (omega (arith, length-append s crlf)))

parse-error :
    (fuel : ℕ) (s rest : Bytes)
    → WellFormed (error s)
    → parse (suc fuel) (encode (error s) ++ rest) ≡ parsed (error s) (length (encode (error s)))
unfolding by_tag
parse-error fuel s rest (line, text) =
    parse-text fuel 0x2D s rest (λ e. omega (arith, e)) line
    ∙ rw text (ap (parsed (error s)) (omega (arith, length-append s crlf)))

parse-integer :
    (fuel : ℕ) (n : ℤ) (rest : Bytes)
    → InI64 n
    → parse (suc fuel) (encode (integer n) ++ rest)
      ≡ parsed (integer n) (length (encode (integer n)))
unfolding by_tag
parse-integer fuel n rest h =
    ap (λ t. parse (suc fuel) (0x3A ∷ t)) (append_assoc (show_int n) crlf rest)
    ∙ parse-number fuel 0x3A n rest (λ e. omega (arith, e))
    ∙ ap (λ z. integer_of z (length (show_int n) + 3)) (parse_i64-show_int n h)
    ∙ ap (parsed (integer n)) (omega (arith, length-append (show_int n) crlf))

behind_line :
    (tag : ℕ) (line rest : Bytes) → At (tag ∷ (line ++ (0x0D ∷ 0x0A ∷ rest))) (length line + 3) rest
behind_line tag line rest =
    let buf = tag ∷ (line ++ (0x0D ∷ 0x0A ∷ rest)) in
    subst (λ k. At buf k rest) (omega arith)
      (At-skip crlf rest (At-skip line _ (At-skip (tag ∷ []) _ (At-start buf) refl) refl) refl)

-- A length, its line's end and what follows.
regroup :
    (line more rest : Bytes)
    → (line ++ (crlf ++ more)) ++ rest ≡ line ++ (0x0D ∷ 0x0A ∷ (more ++ rest))
regroup line more rest = append_assoc line (crlf ++ more) rest

read_bulk :
    (buf b rest : Bytes) (after_line : ℕ)
    → At buf after_line ((b ++ crlf) ++ rest)
    → bulk_of (some (pos (length b))) buf after_line ≡ parsed (bulk b) (after_line + length b + 2)
read_bulk buf b rest after_line a = rw (
  ge→ltb (length buf) (after_line + length b + 2) (
      omega (
        arith,
        length-At ((b ++ crlf) ++ rest) a,
        length-append (b ++ crlf) rest,
        length-append b crlf,
      )),
  drop-At ((b ++ crlf) ++ rest) a,
  append_assoc b crlf rest,
  take-append b (crlf ++ rest),
)

parse-bulk :
    (fuel : ℕ) (b rest : Bytes)
    → length b < 2 ^ 63
    → parse (suc fuel) (encode (bulk b) ++ rest) ≡ parsed (bulk b) (length (encode (bulk b)))
unfolding by_tag show_int
parse-bulk fuel b rest h =
    let line = to_decimal (length b) in
    let more = (b ++ crlf) ++ rest in
    ap (λ t. parse (suc fuel) (0x24 ∷ t)) (regroup line (b ++ crlf) rest)
    ∙ parse-number fuel 0x24 (pos (length b)) more (λ e. omega (arith, e))
    ∙ ap (λ z. bulk_of z (0x24 ∷ (line ++ (0x0D ∷ 0x0A ∷ more))) (length line + 3))
        (parse_i64-show_int (pos (length b)) h)
    ∙ read_bulk _ b rest (length line + 3) (behind_line 0x24 line more)
    ∙ ap (parsed (bulk b))
        (omega (arith, length-append line (crlf ++ (b ++ crlf)), length-append b crlf))

parse-array :
    (fuel : ℕ) (items : Items) (rest : Bytes)
    → count items < 2 ^ 63
    → (let line = to_decimal (count items) in
        parse (suc fuel) (encode (array items) ++ rest)
        ≡ parse_items
            (parse fuel)
            (count items)
            (0x2A ∷ (line ++ (0x0D ∷ 0x0A ∷ (encode_items items ++ rest))))
            (length line + 3)
            empty)
unfolding by_tag show_int
parse-array fuel items rest h =
    let line = to_decimal (count items) in
    let more = encode_items items ++ rest in
    ap (λ t. parse (suc fuel) (0x2A ∷ t)) (regroup line (encode_items items) rest)
    ∙ parse-number fuel 0x2A (pos (count items)) more (λ e. omega (arith, e))
    ∙ ap (λ z. array_of (parse fuel) z (0x2A ∷ (line ++ (0x0D ∷ 0x0A ∷ more))) (length line + 3))
        (parse_i64-show_int (pos (count items)) h)

parse-null : (fuel : ℕ) (rest : Bytes) → parse (suc fuel) (encode null ++ rest) ≡ parsed null 5
unfolding find_crlf by_tag parse_i64 read_number read_digits digit
parse-null fuel rest = parse-line fuel 0x24 (0x2D ∷ 0x31 ∷ []) rest refl

next_item :
    (fuel n : ℕ) (buf : Bytes) (consumed : ℕ) (acc : Items) (x : Resp) (bytes rest : Bytes)
    → At buf consumed (bytes ++ rest)
    → parse fuel (bytes ++ rest) ≡ parsed x (length bytes)
    → parse_items (parse fuel) (suc n) buf consumed acc
      ≡ parse_items (parse fuel) n buf (consumed + length bytes) (push acc x)
unfolding parse_items
next_item fuel n buf consumed acc x bytes rest a e =
    ap
      (λ o.
        after_item o
          (λ value used. parse_items (parse fuel) n buf (consumed + used) (push acc value)))
      (ap (parse fuel) (drop-At (bytes ++ rest) a) ∙ e)

mutual
  unfolding parse_items count join

  parse_whole :
      (v : Resp) (fuel : ℕ) (rest : Bytes)
      → WellFormed v
      → length (encode v) < fuel
      → parse fuel (encode v ++ rest) ≡ parsed v (length (encode v))
  parse_whole v zero rest w h = absurd (omega arith)
  parse_whole (simple s) (suc fuel) rest w h = parse-simple fuel s rest w
  parse_whole (error s) (suc fuel) rest w h = parse-error fuel s rest w
  parse_whole (integer n) (suc fuel) rest w h = parse-integer fuel n rest w
  parse_whole (bulk b) (suc fuel) rest w h = parse-bulk fuel b rest w
  parse_whole null (suc fuel) rest w h = parse-null fuel rest
  parse_whole (array items) (suc fuel) rest (small, w) h =
      let line = to_decimal (count items) in
      parse-array fuel items rest small
      ∙ parse_all items fuel _ (length line + 3) empty rest w
          (omega (arith, length-append line (crlf ++ encode_items items)))
          (behind_line 0x2A line (encode_items items ++ rest))
      ∙ ap (parsed (array items)) (omega (arith, length-append line (crlf ++ encode_items items)))

  parse_all :
      (xs : Items) (fuel : ℕ) (buf : Bytes) (consumed : ℕ) (acc : Items) (rest : Bytes)
      → AllFormed xs
      → length (encode_items xs) < fuel
      → At buf consumed (encode_items xs ++ rest)
      → parse_items (parse fuel) (count xs) buf consumed acc
        ≡ parsed (array (join acc xs)) (consumed + length (encode_items xs))
  parse_all empty fuel buf consumed acc rest w h a =
      ap (λ t. parsed (array t) consumed) (sym (join-empty acc))
      ∙ ap (parsed (array (join acc empty))) (omega arith)
  parse_all (item x xs) fuel buf consumed acc rest (w, ws) h a =
      let a' : At buf consumed (encode x ++ (encode_items xs ++ rest)) =
        subst (At buf consumed) (append_assoc (encode x) (encode_items xs) rest) a in
      next_item fuel (count xs) buf consumed acc x (encode x) (encode_items xs ++ rest) a' (
        parse_whole x fuel (encode_items xs ++ rest) w
          (omega (arith, length-append (encode x) (encode_items xs))))
      ∙ parse_all xs fuel buf (consumed + length (encode x)) (push acc x) rest ws
          (omega (arith, length-append (encode x) (encode_items xs))) (At-skip (encode x) _ a' refl)
      ∙ ap (λ t. parsed (array t) (consumed + length (encode x) + length (encode_items xs)))
          (join-push acc x xs)
      ∙ ap (parsed (array (join acc (item x xs))))
          (omega (arith, length-append (encode x) (encode_items xs)))

-- `parse` on what `encode` wrote, with anything behind it, gives the value back and the number of its
-- bytes, for every fuel above that number. The value must be well formed.
pub parse-encode :
    (v : Resp) (fuel : ℕ) (rest : Bytes)
    → WellFormed v
    → length (encode v) < fuel
    → parse fuel (encode v ++ rest) ≡ parsed v (length (encode v))
parse-encode v fuel rest w h = parse_whole v fuel rest w h
