-- ===== src/Rudis/WireTests.antt =====
-- The theorems on the wire format at concrete inputs.
use rust_fundamentals.Base.{◌≡◌, refl, [], ◌∷◌, ◌++◌, length, arith}
use rust_fundamentals.Base.Decimal.{negsuc, numeral, show_int}
use rust_fundamentals.Rudis.Resp.{
  Resp, simple, integer, bulk, null, array, empty, item, count, parsed, panic, find_crlf, lead,
  utf8_from, parse, encode,
}
use rust_fundamentals.Rudis.Resp.RoundTrip.{WellFormed, parse-encode}
use rust_fundamentals.Rudis.Resp.Total.{Ends, parse-Ends, parse_blank}

-- `GET` of `a` beside a status, a number and a nil.
abbrev request : Resp
request = array (
    item (bulk (0x47 ∷ 0x45 ∷ 0x54 ∷ [])) (
      item (bulk (0x61 ∷ []))
        (item (simple (0x4F ∷ 0x4B ∷ [])) (item (integer (negsuc 6)) (item null empty)))))

request-WellFormed : WellFormed request
unfolding find_crlf utf8_from lead count
request-WellFormed =
    (omega arith, (omega arith, (omega arith, ((refl, refl), (omega arith, (tt, tt))))))

length-request : length (encode request) ≡ 35
unfolding show_int numeral count
length-request = refl

parse-encode_example :
    parse 50 (encode request ++ (0x2A ∷ [])) ≡ parsed request (length (encode request))
parse-encode_example =
    parse-encode request 50 (0x2A ∷ []) request-WellFormed (omega (arith, length-request))

parse-Ends_example : Ends (parse 4 (0x2A ∷ 0x31 ∷ 0x0D ∷ []))
parse-Ends_example = parse-Ends 4 (0x2A ∷ 0x31 ∷ 0x0D ∷ []) (omega arith)

parse_blank_example : parse 4 (0x0D ∷ 0x0A ∷ 0x2B ∷ []) ≡ panic
parse_blank_example = parse_blank 3 (0x2B ∷ [])
