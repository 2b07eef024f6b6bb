-- ===== src/Log/Tests.antt =====
-- The theorems on the log analyzer at a concrete log.
use rust_fundamentals.Base.{
  length, List, ℕ, ◌≡◌, refl, Option, some, [], ◌∷◌, take, drop, take-append-drop, arith,
}
use rust_fundamentals.Base.Bytes.{Bytes}
use rust_fundamentals.Base.Map
use rust_fundamentals.Base.Order
use rust_fundamentals.Base.Decimal.{digit, read_digits, read_number, parse_unsigned}
use rust_fundamentals.Log.Lossy.{
  Text, from_utf8_lossy, first_byte, decode, in_range, lossy_from, strip_return, lines_from,
  words_from,
}
use rust_fundamentals.Log.Parser.{entry_of, parse_line}
use rust_fundamentals.Log.Stats.{Stats, wrap, bump, record_entry, record_malformed}
use rust_fundamentals.Log.Runner.{
  record_line, record_lines, analyze_sequential, analyze_parallel, part, both, Rayon, analyze_rayon,
}
use rust_fundamentals.Log.Runner.Agree.{
  analyze_parallel-analyze_sequential, analyze_rayon-analyze_sequential,
}
use rust_fundamentals.Log.Stats.Reordered.{Alike}
use rust_fundamentals.Log.Runner.Cuts.{text_lines}
use rust_fundamentals.Log.Pipeline.{produce, analyze_pipeline}
use rust_fundamentals.Log.Pipeline.Agree.{analyze_pipeline-Alike}

-- `a 200 5 1 G p`, `x` and `b 200 7 2 G p`, with a carriage return behind the first
abbrev log : Bytes
log =
    b'a' ∷ 32 ∷ b'2' ∷ b'0' ∷ b'0' ∷ 32 ∷ b'5' ∷ 32 ∷ b'1' ∷ 32 ∷ b'G' ∷ 32 ∷ b'p' ∷ 13 ∷ 10 ∷ b'x'
    ∷ 10 ∷ b'b' ∷ 32 ∷ b'2' ∷ b'0' ∷ b'0' ∷ 32 ∷ b'7' ∷ 32 ∷ b'2' ∷ 32 ∷ b'G' ∷ 32 ∷ b'p' ∷ []

abbrev whole_number : Text → Option ℕ
whole_number = parse_unsigned 16

abbrev expected : Stats ℕ
expected = record {
  requests = 2;
  malformed = 1;
  total_bytes = 12;
  status_counts = (200 ∷ [], 2) ∷ [];
  path_counts = (b'p' ∷ [], 2) ∷ [];
  ip_counts = (b'a' ∷ [], 1) ∷ (b'b' ∷ [], 1) ∷ [];
  request_times = 1 ∷ 2 ∷ [];
}

sums_up : analyze_sequential whole_number log ≡ expected
unfolding analyze_sequential record_lines record_line parse_line entry_of lossy_from decode
    first_byte lines_from strip_return words_from record_entry record_malformed bump wrap Map.get
    Map.insert Order.cmp digit read_digits read_number parse_unsigned
sums_up = refl

-- An overlong form and a truncated character: `C0 80 E2 82`.
replaces : from_utf8_lossy (0xc0 ∷ 0x80 ∷ 0xe2 ∷ 0x82 ∷ []) ≡ 0xfffd ∷ 0xfffd ∷ 0xfffd ∷ []
unfolding lossy_from decode first_byte in_range
replaces = refl

-- `E2 82 AC` is the euro sign.
reads_euro : from_utf8_lossy (0xe2 ∷ 0x82 ∷ 0xac ∷ []) ≡ 0x20ac ∷ []
unfolding lossy_from decode first_byte in_range
reads_euro = refl

analyze_parallel-analyze_sequential_example :
    analyze_parallel whole_number log 3 ≡ some (analyze_sequential whole_number log)
analyze_parallel-analyze_sequential_example =
    analyze_parallel-analyze_sequential whole_number log 3 (omega arith)

-- The first line in a part of its own.
abbrev rayon : Rayon
rayon = record {
  par_iter = λ ls. both (part (take 1 ls)) (part (drop 1 ls));
  keeps = λ ls. take-append-drop 1 ls;
}

analyze_rayon-analyze_sequential_example :
    analyze_rayon whole_number rayon log ≡ analyze_sequential whole_number log
analyze_rayon-analyze_sequential_example = analyze_rayon-analyze_sequential whole_number rayon log

abbrev takers : List ℕ
takers = 1 ∷ []

-- The three lines fit into one batch, which the second worker takes.
one_batch : length takers ≡ length (produce [] (text_lines log))
unfolding produce lossy_from decode first_byte lines_from strip_return
one_batch = refl

analyze_pipeline-Alike_example :
    Alike (analyze_pipeline whole_number takers log 2) (analyze_sequential whole_number log)
analyze_pipeline-Alike_example =
    analyze_pipeline-Alike whole_number takers log 2 one_batch (omega arith, tt)
