-- ===== src/Brc/Tests.antt =====
-- The theorems on the aggregation at concrete inputs.
use rust_fundamentals.Base.{
  ◌||◌, if◌then◌else◌, ◌^◌, ◌≤◌, ◌<◌, ◌≡◌, ◌⊎◌, refl, none, some, List, [], ◌∷◌, ◌++◌, length,
  arith,
}
use rust_fundamentals.Base.Bytes.{Bytes}
use rust_fundamentals.Base.Order.{cmp}
use rust_fundamentals.Base.Decimal.{ℤ, pos, negsuc}
use rust_fundamentals.Base.Int.{◌+ℤ◌, min_ℤ, max_ℤ}
use rust_fundamentals.Base.Map.{Map, key_eq}
use rust_fundamentals.Base.Map
use rust_fundamentals.Brc.Parse.{Memchr, first_index, all_indices, split_line, tenths, parse_temp}
use rust_fundamentals.Brc.Parse.RoundTrip.{show_temp, parse_temp-split_line}
use rust_fundamentals.Brc.Stats.{Stats, record_temp}
use rust_fundamentals.Brc.Runner.{
  run_sequential, run_parallel, split_chunks, is_empty, allocates, chunk_loop, cut_at, walk,
}
use rust_fundamentals.Brc.Runner.Lines.{lines, row, rows}
use rust_fundamentals.Brc.Runner.Merge.{temps}
use rust_fundamentals.Brc.Runner.Parallel.{
  summary, run_parallel-run_sequential, run_sequential-summary,
}
use rust_fundamentals.Brc.Bounds.{size, summary_bounds}

-- The searches of `memchr`, byte by byte.
abbrev plain : Memchr
plain = record {
  memchr = first_index;
  memchr_iter = λ c hay. all_indices c 0 hay;
  memchr_first = λ c hay. refl;
  memchr_all = λ c hay. refl;
}

-- `a;1.5`, `b;-0.5`, `a;2.0`
abbrev buf : Bytes
buf =
    (0x61 ∷ 0x3b ∷ 0x31 ∷ 0x2e ∷ 0x35 ∷ 10 ∷ [])
    ++ ((0x62 ∷ 0x3b ∷ 0x2d ∷ 0x30 ∷ 0x2e ∷ 0x35 ∷ 10 ∷ [])
        ++ (0x61 ∷ 0x3b ∷ 0x32 ∷ 0x2e ∷ 0x30 ∷ 10 ∷ []))

two_chunks :
    split_chunks buf 2
    ≡ some (
        ((0x61 ∷ 0x3b ∷ 0x31 ∷ 0x2e ∷ 0x35 ∷ 10 ∷ [])
          ++ (0x62 ∷ 0x3b ∷ 0x2d ∷ 0x30 ∷ 0x2e ∷ 0x35 ∷ 10 ∷ []))
        ∷ (0x61 ∷ 0x3b ∷ 0x32 ∷ 0x2e ∷ 0x30 ∷ 10 ∷ [])
        ∷ [])
unfolding split_chunks chunk_loop cut_at walk
two_chunks = refl

run_parallel-run_sequential_example :
    run_parallel plain buf 2
    ≡ (if is_empty buf || allocates 2 then run_sequential plain buf else none)
run_parallel-run_sequential_example = run_parallel-run_sequential plain buf 2

run_sequential-summary_example :
    ((rows plain (lines [] buf) ≡ none) × (run_sequential plain buf ≡ none))
    ⊎ ((rs : List (Bytes × ℤ)) × (m : Map Stats) × (rows plain (lines [] buf) ≡ some rs)
        × (run_sequential plain buf ≡ some m)
        × ((station : Bytes) → Map.get station m ≡ summary (temps station rs)))
run_sequential-summary_example = run_sequential-summary plain buf

parse_temp-split_line_example :
    (split_line plain ((0x61 ∷ []) ++ (b';' ∷ show_temp (negsuc 122)))
      ≡ some (0x61 ∷ [], show_temp (negsuc 122)))
    × (parse_temp (show_temp (negsuc 122)) ≡ some (negsuc 122))
parse_temp-split_line_example =
    parse_temp-split_line plain (0x61 ∷ []) (negsuc 122) ((λ e. omega (arith, e)), tt) (omega arith)

abbrev three_rows : List (Bytes × ℤ)
three_rows = (0x61 ∷ [], pos 15) ∷ (0x62 ∷ [], negsuc 4) ∷ (0x61 ∷ [], pos 20) ∷ []

reads_rows : rows plain (lines [] buf) ≡ some three_rows
unfolding rows row lines split_line first_index parse_temp tenths
reads_rows = refl

abbrev stats_a : Stats
stats_a = record { min = pos 15; max = pos 20; sum = pos 35; count = 2 }

summary_a : summary (temps (0x61 ∷ []) three_rows) ≡ some stats_a
unfolding summary temps record_temp ◌+ℤ◌ min_ℤ max_ℤ key_eq cmp
summary_a = refl

few_lines : length (lines [] buf) ≤ 2 ^ 48
unfolding lines
few_lines = omega arith

summary_bounds_example :
    (size (pos 35) < 2 ^ 63)
    × ((15 < 2 ^ 31) × (0 ≤ 2 ^ 31))
    × ((20 < 2 ^ 31) × (0 ≤ 2 ^ 31))
    × (2 ≤ length (lines [] buf))
summary_bounds_example =
    summary_bounds plain (lines [] buf) (0x61 ∷ []) reads_rows few_lines summary_a
