-- ===== src/Brc/Runner.antt =====
-- 08-performance/src/runner.rs, with split_chunks of io.rs. A `HashMap` is kept as its entries in
-- the order of the keys: `into_sorted` and the merge, which read the entries, give the same for
-- every order, since the keys are distinct. `none` is a panic. Starting a thread is taken to succeed.
pub mod Lines
pub mod Chunks
pub mod Merge
pub mod Parallel
use Prim.Native.Nat.{min}
use rust_fundamentals.Base.{
  ℕ, zero, suc, ◌+◌, ◌-◌, ◌/◌, ◌*◌, ◌^◌, Bool, true, false, Option, none, some, List, [], ◌∷◌,
  length, take, drop, leb, ◌==◌, if◌then◌else◌, ◌>>=◌,
}
use rust_fundamentals.Base.Bytes.{Bytes}
use rust_fundamentals.Base.Map.{Map}
use rust_fundamentals.Base.Map
use rust_fundamentals.Base.Decimal.{ℤ}
use rust_fundamentals.Brc.Parse.{Memchr, split_line, parse_temp}
use rust_fundamentals.Brc.Stats.{Stats, default, record_temp, merge}

abbrev pub newline : ℕ
newline = 10

abbrev pub FastMap : Type 0
FastMap = Map Stats

-- `or_default` of an entry.
abbrev pub or_default : Option Stats → Stats
or_default none = default
or_default (some s) = s

-- `map.entry(name).or_default().record(temp)`
unfoldable pub record_in : Bytes → ℤ → FastMap → FastMap
record_in name temp map = Map.insert name (record_temp temp (or_default (Map.get name map))) map

-- The loop over the newlines, with the index behind the last one.
unfoldable pub aggregate_loop : Memchr → Bytes → ℕ → List ℕ → FastMap → Option FastMap
aggregate_loop mc buf start [] map = some map
aggregate_loop mc buf start (nl ∷ nls) map =
    split_line mc (take (nl - start) (drop start buf)) >>= λ parts.
    parse_temp parts.1 >>= λ temp. aggregate_loop mc buf (nl + 1) nls (record_in parts.0 temp map)

unfoldable pub aggregate : Memchr → Bytes → Option FastMap
aggregate mc buf = aggregate_loop mc buf 0 (mc.memchr_iter newline buf) []

-- Into a `BTreeMap`, entry by entry.
unfoldable pub into_sorted : FastMap → Map Stats → Map Stats
into_sorted [] sorted = sorted
into_sorted ((name, s) ∷ map) sorted = into_sorted map (Map.insert name s sorted)

unfoldable pub run_sequential : Memchr → Bytes → Option (Map Stats)
run_sequential mc buf = aggregate mc buf >>= λ map. some (into_sorted map [])

-- How far the inner `while` walks, with the newline that it stops at.
unfoldable pub walk : Bytes → ℕ
walk [] = 0
walk (c ∷ rest) = let further = walk rest in if c == newline then 1 else suc further

-- Where the next chunk ends, from its start on.
unfoldable pub cut_at : ℕ → Bytes → ℕ
cut_at approx rest = let end = min approx (length rest) in end + walk (drop end rest)

abbrev pub is_empty : Bytes → Bool
is_empty [] = true
is_empty (c ∷ rest) = false

-- The loop of `split_chunks`, by the cuts left, on the bytes from `start` on.
unfoldable pub chunk_loop : ℕ → ℕ → Bytes → List Bytes
chunk_loop zero approx rest = if is_empty rest then [] else rest ∷ []
chunk_loop (suc cuts) approx rest =
    let end = cut_at approx rest in
    let later = chunk_loop cuts approx (drop end rest) in
    take end rest ∷ (if is_empty (drop end rest) then [] else later)

-- A vector's capacity is `isize::MAX` bytes at most; a slice takes 16.
abbrev pub allocates : ℕ → Bool
allocates n = leb (n * 16) (2 ^ 63 - 1)

-- A capacity that is too large panics, and so does the division by no pieces at all.
unfoldable pub split_chunks : Bytes → ℕ → Option (List Bytes)
split_chunks buf zero = if is_empty buf then some [] else none
split_chunks buf (suc cuts) =
    if is_empty buf
    then some []
    else if allocates (suc cuts)
    then some (chunk_loop cuts (length buf / suc cuts) buf)
    else none

-- The threads' results in the order of the handles; `join` hands a panic on.
unfoldable pub aggregate_all : Memchr → List Bytes → Option (List FastMap)
aggregate_all mc [] = some []
aggregate_all mc (chunk ∷ chunks) =
    aggregate mc chunk >>= λ partial. aggregate_all mc chunks >>= λ rest. some (partial ∷ rest)

-- `global.entry(name).or_default().merge(&stats)` for each entry of a partial map.
unfoldable pub merge_partial : FastMap → FastMap → FastMap
merge_partial [] global = global
merge_partial ((name, s) ∷ partial) global =
    merge_partial partial (Map.insert name (merge s (or_default (Map.get name global))) global)

unfoldable pub merge_all : List FastMap → FastMap → FastMap
merge_all [] global = global
merge_all (partial ∷ partials) global = merge_all partials (merge_partial partial global)

unfoldable pub run_parallel : Memchr → Bytes → ℕ → Option (Map Stats)
run_parallel mc buf threads =
    if leb threads 1
    then run_sequential mc buf
    else (split_chunks buf threads >>= λ chunks.
        aggregate_all mc chunks >>= λ partials. some (into_sorted (merge_all partials []) []))
