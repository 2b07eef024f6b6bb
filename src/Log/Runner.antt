-- ===== src/Log/Runner.antt =====
-- 04-concurrency/src/sequential.rs, parallel.rs and rayon_impl.rs. `none` is a panic, and a product of
-- `usize` wraps, as in a release build. The threads' results are taken in the order of the handles;
-- starting a thread is taken to succeed.
pub mod Cuts
pub mod Bounds
pub mod Chunks
pub mod Agree
use Prim.Native.Nat.{max}
use rust_fundamentals.Base.{
  ℕ, zero, suc, ◌+◌, ◌-◌, ◌*◌, ◌/◌, ◌%◌, ◌^◌, ◌≡◌, ◌&&◌, Option, some, none, List, [], ◌∷◌, ◌++◌,
  length, take, drop, ltb, leb, ◌==◌, if◌then◌else◌, ◌>>=◌,
}
use rust_fundamentals.Base.Bytes.{Bytes}
use rust_fundamentals.Base.Fallible.{ok, err}
use rust_fundamentals.Log.Lossy.{Text, newline, from_utf8_lossy, lines, is_empty}
use rust_fundamentals.Log.Parser.{parse_line}
use rust_fundamentals.Log.Stats.{Stats, default, record_entry, record_malformed, merge}

-- How far the `while` walks to the next newline.
unfoldable pub before_newline : Bytes → ℕ
before_newline [] = 0
before_newline (c ∷ rest) =
    let further = before_newline rest in if c == newline then 0 else suc further

unfoldable pub snap : Bytes → ℕ → ℕ
snap text raw =
    let end = raw + before_newline (drop raw text) in if ltb end (length text) then end + 1 else end

-- The bounds behind the first, from the `i`th of `n` on.
unfoldable pub bounds : Bytes → ℕ → ℕ → ℕ → List ℕ
bounds text n i zero = length text ∷ []
bounds text n i (suc more) = snap text (i * length text % 2 ^ 64 / n) ∷ bounds text n (i + 1) more

-- `&data[start..end]`
unfoldable pub slice : Bytes → ℕ → ℕ → Option Bytes
slice text start end =
    if leb start end && leb end (length text)
    then some (take (end - start) (drop start text))
    else none

-- The windows of two of the bounds.
unfoldable pub windows : Bytes → ℕ → List ℕ → Option (List Bytes)
windows text start [] = some []
windows text start (end ∷ ends) =
    slice text start end >>= λ chunk. windows text end ends >>= λ chunks. some (chunk ∷ chunks)

unfoldable pub nonempty : List (List ℕ) → List (List ℕ)
nonempty [] = []
nonempty (chunk ∷ chunks) =
    let rest = nonempty chunks in if is_empty chunk then rest else chunk ∷ rest

unfoldable pub split_into_chunks : Bytes → ℕ → Option (List Bytes)
split_into_chunks text n =
    if is_empty text
    then some []
    else (windows text 0 (bounds text (max n 1) 1 (max n 1 - 1)) >>= λ chunks.
        some (nonempty chunks))

module _ {F : Type 0} (parse_f32 : Text → Option F) where
  unfoldable pub record_line : Text → Stats F → Stats F
  record_line line stats = elim (parse_line parse_f32 line) [
    | ok entry ↦ record_entry entry stats
    | err e ↦ record_malformed stats
  ]

  unfoldable pub record_lines : List Text → Stats F → Stats F
  record_lines [] stats = stats
  record_lines (line ∷ ls) stats =
      record_lines ls (if is_empty line then stats else record_line line stats)

  unfoldable pub analyze_sequential : Bytes → Stats F
  analyze_sequential text = record_lines (lines (from_utf8_lossy text)) default

  -- A thread for each chunk, and the merge of what they give.
  unfoldable pub merge_chunks : List Bytes → Stats F → Stats F
  merge_chunks [] acc = acc
  merge_chunks (chunk ∷ chunks) acc = merge_chunks chunks (merge (analyze_sequential chunk) acc)

  unfoldable pub analyze_parallel : Bytes → ℕ → Option (Stats F)
  analyze_parallel text n_threads =
      split_into_chunks text n_threads >>= λ chunks. some (merge_chunks chunks default)

-- How a parallel iterator is worked off: a sequential fold over consecutive lines, an identity, or
-- the reduction of two parts.
pub data Split : Type 0 where
  identity : Split
  part : List Text → Split
  both : Split → Split → Split

abbrev pub lines_of : Split → List Text
lines_of identity = []
lines_of (part ls) = ls
lines_of (both left right) = lines_of left ++ lines_of right

-- The third-party iterator may split the lines as it likes, and keeps their order.
pub record Rayon : Type 0 where
  pub par_iter : List Text → Split
  pub keeps : (ls : List Text) → lines_of (par_iter ls) ≡ ls

module _ {F : Type 0} (parse_f32 : Text → Option F) where
  -- `fold`, where blank lines were left out before.
  unfoldable pub fold_lines : List Text → Stats F → Stats F
  fold_lines [] acc = acc
  fold_lines (line ∷ ls) acc = fold_lines ls (record_line parse_f32 line acc)

  unfoldable pub reduce : Split → Stats F
  reduce identity = default
  reduce (part ls) = fold_lines ls default
  reduce (both left right) = merge (reduce right) (reduce left)

  unfoldable pub analyze_rayon : Rayon → Bytes → Stats F
  analyze_rayon rayon text = reduce (rayon.par_iter (nonempty (lines (from_utf8_lossy text))))
