-- ===== src/Log/Pipeline.antt =====
-- 04-concurrency/src/pipeline.rs. Which worker takes a batch from the channel is up to the scheduler:
-- it is an argument, the worker of each batch in the order of the sends. A worker takes its batches in
-- that order, and ends when the channel is empty and the sender is gone.
pub mod Gathered
pub mod Agree
use rust_fundamentals.Base.{
  ℕ, true, false, zero, suc, ◌+◌, Option, List, [], ◌∷◌, ◌++◌, length, ◌==◌, if◌then◌else◌,
}
use rust_fundamentals.Base.Bytes.{Bytes}
use rust_fundamentals.Log.Lossy.{Text, lines, from_utf8_lossy, is_empty}
use rust_fundamentals.Log.Stats.{Stats, default, merge}
use rust_fundamentals.Log.Runner.{fold_lines}

abbrev pub batch_size : ℕ
batch_size = 1024

abbrev flush : List Text → List (List Text)
flush [] = []
flush (line ∷ ls) = (line ∷ ls) ∷ []

-- The producer: what it sends, when it has gathered a batch so far.
unfoldable pub produce : List Text → List Text → List (List Text)
produce batch [] = flush batch
produce batch (line ∷ ls) = elim (is_empty line) [
  | true ↦ produce batch ls
  | false ↦ elim (length (batch ++ (line ∷ [])) == batch_size) [
    | true ↦ (batch ++ (line ∷ [])) ∷ produce [] ls
    | false ↦ produce (batch ++ (line ∷ [])) ls
  ]
]

module _ {F : Type 0} (parse_f32 : Text → Option F) where
  -- A worker's loop, by its number.
  unfoldable pub worker : ℕ → List (List Text) → List ℕ → Stats F → Stats F
  worker w (batch ∷ batches) (taker ∷ takers) local =
      worker w batches takers (if taker == w then fold_lines parse_f32 batch local else local)
  worker w batches takers local = local

  -- The workers joined and merged in the order of their numbers, from `w` on.
  unfoldable pub join_workers : ℕ → ℕ → List (List Text) → List ℕ → Stats F → Stats F
  join_workers zero w batches takers acc = acc
  join_workers (suc more) w batches takers acc =
      join_workers more (w + 1) batches takers (merge (worker w batches takers default) acc)

  unfoldable pub analyze_pipeline : List ℕ → Bytes → ℕ → Stats F
  analyze_pipeline takers text n_workers =
      join_workers n_workers 0 (produce [] (lines (from_utf8_lossy text))) takers default
