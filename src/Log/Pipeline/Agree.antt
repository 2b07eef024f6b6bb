-- ===== src/Log/Pipeline/Agree.antt =====
-- Whichever workers take the batches, 04-concurrency/src/pipeline.rs gives the sequential aggregate, up
-- to the order of the request times.
use mathlib.Core.List.{Permᴰ}
use rust_fundamentals.Base.{
  ℕ, ◌<◌, ◌≡◌, refl, sym, subst, inl, inr, Option, List, [], ◌∷◌, length, All,
}
use rust_fundamentals.Base.Bytes.{Bytes}
use rust_fundamentals.Base.Fallible.{ok, err, Result-cases}
use rust_fundamentals.Log.Lossy.{Text}
use rust_fundamentals.Log.Parser.{LogEntry, ParseError, parse_line}
use rust_fundamentals.Log.Stats.{Stats, default, record_entry, record_malformed}
use rust_fundamentals.Log.Stats.Merged.{Sorted, default-Sorted}
use rust_fundamentals.Log.Stats.Reordered.{
  Alike, Alike-refl, Alike-trans, record_entry-Alike, record_malformed-Alike, record_entries-Alike,
  record_entry-record_malformed,
}
use rust_fundamentals.Log.Runner.{nonempty, record_line, fold_lines, analyze_sequential}
use rust_fundamentals.Log.Runner.Cuts.{text_lines}
use rust_fundamentals.Log.Runner.Agree.{record_lines-nonempty, record_line-Sorted}
use rust_fundamentals.Log.Pipeline.{produce, analyze_pipeline}
use rust_fundamentals.Log.Pipeline.Gathered.{
  produce-concat, gathered, gathered-concat, join_workers-lines,
}

module _ {F : Type 0} (parse_f32 : Text → Option F) where
  record_line-Alike :
      (l : Text) (s t : Stats F)
      → Alike s t
      → Alike (record_line parse_f32 l s) (record_line parse_f32 l t)
  unfolding record_line
  record_line-Alike l s t p = elim (Result-cases (parse_line parse_f32 l)) [
    | inl (e, good) ↦ rw (good, record_line) (record_entry-Alike e s t p)
    | inr (e, bad) ↦ rw (bad, record_line) (record_malformed-Alike s t p)
  ]

  Alike-of : (s t : Stats F) → s ≡ t → Alike s t
  Alike-of s t e = subst (Alike s) e (Alike-refl s)

  line_good :
      (l : Text) (e : LogEntry F)
      → parse_line parse_f32 l ≡ ok e
      → (s : Stats F) → record_line parse_f32 l s ≡ record_entry e s
  unfolding record_line
  line_good l e good s = rw (good, record_line) refl

  line_bad :
      (l : Text) (e : ParseError)
      → parse_line parse_f32 l ≡ err e
      → (s : Stats F) → record_line parse_f32 l s ≡ record_malformed s
  unfolding record_line
  line_bad l e bad s = rw (bad, record_line) refl

  record_lines-Alike :
      (k l : Text) (s : Stats F)
      → Sorted s
      → Alike
          (record_line parse_f32 l (record_line parse_f32 k s))
          (record_line parse_f32 k (record_line parse_f32 l s))
  record_lines-Alike k l s o = elim (Result-cases (parse_line parse_f32 k)) [
    | inl (d, k_good) ↦ elim (Result-cases (parse_line parse_f32 l)) [
      | inl (e, l_good) ↦
          rw
            (
              line_good l e l_good (record_line parse_f32 k s),
              line_good k d k_good s,
              line_good k d k_good (record_line parse_f32 l s),
              line_good l e l_good s,
            )
            (record_entries-Alike d e s o)
      | inr (e, l_bad) ↦
          rw
            (
              line_bad l e l_bad (record_line parse_f32 k s),
              line_good k d k_good s,
              line_good k d k_good (record_line parse_f32 l s),
              line_bad l e l_bad s,
            )
            (Alike-of _ _ (sym (record_entry-record_malformed d s)))
    ]
    | inr (d, k_bad) ↦ elim (Result-cases (parse_line parse_f32 l)) [
      | inl (e, l_good) ↦
          rw
            (
              line_good l e l_good (record_line parse_f32 k s),
              line_bad k d k_bad s,
              line_bad k d k_bad (record_line parse_f32 l s),
              line_good l e l_good s,
            )
            (Alike-of _ _ (record_entry-record_malformed e s))
      | inr (e, l_bad) ↦
          rw
            (
              line_bad l e l_bad (record_line parse_f32 k s),
              line_bad k d k_bad s,
              line_bad k d k_bad (record_line parse_f32 l s),
              line_bad l e l_bad s,
            )
            (Alike-refl (record_malformed (record_malformed s)))
    ]
  ]

  fold_lines-Alike :
      (ls : List Text) (s t : Stats F)
      → Alike s t
      → Alike (fold_lines parse_f32 ls s) (fold_lines parse_f32 ls t)
  unfolding fold_lines
  fold_lines-Alike [] s t p = p
  fold_lines-Alike (l ∷ ls) s t p = fold_lines-Alike ls _ _ (record_line-Alike l s t p)

  -- Lines in another order give the same aggregate up to the order of the request times.
  permuted-Alike :
      (ks ls : List Text) (s : Stats F)
      → Permᴰ ks ls
      → Sorted s
      → Alike (fold_lines parse_f32 ks s) (fold_lines parse_f32 ls s)
  unfolding fold_lines
  permuted-Alike ks ls s Permᴰ.nil o = Alike-refl s
  permuted-Alike ks ls s (Permᴰ.cons {a = a} {b = b} {l₁ = xs} {l₂ = ys} e p) o =
      subst
        (λ x.
          Alike (fold_lines parse_f32 xs (record_line parse_f32 a s))
            (fold_lines parse_f32 ys (record_line parse_f32 x s)))
        e (permuted-Alike xs ys (record_line parse_f32 a s) p (record_line-Sorted parse_f32 a s o))
  permuted-Alike ks ls s (Permᴰ.swap {a = a} {b = b} {a' = a'} {b' = b'} {l = l} e f) o =
      let rl = record_line parse_f32 in
      let before = fold_lines parse_f32 l (rl b (rl a s)) in
      subst (λ x. Alike before (fold_lines parse_f32 l (rl x (rl a' s)))) e
        (subst (λ y. Alike before (fold_lines parse_f32 l (rl a (rl y s)))) f
          (fold_lines-Alike l (rl b (rl a s)) (rl a (rl b s)) (record_lines-Alike a b s o)))
  permuted-Alike ks ls s (Permᴰ.trans {l₂ = ms} p q) o =
      Alike-trans _ _ _ (permuted-Alike ks ms s p o) (permuted-Alike ms ls s q o)

  -- When every batch is taken by one of the workers, the pipeline gives the sequential aggregate, up to
  -- the order of the request times.
  pub analyze_pipeline-Alike :
      (takers : List ℕ) (text : Bytes) (n_workers : ℕ)
      → length takers ≡ length (produce [] (text_lines text))
      → All (λ taker. taker < n_workers) takers
      → Alike (analyze_pipeline parse_f32 takers text n_workers) (analyze_sequential parse_f32 text)
  unfolding analyze_pipeline analyze_sequential fold_lines
  analyze_pipeline-Alike takers text n_workers count known =
      let batches = produce [] (text_lines text) in
      rw
        (
          join_workers-lines parse_f32 n_workers 0 batches takers [],
          record_lines-nonempty parse_f32 (text_lines text) default,
        )
        (permuted-Alike (gathered n_workers 0 batches takers) (nonempty (text_lines text)) default
          (subst (Permᴰ (gathered n_workers 0 batches takers)) (produce-concat [] (text_lines text))
            (gathered-concat n_workers batches takers count known))
          default-Sorted)
