-- ===== src/Log/Runner/Agree.antt =====
-- The drivers of 04-concurrency/src agree with the sequential one.
use Prim.Native.Nat.{max}
use rust_fundamentals.Base.{
  ℕ, ◌*◌, ◌^◌, ◌<◌, ◌≡◌, refl, sym, ap, ◌∙◌, inl, inr, Option, some, List, [], ◌∷◌, ◌++◌,
  append-nil, append_assoc, length, Bool-cases, ◌>>=◌,
}
use rust_fundamentals.Base.Bytes.{Bytes}
use rust_fundamentals.Base.Fallible.{Result-cases}
use rust_fundamentals.Log.Lossy.{Text, is_empty}
use rust_fundamentals.Log.Parser.{parse_line}
use rust_fundamentals.Log.Stats.{Stats, default, merge}
use rust_fundamentals.Log.Stats.Merged.{
  Sorted, Small, default-Sorted, default-Small, record_entry-Sorted, record_entry-Small,
  record_malformed-Sorted, record_malformed-Small, merge-default, merge-record_entry,
  merge-record_malformed,
}
use rust_fundamentals.Log.Runner.{
  nonempty, record_line, record_lines, fold_lines, analyze_sequential, merge_chunks,
  analyze_parallel, Split, identity, part, both, lines_of, Rayon, reduce, analyze_rayon,
}
use rust_fundamentals.Log.Runner.Cuts.{text_lines}
use rust_fundamentals.Log.Runner.Chunks.{all_lines, split_into_chunks-tile}

nonempty-append : (xs ys : List Text) → nonempty (xs ++ ys) ≡ nonempty xs ++ nonempty ys
unfolding nonempty
nonempty-append [] ys = refl
nonempty-append (x ∷ xs) ys = elim (Bool-cases (is_empty x)) [
  | inl blank ↦ rw blank (nonempty-append xs ys)
  | inr full ↦ rw full (ap (λ t. x ∷ t) (nonempty-append xs ys))
]

module _ {F : Type 0} (parse_f32 : Text → Option F) where
  -- Skipping blank lines on the way or before.
  pub record_lines-nonempty :
      (ls : List Text) (s : Stats F)
      → record_lines parse_f32 ls s ≡ fold_lines parse_f32 (nonempty ls) s
  unfolding record_lines nonempty fold_lines
  record_lines-nonempty [] s = refl
  record_lines-nonempty (l ∷ ls) s = elim (Bool-cases (is_empty l)) [
    | inl blank ↦ rw blank (record_lines-nonempty ls s)
    | inr full ↦ rw full (record_lines-nonempty ls (record_line parse_f32 l s))
  ]

  pub fold_lines-append :
      (xs ys : List Text) (s : Stats F)
      → fold_lines parse_f32 (xs ++ ys) s ≡ fold_lines parse_f32 ys (fold_lines parse_f32 xs s)
  unfolding fold_lines
  fold_lines-append [] ys s = refl
  fold_lines-append (x ∷ xs) ys s = fold_lines-append xs ys (record_line parse_f32 x s)

  pub record_line-Sorted : (l : Text) (s : Stats F) → Sorted s → Sorted (record_line parse_f32 l s)
  unfolding record_line
  record_line-Sorted l s o = elim (Result-cases (parse_line parse_f32 l)) [
    | inl (e, good) ↦ rw (good, record_line) (record_entry-Sorted e s o)
    | inr (e, bad) ↦ rw (bad, record_line) (record_malformed-Sorted s o)
  ]

  record_line-Small : (l : Text) (s : Stats F) → Small s → Small (record_line parse_f32 l s)
  unfolding record_line
  record_line-Small l s o = elim (Result-cases (parse_line parse_f32 l)) [
    | inl (e, good) ↦ rw (good, record_line) (record_entry-Small e s o)
    | inr (e, bad) ↦ rw (bad, record_line) (record_malformed-Small s o)
  ]

  fold_lines-Sorted : (ls : List Text) (s : Stats F) → Sorted s → Sorted (fold_lines parse_f32 ls s)
  unfolding fold_lines
  fold_lines-Sorted [] s o = o
  fold_lines-Sorted (l ∷ ls) s o =
      fold_lines-Sorted ls (record_line parse_f32 l s) (record_line-Sorted l s o)

  fold_lines-Small : (ls : List Text) (s : Stats F) → Small s → Small (fold_lines parse_f32 ls s)
  unfolding fold_lines
  fold_lines-Small [] s o = o
  fold_lines-Small (l ∷ ls) s o =
      fold_lines-Small ls (record_line parse_f32 l s) (record_line-Small l s o)

  merge-record_line :
      (l : Text) (t s : Stats F)
      → Sorted t
      → Sorted s
      → merge (record_line parse_f32 l t) s ≡ record_line parse_f32 l (merge t s)
  unfolding record_line
  merge-record_line l t s o p = elim (Result-cases (parse_line parse_f32 l)) [
    | inl (e, good) ↦ rw (good, record_line) (merge-record_entry e t s o p)
    | inr (e, bad) ↦ rw (bad, record_line) (merge-record_malformed t s)
  ]

  merge-fold_lines :
      (ls : List Text) (t s : Stats F)
      → Sorted t
      → Sorted s
      → merge (fold_lines parse_f32 ls t) s ≡ fold_lines parse_f32 ls (merge t s)
  unfolding fold_lines
  merge-fold_lines [] t s o p = refl
  merge-fold_lines (l ∷ ls) t s o p =
      merge-fold_lines ls (record_line parse_f32 l t) s (record_line-Sorted l t o) p
      ∙ ap (fold_lines parse_f32 ls) (merge-record_line l t s o p)

  -- Merging with the aggregate of lines is recording the lines.
  pub merge_lines :
      (before ls : List Text)
      → merge (fold_lines parse_f32 ls default) (fold_lines parse_f32 before default)
        ≡ fold_lines parse_f32 (before ++ ls) default
  merge_lines before ls =
      let s = fold_lines parse_f32 before default in
      merge-fold_lines ls default s default-Sorted (fold_lines-Sorted before default default-Sorted)
      ∙ ap (fold_lines parse_f32 ls)
          (merge-default s (fold_lines-Small before default default-Small))
      ∙ sym (fold_lines-append before ls default)

  merge_chunks-lines :
      (chunks : List Bytes) (before : List Text)
      → merge_chunks parse_f32 chunks (fold_lines parse_f32 before default)
        ≡ fold_lines parse_f32 (before ++ nonempty (all_lines chunks)) default
  unfolding merge_chunks analyze_sequential
  merge_chunks-lines [] before =
      unfold nonempty in ap (λ ls. fold_lines parse_f32 ls default) (sym (append-nil before))
  merge_chunks-lines (chunk ∷ chunks) before =
      let first = nonempty (text_lines chunk) in
      let rest = nonempty (all_lines chunks) in
      ap (λ s. merge_chunks parse_f32 chunks (merge s (fold_lines parse_f32 before default)))
        (record_lines-nonempty (text_lines chunk) default)
      ∙ ap (merge_chunks parse_f32 chunks) (merge_lines before first)
      ∙ merge_chunks-lines chunks (before ++ first)
      ∙ ap (λ ls. fold_lines parse_f32 ls default)
          (append_assoc before first rest
            ∙ ap (λ t. before ++ t) (sym (nonempty-append (text_lines chunk) (all_lines chunks))))

  -- When the number of threads, one at least, times the length of the input fits into 64 bits, the
  -- scoped threads give the sequential aggregate, without a panic.
  pub analyze_parallel-analyze_sequential :
      (text : Bytes) (n_threads : ℕ)
      → max n_threads 1 * length text < 2 ^ 64
      → analyze_parallel parse_f32 text n_threads ≡ some (analyze_sequential parse_f32 text)
  unfolding analyze_parallel analyze_sequential fold_lines
  analyze_parallel-analyze_sequential text n_threads fits =
      let (chunks, whole, short, full, bytes, ls) = split_into_chunks-tile text n_threads fits in
      rw (whole, ◌>>=◌)
        (ap some (
          merge_chunks-lines chunks []
          ∙ ap (λ t. fold_lines parse_f32 (nonempty t) default) ls
          ∙ sym (record_lines-nonempty (text_lines text) default)))

  reduce-lines_of :
      (split : Split) → reduce parse_f32 split ≡ fold_lines parse_f32 (lines_of split) default
  unfolding reduce
  reduce-lines_of identity = unfold fold_lines in refl
  reduce-lines_of (part ls) = refl
  reduce-lines_of (both left right) =
      rw (reduce-lines_of left, reduce-lines_of right)
        (merge_lines (lines_of left) (lines_of right))

  -- However the parallel iterator splits the lines and joins the parts, it gives the sequential
  -- aggregate.
  pub analyze_rayon-analyze_sequential :
      (rayon : Rayon) (text : Bytes)
      → analyze_rayon parse_f32 rayon text ≡ analyze_sequential parse_f32 text
  unfolding analyze_rayon analyze_sequential
  analyze_rayon-analyze_sequential rayon text =
      let ls = nonempty (text_lines text) in
      reduce-lines_of (rayon.par_iter ls)
      ∙ ap (λ t. fold_lines parse_f32 t default) (rayon.keeps ls)
      ∙ sym (record_lines-nonempty (text_lines text) default)
