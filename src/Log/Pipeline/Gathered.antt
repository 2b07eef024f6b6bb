-- ===== src/Log/Pipeline/Gathered.antt =====
-- Whichever workers take the batches, 04-concurrency/src/pipeline.rs gives the sequential aggregate, up
-- to the order of the request times.
use mathlib.Core.List.Permᴰ
use mathlib.Core.List.{Permᴰ}
use rust_fundamentals.Base.{
  ℕ, zero, suc, ◌+◌, ◌≤◌, ◌<◌, ◌≡◌, refl, sym, ap, ◌∙◌, inl, inr, Bool-cases, Option, List, [], ◌∷◌,
  ◌++◌, append-nil, append_assoc, length, ◌==◌, ==→eq, arith, All, if◌then◌else◌,
}
use rust_fundamentals.Log.Lossy.{Text, is_empty}
use rust_fundamentals.Log.Stats.{Stats, default, merge}
use rust_fundamentals.Log.Runner.{nonempty, fold_lines}
use rust_fundamentals.Log.Runner.Agree.{fold_lines-append, merge_lines}
use rust_fundamentals.Log.Pipeline.{batch_size, produce, worker, join_workers}

abbrev pub concat : List (List Text) → List Text
concat [] = []
concat (batch ∷ batches) = batch ++ concat batches

-- The producer sends the lines that are not blank, in order.
pub produce-concat : (batch ls : List Text) → concat (produce batch ls) ≡ batch ++ nonempty ls
unfolding produce nonempty
produce-concat [] [] = refl
produce-concat (l ∷ batch) [] = refl
produce-concat batch (line ∷ ls) = elim (Bool-cases (is_empty line)) [
  | inl blank ↦ rw (blank, produce) (produce-concat batch ls)
  | inr full ↦ elim (Bool-cases (length (batch ++ (line ∷ [])) == batch_size)) [
    | inl sent ↦
        rw (full, sent, produce)
          (ap (λ t. (batch ++ (line ∷ [])) ++ t) (produce-concat [] ls)
            ∙ append_assoc batch (line ∷ []) (nonempty ls))
    | inr more ↦
        rw (full, more, produce)
          (produce-concat (batch ++ (line ∷ [])) ls ∙ append_assoc batch (line ∷ []) (nonempty ls))
  ]
]

-- The lines of a worker's batches.
unfoldable pub own : ℕ → List (List Text) → List ℕ → List Text
own w (batch ∷ batches) (taker ∷ takers) =
    let rest = own w batches takers in if taker == w then batch ++ rest else rest
own w batches takers = []

unfoldable pub gathered : ℕ → ℕ → List (List Text) → List ℕ → List Text
gathered zero w batches takers = []
gathered (suc more) w batches takers = own w batches takers ++ gathered more (w + 1) batches takers

-- A batch that an earlier worker takes.
gathered-earlier :
    (more w : ℕ) (batch : List Text) (batches : List (List Text)) (taker : ℕ) (takers : List ℕ)
    → taker < w
    → gathered more w (batch ∷ batches) (taker ∷ takers) ≡ gathered more w batches takers
unfolding gathered own
gathered-earlier zero w batch batches taker takers h = refl
gathered-earlier (suc more) w batch batches taker takers h = elim (Bool-cases (taker == w)) [
  | inl same ↦ absurd (omega (arith, ==→eq taker w same))
  | inr other ↦ rw other (
      ap (λ t. own w batches takers ++ t)
        (gathered-earlier more (w + 1) batch batches taker takers (omega arith)))
]

perm_front : (xs ys zs : List Text) → Permᴰ (xs ++ (ys ++ zs)) (ys ++ (xs ++ zs))
perm_front xs [] zs = Permᴰ.refl (xs ++ zs)
perm_front xs (y ∷ ys) zs =
    Permᴰ.trans (Permᴰ.middle y xs (ys ++ zs)) (Permᴰ.cons refl (perm_front xs ys zs))

-- A batch that one of the workers takes.
gathered-taken :
    (more w : ℕ) (batch : List Text) (batches : List (List Text)) (taker : ℕ) (takers : List ℕ)
    → w ≤ taker
    → taker < w + more
    → Permᴰ
        (gathered more w (batch ∷ batches) (taker ∷ takers))
        (batch ++ gathered more w batches takers)
unfolding gathered own
gathered-taken zero w batch batches taker takers low high = absurd (omega arith)
gathered-taken (suc more) w batch batches taker takers low high = elim (Bool-cases (taker == w)) [
  | inl same ↦
      rw
        (
          same,
          gathered-earlier more (w + 1) batch batches taker takers
              (omega (arith, ==→eq taker w same)),
          append_assoc batch (own w batches takers) (gathered more (w + 1) batches takers),
        )
        (Permᴰ.refl (batch ++ (own w batches takers ++ gathered more (w + 1) batches takers)))
  | inr other ↦ rw other (
      Permᴰ.trans
        (Permᴰ.append_left (own w batches takers)
          (gathered-taken more (w + 1) batch batches taker takers (ground arith) (omega arith)))
        (perm_front (own w batches takers) batch (gathered more (w + 1) batches takers)))
]

gathered-nil : (more w : ℕ) (takers : List ℕ) → gathered more w [] takers ≡ []
unfolding gathered own
gathered-nil zero w takers = refl
gathered-nil (suc more) w [] = gathered-nil more (w + 1) []
gathered-nil (suc more) w (taker ∷ takers) = gathered-nil more (w + 1) (taker ∷ takers)

-- When every batch is taken by one of the workers, together they have all the lines.
pub gathered-concat :
    (n : ℕ) (batches : List (List Text)) (takers : List ℕ)
    → length takers ≡ length batches
    → All (λ taker. taker < n) takers
    → Permᴰ (gathered n 0 batches takers) (concat batches)
gathered-concat n [] takers count known = rw (gathered-nil n 0 takers) Permᴰ.nil
gathered-concat n (batch ∷ batches) [] count known = absurd (omega arith)
gathered-concat n (batch ∷ batches) (taker ∷ takers) count (first, known) =
    Permᴰ.trans (gathered-taken n 0 batch batches taker takers (omega arith) (omega arith))
      (Permᴰ.append_left batch (gathered-concat n batches takers (omega arith) known))

module _ {F : Type 0} (parse_f32 : Text → Option F) where
  worker-lines :
      (w : ℕ) (batches : List (List Text)) (takers : List ℕ) (local : Stats F)
      → worker parse_f32 w batches takers local ≡ fold_lines parse_f32 (own w batches takers) local
  unfolding worker own fold_lines
  worker-lines w [] takers local = refl
  worker-lines w (batch ∷ batches) [] local = refl
  worker-lines w (batch ∷ batches) (taker ∷ takers) local = elim (Bool-cases (taker == w)) [
    | inl mine ↦ rw mine (
        worker-lines w batches takers (fold_lines parse_f32 batch local)
        ∙ sym (fold_lines-append parse_f32 batch (own w batches takers) local))
    | inr other ↦ rw other (worker-lines w batches takers local)
  ]

  pub join_workers-lines :
      (more w : ℕ) (batches : List (List Text)) (takers : List ℕ) (before : List Text)
      → join_workers parse_f32 more w batches takers (fold_lines parse_f32 before default)
        ≡ fold_lines parse_f32 (before ++ gathered more w batches takers) default
  unfolding join_workers gathered
  join_workers-lines zero w batches takers before =
      ap (λ ls. fold_lines parse_f32 ls default) (sym (append-nil before))
  join_workers-lines (suc more) w batches takers before =
      ap (join_workers parse_f32 more (w + 1) batches takers) (
        ap (λ s. merge s (fold_lines parse_f32 before default))
          (worker-lines w batches takers default)
        ∙ merge_lines parse_f32 before (own w batches takers))
      ∙ join_workers-lines more (w + 1) batches takers (before ++ own w batches takers)
      ∙ ap (λ ls. fold_lines parse_f32 ls default)
          (append_assoc before (own w batches takers) (gathered more (w + 1) batches takers))
