-- ===== src/Brc/Runner/Chunks.antt =====
-- `split_chunks` of 08-performance/src/io.rs: the chunks tile the buffer, and no line is cut.
use Prim.Native.Nat.{min}
use rust_fundamentals.Base.{
  ◌||◌, none, ℕ, zero, suc, ◌/◌, ◌≤◌, ◌<◌, ◌≡◌, ◌⊎◌, refl, sym, ap, ◌∙◌, inl, inr, true, false,
  some, List, [], ◌∷◌, ◌++◌, append-nil, length, take, drop, take-append-drop, take-add, drop-add,
  take_of_drop, ◌==◌, ltb, ltb→lt, ltb→ge, Bool-cases, arith, All,
}
use rust_fundamentals.Base.Bytes.{Bytes}
use rust_fundamentals.Brc.Runner.{
  newline, walk, cut_at, is_empty, allocates, chunk_loop, split_chunks,
}
use rust_fundamentals.Brc.Runner.Lines.{lines, left_over, lines-append}

left_over-append :
    (line xs ys : Bytes) → left_over line (xs ++ ys) ≡ left_over (left_over line xs) ys
unfolding left_over
left_over-append line [] ys = refl
left_over-append line (c ∷ xs) ys = elim (Bool-cases (c == newline)) [
  | inl nl ↦ rw (nl, left_over) (left_over-append [] xs ys)
  | inr other ↦ rw (other, left_over) (left_over-append (line ++ (c ∷ [])) xs ys)
]

left_over-walk :
    (line rest : Bytes)
    → (left_over line (take (walk rest) rest) ≡ []) ⊎ (drop (walk rest) rest ≡ [])
unfolding left_over walk
left_over-walk line [] = inr refl
left_over-walk line (c ∷ rest) = elim (Bool-cases (c == newline)) [
  | inl nl ↦ rw nl (inl (rw (nl, left_over)))
  | inr other ↦ rw other (elim (left_over-walk (line ++ (c ∷ [])) rest) [
    | inl whole ↦ inl (rw (other, left_over) whole)
    | inr end ↦ inr end
  ])
]

-- A cut stands behind a newline or at the end of the buffer.
left_over-cut :
    (approx : ℕ) (rest : Bytes)
    → (left_over [] (take (cut_at approx rest) rest) ≡ []) ⊎ (drop (cut_at approx rest) rest ≡ [])
unfolding cut_at
left_over-cut approx rest =
    let end = min approx (length rest) in
    let further = walk (drop end rest) in
    elim (left_over-walk (left_over [] (take end rest)) (drop end rest)) [
      | inl whole ↦ inl (
          ap (left_over []) (take-add end further rest)
          ∙ left_over-append [] (take end rest) (take further (drop end rest))
          ∙ whole)
      | inr last ↦ inr (drop-add end further rest ∙ last)
    ]

walk_pos : (c : ℕ) (rest : Bytes) → 0 < walk (c ∷ rest)
unfolding walk
walk_pos c rest = ground arith

cut_at_pos : (approx c : ℕ) (rest : Bytes) → 0 < cut_at approx (c ∷ rest)
unfolding cut_at
cut_at_pos approx c rest = elim (Bool-cases (ltb 0 (min approx (length (c ∷ rest))))) [
  | inl some_way ↦ omega (arith, ltb→lt 0 (min approx (length (c ∷ rest))) some_way)
  | inr none_yet ↦
      let e : min approx (length (c ∷ rest)) ≡ 0 =
        omega (arith, ltb→ge 0 (min approx (length (c ∷ rest))) none_yet) in
      rw e (omega (arith, walk_pos c rest))
]

-- The lines that newlines end, chunk by chunk.
abbrev pub all_lines : List Bytes → List Bytes
all_lines [] = []
all_lines (chunk ∷ chunks) = lines [] chunk ++ all_lines chunks

abbrev pub concat : List Bytes → Bytes
concat [] = []
concat (chunk ∷ chunks) = chunk ++ concat chunks

nil_of_empty : (xs : Bytes) → is_empty xs ≡ true → xs ≡ []
nil_of_empty [] h = refl
nil_of_empty (x ∷ xs) h = absurd (cc h)

lines_split :
    (approx : ℕ) (rest : Bytes)
    → lines [] (take (cut_at approx rest) rest) ++ lines [] (drop (cut_at approx rest) rest)
      ≡ lines [] rest
lines_split approx rest =
    let end = cut_at approx rest in
    let split = lines-append [] (take end rest) (drop end rest) in
    elim (left_over-cut approx rest) [
      | inl whole ↦
          ap (λ t. lines [] (take end rest) ++ lines t (drop end rest)) (sym whole)
          ∙ sym split
          ∙ ap (lines []) (take-append-drop end rest)
      | inr last ↦
          ap (λ t. lines [] (take end rest) ++ lines [] t) last
          ∙ unfold lines in
            (append-nil (lines [] (take end rest)) ∙ ap (lines []) (take_of_drop end rest last))
    ]

chunk_loop-lines :
    (cuts approx : ℕ) (rest : Bytes) → all_lines (chunk_loop cuts approx rest) ≡ lines [] rest
unfolding chunk_loop
chunk_loop-lines zero approx [] = unfold lines in refl
chunk_loop-lines zero approx (c ∷ rest) = append-nil (lines [] (c ∷ rest))
chunk_loop-lines (suc cuts) approx rest =
    let end = cut_at approx rest in
    elim (Bool-cases (is_empty (drop end rest))) [
      | inl last ↦ rw last (
          append-nil (lines [] (take end rest))
          ∙ ap (lines []) (take_of_drop end rest (nil_of_empty (drop end rest) last)))
      | inr more ↦ rw more (
          ap (λ t. lines [] (take end rest) ++ t) (chunk_loop-lines cuts approx (drop end rest))
          ∙ lines_split approx rest)
    ]

chunk_loop-concat : (cuts approx : ℕ) (rest : Bytes) → concat (chunk_loop cuts approx rest) ≡ rest
unfolding chunk_loop
chunk_loop-concat zero approx [] = refl
chunk_loop-concat zero approx (c ∷ rest) = append-nil (c ∷ rest)
chunk_loop-concat (suc cuts) approx rest =
    let end = cut_at approx rest in
    elim (Bool-cases (is_empty (drop end rest))) [
      | inl last ↦
          rw last
            (append-nil (take end rest) ∙ take_of_drop end rest (nil_of_empty (drop end rest) last))
      | inr more ↦ rw more (
          ap (λ t. take end rest ++ t) (chunk_loop-concat cuts approx (drop end rest))
          ∙ take-append-drop end rest)
    ]

chunk_loop-length :
    (cuts approx : ℕ) (rest : Bytes) → length (chunk_loop cuts approx rest) ≤ suc cuts
unfolding chunk_loop
chunk_loop-length zero approx [] = omega arith
chunk_loop-length zero approx (c ∷ rest) = omega arith
chunk_loop-length (suc cuts) approx rest =
    let ih = chunk_loop-length cuts approx (drop (cut_at approx rest) rest) in
    elim (Bool-cases (is_empty (drop (cut_at approx rest) rest))) [
      | inl last ↦ rw last (omega arith)
      | inr more ↦ rw more (omega (arith, ih))
    ]

take_pos : (n c : ℕ) (rest : Bytes) → 0 < n → is_empty (take n (c ∷ rest)) ≡ false
take_pos zero c rest h = absurd (omega arith)
take_pos (suc n) c rest h = refl

chunk_loop-nonempty :
    (cuts approx : ℕ) (rest : Bytes)
    → is_empty rest ≡ false
    → All (λ chunk. is_empty chunk ≡ false) (chunk_loop cuts approx rest)
unfolding chunk_loop
chunk_loop-nonempty cuts approx [] h = absurd (cc h)
chunk_loop-nonempty zero approx (c ∷ rest) h = (refl, tt)
chunk_loop-nonempty (suc cuts) approx (c ∷ rest) h =
    let end = cut_at approx (c ∷ rest) in
    let first = take_pos end c rest (cut_at_pos approx c rest) in
    elim (Bool-cases (is_empty (drop end (c ∷ rest)))) [
      | inl last ↦ rw last (first, tt)
      | inr more ↦ rw more (first, chunk_loop-nonempty cuts approx (drop end (c ∷ rest)) more)
    ]

-- For any buffer and any positive number of pieces, whose vector can be allocated where the buffer is
-- not empty, `split_chunks` gives at most that many chunks, none of them empty, which make the buffer
-- when they are put together, and the lines that newlines end in the chunks, chunk by chunk, are those
-- of the buffer.
pub split_chunks-tile :
    (buf : Bytes) (n : ℕ)
    → 0 < n
    → (is_empty buf || allocates n) ≡ true
    → (chunks : List Bytes) × (split_chunks buf n ≡ some chunks)
      × (length chunks ≤ n)
      × All (λ chunk. is_empty chunk ≡ false) chunks
      × (concat chunks ≡ buf)
      × (all_lines chunks ≡ lines [] buf)
unfolding split_chunks
split_chunks-tile buf zero h fits = absurd (omega arith)
split_chunks-tile [] (suc cuts) h fits = ([], refl, omega arith, tt, refl, unfold lines in refl)
split_chunks-tile (c ∷ rest) (suc cuts) h fits =
    let approx = length (c ∷ rest) / suc cuts in
    (
      chunk_loop cuts approx (c ∷ rest),
      rw fits refl,
      chunk_loop-length cuts approx (c ∷ rest),
      chunk_loop-nonempty cuts approx (c ∷ rest) refl,
      chunk_loop-concat cuts approx (c ∷ rest),
      chunk_loop-lines cuts approx (c ∷ rest),
    )

-- Of a buffer that is not empty, more pieces than can be allocated are a panic.
pub split_chunks-overflow :
    (buf : Bytes) (n : ℕ) → (is_empty buf || allocates n) ≡ false → split_chunks buf n ≡ none
unfolding split_chunks
split_chunks-overflow [] n over = absurd (cc over)
split_chunks-overflow (c ∷ rest) zero over = refl
split_chunks-overflow (c ∷ rest) (suc cuts) over = rw over refl
