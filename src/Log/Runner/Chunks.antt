-- ===== src/Log/Runner/Chunks.antt =====
-- `split_into_chunks` of 04-concurrency/src/parallel.rs: the chunks tile the input, and no line is cut.
use Prim.Native.Nat.{max}
use rust_fundamentals.Base.{
  ℕ, zero, suc, ◌+◌, ◌-◌, ◌*◌, ◌^◌, ◌≤◌, ◌<◌, ◌≡◌, refl, sym, ap, ◌∙◌, inl, inr, true, false,
  Option, some, List, [], ◌∷◌, ◌++◌, length, take, drop, le→leb, Bool-cases, arith, All, ◌>>=◌,
}
use rust_fundamentals.Base.Bytes.{Bytes}
use rust_fundamentals.Log.Lossy.{Text, is_empty}
use rust_fundamentals.Log.Runner.{bounds, slice, windows, nonempty, split_into_chunks}
use rust_fundamentals.Log.Runner.Cuts.{
  text_lines, Boundary, Boundary-zero, part-lines, part-rest, no_lines,
}
use rust_fundamentals.Log.Runner.Bounds.{Ascending, bounds-Ascending}

-- The lines of the chunks, chunk by chunk.
abbrev pub all_lines : List Bytes → List Text
all_lines [] = []
all_lines (chunk ∷ chunks) = text_lines chunk ++ all_lines chunks

abbrev pub concat : List Bytes → Bytes
concat [] = []
concat (chunk ∷ chunks) = chunk ++ concat chunks

Tiles : Bytes → ℕ → List ℕ → Option (List Bytes) → Type 0
Tiles text start ends result =
    (chunks : List Bytes) × (result ≡ some chunks)
    × (length chunks ≡ length ends)
    × (concat chunks ≡ drop start text)
    × (all_lines chunks ≡ text_lines (drop start text))

windows-Tiles :
    (text : Bytes) (start : ℕ) (ends : List ℕ)
    → Ascending text start ends
    → Boundary text start
    → Tiles text start ends (windows text start ends)
unfolding windows slice Tiles
windows-Tiles text start [] over at =
    ([], refl, refl, sym over, sym (ap text_lines over ∙ no_lines))
windows-Tiles text start (end ∷ ends) (low, long, next, later) at =
    let (chunks, whole, count, bytes, ls) = windows-Tiles text end ends later next in
    (
      take (end - start) (drop start text) ∷ chunks,
      rw (le→leb start end low, le→leb end (length text) long, ◌>>=◌) (rw (whole, ◌>>=◌) refl),
      ap suc count,
      ap (λ t. take (end - start) (drop start text) ++ t) bytes ∙ part-rest text start end low,
      ap (λ t. text_lines (take (end - start) (drop start text)) ++ t) ls
          ∙ part-lines text start end low at next,
    )

nil_of_empty : (xs : Bytes) → is_empty xs ≡ true → xs ≡ []
nil_of_empty [] h = refl
nil_of_empty (x ∷ xs) h = absurd (cc h)

nonempty-lines : (chunks : List Bytes) → all_lines (nonempty chunks) ≡ all_lines chunks
unfolding nonempty
nonempty-lines [] = refl
nonempty-lines (chunk ∷ chunks) = elim (Bool-cases (is_empty chunk)) [
  | inl none_there ↦ rw none_there (
      nonempty-lines chunks
      ∙ ap (λ t. t ++ all_lines chunks)
          (sym (ap text_lines (nil_of_empty chunk none_there) ∙ no_lines)))
  | inr some_there ↦ rw some_there (ap (λ t. text_lines chunk ++ t) (nonempty-lines chunks))
]

nonempty-concat : (chunks : List Bytes) → concat (nonempty chunks) ≡ concat chunks
unfolding nonempty
nonempty-concat [] = refl
nonempty-concat (chunk ∷ chunks) = elim (Bool-cases (is_empty chunk)) [
  | inl none_there ↦
      rw none_there (
        nonempty-concat chunks ∙ ap (λ t. t ++ concat chunks) (sym (nil_of_empty chunk none_there)))
  | inr some_there ↦ rw some_there (ap (λ t. chunk ++ t) (nonempty-concat chunks))
]

nonempty-length : (chunks : List Bytes) → length (nonempty chunks) ≤ length chunks
unfolding nonempty
nonempty-length [] = omega arith
nonempty-length (chunk ∷ chunks) = ground (arith, nonempty-length chunks)

nonempty-All : (chunks : List Bytes) → All (λ chunk. is_empty chunk ≡ false) (nonempty chunks)
unfolding nonempty
nonempty-All [] = tt
nonempty-All (chunk ∷ chunks) = elim (Bool-cases (is_empty chunk)) [
  | inl none_there ↦ rw none_there (nonempty-All chunks)
  | inr some_there ↦ rw some_there (some_there, nonempty-All chunks)
]

bounds-length : (text : Bytes) (n i more : ℕ) → length (bounds text n i more) ≡ suc more
unfolding bounds
bounds-length text n i zero = refl
bounds-length text n i (suc more) = ap suc (bounds-length text n (i + 1) more)

-- When the number of threads, one at least, times the length of the input fits into 64 bits,
-- `split_into_chunks` does not panic and gives at most that many chunks, none of them empty, which
-- make the input when they are put together, and whose lines, chunk by chunk, are the input's lines.
pub split_into_chunks-tile :
    (text : Bytes) (n : ℕ)
    → max n 1 * length text < 2 ^ 64
    → (chunks : List Bytes) × (split_into_chunks text n ≡ some chunks)
      × (length chunks ≤ max n 1)
      × All (λ chunk. is_empty chunk ≡ false) chunks
      × (concat chunks ≡ text)
      × (all_lines chunks ≡ text_lines text)
unfolding split_into_chunks Tiles
split_into_chunks-tile [] n fits = ([], refl, omega arith, tt, refl, sym no_lines)
split_into_chunks-tile (c ∷ rest) n fits =
    let text = c ∷ rest in
    let m = max n 1 in
    let order =
      bounds-Ascending text m 1 (m - 1) 0 (omega arith) (omega arith) fits (omega arith)
        (omega arith) in
    let (chunks, whole, count, bytes, ls) =
      windows-Tiles text 0 (bounds text m 1 (m - 1)) order (Boundary-zero text) in
    (
      nonempty chunks,
      rw (whole, ◌>>=◌) refl,
      omega (arith, nonempty-length chunks, count, bounds-length text m 1 (m - 1)),
      nonempty-All chunks,
      nonempty-concat chunks ∙ bytes,
      nonempty-lines chunks ∙ ls,
    )
