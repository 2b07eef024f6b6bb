-- ===== src/Log/Runner/Bounds.antt =====
-- The bounds of `split_into_chunks`, 04-concurrency/src/parallel.rs: they ascend, and stand behind
-- newlines.
use native.Mathlib.Nat.{le-div_iff_mul-le, div-le_of_le-mul, mul-le-mul_right, div-mul-le_self}
use rust_fundamentals.Base.{
  ℕ, zero, suc, ◌+◌, ◌-◌, ◌*◌, ◌/◌, ◌%◌, ◌^◌, ◌≤◌, ◌<◌, ◌≡◌, ◌⊎◌, refl, sym, ap, ◌∙◌, subst, inl,
  inr, List, [], ◌∷◌, ◌++◌, length, take, drop, take-add, drop-add, drop-nil, length-drop, ◌==◌,
  ltb, ltb→lt, ltb→ge, ==→eq, Bool-cases, arith,
}
use rust_fundamentals.Base.Bytes.{Bytes}
use rust_fundamentals.Log.Lossy.{newline}
use rust_fundamentals.Log.Lossy.Cut.{behind_newline}
use rust_fundamentals.Log.Runner.{before_newline, snap, bounds}
use rust_fundamentals.Log.Runner.Cuts.{Fresh, Boundary}

before_newline_short : (xs : Bytes) → before_newline xs ≤ length xs
unfolding before_newline
before_newline_short [] = omega arith
before_newline_short (x ∷ xs) = ground (arith, before_newline_short xs)

-- The walk stops at a newline or at the end.
at_newline :
    (xs : Bytes)
    → (drop (before_newline xs) xs ≡ [])
      ⊎ ((tail : Bytes) × (drop (before_newline xs) xs ≡ newline ∷ tail))
unfolding before_newline
at_newline [] = inl refl
at_newline (x ∷ xs) = elim (Bool-cases (x == newline)) [
  | inl nl ↦ rw nl (inr (xs, ap (λ c. c ∷ xs) (==→eq x newline nl)))
  | inr other ↦ rw other (at_newline xs)
]

walk_step :
    (raw : ℕ) (text : Bytes)
    → raw + before_newline (drop raw text) ≤ suc raw + before_newline (drop (suc raw) text)
unfolding before_newline
walk_step raw [] = rw (drop-nil {A = ℕ} raw) (omega arith)
walk_step zero (x ∷ xs) = ground arith
walk_step (suc raw) (x ∷ xs) = omega (arith, walk_step raw xs)

walk_mono :
    (raw more : ℕ) (text : Bytes)
    → raw + before_newline (drop raw text) ≤ (raw + more) + before_newline (drop (raw + more) text)
walk_mono raw zero text = let e : raw + 0 ≡ raw = omega arith in rw e (omega arith)
walk_mono raw (suc more) text =
    let e : raw + suc more ≡ suc (raw + more) = omega arith in
    rw e (omega (arith, walk_mono raw more text, walk_step (raw + more) text))

snap_mono : (raw raw' : ℕ) (text : Bytes) → raw ≤ raw' → snap text raw ≤ snap text raw'
unfolding snap
snap_mono raw raw' text h =
    let e : raw + (raw' - raw) ≡ raw' = omega arith in
    let below : raw + before_newline (drop raw text) ≤ raw' + before_newline (drop raw' text) =
      rw e at (walk_mono raw (raw' - raw) text) in
    ground (arith, below)

snap_long : (raw : ℕ) (text : Bytes) → raw ≤ length text → snap text raw ≤ length text
unfolding snap
snap_long raw text h = ground (arith, before_newline_short (drop raw text), length-drop raw text)

nil_of_length : (xs : Bytes) → length xs ≡ 0 → xs ≡ []
nil_of_length [] h = refl
nil_of_length (x ∷ xs) h = absurd (omega arith)

-- Where the walk stops within the input, it stops at a newline.
take_line :
    (text : Bytes) (raw : ℕ)
    → raw + before_newline (drop raw text) < length text
    → take (raw + before_newline (drop raw text) + 1) text
      ≡ take (raw + before_newline (drop raw text)) text ++ (newline ∷ [])
take_line text raw h =
    let end = raw + before_newline (drop raw text) in
    let there = drop-add raw (before_newline (drop raw text)) text in
    take-add end 1 text ∙ elim (at_newline (drop raw text)) [
      | inl over ↦ absurd (omega (arith, length-drop end text, ap length (there ∙ over)))
      | inr (tail, nl) ↦ ap (λ t. take end text ++ take 1 t) (there ∙ nl)
    ]

Boundary-snap : (text : Bytes) (raw : ℕ) → Boundary text (snap text raw)
unfolding snap
Boundary-snap text raw =
    let end = raw + before_newline (drop raw text) in
    elim (Bool-cases (ltb end (length text))) [
      | inl within ↦ rw within (
          inl (
            subst Fresh (sym (take_line text raw (ltb→lt end (length text) within)))
              (behind_newline (take end text))))
      | inr beyond ↦ rw beyond (
          inr (
            nil_of_length (drop end text)
              (omega (arith, length-drop end text, ltb→ge end (length text) beyond))))
    ]

-- Bounds behind a start: ascending, within the input, at boundaries, up to the end.
abbrev pub Ascending : Bytes → ℕ → List ℕ → Type 0
Ascending text start [] = drop start text ≡ []
Ascending text start (b ∷ bs) =
    (start ≤ b) × (b ≤ length text) × Boundary text b × Ascending text b bs

Boundary-length : (text : Bytes) → Boundary text (length text)
Boundary-length text =
    inr (nil_of_length (drop (length text) text) (omega (arith, length-drop (length text) text)))

raw_mono : (i n l : ℕ) → 0 < n → i * l / n ≤ (i + 1) * l / n
raw_mono i n l h =
    (le-div_iff_mul-le {k = n} {x = i * l / n} {y = (i + 1) * l} h).1 (
      omega
        (arith, div-mul-le_self (i * l) n, mul-le-mul_right {m = i} {n = i + 1} l (omega arith)))

-- The product of a bound's number and the length does not wrap.
raw_fits : (i n l : ℕ) → i ≤ n → n * l < 2 ^ 64 → i * l % 2 ^ 64 / n ≡ i * l / n
raw_fits i n l h fits = ap (λ p. p / n) (omega (arith, mul-le-mul_right {m = i} {n = n} l h))

pub bounds-Ascending :
    (text : Bytes) (n i more start : ℕ)
    → 0 < n
    → i + more ≤ n
    → n * length text < 2 ^ 64
    → start ≤ snap text (i * length text / n)
    → start ≤ length text
    → Ascending text start (bounds text n i more)
unfolding bounds
bounds-Ascending text n i zero start pos few fits low long = (
  long,
  omega arith,
  Boundary-length text,
  nil_of_length (drop (length text) text) (omega (arith, length-drop (length text) text)),
)
bounds-Ascending text n i (suc more) start pos few fits low long =
    let l = length text in
    let raw = i * l / n in
    let raw_long : raw ≤ l =
      div-le_of_le-mul n {m = i * l} {n = l} (mul-le-mul_right {m = i} {n = n} l (omega arith)) in
    let end_long = snap_long raw text raw_long in
    rw (raw_fits i n l (omega arith) fits) (
      low,
      end_long,
      Boundary-snap text raw,
      bounds-Ascending text n (i + 1) more (snap text raw) pos (omega arith) fits
          (snap_mono raw ((i + 1) * l / n) text (raw_mono i n l pos)) end_long,
    )
