-- ===== src/Config/VarName.antt =====
-- 03-error-handling-api-design/src/var_name.rs and error.rs. Text is a list of code points; the
-- source of a parse failure is left out.
use rust_fundamentals.Base.{
  ℕ, ◌≤◌, ◌≡◌, ◌⊎◌, ◌↔◌, refl, inl, inr, Bool, true, false, ◌&&◌, ◌||◌, List, [], ◌∷◌, leb, ◌==◌,
  if◌then◌else◌, All, Bool-cases, arith,
}
use rust_fundamentals.Base.Fallible.{Result, ok, err}

abbrev pub Text : Type 0
Text = List ℕ

pub data Reason : Type 0 where
  empty : Reason
  first_char : Reason
  other_chars : Reason

pub data Error : Type 0 where
  missing : Text → Error
  parse_failed : Text → Error
  invalid_name : Text → Reason → Error
  not_requested : Text → Error

abbrev pub is_ascii_uppercase : ℕ → Bool
is_ascii_uppercase c = leb b'A' c && leb c b'Z'

abbrev pub is_ascii_digit : ℕ → Bool
is_ascii_digit c = leb b'0' c && leb c b'9'

abbrev pub valid : ℕ → Bool
valid c = is_ascii_uppercase c || is_ascii_digit c || c == b'_'

-- The loop over the characters behind the first.
unfoldable pub rest_valid : Text → Bool
rest_valid [] = true
rest_valid (c ∷ cs) = if valid c then rest_valid cs else false

pub record VarName : Type 0 where
  pub name : Text

unfoldable pub parse : Text → Result Error VarName
parse [] = err (invalid_name [] empty)
parse (c ∷ cs) =
    if is_ascii_uppercase c
    then (if rest_valid cs
        then ok (record { name = c ∷ cs })
        else err (invalid_name (c ∷ cs) other_chars))
    else err (invalid_name (c ∷ cs) first_char)

-- `[A-Z][A-Z0-9_]*`
abbrev Upper : ℕ → Type 0
Upper c = (65 ≤ c) × (c ≤ 90)

abbrev NameChar : ℕ → Type 0
NameChar c = Upper c ⊎ (((48 ≤ c) × (c ≤ 57)) ⊎ (c ≡ 95))

abbrev pub Matches : Text → Type 0
Matches [] = ⊥
Matches (c ∷ cs) = Upper c × All NameChar cs

Upper-of : (c : ℕ) → is_ascii_uppercase c ≡ true → Upper c
Upper-of c h = (ground arith, ground arith)

of-Upper : (c : ℕ) → Upper c → is_ascii_uppercase c ≡ true
of-Upper c h = ground arith

NameChar-of : (c : ℕ) → valid c ≡ true → NameChar c
NameChar-of c h = elim (Bool-cases (is_ascii_uppercase c)) [
  | inl upper ↦ inl (Upper-of c upper)
  | inr other ↦ elim (Bool-cases (is_ascii_digit c)) [
    | inl digit ↦ inr (inl (ground arith, ground arith))
    | inr neither ↦ inr (inr (ground arith))
  ]
]

of-NameChar : (c : ℕ) → NameChar c → valid c ≡ true
of-NameChar c (inl upper) = ground arith
of-NameChar c (inr (inl digit)) = ground arith
of-NameChar c (inr (inr e)) = ground arith

rest_valid-NameChar : (cs : Text) → (rest_valid cs ≡ true) ↔ All NameChar cs
unfolding rest_valid
rest_valid-NameChar [] = (λ h. tt, λ h. refl)
rest_valid-NameChar (c ∷ cs) =
    let (to, from) = rest_valid-NameChar cs in
    (
      λ h. elim (Bool-cases (valid c)) [
        | inl good ↦ (NameChar-of c good, to (rw good at h))
        | inr bad ↦ absurd (cc (rw bad at h))
      ],
      λ h. rw (of-NameChar c h.0) (from h.1),
    )

Upper-not : (c : ℕ) → is_ascii_uppercase c ≡ false → ¬ Upper c
Upper-not c h upper = cc (h, of-Upper c upper)

NameChars-not : (cs : Text) → rest_valid cs ≡ false → ¬ All NameChar cs
NameChars-not cs h all = cc (h, (rest_valid-NameChar cs).1 all)

-- What is wrong with a name that does not match.
abbrev pub Explains : Reason → Text → Type 0
Explains empty s = s ≡ []
Explains first_char s = (c : ℕ) × (cs : Text) × (s ≡ c ∷ cs) × (¬ Upper c)
Explains other_chars s = (c : ℕ) × (cs : Text) × (s ≡ c ∷ cs) × Upper c × (¬ All NameChar cs)

-- What is to come of a name.
abbrev pub Validated : Text → Result Error VarName → Type 0
Validated s result =
    (Matches s × (result ≡ ok (record { name = s })))
    ⊎ ((¬ Matches s) × ((why : Reason) × Explains why s × (result ≡ err (invalid_name s why))))

-- A name that matches `[A-Z][A-Z0-9_]*` is accepted as it is; every other text is refused as an
-- invalid name, with the reason that fits: it is empty, its first character is not A-Z, or its first
-- character is and a later one is not allowed.
pub parse-Validated : (s : Text) → Validated s (parse s)
unfolding parse
parse-Validated [] = inr (λ h. h, (empty, refl, refl))
parse-Validated (c ∷ cs) = elim (Bool-cases (is_ascii_uppercase c)) [
  | inr lower ↦
      rw lower
        (inr (λ m. Upper-not c lower m.0, (first_char, (c, cs, refl, Upper-not c lower), refl)))
  | inl upper ↦ elim (Bool-cases (rest_valid cs)) [
    | inl rest ↦ rw (upper, rest) (inl ((Upper-of c upper, (rest_valid-NameChar cs).0 rest), refl))
    | inr bad ↦
        rw (upper, bad)
          (inr (
            λ m. NameChars-not cs bad m.1,
            (other_chars, (c, cs, refl, Upper-of c upper, NameChars-not cs bad), refl),
          ))
  ]
]
