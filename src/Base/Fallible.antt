-- ===== src/Base/Fallible.antt =====
-- Rust's `Result<A, E>`: the answer of a call that can be refused.
use mathlib.Core.Path.{◌≡◌, refl}
use mathlib.Core.Logic.{◌⊎◌, inl, inr}

pub data Result {ℓ} (E : Type 0) (A : Type ℓ) : Type ℓ where
  err : E → Result E A
  ok : A → Result E A

module _ {ℓ} {E : Type 0} {A : Type ℓ} where
  -- `?`
  infixl 5 ◌>>=◌
  abbrev pub ◌>>=◌ {κ} : {B : Type κ} → Result E A → (A → Result E B) → Result E B
  err refusal >>= next = err refusal
  ok answer >>= next = next answer

  pub Result-cases :
      (r : Result E A) → ((answer : A) × (r ≡ ok answer)) ⊎ ((refusal : E) × (r ≡ err refusal))
  Result-cases (err refusal) = inr (refusal, refl)
  Result-cases (ok answer) = inl (answer, refl)

  pub ok_injective : (a b : A) → Path (Result E A) (ok a) (ok b) → a ≡ b
  ok_injective a b e = cc e

module _ {ℓ κ} {E : Type 0} {A : Type ℓ} {B : Type κ} where
  -- Where a chain is answered, its first call was.
  pub answered :
      (first : Result E A) (next : A → Result E B) {end : B}
      → (first >>= next) ≡ ok end
      → (answer : A) × (first ≡ ok answer) × (next answer ≡ ok end)
  answered (err refusal) next h = absurd (cc h)
  answered (ok answer) next h = (answer, refl, h)
