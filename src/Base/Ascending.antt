-- ===== src/Base/Ascending.antt =====
-- Lists in the strict order of their elements' keys.
use Prim.Native.Nat.{ℕ, zero, suc, ◌<◌}
use Prim.Native.Nat.Ordering.{lt}
use mathlib.Core.Path.{◌≡◌, refl, subst}
use mathlib.Core.Option.{some}
use mathlib.Core.List.{List, [], ◌∷◌}
use native.Mathlib.Omega.{arith}
use rust_fundamentals.Base.Lists.{All, length, get_elem?}
use rust_fundamentals.Base.Bytes.{Bytes}
use rust_fundamentals.Base.Order.{cmp}

module _ {A : Type 0} (key : A → Bytes) where
  abbrev pub Ascending : List A → Type 0
  Ascending [] = Unit {0}
  Ascending (x ∷ xs) = All (λ y. cmp (key x) (key y) ≡ lt) xs × Ascending xs

pub get_elem?-lt {ℓ} :
    {A : Type ℓ} (xs : List A) (i : ℕ) → i < length xs → (a : A) × (get_elem? xs i ≡ some a)
get_elem?-lt [] i h = absurd (omega arith)
get_elem?-lt (x ∷ xs) zero h = (x, refl)
get_elem?-lt (x ∷ xs) (suc i) h = get_elem?-lt xs i (omega arith)

pub lt_of_get_elem? {ℓ} :
    {A : Type ℓ} (xs : List A) (i : ℕ) {a : A} → get_elem? xs i ≡ some a → i < length xs
lt_of_get_elem? [] i h = absurd (cc)
lt_of_get_elem? (x ∷ xs) zero h = omega arith
lt_of_get_elem? (x ∷ xs) (suc i) h = omega (arith, lt_of_get_elem? xs i h)

pub All-get_elem? {ℓ κ} :
    {A : Type ℓ} (P : A → Type κ) (xs : List A) (i : ℕ) {a : A}
    → All P xs
    → get_elem? xs i ≡ some a
    → P a
All-get_elem? P [] i h e = absurd (cc)
All-get_elem? P (x ∷ xs) zero (h, hs) e = subst P (cc e) h
All-get_elem? P (x ∷ xs) (suc i) (h, hs) e = All-get_elem? P xs i hs e

-- Of two places the first has the smaller key.
pub Ascending-get_elem? :
    {A : Type 0} (key : A → Bytes) (xs : List A) (i j : ℕ) {a b : A}
    → Ascending key xs
    → i < j
    → get_elem? xs i ≡ some a
    → get_elem? xs j ≡ some b
    → cmp (key a) (key b) ≡ lt
Ascending-get_elem? key [] i j s h p q = absurd (cc p)
Ascending-get_elem? key (x ∷ xs) i zero s h p q = absurd (omega arith)
Ascending-get_elem? key (x ∷ xs) zero (suc j) {a} {b} (behind, s) h p q =
    subst (λ t. cmp (key t) (key b) ≡ lt) (cc p)
      (All-get_elem? (λ y. cmp (key x) (key y) ≡ lt) xs j behind q)
Ascending-get_elem? key (x ∷ xs) (suc i) (suc j) (behind, s) h p q =
    Ascending-get_elem? key xs i j s (omega arith) p q
