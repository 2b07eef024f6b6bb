-- ===== src/Base/Map.antt =====
-- What the programs use of `BTreeMap<Vec<u8>, V>`: a list of entries in the order of their keys.
pub mod Laws
pub mod Sorted
pub mod Ext
pub mod Remove
use Prim.Native.Nat.Ordering.{lt, eq, gt}
use mathlib.Core.List.{map}
use rust_fundamentals.Base.Tests.{if◌then◌else◌}
use mathlib.Core.Bool.{Bool, true, false}
use mathlib.Core.Option.{Option, none, some}
use mathlib.Core.List.{List, [], ◌∷◌}
use rust_fundamentals.Base.Bytes.{Bytes}
use rust_fundamentals.Base.Order.{cmp}

abbrev pub Map {ℓ} : Type ℓ → Type ℓ
Map V = List (Bytes × V)

-- `==` on keys
unfoldable pub key_eq : Bytes → Bytes → Bool
key_eq a b = elim (cmp a b) [ eq ↦ true | _ ↦ false ]

module _ {ℓ} {V : Type ℓ} where
  unfoldable pub get : Bytes → Map V → Option V
  get k [] = none
  get k ((j, v) ∷ m) = let rest = get k m in elim (cmp k j) [ lt ↦ none | eq ↦ some v | gt ↦ rest ]

  unfoldable pub insert : Bytes → V → Map V → Map V
  insert k v [] = (k, v) ∷ []
  insert k v ((j, w) ∷ m) =
      let rest = insert k v m in
      elim (cmp k j) [ lt ↦ (k, v) ∷ (j, w) ∷ m | eq ↦ (k, v) ∷ m | gt ↦ (j, w) ∷ rest ]

  abbrev pub values : Map V → List V
  values = map (λ e. e.1)

module _ {ℓ} {V : Type ℓ} where
  unfoldable pub remove : Bytes → Map V → Map V
  remove k [] = []
  remove k ((j, v) ∷ m) =
      let rest = remove k m in elim (cmp k j) [ lt ↦ (j, v) ∷ m | eq ↦ m | gt ↦ (j, v) ∷ rest ]

  -- `retain` by the values.
  unfoldable pub retain : (V → Bool) → Map V → Map V
  retain p [] = []
  retain p ((j, v) ∷ m) = let rest = retain p m in if p v then (j, v) ∷ rest else rest
