-- ===== src/Rudis/Tests.antt =====
-- The theorems on the keyspace at concrete inputs.
use rust_fundamentals.Base.{ℕ, ◌≤◌, ◌≡◌, refl, none, some, [], ◌∷◌}
use rust_fundamentals.Base.Bytes.{Bytes}
use rust_fundamentals.Base.Order.{cmp}
use rust_fundamentals.Base.Map
use rust_fundamentals.Base.Map.{key_eq}
use rust_fundamentals.Base.Decimal.{pos, digit, read_digits, read_number, parse_i64}
use rust_fundamentals.Rudis.Store.{Store, is_expired, get, value_of}
use rust_fundamentals.Rudis.Store.View.{look, IsValid, get-look}

-- Two keys: `a` is the number 41 until 5000, `b` is `x` for ever.
abbrev pub store : Store
store = record {
  map =
      (0x61 ∷ [], record { value = 0x34 ∷ 0x31 ∷ []; expires_at = some 5000 })
      ∷ (0x62 ∷ [], record { value = 0x78 ∷ []; expires_at = none })
      ∷ [];
  snapshot_path = none;
}

pub store-IsValid : IsValid store
unfolding cmp
store-IsValid = ((refl, tt), (tt, tt))

-- The clock stands behind the deadline of `a`.
get_after : (get 6000 (0x61 ∷ []) store).0 ≡ none
unfolding get is_expired Map.get cmp
get_after = refl

get-look_example :
    ((get 6000 (0x61 ∷ []) store).0 ≡ value_of (look 6000 (0x61 ∷ []) store))
    × ((t : ℕ) (j : Bytes) → 6000 ≤ t → look t j (get 6000 (0x61 ∷ []) store).1 ≡ look t j store)
get-look_example = get-look 6000 (0x61 ∷ []) store store-IsValid

seen_a :
    look 100 (0x61 ∷ []) store ≡ some (record { value = 0x34 ∷ 0x31 ∷ []; expires_at = some 5000 })
unfolding is_expired Map.get cmp
seen_a = refl

number_a : parse_i64 (0x34 ∷ 0x31 ∷ []) ≡ some (pos 41)
unfolding parse_i64 read_number read_digits digit
number_a = refl
