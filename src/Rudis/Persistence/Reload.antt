-- ===== src/Rudis/Persistence/Reload.antt =====
-- `load` on what `save` wrote.
use native.Mathlib.Nat.{mod-eq_of_lt}
use rust_fundamentals.Base.{
  ℕ, zero, suc, ◌+◌, ◌^◌, ◌<◌, ◌≡◌, refl, ap, subst, some, List, [], ◌∷◌, ◌++◌, length,
  length-append, append_assoc, lt→ltb, ge→ltb, All, arith, ◌>>=◌,
}
use rust_fundamentals.Base.Bytes.{
  Bytes, to_le_bytes, length-to_le_bytes, from_le_bytes-to_le_bytes, At, At-skip, get_range-At,
  length-At,
}
use rust_fundamentals.Rudis.Store.{Store}
use rust_fundamentals.Rudis.Persistence.{
  get_u32, get_u64, get_bytes, Item, item_bytes, items_bytes, next_item, loaded, load_item,
  load_loop,
}

-- The lengths and the deadline fit into their fields.
pub record ItemFits (i : Item) : Type 0 where
  pub key_fits : length i.0 < 2 ^ 32
  pub value_fits : length i.1 < 2 ^ 32
  pub deadline_fits : i.2 < 2 ^ 64

get_u32-At :
    {bytes : Bytes} {off : ℕ} (n : ℕ) (rest : Bytes)
    → n < 2 ^ 32
    → At bytes off (to_le_bytes 4 n ++ rest)
    → get_u32 bytes off ≡ some (n, off + 4)
unfolding get_u32
get_u32-At {bytes} {off} n rest h a = rw (
  get_range-At (to_le_bytes 4 n) rest a (length-to_le_bytes 4 n),
  from_le_bytes-to_le_bytes 4 n h,
  ◌>>=◌,
)

get_u64-At :
    {bytes : Bytes} {off : ℕ} (n : ℕ) (rest : Bytes)
    → n < 2 ^ 64
    → At bytes off (to_le_bytes 8 n ++ rest)
    → get_u64 bytes off ≡ some (n, off + 8)
unfolding get_u64
get_u64-At {bytes} {off} n rest h a = rw (
  get_range-At (to_le_bytes 8 n) rest a (length-to_le_bytes 8 n),
  from_le_bytes-to_le_bytes 8 n h,
  ◌>>=◌,
)

get_bytes-At :
    {bytes : Bytes} {off : ℕ} (chunk rest : Bytes)
    → At bytes off (chunk ++ rest)
    → get_bytes bytes off (length chunk) ≡ some (chunk, off + length chunk)
unfolding get_bytes
get_bytes-At chunk rest a = rw (get_range-At chunk rest a refl, ◌>>=◌)

-- The fields of an item, one behind the other.
item_layout :
    (i : Item) (rest : Bytes)
    → ItemFits i
    → item_bytes i ++ rest
      ≡ to_le_bytes 4 (length i.0)
        ++ (i.0 ++ (to_le_bytes 4 (length i.1) ++ (i.1 ++ (to_le_bytes 8 i.2 ++ rest))))
unfolding item_bytes
item_layout i rest f = rw (mod-eq_of_lt f.key_fits, mod-eq_of_lt f.value_fits) (simp append_assoc)

length-item : (i : Item) → ItemFits i → length (item_bytes i) ≡ length i.0 + length i.1 + 16
unfolding item_bytes
length-item i f = simp (length-append, length-to_le_bytes) (omega arith)

next_item-At :
    {bytes : Bytes} {off : ℕ} (i : Item) (rest : Bytes)
    → ItemFits i
    → At bytes off (item_bytes i ++ rest)
    → next_item bytes off ≡ some (i, off + length (item_bytes i))
unfolding next_item
next_item-At {bytes} {off} i rest f a =
    let a0 = subst (At bytes off) (item_layout i rest f) a in
    let a1 = At-skip (to_le_bytes 4 (length i.0)) _ a0 (length-to_le_bytes 4 (length i.0)) in
    let a2 = At-skip i.0 _ a1 refl in
    let a3 = At-skip (to_le_bytes 4 (length i.1)) _ a2 (length-to_le_bytes 4 (length i.1)) in
    let a4 = At-skip i.1 _ a3 refl in
    rw
      (
        get_u32-At (length i.0) _ f.key_fits a0,
        get_bytes-At i.0 _ a1,
        get_u32-At (length i.1) _ f.value_fits a2,
        get_bytes-At i.1 _ a3,
        get_u64-At i.2 rest f.deadline_fits a4,
        ◌>>=◌,
      )
      (ap (λ k. some (i, k)) (omega (arith, length-item i f)))

unfoldable pub load_all : ℕ → List Item → Store → Store
load_all now [] store = store
load_all now (i ∷ items) store = load_all now items (load_item now i store)

pub load_loop-items :
    (items : List Item) (fuel now : ℕ) (bytes : Bytes) (off : ℕ) (store : Store)
    → All ItemFits items
    → At bytes off (items_bytes items)
    → length bytes < off + fuel
    → load_loop fuel now bytes off store ≡ (loaded, load_all now items store)
unfolding load_loop load_all items_bytes
load_loop-items items zero now bytes off store fits a enough =
    absurd (omega (arith, length-At (items_bytes items) a))
load_loop-items [] (suc fuel) now bytes off store fits a enough =
    rw (ge→ltb off (length bytes) (omega (arith, length-At [] a)))
load_loop-items (i ∷ items) (suc fuel) now bytes off store (fit, fits) a enough =
    rw
      (
        lt→ltb off (length bytes) (
            omega (
              arith,
              length-At (item_bytes i ++ items_bytes items) a,
              length-append (item_bytes i) (items_bytes items),
              length-item i fit,
            )),
        next_item-At i (items_bytes items) fit a,
      )
      (load_loop-items items fuel now bytes (off + length (item_bytes i)) (load_item now i store)
        fits (At-skip (item_bytes i) _ a refl) (omega (arith, length-item i fit)))
