-- ===== src/Rudis/Persistence.antt =====
-- 07-systems-programming/src/persistence.rs: the snapshot, as the bytes that `save` writes and that
-- `load` finds mapped. The clock stands still during a load. Offsets stay below 2^64, so `checked_add` succeeds.
pub mod Reload
pub mod Restored
use rust_fundamentals.Base.{
  ℕ, zero, suc, ◌+◌, ◌%◌, ◌^◌, Option, none, some, List, [], ◌∷◌, ◌++◌, length, take, ltb,
  if◌then◌else◌, ◌>>=◌,
}
use rust_fundamentals.Base.Bytes.{Bytes, to_le_bytes, from_le_bytes, get_range}
use rust_fundamentals.Base.Map.{key_eq}
use rust_fundamentals.Rudis.Store.{Store, snapshot_iter, load_entry}

-- `b"RUDISDB1"`
abbrev pub magic : Bytes
magic = 0x52 ∷ 0x55 ∷ 0x44 ∷ 0x49 ∷ 0x53 ∷ 0x44 ∷ 0x42 ∷ 0x31 ∷ []

unfoldable pub get_u32 : Bytes → ℕ → Option (ℕ × ℕ)
get_u32 bytes off = get_range bytes off (off + 4) >>= λ slice. some (from_le_bytes slice, off + 4)

unfoldable pub get_u64 : Bytes → ℕ → Option (ℕ × ℕ)
get_u64 bytes off = get_range bytes off (off + 8) >>= λ slice. some (from_le_bytes slice, off + 8)

unfoldable pub get_bytes : Bytes → ℕ → ℕ → Option (Bytes × ℕ)
get_bytes bytes off len = get_range bytes off (off + len) >>= λ slice. some (slice, off + len)

-- A record of the snapshot: key, value and deadline.
abbrev pub Item : Type 0
Item = Bytes × Bytes × ℕ

unfoldable pub item_bytes : Item → Bytes
item_bytes (key, value, expires_at) =
    to_le_bytes 4 (length key % 2 ^ 32)
    ++ (key ++ (to_le_bytes 4 (length value % 2 ^ 32) ++ (value ++ to_le_bytes 8 expires_at)))

-- The loop of `save`.
unfoldable pub items_bytes : List Item → Bytes
items_bytes [] = []
items_bytes (i ∷ items) = item_bytes i ++ items_bytes items

-- What `save` writes.
unfoldable pub save_bytes : ℕ → Store → Bytes
save_bytes now store = magic ++ items_bytes (snapshot_iter now store)

-- One round of the loop of `load`.
unfoldable pub next_item : Bytes → ℕ → Option (Item × ℕ)
next_item bytes off = do
  (key_len, off1) ← get_u32 bytes off
  (key, off2) ← get_bytes bytes off1 key_len
  (val_len, off3) ← get_u32 bytes off2
  (value, off4) ← get_bytes bytes off3 val_len
  (expires_at, off5) ← get_u64 bytes off4
  some ((key, value, expires_at), off5)

-- `load` succeeds, or the file is no snapshot; `stuck` means that the model's fuel ran out.
pub data Outcome : Type 0 where
  loaded : Outcome
  corrupt : Outcome
  stuck : Outcome

abbrev pub load_item : ℕ → Item → Store → Store
load_item now (key, value, expires_at) store = load_entry now key value expires_at store

-- The loop, on fuel. What was loaded before a truncated record stays in the store.
unfoldable pub load_loop : ℕ → ℕ → Bytes → ℕ → Store → Outcome × Store
load_loop zero now bytes off store = (stuck, store)
load_loop (suc fuel) now bytes off store =
    let round : Outcome × Store = elim (next_item bytes off) [
      | none ↦ (corrupt, store)
      | some (i, off') ↦ load_loop fuel now bytes off' (load_item now i store)
    ] in
    if ltb off (length bytes) then round else (loaded, store)

unfoldable pub load : ℕ → Bytes → Store → Outcome × Store
load now bytes store =
    if ltb (length bytes) 8
    then (corrupt, store)
    else if key_eq (take 8 bytes) magic
    then load_loop (suc (length bytes)) now bytes 8 store
    else (corrupt, store)
