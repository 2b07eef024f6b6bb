-- ===== src/Rudis/Store.antt =====
-- 07-systems-programming/src/store.rs: the keyspace. Each operation takes what `now_ms` gives as an
-- argument. The hash map is a map in the order of its keys, and paths are byte strings. Arithmetic
-- on 64 bits wraps around, as the release profile has it.
pub mod View
pub mod Count
use rust_fundamentals.Base.{
  ℕ, zero, suc, ◌+◌, ◌-◌, ◌*◌, ◌/◌, ◌%◌, ◌^◌, Bool, true, false, not, Option, none, some, List, [],
  ◌∷◌, length, leb, ◌==◌, if◌then◌else◌,
}
use rust_fundamentals.Base.Bytes.{Bytes}
use rust_fundamentals.Base.Map
use rust_fundamentals.Base.Map.{Map}
use rust_fundamentals.Base.Decimal.{ℤ, pos, negsuc, show_int, parse_i64}

pub record Entry : Type 0 where
  pub value : Bytes
  pub expires_at : Option ℕ

pub record Store : Type 0 where
  pub map : Map Entry
  pub snapshot_path : Option Bytes

abbrev pub new : Option Bytes → Store
new snapshot_path = record { map = []; snapshot_path = snapshot_path }

unfoldable pub is_expired : Entry → ℕ → Bool
is_expired e now = elim e.expires_at [ none ↦ false | some t ↦ leb t now ]

abbrev pub is_live : ℕ → Entry → Bool
is_live now e = not (is_expired e now)

unfoldable pub len : ℕ → Store → ℕ
len now store = length (Map.retain (is_live now) store.map)

unfoldable pub is_empty : ℕ → Store → Bool
is_empty now store = len now store == 0

unfoldable pub purge_expired : ℕ → Store → Store
purge_expired now store = record store { map = Map.retain (is_live now) store.map }

abbrev pub unwrap_or_zero : Option ℕ → ℕ
unwrap_or_zero none = 0
unwrap_or_zero (some t) = t

unfoldable pub snapshot_items : Map Entry → List (Bytes × Bytes × ℕ)
snapshot_items [] = []
snapshot_items ((key, e) ∷ m) = (key, e.value, unwrap_or_zero e.expires_at) ∷ snapshot_items m

unfoldable pub snapshot_iter : ℕ → Store → List (Bytes × Bytes × ℕ)
snapshot_iter now store = snapshot_items (Map.retain (is_live now) store.map)

unfoldable pub load_entry : ℕ → Bytes → Bytes → ℕ → Store → Store
load_entry now key value expires_at store =
    let deadline : Option ℕ = if expires_at == 0 then none else some expires_at in
    let entry : Entry = record { value = value; expires_at = deadline } in
    if is_expired entry now then store else record store { map = Map.insert key entry store.map }

-- The value of an entry, where there is one.
abbrev pub value_of : Option Entry → Option Bytes
value_of none = none
value_of (some e) = some e.value

-- `matches!(.., Some(e) if e.is_expired(now))`
abbrev pub some_expired : ℕ → Option Entry → Bool
some_expired now none = false
some_expired now (some e) = is_expired e now

unfoldable pub get : ℕ → Bytes → Store → Option Bytes × Store
get now key store =
    let found = Map.get key store.map in
    if some_expired now found
    then (none, record store { map = Map.remove key store.map })
    else (value_of found, store)

unfoldable pub set : Bytes → Bytes → Option ℕ → Store → Store
set key value expire_at store = record store {
  map = Map.insert key (record { value = value; expires_at = expire_at }) store.map;
}

-- The entry as of now: absent where it has expired.
abbrev pub filter_live : ℕ → Option Entry → Option Entry
filter_live now none = none
filter_live now (some e) = if is_live now e then some e else none

abbrev pub is_some {ℓ} : {A : Type ℓ} → Option A → Bool
is_some none = false
is_some (some a) = true

unfoldable pub del : ℕ → Bytes → Store → Bool × Store
del now key store = (
  is_some (filter_live now (Map.get key store.map)),
  record store { map = Map.remove key store.map },
)

unfoldable pub exists : ℕ → Bytes → Store → Bool × Store
exists now key store = let (value, store') = get now key store in (is_some value, store')

-- `current + 1` on `i64`.
unfoldable pub succ_i64 : ℤ → ℤ
succ_i64 (pos n) = if n == 2 ^ 63 - 1 then negsuc (2 ^ 63 - 1) else pos (n + 1)
succ_i64 (negsuc zero) = pos 0
succ_i64 (negsuc (suc n)) = negsuc n

-- The number that `incr` starts from.
unfoldable pub current : Option Entry → Option ℤ
current none = some (pos 0)
current (some e) = parse_i64 e.value

abbrev pub deadline_of : Option Entry → Option ℕ
deadline_of none = none
deadline_of (some e) = e.expires_at

-- `incr` from the number on, if there is one.
abbrev pub count_up : Option Entry → Bytes → Store → Option ℤ → Option ℤ × Store
count_up existing key store none = (none, store)
count_up existing key store (some n) =
    let next = succ_i64 n in (some next, set key (show_int next) (deadline_of existing) store)

unfoldable pub incr : ℕ → Bytes → Store → Option ℤ × Store
incr now key store =
    let existing = filter_live now (Map.get key store.map) in
    count_up existing key store (current existing)

-- `now + seconds * 1000` on `u64`.
abbrev pub deadline_in : ℕ → ℕ → ℕ
deadline_in now seconds = (now + seconds * 1000 % 2 ^ 64) % 2 ^ 64

abbrev pub set_deadline : Option Entry → ℕ → Bytes → Store → Bool × Store
set_deadline none deadline key store = (false, store)
set_deadline (some e) deadline key store = (
  true,
  record store { map = Map.insert key (record e { expires_at = some deadline }) store.map },
)

unfoldable pub expire : ℕ → Bytes → ℕ → Store → Bool × Store
expire now key seconds store =
    set_deadline (filter_live now (Map.get key store.map)) (deadline_in now seconds) key store

abbrev pub remaining : ℕ → Option ℕ → ℤ
remaining now none = negsuc 0
remaining now (some deadline) = pos ((deadline - now) / 1000)

abbrev pub time_left : ℕ → Option Entry → ℤ
time_left now none = negsuc 1
time_left now (some e) = remaining now e.expires_at

unfoldable pub ttl : ℕ → Bytes → Store → ℤ
ttl now key store = time_left now (filter_live now (Map.get key store.map))
