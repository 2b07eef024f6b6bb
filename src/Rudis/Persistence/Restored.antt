-- ===== src/Rudis/Persistence/Restored.antt =====
-- A store that was saved and loaded again is seen as before.
use Prim.Native.Nat.Ordering.{lt}
use rust_fundamentals.Base.{
  ℕ, zero, suc, ◌≤◌, ◌≡◌, refl, sym, ap, ◌∙◌, subst, false, Option, none, some, [], ◌∷◌, ◌++◌,
  length, length-append, ge→ltb, leb→gt, ne→==, if◌then◌else◌, All, arith, inl, inr, Bool-cases,
}
use rust_fundamentals.Base.Bytes.{Bytes, At-start, At-skip}
use rust_fundamentals.Base.Order.{cmp, cmp_refl, eq_of_cmp, lt_of_gt}
use rust_fundamentals.Base.Map
use rust_fundamentals.Base.Map.{Map, key_eq}
use rust_fundamentals.Base.Map.Laws.{get-insert, key_eq_refl, eq_of_key_eq}
use rust_fundamentals.Base.Map.Sorted.{Above, IsSorted, get-Above}
use rust_fundamentals.Base.Map.Remove.{retain-IsSorted}
use rust_fundamentals.Rudis.Store
use rust_fundamentals.Rudis.Store.{
  Entry, Store, is_expired, is_live, purge_expired, unwrap_or_zero, snapshot_iter, snapshot_items,
  load_entry, filter_live,
}
use rust_fundamentals.Rudis.Store.View.{look, IsValid, expired_later, purge_expired-look}
use rust_fundamentals.Rudis.Persistence.{magic, items_bytes, save_bytes, loaded, load}
use rust_fundamentals.Rudis.Persistence.Reload.{ItemFits, load_all, load_loop-items}

abbrev entry : Bytes → Option ℕ → Entry
entry v d = record { value = v; expires_at = d }

-- The deadline that was written as a number is read back, since a live entry has none of zero.
load_live :
    (now later : ℕ) (k v : Bytes) (d : Option ℕ) (store : Store)
    → is_expired (entry v d) now ≡ false
    → load_entry later k v (unwrap_or_zero d) store ≡ (
        if is_expired (entry v d) later
        then store
        else record store { map = Map.insert k (entry v d) store.map })
unfolding load_entry is_expired
load_live now later k v none store h = refl
load_live now later k v (some zero) store h = absurd (omega (arith, leb→gt 0 now h))
load_live now later k v (some (suc n)) store h = rw (ne→== (suc n) 0 (λ e. omega (arith, e)))

-- What loading an entry with a new key does to what is seen.
look-load :
    (later t : ℕ) (k j : Bytes) (e : Entry) (store : Store)
    → later ≤ t
    → Map.get k store.map ≡ none
    → look t j
        (if is_expired e later then store else record store { map = Map.insert k e store.map })
      ≡ (if key_eq k j then filter_live t (some e) else look t j store)
look-load later t k j e store h fresh = elim (Bool-cases (is_expired e later)) [
  | inl dead ↦ rw dead (elim (Bool-cases (key_eq k j)) [
    | inl same ↦ rw same (
        ap (filter_live t) (subst (λ i. Map.get i store.map ≡ none) (eq_of_key_eq k j same) fresh)
        ∙ sym (rw (expired_later e later t h dead)))
    | inr other ↦ rw other
  ])
  | inr alive ↦
      rw (alive, get-insert k j e store.map)
        (elim (Bool-cases (key_eq k j)) [ inl same ↦ rw same | inr other ↦ rw other ])
]

get-load :
    (later : ℕ) (k j : Bytes) (e : Entry) (store : Store)
    → key_eq k j ≡ false
    → Map.get j store.map ≡ none
    → Map.get j
        (if is_expired e later then store else record store { map = Map.insert k e store.map }).map
      ≡ none
get-load later k j e store other h = elim (Bool-cases (is_expired e later)) [
  | inl dead ↦ rw dead h
  | inr alive ↦ rw (alive, get-insert k j e store.map, other) h
]

key_eq_above : (k j : Bytes) → cmp k j ≡ lt → key_eq k j ≡ false
unfolding key_eq
key_eq_above k j h = ground arith

-- The keys are not in the store.
abbrev Fresh : Map Entry → Store → Type 0
Fresh m store = All (λ kv. Map.get kv.0 store.map ≡ none) m

Fresh-load :
    (later : ℕ) (k : Bytes) (e : Entry) (m : Map Entry) (store : Store)
    → Above k m
    → Fresh m store
    → Fresh m
        (if is_expired e later then store else record store { map = Map.insert k e store.map })
Fresh-load later k e [] store a f = tt
Fresh-load later k e ((j, x) ∷ m) store (p, a) (h, f) =
    (get-load later k j e store (key_eq_above k j p) h, Fresh-load later k e m store a f)

abbrev over : ℕ → Option Entry → Option Entry → Option Entry
over t none seen = seen
over t (some e) seen = filter_live t (some e)

over-cons :
    (t : ℕ) (k j : Bytes) (e : Entry) (m : Map Entry) (seen : Option Entry)
    → Above k m
    → over t (Map.get j m) (if key_eq k j then filter_live t (some e) else seen)
      ≡ over t (Map.get j ((k, e) ∷ m)) seen
unfolding Map.get key_eq
over-cons t k j e m seen a =
    ground (
      arith,
      get-Above j k m a,
      eq_of_cmp k j,
      eq_of_cmp j k,
      cmp_refl j,
      lt_of_gt k j,
      lt_of_gt j k,
    )

abbrev AllLive : ℕ → Map Entry → Type 0
AllLive now m = All (λ kv. is_expired kv.1 now ≡ false) m

load_all-look :
    (now later t : ℕ) (j : Bytes) (m : Map Entry) (store : Store)
    → later ≤ t
    → IsSorted m
    → AllLive now m
    → Fresh m store
    → look t j (load_all later (snapshot_items m) store) ≡ over t (Map.get j m) (look t j store)
unfolding load_all snapshot_items Map.get
load_all-look now later t j [] store h s live f = refl
load_all-look now later t j ((k, e) ∷ m) store h (a, s) (alive, live) (fresh, f) =
    ap (λ st. look t j (load_all later (snapshot_items m) st))
      (load_live now later k e.value e.expires_at store alive)
    ∙ load_all-look now later t j m _ h s live (Fresh-load later k e m store a f)
    ∙ ap (over t (Map.get j m)) (look-load later t k j e store h fresh)
    ∙ over-cons t k j e m (look t j store) a

retain-AllLive : (now : ℕ) (m : Map Entry) → AllLive now (Map.retain (is_live now) m)
unfolding Map.retain
retain-AllLive now [] = tt
retain-AllLive now ((k, e) ∷ m) = elim (Bool-cases (is_expired e now)) [
  | inl dead ↦ rw dead (retain-AllLive now m)
  | inr alive ↦ rw alive (alive, retain-AllLive now m)
]

Fresh-new : (m : Map Entry) (path : Option Bytes) → Fresh m (Store.new path)
unfolding Map.get
Fresh-new [] path = tt
Fresh-new ((k, e) ∷ m) path = (refl, Fresh-new m path)

over-none : (t : ℕ) (found : Option Entry) → over t found none ≡ filter_live t found
over-none t none = refl
over-none t (some e) = refl

load-save_loop :
    (now later : ℕ) (store start : Store)
    → All ItemFits (snapshot_iter now store)
    → load later (save_bytes now store) start
      ≡ (loaded, load_all later (snapshot_iter now store) start)
unfolding load save_bytes
load-save_loop now later store start fits =
    let items = snapshot_iter now store in
    let bytes = magic ++ items_bytes items in
    rw
      (
        ge→ltb (length bytes) 8 (omega (arith, length-append magic (items_bytes items))),
        key_eq_refl magic,
      )
      (load_loop-items items (suc (length bytes)) later bytes 8 start fits
        (At-skip magic (items_bytes items) (At-start bytes) refl) (omega arith))

-- A store that was saved at one time and loaded into an empty store later loads without an error, and
-- at that and every later time each key is seen as it would have been, with its deadline. The
-- lengths and deadlines must fit into their fields.
pub load-save :
    (now later : ℕ) (store : Store) (path : Option Bytes)
    → IsValid store
    → now ≤ later
    → All ItemFits (snapshot_iter now store)
    → (let outcome = load later (save_bytes now store) (Store.new path) in
        (outcome.0 ≡ loaded)
        × ((t : ℕ) (j : Bytes) → later ≤ t → look t j outcome.1 ≡ look t j store))
unfolding snapshot_iter purge_expired Map.get
load-save now later store path v h fits =
    let loop = load-save_loop now later store (Store.new path) fits in
    let live = Map.retain (is_live now) store.map in
    (
      ap (λ o. o.0) loop,
      λ t j g.
          ap (λ o. look t j o.1) loop
          ∙ load_all-look now later t j live (Store.new path) g
              (retain-IsSorted (is_live now) store.map v) (retain-AllLive now store.map)
              (Fresh-new live path)
          ∙ over-none t (Map.get j live)
          ∙ purge_expired-look now t j store v (omega (arith, h, g)),
    )
