-- ===== src/Rudis/Store/View.antt =====
-- The keyspace as its clients see it: lazy and active expiry change nothing that they can read.
use rust_fundamentals.Base.{
  ℕ, ◌≤◌, ◌≡◌, refl, sym, ap, ◌∙◌, subst, Bool, true, false, Option, none, some, leb, leb→le,
  le→leb, if◌then◌else◌, arith, inl, inr, Bool-cases,
}
use rust_fundamentals.Base.Bytes.{Bytes}
use rust_fundamentals.Base.Map
use rust_fundamentals.Base.Map.{Map, key_eq}
use rust_fundamentals.Base.Map.Laws.{get-insert, eq_of_key_eq}
use rust_fundamentals.Base.Map.Sorted.{IsSorted}
use rust_fundamentals.Base.Map.Remove.{only_if, get-remove, get-retain}
use rust_fundamentals.Rudis.Store.{
  Entry, Store, is_expired, is_live, purge_expired, value_of, some_expired, get, set, filter_live,
  is_some, del,
}

-- The entry that a client can see at a key at some time.
abbrev pub look : ℕ → Bytes → Store → Option Entry
look now key store = filter_live now (Map.get key store.map)

-- The map has each key once.
abbrev pub IsValid : Store → Type 0
IsValid store = IsSorted store.map

-- What has expired stays so.
pub expired_later :
    (e : Entry) (now t : ℕ) → now ≤ t → is_expired e now ≡ true → is_expired e t ≡ true
unfolding is_expired
expired_later e now t h x = by_deadline e.expires_at x
  where
    by_deadline :
        (d : Option ℕ)
        → (elim d [ none ↦ false | some u ↦ leb u now ]) ≡ true
        → (elim d [ none ↦ false | some u ↦ leb u t ]) ≡ true
    by_deadline none x = x
    by_deadline (some u) x = le→leb u t (omega (arith, leb→le u now x, h))

-- An expired entry is not seen later.
unseen_later :
    (found : Option Entry) (now t : ℕ)
    → now ≤ t
    → some_expired now found ≡ true
    → filter_live t found ≡ none
unseen_later none now t h x = refl
unseen_later (some e) now t h x = rw (expired_later e now t h x)

filter-value :
    (found : Option Entry) (now : ℕ)
    → some_expired now found ≡ false
    → value_of (filter_live now found) ≡ value_of found
filter-value none now x = refl
filter-value (some e) now x = rw x

pub look-remove :
    (t : ℕ) (k j : Bytes) (store : Store)
    → IsValid store
    → look t j (record store { map = Map.remove k store.map })
      ≡ (if key_eq k j then none else look t j store)
look-remove t k j store v = ap (filter_live t) (get-remove k j store.map v) ∙ cases (key_eq k j)
  where
    cases :
        (b : Bool)
        → filter_live t (if b then none else Map.get j store.map)
          ≡ (if b then none else look t j store)
    cases true = refl
    cases false = refl

pub look-set :
    (t : ℕ) (k j value : Bytes) (deadline : Option ℕ) (store : Store)
    → look t j (set k value deadline store) ≡ (
        if key_eq k j
        then filter_live t (some (record { value = value; expires_at = deadline }))
        else look t j store)
unfolding set
look-set t k j value deadline store =
    ap (filter_live t) (get-insert k j (record { value = value; expires_at = deadline }) store.map)
    ∙ cases (key_eq k j)
  where
    cases :
        (b : Bool)
        → filter_live t (
            if b
            then some (record { value = value; expires_at = deadline })
            else Map.get j store.map)
          ≡ (if b
              then filter_live t (some (record { value = value; expires_at = deadline }))
              else look t j store)
    cases true = refl
    cases false = refl

-- `get` gives the value that is seen at the key, and whatever it removes can no longer be seen: at
-- this and every later time each key is seen as before.
pub get-look :
    (now : ℕ) (k : Bytes) (store : Store)
    → IsValid store
    → ((get now k store).0 ≡ value_of (look now k store))
      × ((t : ℕ) (j : Bytes) → now ≤ t → look t j (get now k store).1 ≡ look t j store)
unfolding get
get-look now k store v = elim (Bool-cases (some_expired now (Map.get k store.map))) [
  | inl dead ↦ rw dead (
    sym (ap value_of (unseen_later (Map.get k store.map) now now (omega arith) dead)),
    λ t j h. look-remove t k j store v ∙ gone t j h dead,
  )
  | inr alive ↦ rw alive (sym (filter-value (Map.get k store.map) now alive), λ t j h. refl)
]
  where
    gone :
        (t : ℕ) (j : Bytes)
        → now ≤ t
        → some_expired now (Map.get k store.map) ≡ true
        → (if key_eq k j then none else look t j store) ≡ look t j store
    gone t j h dead = elim (Bool-cases (key_eq k j)) [
      | inl same ↦ rw same (
          sym (
            unseen_later (Map.get j store.map) now t h (
              subst (λ i. some_expired now (Map.get i store.map) ≡ true) (eq_of_key_eq k j same)
                dead)))
      | inr other ↦ rw other
    ]

-- `del` says whether the key was seen; afterwards it is not, and every other key is as before.
pub del-look :
    (now : ℕ) (k : Bytes) (store : Store)
    → IsValid store
    → ((del now k store).0 ≡ is_some (look now k store))
      × ((t : ℕ) (j : Bytes)
          → look t j (del now k store).1 ≡ (if key_eq k j then none else look t j store))
unfolding del
del-look now k store v = (refl, λ t j. look-remove t k j store v)

pub filter-only : (t : ℕ) (found : Option Entry) → filter_live t found ≡ only_if (is_live t) found
filter-only t none = refl
filter-only t (some e) = refl

live_now :
    (e : Entry) (now t : ℕ)
    → now ≤ t
    → filter_live t (only_if (is_live now) (some e)) ≡ filter_live t (some e)
live_now e now t h = elim (Bool-cases (is_expired e now)) [
  | inl dead ↦ rw (dead, expired_later e now t h dead)
  | inr alive ↦ rw alive
]

pub filter_later :
    (found : Option Entry) (now t : ℕ)
    → now ≤ t
    → filter_live t (only_if (is_live now) found) ≡ filter_live t found
filter_later none now t h = refl
filter_later (some e) now t h = live_now e now t h

-- The sweep drops only what is not seen: at this and every later time each key is seen as before.
pub purge_expired-look :
    (now t : ℕ) (j : Bytes) (store : Store)
    → IsValid store
    → now ≤ t
    → look t j (purge_expired now store) ≡ look t j store
unfolding purge_expired
purge_expired-look now t j store v h =
    ap (filter_live t) (get-retain (is_live now) j store.map v)
    ∙ filter_later (Map.get j store.map) now t h
