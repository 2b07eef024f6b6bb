-- ===== src/Rudis/Store/Count.antt =====
-- Counting and deadlines, and the invariant over all operations.
use rust_fundamentals.Base.{
  ℕ, zero, suc, ◌+◌, ◌-◌, ◌*◌, ◌/◌, ◌^◌, ◌<◌, ◌≡◌, refl, ap, ◌∙◌, subst, Bool, true, false, not,
  Option, none, some, ◌==◌, ==→ne, leb, if◌then◌else◌, arith, inl, inr, Bool-cases,
}
use rust_fundamentals.Base.Bytes.{Bytes}
use rust_fundamentals.Base.Map
use rust_fundamentals.Base.Map.{Map, key_eq}
use rust_fundamentals.Base.Map.Laws.{get-insert, key_eq_refl}
use rust_fundamentals.Base.Map.Sorted.{insert-IsSorted}
use rust_fundamentals.Base.Map.Remove.{remove-IsSorted, retain-IsSorted}
use rust_fundamentals.Base.Decimal.{ℤ, pos, negsuc, show_int, parse_i64, InI64, parse_i64-show_int}
use rust_fundamentals.Rudis.Store.{
  Entry, Store, is_expired, is_live, purge_expired, load_entry, some_expired, get, set, filter_live,
  del, exists, succ_i64, current, deadline_of, count_up, incr, deadline_in, set_deadline, time_left,
  expire, ttl,
}
use rust_fundamentals.Rudis.Store.View.{look, IsValid, look-set}

-- One more stays within 64 bits, since it wraps around.
succ_i64-InI64 : (z : ℤ) → InI64 z → InI64 (succ_i64 z)
unfolding succ_i64
succ_i64-InI64 (pos n) h = elim (Bool-cases (n == 2 ^ 63 - 1)) [
  | inl top ↦ rw top (omega arith)
  | inr below ↦ rw below (omega (arith, ==→ne n (2 ^ 63 - 1) below, h))
]
succ_i64-InI64 (negsuc zero) h = omega arith
succ_i64-InI64 (negsuc (suc n)) h = omega (arith, h)

-- The entry that `incr` leaves.
abbrev pub counted : ℤ → Option ℕ → Entry
counted z deadline = record { value = show_int z; expires_at = deadline }

-- `incr` behind what it finds.
incr-found :
    (now : ℕ) (k : Bytes) (store : Store) {found : Option Entry} {z : ℤ}
    → look now k store ≡ found
    → current found ≡ some z
    → incr now k store
      ≡ (some (succ_i64 z), set k (show_int (succ_i64 z)) (deadline_of found) store)
unfolding incr
incr-found now k store {found} seen number =
    ap (λ f. count_up f k store (current f)) seen ∙ ap (count_up found k store) number

-- `incr` on a key that is seen as a number gives the next number and leaves its numeral at the key,
-- with the deadline as it was; every other key is seen as before.
pub incr-look :
    (now : ℕ) (k : Bytes) (store : Store) {e : Entry} {z : ℤ}
    → look now k store ≡ some e
    → parse_i64 e.value ≡ some z
    → ((incr now k store).0 ≡ some (succ_i64 z))
      × ((t : ℕ) (j : Bytes)
          → look t j (incr now k store).1 ≡ (
              if key_eq k j
              then filter_live t (some (counted (succ_i64 z) e.expires_at))
              else look t j store))
unfolding current
incr-look now k store {e} {z} seen number =
    let found = incr-found now k store seen number in
    (
      ap (λ r. r.0) found,
      λ t j.
          ap (λ (r : Option ℤ × Store). look t j r.1) found
          ∙ look-set t k j (show_int (succ_i64 z)) e.expires_at store,
    )

-- On a key that is not seen `incr` counts from zero, and the key gets no deadline.
pub incr_unseen :
    (now : ℕ) (k : Bytes) (store : Store)
    → look now k store ≡ none
    → ((incr now k store).0 ≡ some (pos 1))
      × ((t : ℕ) (j : Bytes)
          → look t j (incr now k store).1
            ≡ (if key_eq k j then some (counted (pos 1) none) else look t j store))
unfolding current succ_i64 is_expired
incr_unseen now k store unseen =
    let found = incr-found now k store {z = pos 0} unseen refl in
    (
      ap (λ r. r.0) found,
      λ t j.
          ap (λ (r : Option ℤ × Store). look t j r.1) found
          ∙ look-set t k j (show_int (pos 1)) none store,
    )

-- An entry with the deadline of a live one is live.
live_alike :
    (e : Entry) (now : ℕ) (found : Option Entry)
    → filter_live now found ≡ some e
    → is_expired e now ≡ false
live_alike e now none h = absurd (cc h)
live_alike e now (some x) h = elim (Bool-cases (is_expired x now)) [
  | inl dead ↦ absurd (cc (rw (dead, if◌then◌else◌) at h))
  | inr alive ↦
      let here : some x ≡ some e = rw (alive, if◌then◌else◌) at h in
      subst (λ y. is_expired y now ≡ false) (cc here) alive
]

filter_counted :
    (e : Entry) (now : ℕ) (z : ℤ)
    → is_expired e now ≡ false
    → filter_live now (some (counted z e.expires_at)) ≡ some (counted z e.expires_at)
unfolding is_expired
filter_counted e now z alive = ap (λ b. if not b then some (counted z e.expires_at) else none) alive

-- Two increments at one time add two: `incr` reads back the numeral that it wrote.
pub incr-incr :
    (now : ℕ) (k : Bytes) (store : Store) {e : Entry} {z : ℤ}
    → look now k store ≡ some e
    → parse_i64 e.value ≡ some z
    → InI64 z
    → (incr now k (incr now k store).1).0 ≡ some (succ_i64 (succ_i64 z))
incr-incr now k store {e} {z} seen number h =
    let (first, after) = incr-look now k store {e = e} {z = z} seen number in
    let still : look now k (incr now k store).1 ≡ some (counted (succ_i64 z) e.expires_at) =
      after now k
      ∙ rw (key_eq_refl k)
          (filter_counted e now (succ_i64 z) (live_alike e now (Map.get k store.map) seen)) in
    (incr-look now k (incr now k store).1 still
      (parse_i64-show_int (succ_i64 z) (succ_i64-InI64 z h))).0

expire-found :
    (now : ℕ) (k : Bytes) (seconds : ℕ) (store : Store) {e : Entry}
    → look now k store ≡ some e
    → expire now k seconds store ≡ (
      true,
      record store {
        map = Map.insert k (record e { expires_at = some (deadline_in now seconds) }) store.map;
      },
    )
unfolding expire
expire-found now k seconds store seen =
    ap (λ f. set_deadline f (deadline_in now seconds) k store) seen

due_at :
    (t deadline : ℕ) (v : Bytes)
    → time_left t (filter_live t (some (record { value = v; expires_at = some deadline })))
      ≡ (if leb deadline t then negsuc 1 else pos ((deadline - t) / 1000))
unfolding is_expired
due_at t deadline v = elim (Bool-cases (leb deadline t)) [ inl due ↦ rw due | inr early ↦ rw early ]

-- `expire` on a key that is seen succeeds. `ttl` then counts the whole seconds left to the deadline,
-- and from the deadline on the key is gone. The deadline must fit into 64 bits.
pub ttl-expire :
    (now t : ℕ) (k : Bytes) (seconds : ℕ) (store : Store) {e : Entry}
    → look now k store ≡ some e
    → now + seconds * 1000 < 2 ^ 64
    → ((expire now k seconds store).0 ≡ true)
      × (ttl t k (expire now k seconds store).1 ≡ (
          if leb (now + seconds * 1000) t
          then negsuc 1
          else pos ((now + seconds * 1000 - t) / 1000)))
unfolding ttl
ttl-expire now t k seconds store {e} seen h =
    let found = expire-found now k seconds store seen in
    let entry : Entry = record e { expires_at = some (deadline_in now seconds) } in
    let fits : deadline_in now seconds ≡ now + seconds * 1000 = omega arith in
    (
      ap (λ r. r.0) found,
      ap (λ (r : Bool × Store). ttl t k r.1) found
          ∙ ap (λ f. time_left t (filter_live t f)) {y = some entry}
              (get-insert k k entry store.map ∙ rw (key_eq_refl k))
          ∙ due_at t (deadline_in now seconds) e.value
          ∙ ap (λ d. if leb d t then negsuc 1 else pos ((d - t) / 1000)) fits,
    )

-- One call of the keyspace.
pub data Step (store : Store) : Store → Type 0 where
  gets : (now : ℕ) (k : Bytes) → Step store (get now k store).1
  sets : (k v : Bytes) (deadline : Option ℕ) → Step store (set k v deadline store)
  dels : (now : ℕ) (k : Bytes) → Step store (del now k store).1
  tests : (now : ℕ) (k : Bytes) → Step store (exists now k store).1
  counts : (now : ℕ) (k : Bytes) → Step store (incr now k store).1
  expires : (now : ℕ) (k : Bytes) (seconds : ℕ) → Step store (expire now k seconds store).1
  purges : (now : ℕ) → Step store (purge_expired now store)
  loads : (now : ℕ) (k v : Bytes) (deadline : ℕ) → Step store (load_entry now k v deadline store)

get-IsValid : (now : ℕ) (k : Bytes) (store : Store) → IsValid store → IsValid (get now k store).1
unfolding get
get-IsValid now k store v = elim (Bool-cases (some_expired now (Map.get k store.map))) [
  | inl dead ↦ rw dead (remove-IsSorted k store.map v)
  | inr alive ↦ rw alive v
]

count_up-IsValid :
    (existing : Option Entry) (k : Bytes) (store : Store) (n : Option ℤ)
    → IsValid store
    → IsValid (count_up existing k store n).1
unfolding set
count_up-IsValid existing k store none v = v
count_up-IsValid existing k store (some n) v = insert-IsSorted k _ store.map v

set_deadline-IsValid :
    (found : Option Entry) (deadline : ℕ) (k : Bytes) (store : Store)
    → IsValid store
    → IsValid (set_deadline found deadline k store).1
set_deadline-IsValid none deadline k store v = v
set_deadline-IsValid (some e) deadline k store v = insert-IsSorted k _ store.map v

load_entry-IsValid :
    (now : ℕ) (k x : Bytes) (deadline : ℕ) (store : Store)
    → IsValid store
    → IsValid (load_entry now k x deadline store)
unfolding load_entry
load_entry-IsValid now k x deadline store v =
    elim (Bool-cases (
      is_expired (record { value = x; expires_at = if deadline == 0 then none else some deadline })
        now)) [ inl dead ↦ rw dead v | inr alive ↦ rw alive (insert-IsSorted k _ store.map v) ]

-- Every operation keeps the entries in the order of their keys, each key once.
pub Step-IsValid : {store store' : Store} → IsValid store → Step store store' → IsValid store'
unfolding set del exists incr expire purge_expired
Step-IsValid {store} v (gets now k) = get-IsValid now k store v
Step-IsValid {store} v (sets k x deadline) = insert-IsSorted k _ store.map v
Step-IsValid {store} v (dels now k) = remove-IsSorted k store.map v
Step-IsValid {store} v (tests now k) = get-IsValid now k store v
Step-IsValid {store} v (counts now k) =
    let found = filter_live now (Map.get k store.map) in
    count_up-IsValid found k store (current found) v
Step-IsValid {store} v (expires now k seconds) =
    set_deadline-IsValid (filter_live now (Map.get k store.map)) (deadline_in now seconds) k store v
Step-IsValid {store} v (purges now) = retain-IsSorted (is_live now) store.map v
Step-IsValid {store} v (loads now k x deadline) = load_entry-IsValid now k x deadline store v
