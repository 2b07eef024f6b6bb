-- ===== src/Rudis/Command/Follows.antt =====
-- How a store follows a keyspace of live entries: the operations of store.rs one by one.
use rust_fundamentals.Base.{
  ℕ, ◌-◌, ◌/◌, ◌≤◌, ◌≡◌, refl, sym, ap, ◌∙◌, subst, false, not, Option, none, some, [], ◌∷◌, leb,
  if◌then◌else◌, length, arith, inl, inr, Bool-cases,
}
use rust_fundamentals.Base.Bytes.{Bytes}
use rust_fundamentals.Base.Map
use rust_fundamentals.Base.Map.{Map, key_eq}
use rust_fundamentals.Base.Decimal.{ℤ, pos, negsuc, show_int, parse_i64}
use rust_fundamentals.Rudis.Store
use rust_fundamentals.Rudis.Store.{
  Entry, Store, is_expired, value_of, filter_live, is_live, is_some, succ_i64, deadline_in,
  time_left, remaining, count_up, current, set_deadline,
}
use rust_fundamentals.Rudis.Store.View.{
  look, look-set, IsValid, get-look, del-look, filter-only, filter_later,
}
use rust_fundamentals.Rudis.Store.Count.{gets, dels, Step-IsValid}
use rust_fundamentals.Rudis.Command.Keyspace.{
  alive, shown, Keyspace, seen, put, next_number, count_in, delay, seconds_left, count_alive,
}

not_expired-alive : (t : ℕ) (e : Entry) → is_live t e ≡ alive t e.expires_at
unfolding is_expired
not_expired-alive t e = by_deadline e.expires_at
  where
    by_deadline : (d : Option ℕ) → not (elim d [ none ↦ false | some u ↦ leb u t ]) ≡ alive t d
    by_deadline none = refl
    by_deadline (some u) = ground arith

pub filter_live-shown : (t : ℕ) (found : Option Entry) → filter_live t found ≡ shown t found
filter_live-shown t none = refl
filter_live-shown t (some e) = ap (λ b. if b then some e else none) (not_expired-alive t e)

pub retain-count_alive :
    (t : ℕ) (m : Map Entry) → length (Map.retain (is_live t) m) ≡ count_alive t m
unfolding Map.retain
retain-count_alive t [] = refl
retain-count_alive t ((key, e) ∷ m) =
    let rest = retain-count_alive t m in
    elim (Bool-cases (is_live t e)) [
      | inl live ↦ rw (live, sym (not_expired-alive t e) ∙ live, rest) refl
      | inr dead ↦ rw (dead, sym (not_expired-alive t e) ∙ dead, rest) refl
    ]

-- The store shows the keyspace now, and what of it is alive later.
pub record Follows (now : ℕ) (store : Store) (ks : Keyspace) : Type 0 where
  pub valid : IsValid store
  pub at_now : (key : Bytes) → look now key store ≡ ks key
  pub later : (t : ℕ) (key : Bytes) → now ≤ t → look t key store ≡ filter_live t (ks key)

-- What is to come of a call.
unfoldable pub Becomes : ℕ → Store → Keyspace → Type 0
Becomes now store ks = (t : ℕ) (key : Bytes) → now ≤ t → look t key store ≡ filter_live t (ks key)

pub Follows-seen : (now : ℕ) (store : Store) → IsValid store → Follows now store (seen now store)
Follows-seen now store v = record {
  valid = v;
  at_now = λ key. filter_live-shown now (Map.get key store.map);
  later = λ t key h.
      sym (filter_later (Map.get key store.map) now t h)
      ∙ ap (filter_live t) (
          sym (filter-only now (Map.get key store.map))
          ∙ filter_live-shown now (Map.get key store.map));
}

pub get-Follows :
    (now : ℕ) (k : Bytes) (store : Store) (ks : Keyspace)
    → Follows now store ks
    → ((Store.get now k store).0 ≡ value_of (ks k)) × Follows now (Store.get now k store).1 ks
get-Follows now k store ks f =
    let (value, same) = get-look now k store f.valid in
    (
      value ∙ ap value_of (f.at_now k),
      record {
        valid = Step-IsValid f.valid (gets now k);
        at_now = λ key. same now key (omega arith) ∙ f.at_now key;
        later = λ t key h. same t key h ∙ f.later t key h;
      },
    )

-- An entry put at a key.
put-Becomes :
    (now : ℕ) (k : Bytes) (e : Option Entry) (store store' : Store) (ks : Keyspace)
    → Follows now store ks
    → ((t : ℕ) (key : Bytes)
        → look t key store' ≡ (if key_eq k key then filter_live t e else look t key store))
    → Becomes now store' (put k e ks)
unfolding Becomes
put-Becomes now k e store store' ks f written t key h =
    written t key ∙ elim (Bool-cases (key_eq k key)) [
      | inl same ↦ rw same refl
      | inr other ↦ rw other (f.later t key h)
    ]

pub del-Follows :
    (now : ℕ) (k : Bytes) (store : Store) (ks : Keyspace)
    → Follows now store ks
    → ((Store.del now k store).0 ≡ is_some (ks k))
      × Follows now (Store.del now k store).1 (put k none ks)
unfolding Becomes
del-Follows now k store ks f =
    let (hit, gone) = del-look now k store f.valid in
    (
      hit ∙ ap is_some (f.at_now k),
      record {
        valid = Step-IsValid f.valid (dels now k);
        at_now = λ key. gone now key ∙ elim (Bool-cases (key_eq k key)) [
          | inl same ↦ rw same refl
          | inr other ↦ rw other (f.at_now key)
        ];
        later = put-Becomes now k none store (Store.del now k store).1 ks f gone;
      },
    )

-- An entry written over another.
pub set-Becomes :
    (now : ℕ) (k value : Bytes) (d : Option ℕ) (store : Store) (ks : Keyspace)
    → Follows now store ks
    → Becomes now
        (Store.set k value d store)
        (put k (some (record { value = value; expires_at = d })) ks)
set-Becomes now k value d store ks f =
    put-Becomes now k (some (record { value = value; expires_at = d })) store
      (Store.set k value d store) ks f (λ t key. look-set t k key value d store)

count_up-next :
    (now : ℕ) (k : Bytes) (store : Store) (ks : Keyspace) (e : Option Entry)
    → Follows now store ks
    → ((count_up e k store (current e)).0 ≡ next_number e)
      × Becomes now (count_up e k store (current e)).1 (count_in (next_number e) e k ks)
unfolding current Becomes succ_i64
count_up-next now k store ks none f = (refl, set-Becomes now k (show_int (pos 1)) none store ks f)
count_up-next now k store ks (some e) f = from (parse_i64 e.value)
  where
    from :
        (n : Option ℤ)
        → ((count_up (some e) k store n).0 ≡ elim n [ none ↦ none | some z ↦ some (succ_i64 z) ])
          × Becomes now
              (count_up (some e) k store n).1
              (count_in (elim n [ none ↦ none | some z ↦ some (succ_i64 z) ]) (some e) k ks)
    from none = (refl, f.later)
    from (some z) = (refl, set-Becomes now k (show_int (succ_i64 z)) e.expires_at store ks f)

pub incr-next :
    (now : ℕ) (k : Bytes) (store : Store) (ks : Keyspace)
    → Follows now store ks
    → ((Store.incr now k store).0 ≡ next_number (ks k))
      × Becomes now (Store.incr now k store).1 (count_in (next_number (ks k)) (ks k) k ks)
unfolding Store.incr
incr-next now k store ks f =
    subst
      (λ e.
        ((count_up e k store (current e)).0 ≡ next_number (ks k))
        × Becomes now (count_up e k store (current e)).1
            (count_in (next_number (ks k)) (ks k) k ks))
      (sym (f.at_now k)) (count_up-next now k store ks (ks k) f)

set_deadline-delay :
    (now : ℕ) (k : Bytes) (deadline : ℕ) (store : Store) (ks : Keyspace) (e : Option Entry)
    → Follows now store ks
    → ((set_deadline e deadline k store).0 ≡ is_some e)
      × Becomes now (set_deadline e deadline k store).1 (delay e k deadline ks)
unfolding Becomes Store.set
set_deadline-delay now k deadline store ks none f = (refl, f.later)
set_deadline-delay now k deadline store ks (some e) f =
    (refl, set-Becomes now k e.value (some deadline) store ks f)

pub expire-delay :
    (now : ℕ) (k : Bytes) (seconds : ℕ) (store : Store) (ks : Keyspace)
    → Follows now store ks
    → ((Store.expire now k seconds store).0 ≡ is_some (ks k))
      × Becomes now
          (Store.expire now k seconds store).1
          (delay (ks k) k (deadline_in now seconds) ks)
unfolding Store.expire
expire-delay now k seconds store ks f =
    subst
      (λ e.
        ((set_deadline e (deadline_in now seconds) k store).0 ≡ is_some (ks k))
        × Becomes now (set_deadline e (deadline_in now seconds) k store).1
            (delay (ks k) k (deadline_in now seconds) ks))
      (sym (f.at_now k)) (set_deadline-delay now k (deadline_in now seconds) store ks (ks k) f)

pub time_left-seconds_left : (now : ℕ) (e : Option Entry) → time_left now e ≡ seconds_left now e
time_left-seconds_left now none = refl
time_left-seconds_left now (some e) = by_deadline e.expires_at
  where
    by_deadline :
        (d : Option ℕ)
        → remaining now d
          ≡ elim d [ none ↦ negsuc 0 | some deadline ↦ pos ((deadline - now) / 1000) ]
    by_deadline none = refl
    by_deadline (some deadline) = refl
