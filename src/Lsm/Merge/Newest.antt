-- ===== src/Lsm/Merge/Newest.antt =====
-- The merge keeps the newest record of each key, in whatever order the records come.
use rust_fundamentals.Base.{
  ◌≤◌, ◌≡◌, refl, sym, ap, ◌∙◌, subst, Option, none, some, List, [], ◌∷◌, In, leb, if◌then◌else◌,
  Bool-cases, Option-cases, true, leb→le, leb→gt, ◌⊎◌, inl, inr, arith,
}
use rust_fundamentals.Base.Bytes.{Bytes}
use rust_fundamentals.Base.Map
use rust_fundamentals.Base.Map.{Map, key_eq}
use rust_fundamentals.Base.Map.Laws.{get-insert, key_eq_refl, eq_of_key_eq}
use rust_fundamentals.Base.Map.Sorted.{IsSorted, insert-IsSorted}
use rust_fundamentals.Base.Map.Ext.{eq_of_get}
use rust_fundamentals.Lsm.Encoding.{Record}
use rust_fundamentals.Lsm.Merge.{keep_newest, merge_into, newest_per_key}

-- The newer of what is kept at a key and a record with that key; of equals the kept one.
abbrev pub newer : Option Record → Record → Option Record
newer none rec = some rec
newer (some kept) rec = if leb rec.seq kept.seq then some kept else some rec

-- What a step leaves at a key.
pub get-keep_newest :
    (best : Map Record) (rec : Record) (k : Bytes)
    → Map.get k (keep_newest best rec)
      ≡ (if key_eq rec.key k then newer (Map.get k best) rec else Map.get k best)
unfolding keep_newest
get-keep_newest best rec k = ground (arith, get-insert rec.key k rec best, eq_of_key_eq rec.key k)

-- The records of one key, newest kept.
unfoldable pub newest_at : Bytes → Option Record → List Record → Option Record
newest_at k kept [] = kept
newest_at k kept (rec ∷ rest) = newest_at k (if key_eq rec.key k then newer kept rec else kept) rest

pub get-merge_into :
    (best : Map Record) (records : List Record) (k : Bytes)
    → Map.get k (merge_into best records) ≡ newest_at k (Map.get k best) records
unfolding merge_into newest_at
get-merge_into best [] k = refl
get-merge_into best (rec ∷ rest) k =
    get-merge_into (keep_newest best rec) rest k
    ∙ ap (λ (kept : Option Record). newest_at k kept rest) (get-keep_newest best rec k)

-- What is kept is not older than what was kept before.
newest_at_grows :
    (k : Bytes) (old : Record) (records : List Record)
    → (new : Record) × (newest_at k (some old) records ≡ some new) × (old.seq ≤ new.seq)
unfolding newest_at
newest_at_grows k old [] = (old, refl, omega arith)
newest_at_grows k old (rec ∷ rest) = elim (Bool-cases (key_eq rec.key k)) [
  | inr other ↦ rw other (newest_at_grows k old rest)
  | inl same ↦ rw same (elim (Bool-cases (leb rec.seq old.seq)) [
    | inl older ↦ rw older (newest_at_grows k old rest)
    | inr later ↦
        let (new, e, le) = newest_at_grows k rec rest in
        rw later (new, e, omega (arith, le, leb→gt rec.seq old.seq later))
  ])
]

newer_covers :
    (kept : Option Record) (rec : Record)
    → (new : Record) × (newer kept rec ≡ some new) × (rec.seq ≤ new.seq)
newer_covers none rec = (rec, refl, omega arith)
newer_covers (some old) rec = elim (Bool-cases (leb rec.seq old.seq)) [
  | inl older ↦ (old, rw older, leb→le rec.seq old.seq older)
  | inr later ↦ (rec, rw later, omega arith)
]

newest_at_covers :
    (k : Bytes) (kept : Option Record) (records : List Record) (rec : Record)
    → In rec records
    → rec.key ≡ k
    → (new : Record) × (newest_at k kept records ≡ some new) × (rec.seq ≤ new.seq)
unfolding newest_at
newest_at_covers k kept [] rec i e = absurd i
newest_at_covers k kept (x ∷ rest) rec (inr i) e =
    newest_at_covers k (if key_eq x.key k then newer kept x else kept) rest rec i e
newest_at_covers k kept (x ∷ rest) rec (inl same) e =
    let at_key : key_eq x.key k ≡ true =
      subst (λ (t : Bytes). key_eq t k ≡ true) (sym e ∙ ap (λ (r : Record). r.key) same)
        (key_eq_refl k) in
    let (first, e1, le1) = newer_covers kept x in
    let (new, e2, le2) = newest_at_grows k first rest in
    let le0 = ap (λ (r : Record). r.seq) same in
    rw (at_key, e1) (new, e2, omega (arith, le0, le1, le2))

newest_at_origin :
    (k : Bytes) (kept : Option Record) (records : List Record) (b : Record)
    → newest_at k kept records ≡ some b
    → (kept ≡ some b) ⊎ (In b records × (b.key ≡ k))
unfolding newest_at
newest_at_origin k kept [] b h = inl h
newest_at_origin k kept (x ∷ rest) b h = ground (
  arith,
  newest_at_origin k (if key_eq x.key k then newer kept x else kept) rest b h,
  eq_of_key_eq x.key k,
)

-- The merge of the records holds, at the key of each of them, a record that is at least as new.
pub merge_covers :
    (records : List Record) (rec : Record)
    → In rec records
    → (new : Record) × (Map.get rec.key (merge_into [] records) ≡ some new) × (rec.seq ≤ new.seq)
merge_covers records rec i = rw get-merge_into (newest_at_covers rec.key _ records rec i refl)

-- A record that the merge holds at a key is one of the records, and has that key.
pub merge_origin :
    (records : List Record) (k : Bytes) (b : Record)
    → Map.get k (merge_into [] records) ≡ some b
    → In b records × (b.key ≡ k)
unfolding Map.get
merge_origin records k b h = elim (newest_at_origin k none records b (rw get-merge_into at h)) [
  | inl impossible ↦ absurd (cc impossible)
  | inr found ↦ found
]

pub IsSorted-merge_into :
    (best : Map Record) (records : List Record) → IsSorted best → IsSorted (merge_into best records)
unfolding merge_into keep_newest
IsSorted-merge_into best [] s = s
IsSorted-merge_into best (rec ∷ rest) s =
    IsSorted-merge_into (keep_newest best rec) rest
      (ground (arith, s, insert-IsSorted rec.key rec best s))

-- What one list keeps at a key, a list that has its records keeps or exceeds.
newest_dominated :
    (xs ys : List Record)
    → ((r : Record) → In r xs → In r ys)
    → (k : Bytes) (b : Record) → Map.get k (merge_into [] xs) ≡ some b
    → In b xs × ((c : Record) × (Map.get k (merge_into [] ys) ≡ some c) × (b.seq ≤ c.seq))
newest_dominated xs ys into k b h =
    let (inside, at_key) = merge_origin xs k b h in
    let (c, e, le) = merge_covers ys b (into b inside) in
    (inside, (c, subst (λ (t : Bytes). Map.get t (merge_into [] ys) ≡ some c) at_key e, le))

same_newest :
    (xs ys : List Record)
    → ((r : Record) → In r xs → In r ys)
    → ((r : Record) → In r ys → In r xs)
    → ((r s : Record) → In r xs → In s xs → r.seq ≡ s.seq → r ≡ s)
    → (k : Bytes) → Map.get k (merge_into [] xs) ≡ Map.get k (merge_into [] ys)
same_newest xs ys into from distinct k = elim (Option-cases (Map.get k (merge_into [] ys))) [
  | inl none_there ↦ elim (Option-cases (Map.get k (merge_into [] xs))) [
    | inl none_here ↦ none_here ∙ sym none_there
    | inr (b, here) ↦
        let (_, (c, there, _)) = newest_dominated xs ys into k b here in
        absurd (cc (there, none_there))
  ]
  | inr (c, there) ↦
      let (c_in, (b, here, c_le)) = newest_dominated ys xs from k c there in
      let (b_in, (c', there', b_le)) = newest_dominated xs ys into k b here in
      let same : c' ≡ c = cc (there, there') in
      let le : b.seq ≤ c.seq = subst (λ (t : Record). b.seq ≤ t.seq) same b_le in
      here ∙ ap some (distinct b c b_in (from c c_in) (omega arith)) ∙ sym there
]

-- Where no two records share a sequence number, lists with the same records reduce to the same
-- list, whatever their order and however often a record is repeated.
pub newest_per_key_order :
    (xs ys : List Record)
    → ((r : Record) → In r xs → In r ys)
    → ((r : Record) → In r ys → In r xs)
    → ((r s : Record) → In r xs → In s xs → r.seq ≡ s.seq → r ≡ s)
    → newest_per_key xs ≡ newest_per_key ys
unfolding newest_per_key
newest_per_key_order xs ys into from distinct = ap Map.values (
    eq_of_get _ _ (IsSorted-merge_into [] xs tt) (IsSorted-merge_into [] ys tt)
      (same_newest xs ys into from distinct))
