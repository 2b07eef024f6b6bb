-- ===== src/Lsm/Db/Layers.antt =====
-- Levels in the order of their sequence numbers, and what merging them keeps.
use Prim.Native.Nat.Ordering.{lt}
use rust_fundamentals.Base.{
  ◌<◌, ◌≡◌, refl, sym, ap, ◌∙◌, subst, Option, none, some, List, [], ◌∷◌, ◌++◌, All, In, arith,
  Bool-cases, inl, inr, true, le→leb, if◌then◌else◌,
}
use rust_fundamentals.Base.Bytes.{Bytes}
use rust_fundamentals.Base.Order.{cmp, cmp_refl}
use rust_fundamentals.Base.Map.{Map, key_eq}
use rust_fundamentals.Base.Map.Laws.{eq_of_key_eq}
use rust_fundamentals.Base.Ascending.{Ascending}
use rust_fundamentals.Lsm.Encoding.{Record}
use rust_fundamentals.Lsm.MemTable.Valid.{IsKeyed, IsKeyed-insert}
use rust_fundamentals.Lsm.Merge.{keep_newest, merge_into, is_delete, retain_puts, collect}
use rust_fundamentals.Lsm.Merge.Newest.{newer, newest_at}
use rust_fundamentals.Lsm.SsTable.Get.{record_key, find}

-- Of one key, the records of the first list are newer.
abbrev pub Newer : List Record → List Record → Type 0
Newer new old = (r s : Record) → In r new → In s old → r.key ≡ s.key → s.seq < r.seq

-- Each list is in the order of its keys, and of one key the records go from new to old.
abbrev pub Layered : List (List Record) → Type 0
Layered [] = Unit {0}
Layered (rs ∷ lists) = Ascending record_key rs × Newer rs (collect lists) × Layered lists

abbrev pub or_else : Option Record → Option Record → Option Record
or_else none other = other
or_else (some r) other = some r

-- What the first list with the key has for it.
unfoldable pub first_hit : Bytes → List (List Record) → Option Record
first_hit key [] = none
first_hit key (rs ∷ lists) = or_else (find key rs) (first_hit key lists)

pub find-above :
    (key k : Bytes) (rs : List Record)
    → key_eq k key ≡ true
    → All (λ r. cmp k (record_key r) ≡ lt) rs
    → find key rs ≡ none
unfolding find key_eq
find-above key k [] e h = refl
find-above key k (r ∷ rs) e (p, h) =
    ground
      (arith, find-above key k rs e h, eq_of_key_eq k key e, eq_of_key_eq r.key key, cmp_refl k, p)

newest_at-append :
    (k : Bytes) (kept : Option Record) (xs ys : List Record)
    → newest_at k kept (xs ++ ys) ≡ newest_at k (newest_at k kept xs) ys
unfolding newest_at
newest_at-append k kept [] ys = refl
newest_at-append k kept (x ∷ xs) ys =
    newest_at-append k (if key_eq x.key k then newer kept x else kept) xs ys

-- Older records change nothing.
newest_at-older :
    (k : Bytes) (b : Record) (xs : List Record)
    → ((s : Record) → In s xs → b.key ≡ s.key → s.seq < b.seq)
    → b.key ≡ k
    → newest_at k (some b) xs ≡ some b
unfolding newest_at
newest_at-older k b [] h e = refl
newest_at-older k b (x ∷ xs) h e = elim (Bool-cases (key_eq x.key k)) [
  | inl same ↦
      let older = h x (inl refl) (e ∙ sym (eq_of_key_eq x.key k same)) in
      rw (same, le→leb x.seq b.seq (omega arith)) (newest_at-older k b xs (λ s i. h s (inr i)) e)
  | inr other ↦ rw other (newest_at-older k b xs (λ s i. h s (inr i)) e)
]

pub newest_at-absent :
    (k : Bytes) (kept : Option Record) (rs : List Record)
    → find k rs ≡ none
    → newest_at k kept rs ≡ kept
unfolding newest_at find
newest_at-absent k kept [] h = refl
newest_at-absent k kept (x ∷ xs) h = elim (Bool-cases (key_eq x.key k)) [
  | inl same ↦ absurd (cc (rw (same, if◌then◌else◌) at h))
  | inr other ↦ rw other (newest_at-absent k kept xs (rw (other, if◌then◌else◌) at h))
]

-- Of a list in the order of its keys, the newest record of a key is the one that a walk finds.
newest_at-find :
    (k : Bytes) (rs : List Record) → Ascending record_key rs → newest_at k none rs ≡ find k rs
unfolding newest_at find
newest_at-find k [] s = refl
newest_at-find k (x ∷ xs) (above, s) = elim (Bool-cases (key_eq x.key k)) [
  | inl same ↦ rw same (newest_at-absent k (some x) xs (find-above k x.key xs same above))
  | inr other ↦ rw other (newest_at-find k xs s)
]

find-In : (k : Bytes) (rs : List Record) {b : Record} → find k rs ≡ some b → In b rs × (b.key ≡ k)
unfolding find
find-In k [] h = absurd (cc h)
find-In k (x ∷ xs) {b} h = elim (Bool-cases (key_eq x.key k)) [
  | inl same ↦
      let here : some x ≡ some b = rw (same, if◌then◌else◌) at h in
      let alike : x ≡ b = cc here in
      (inl (sym alike), subst (λ (t : Record). t.key ≡ k) alike (eq_of_key_eq x.key k same))
  | inr other ↦ let (i, e) = find-In k xs (rw (other, if◌then◌else◌) at h) in (inr i, e)
]

newest_at-behind :
    (k : Bytes) (rs older : List Record) (rest hit : Option Record)
    → Newer rs older
    → find k rs ≡ hit
    → newest_at k none older ≡ rest
    → newest_at k hit older ≡ or_else hit rest
newest_at-behind k rs older rest none new missing e = e
newest_at-behind k rs older rest (some b) new found e =
    let (inside, at_key) = find-In k rs found in
    newest_at-older k b older (λ s i same. new b s inside i same) at_key

-- Merging levels keeps of each key what the first level with the key has.
pub newest_at-layers :
    (k : Bytes) (lists : List (List Record))
    → Layered lists
    → newest_at k none (collect lists) ≡ first_hit k lists
unfolding collect first_hit newest_at
newest_at-layers k [] l = refl
newest_at-layers k (rs ∷ lists) (sorted, new, l) =
    newest_at-append k none rs (collect lists)
    ∙ ap (λ kept. newest_at k kept (collect lists)) (newest_at-find k rs sorted)
    ∙ newest_at-behind k rs (collect lists) (first_hit k lists) (find k rs) new refl
        (newest_at-layers k lists l)

-- What merging keeps of a key where the tombstones are left out.
abbrev pub unless_deleted : Option Record → Option Record
unless_deleted none = none
unless_deleted (some r) = if is_delete r.value then none else some r

pub find-retain_puts :
    (k : Bytes) (rs : List Record)
    → Ascending record_key rs
    → find k (retain_puts rs) ≡ unless_deleted (find k rs)
unfolding find retain_puts
find-retain_puts k [] s = refl
find-retain_puts k (x ∷ xs) (above, s) = elim (Bool-cases (key_eq x.key k)) [
  | inl same ↦ elim (Bool-cases (is_delete x.value)) [
    | inl dropped ↦
        rw (same, dropped)
          (find-retain_puts k xs s ∙ ap unless_deleted (find-above k x.key xs same above))
    | inr kept ↦ rw (kept, same, kept, find)
  ]
  | inr other ↦ elim (Bool-cases (is_delete x.value)) [
    | inl dropped ↦ rw (other, dropped) (find-retain_puts k xs s)
    | inr kept ↦ rw (other, kept, other, find) (find-retain_puts k xs s)
  ]
]

All-retain_puts :
    (k : Bytes) (rs : List Record)
    → All (λ r. cmp k (record_key r) ≡ lt) rs
    → All (λ r. cmp k (record_key r) ≡ lt) (retain_puts rs)
unfolding retain_puts
All-retain_puts k [] h = tt
All-retain_puts k (x ∷ xs) (p, h) = elim (Bool-cases (is_delete x.value)) [
  | inl dropped ↦ rw dropped (All-retain_puts k xs h)
  | inr kept ↦ rw kept (p, All-retain_puts k xs h)
]

pub Ascending-retain_puts :
    (rs : List Record) → Ascending record_key rs → Ascending record_key (retain_puts rs)
unfolding retain_puts
Ascending-retain_puts [] s = tt
Ascending-retain_puts (x ∷ xs) (above, s) = elim (Bool-cases (is_delete x.value)) [
  | inl dropped ↦ rw dropped (Ascending-retain_puts xs s)
  | inr kept ↦ rw kept (All-retain_puts x.key xs above, Ascending-retain_puts xs s)
]

pub IsKeyed-merge_into :
    (best : Map Record) (records : List Record) → IsKeyed best → IsKeyed (merge_into best records)
unfolding merge_into keep_newest
IsKeyed-merge_into best [] h = h
IsKeyed-merge_into best (rec ∷ rest) h =
    IsKeyed-merge_into (keep_newest best rec) rest
      (ground (arith, h, IsKeyed-insert rec.key rec best refl h))
