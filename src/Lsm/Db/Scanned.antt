-- ===== src/Lsm/Db/Scanned.antt =====
-- What `scan` gives is what `get` gives, key by key.
use rust_fundamentals.Base.{
  ◌<◌, ◌≡◌, refl, sym, ap, ◌∙◌, Option, none, some, List, [], ◌∷◌, ◌++◌, In, inl, inr, Bool-cases,
  gt→leb, Ordering-cases,
}
use rust_fundamentals.Base.Bytes.{Bytes}
use rust_fundamentals.Base.Order.{cmp, eq_of_cmp}
use rust_fundamentals.Base.Map
use rust_fundamentals.Base.Map.{Map, key_eq}
use rust_fundamentals.Base.Map.Laws.{eq_of_key_eq}
use rust_fundamentals.Base.Map.Sorted.{Above, IsSorted, get-Above}
use rust_fundamentals.Base.Ascending.{Ascending}
use rust_fundamentals.Lsm.Result.{ok}
use rust_fundamentals.Lsm.Encoding
use rust_fundamentals.Lsm.Encoding.{Record, ValueKind}
use rust_fundamentals.Lsm.MemTable
use rust_fundamentals.Lsm.MemTable.Valid
use rust_fundamentals.Lsm.Merge.{keep_newest, merge_into, collect}
use rust_fundamentals.Lsm.Merge.Newest.{
  newer, newest_at, get-merge_into, IsSorted-merge_into, merge_origin,
}
use rust_fundamentals.Lsm.SsTable.Iter.{iter-image}
use rust_fundamentals.Lsm.SsTable.Get.{record_key, find}
use rust_fundamentals.Lsm.Db.{Db, or_older, live, get_tables, get}
use rust_fundamentals.Lsm.Db.Scan.{gather, push_live, live_pairs, scan}
use rust_fundamentals.Lsm.Db.Buffered.{find-values, Ascending-values}
use rust_fundamentals.Lsm.Db.Levels.{Level, handles, LevelsFit}
use rust_fundamentals.Lsm.Db.Layers.{
  Layered, Newer, or_else, first_hit, newest_at-layers, find-above, newest_at-absent,
}
use rust_fundamentals.Lsm.Db.Merged.{lists, get_tables-handles}

merge_into-append :
    (best : Map Record) (xs ys : List Record)
    → merge_into best (xs ++ ys) ≡ merge_into (merge_into best xs) ys
unfolding merge_into
merge_into-append best [] ys = refl
merge_into-append best (x ∷ xs) ys = merge_into-append (keep_newest best x) xs ys

gather-handles :
    (best : Map Record) (ls : List Level)
    → LevelsFit ls
    → gather best (handles ls) ≡ ok (merge_into best (collect (lists ls)))
unfolding gather collect merge_into
gather-handles best [] fits = refl
gather-handles best (l ∷ ls) (fit, fits) = rw (iter-image l.1 l.0 fit) (
    gather-handles (merge_into best l.1) ls fits
    ∙ ap ok (sym (merge_into-append best l.1 (collect (lists ls)))))

-- What is kept is older than any record of the key.
abbrev Older : Bytes → Option Record → List Record → Type 0
Older k none rs = Unit {0}
Older k (some a) rs = (b : Record) → In b rs → b.key ≡ k → a.seq < b.seq

newer-Older :
    (k : Bytes) (kept : Option Record) (x : Record) (xs : List Record)
    → Older k kept (x ∷ xs)
    → x.key ≡ k
    → newer kept x ≡ some x
newer-Older k none x xs h e = refl
newer-Older k (some a) x xs h e = rw (gt→leb x.seq a.seq (h x (inl refl) e))

Older-tail :
    (k : Bytes) (kept : Option Record) (x : Record) (xs : List Record)
    → Older k kept (x ∷ xs)
    → Older k kept xs
Older-tail k none x xs h = tt
Older-tail k (some a) x xs h = λ b i. h b (inr i)

newest_at-Older :
    (k : Bytes) (kept : Option Record) (rs : List Record)
    → Ascending record_key rs
    → Older k kept rs
    → newest_at k kept rs ≡ or_else (find k rs) kept
unfolding newest_at find
newest_at-Older k kept [] s h = refl
newest_at-Older k kept (x ∷ xs) (above, s) h = elim (Bool-cases (key_eq x.key k)) [
  | inl same ↦
      rw (same, newer-Older k kept x xs h (eq_of_key_eq x.key k same))
        (newest_at-absent k (some x) xs (find-above k x.key xs same above))
  | inr other ↦ rw other (newest_at-Older k kept xs s (Older-tail k kept x xs h))
]

first_hit-Older :
    (k : Bytes) (new : List Record) (rss : List (List Record)) (hit : Option Record)
    → Layered rss
    → Newer new (collect rss)
    → first_hit k rss ≡ hit
    → Older k hit new
unfolding Map.get
first_hit-Older k new rss none layered h e = tt
first_hit-Older k new rss (some a) layered h e =
    let (inside, at_key) =
      merge_origin (collect rss) k a
        (get-merge_into [] (collect rss) k ∙ newest_at-layers k rss layered ∙ e) in
    λ b i same. h b a i inside (same ∙ sym at_key)

-- What a record shows.
abbrev shown : Option Record → Option Bytes
shown none = none
shown (some r) = live r.value

get-push_live :
    (key j : Bytes) (v : ValueKind) (r : Record) (m : Map Record) (out : Map Bytes)
    → r.value ≡ v
    → Above j m
    → Map.get key out ≡ shown (Map.get key m)
    → Map.get key (push_live j v out) ≡ shown (Map.get key ((j, r) ∷ m))
unfolding Map.get
get-push_live key j (Encoding.put x) r m out e a same = elim (Ordering-cases (cmp key j)) [
  | inl p ↦ rw (p, Map.get)
  | inr (inl p) ↦ rw (p, Map.get) (ap live (sym e))
  | inr (inr p) ↦ rw (p, Map.get) same
]
get-push_live key j Encoding.delete r m out e a same = elim (Ordering-cases (cmp key j)) [
  | inl p ↦ rw (p, Map.get) (same ∙ ap shown (get-Above key j m a (inl p)))
  | inr (inl p) ↦
      rw (p, Map.get)
        (same ∙ ap shown (get-Above key j m a (inr (eq_of_cmp key j p))) ∙ ap live (sym e))
  | inr (inr p) ↦ rw (p, Map.get) same
]

get-live_pairs :
    (key : Bytes) (m : Map Record) → IsSorted m → Map.get key (live_pairs m) ≡ shown (Map.get key m)
unfolding live_pairs Map.get
get-live_pairs key [] s = refl
get-live_pairs key ((j, r) ∷ m) (a, s) =
    get-push_live key j r.value r m (live_pairs m) refl a (get-live_pairs key m s)

-- The store's records are in order: the memtable's are valid and newer than the tables', and of one
-- key the newer tables have the higher sequence numbers.
pub record Ordered (db : Db) (ls : List Level) : Type 0 where
  pub opened : db.sstables ≡ handles ls
  pub fits : LevelsFit ls
  pub layered : Layered (lists ls)
  pub valid : Valid.IsValid db.mem
  pub newer_mem : Newer (MemTable.records db.mem) (collect (lists ls))

or_older-or_else :
    (hit rest : Option Record)
    → or_older hit (or_older rest (ok none)) ≡ ok (shown (or_else hit rest))
or_older-or_else none none = refl
or_older-or_else none (some r) = refl
or_older-or_else (some r) rest = refl

-- The records of the tables and of the memtable, merged.
abbrev merged : Db → List Level → Map Record
merged db ls = merge_into (merge_into [] (collect (lists ls))) (MemTable.records db.mem)

get-merged :
    (db : Db) (ls : List Level) (key : Bytes)
    → Ordered db ls
    → Map.get key (merged db ls) ≡ or_else (MemTable.get key db.mem) (first_hit key (lists ls))
unfolding MemTable.get MemTable.records Map.get
get-merged db ls key o =
    get-merge_into (merge_into [] (collect (lists ls))) (MemTable.records db.mem) key
    ∙ ap (λ kept. newest_at key kept (MemTable.records db.mem))
        (get-merge_into [] (collect (lists ls)) key ∙ newest_at-layers key (lists ls) o.layered)
    ∙ newest_at-Older key (first_hit key (lists ls)) (MemTable.records db.mem)
        (Ascending-values db.mem.map o.valid.sorted o.valid.keyed)
        (first_hit-Older key _ (lists ls) _ o.layered o.newer_mem refl)
    ∙ ap (λ hit. or_else hit (first_hit key (lists ls)))
        (find-values key db.mem.map o.valid.sorted o.valid.keyed)

get-Ordered :
    (db : Db) (ls : List Level) (key : Bytes)
    → Ordered db ls
    → get db key ≡ ok (shown (or_else (MemTable.get key db.mem) (first_hit key (lists ls))))
unfolding get
get-Ordered db ls key o =
    ap (λ ts. or_older (MemTable.get key db.mem) (get_tables ts key)) o.opened
    ∙ ap (or_older (MemTable.get key db.mem)) (get_tables-handles ls key o.fits o.layered)
    ∙ or_older-or_else (MemTable.get key db.mem) (first_hit key (lists ls))

-- On a store whose records are in order `scan` succeeds, and looking a key up in its pairs gives
-- what `get` gives for it.
pub scan-get :
    (db : Db) (ls : List Level)
    → Ordered db ls
    → (out : Map Bytes) × (scan db ≡ ok out) × ((key : Bytes) → get db key ≡ ok (Map.get key out))
unfolding scan
scan-get db ls o = (
  live_pairs (merged db ls),
  rw (ap (gather []) o.opened ∙ gather-handles [] ls o.fits),
  λ key.
      get-Ordered db ls key o
      ∙ ap (λ hit. ok (shown hit)) (sym (get-merged db ls key o))
      ∙ ap ok (
          sym (
            get-live_pairs key (merged db ls) (
              IsSorted-merge_into _ (MemTable.records db.mem)
                (IsSorted-merge_into [] (collect (lists ls)) tt)))),
)
