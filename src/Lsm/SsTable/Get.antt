-- ===== src/Lsm/SsTable/Get.antt =====
-- `get` on a table that `write` wrote.
use native.Mathlib.Nat.{mod-eq_of_lt}
use Prim.Native.Nat.Ordering.{lt}
use rust_fundamentals.Base.{
  ℕ, zero, suc, ◌+◌, ◌%◌, ◌^◌, ◌≡◌, ◌≢◌, refl, sym, ap, ◌∙◌, subst, Option, none, some, List, [],
  ◌∷◌, ◌++◌, length, get_elem?, append_assoc, All, Bool-cases, Option-cases, inl, inr,
  if◌then◌else◌,
}
use rust_fundamentals.Base.Bytes.{Bytes, At, At-skip}
use rust_fundamentals.Base.Order.{cmp}
use rust_fundamentals.Base.Map.{key_eq}
use rust_fundamentals.Base.Map.Laws.{eq_of_key_eq, ne_of_key_eq}
use rust_fundamentals.Base.Ascending.{Ascending}
use rust_fundamentals.Lsm.Result.{ok}
use rust_fundamentals.Lsm.Encoding.{Record, encode}
use rust_fundamentals.Lsm.Wal.{FrameFits}
use rust_fundamentals.Lsm.Wal.Frames.{decode-encode_alone}
use rust_fundamentals.Lsm.SsTable.{IndexEntry, image, binary_search, read_place, get}
use rust_fundamentals.Lsm.SsTable.Layout.{
  data_region, index_of, index_bytes, footer_of, TableFits, read_exact_at-At,
}
use rust_fundamentals.Lsm.SsTable.Open.{handle, first_region}
use rust_fundamentals.Lsm.SsTable.Search.{entry_key, binary_search-finds, binary_search_sound}

abbrev pub record_key : Record → Bytes
record_key r = r.key

-- The record with the key, by a walk over all of them.
unfoldable pub find : Bytes → List Record → Option Record
find key [] = none
find key (r ∷ rs) = let rest = find key rs in if key_eq r.key key then some r else rest

-- What the index says of the place of a record, in a buffer that holds the data region.
record Placed (buf : Bytes) (e : IndexEntry) (r : Record) : Type 0 where
  same_key : e.key ≡ r.key
  same_len : e.len ≡ length (encode r)
  behind : Bytes
  at_record : At buf e.offset (encode r ++ behind)

index_of-Placed :
    (rs : List Record) (offset : ℕ) (buf tail : Bytes) (p : ℕ) {r : Record}
    → All FrameFits rs
    → At buf offset (data_region rs ++ tail)
    → get_elem? rs p ≡ some r
    → (e : IndexEntry) × (get_elem? (index_of offset rs) p ≡ some e) × Placed buf e r × FrameFits r
unfolding index_of data_region
index_of-Placed [] offset buf tail p fits a h = absurd (cc h)
index_of-Placed (x ∷ rs) offset buf tail zero {r} (fit, fits) a h =
    let same : x ≡ r = cc h in
    (
      record { key = x.key; offset = offset; len = length (encode x) % 2 ^ 32 },
      refl,
      record {
        same_key = ap (λ (t : Record). t.key) same;
        same_len = mod-eq_of_lt fit.payload_fits ∙ ap (λ (t : Record). length (encode t)) same;
        behind = data_region rs ++ tail;
        at_record =
            subst (λ (t : Record). At buf offset (encode t ++ (data_region rs ++ tail))) same
              (subst (At buf offset) (append_assoc (encode x) (data_region rs) tail) a);
      },
      subst FrameFits same fit,
    )
index_of-Placed (x ∷ rs) offset buf tail (suc p) {r} (fit, fits) a h =
    index_of-Placed rs (offset + length (encode x)) buf tail p fits
      (At-skip (encode x) (data_region rs ++ tail)
        (subst (At buf offset) (append_assoc (encode x) (data_region rs) tail) a) refl)
      h

-- Each index entry belongs to a record.
index_of-record :
    (rs : List Record) (offset p : ℕ) {e : IndexEntry}
    → get_elem? (index_of offset rs) p ≡ some e
    → (r : Record) × (get_elem? rs p ≡ some r) × (r.key ≡ e.key)
unfolding index_of
index_of-record [] offset p h = absurd (cc h)
index_of-record (x ∷ rs) offset zero {e} h =
    let first : IndexEntry = record {
      key = x.key;
      offset = offset;
      len = length (encode x) % 2 ^ 32;
    } in
    let same : first ≡ e = cc h in (x, refl, ap (λ (t : IndexEntry). t.key) same)
index_of-record (x ∷ rs) offset (suc p) h = index_of-record rs (offset + length (encode x)) p h

index_of-above :
    (k : Bytes) (rs : List Record) (offset : ℕ)
    → All (λ r. cmp k (record_key r) ≡ lt) rs
    → All (λ e. cmp k (entry_key e) ≡ lt) (index_of offset rs)
unfolding index_of
index_of-above k [] offset h = tt
index_of-above k (x ∷ rs) offset (h, hs) = (h, index_of-above k rs (offset + length (encode x)) hs)

index_of-Ascending :
    (rs : List Record) (offset : ℕ)
    → Ascending record_key rs
    → Ascending entry_key (index_of offset rs)
unfolding index_of
index_of-Ascending [] offset s = tt
index_of-Ascending (x ∷ rs) offset (above, s) = (
  index_of-above x.key rs (offset + length (encode x)) above,
  index_of-Ascending rs (offset + length (encode x)) s,
)

find_place :
    (key : Bytes) (rs : List Record) {r : Record}
    → find key rs ≡ some r
    → (p : ℕ) × (get_elem? rs p ≡ some r) × (r.key ≡ key)
unfolding find
find_place key [] h = absurd (cc h)
find_place key (x ∷ rs) {r} h = elim (Bool-cases (key_eq x.key key)) [
  | inl same ↦
      let here : some x ≡ some r = rw (same, if◌then◌else◌) at h in
      let alike : x ≡ r = cc here in
      (0, here, subst (λ (t : Record). t.key ≡ key) alike (eq_of_key_eq x.key key same))
  | inr other ↦ let (p, e, k) = find_place key rs (rw (other, if◌then◌else◌) at h) in (suc p, e, k)
]

find_nowhere :
    (key : Bytes) (rs : List Record) (p : ℕ) {r : Record}
    → find key rs ≡ none
    → get_elem? rs p ≡ some r
    → r.key ≢ key
unfolding find
find_nowhere key [] p h e = absurd (cc e)
find_nowhere key (x ∷ rs) zero {r} h e = elim (Bool-cases (key_eq x.key key)) [
  | inl same ↦ absurd (cc (rw (same, if◌then◌else◌) at h))
  | inr other ↦
      let alike : x ≡ r = cc e in
      subst (λ (t : Record). t.key ≢ key) alike (ne_of_key_eq x.key key other)
]
find_nowhere key (x ∷ rs) (suc p) h e = elim (Bool-cases (key_eq x.key key)) [
  | inl same ↦ absurd (cc (rw (same, if◌then◌else◌) at h))
  | inr other ↦ find_nowhere key rs p (rw (other, if◌then◌else◌) at h) e
]

module _ (rs : List Record) (id : ℕ) (fits : TableFits rs) (sorted : Ascending record_key rs) where
  read_record :
      (p : ℕ) (e : IndexEntry) (r : Record)
      → get_elem? (index_of 0 rs) p ≡ some e
      → Placed (image rs) e r
      → FrameFits r
      → read_place (handle rs id) (some p) ≡ ok (some r)
  unfolding read_place
  read_record p e r at_e placed fit = rw (
    at_e,
    placed.same_len,
    read_exact_at-At (encode r) placed.behind placed.at_record refl,
    decode-encode_alone r fit.fields,
  )

  get-hit : (key : Bytes) (r : Record) → find key rs ≡ some r → get (handle rs id) key ≡ ok (some r)
  unfolding get
  get-hit key r found =
      let (p, at_p, has_key) = find_place key rs found in
      let (e, at_e, placed, fit) =
        index_of-Placed rs 0 (image rs) (index_bytes rs ++ footer_of rs) p fits.records
          (first_region rs fits) at_p in
      let searched : binary_search (index_of 0 rs) key ≡ some p =
        subst (λ (k : Bytes). binary_search (index_of 0 rs) k ≡ some p) (placed.same_key ∙ has_key)
          (binary_search-finds (index_of 0 rs) (index_of-Ascending rs 0 sorted) p e at_e) in
      ap (read_place (handle rs id)) searched ∙ read_record p e r at_e placed fit

  get-miss : (key : Bytes) → find key rs ≡ none → get (handle rs id) key ≡ ok none
  unfolding get read_place
  get-miss key missing = elim (Option-cases (binary_search (index_of 0 rs) key)) [
    | inl nothing ↦ ap (read_place (handle rs id)) nothing
    | inr (i, searched) ↦
        let (e, at_e, has_key) = binary_search_sound (index_of 0 rs) key i searched in
        let (r, at_r, same) = index_of-record rs 0 i at_e in
        absurd (find_nowhere key rs i missing at_r (same ∙ has_key))
  ]

  -- A table written for records in the strict order of their keys, and opened, gives for each key
  -- the record that a walk over the records finds, and none where there is none; it does not fail.
  pub get-image : (key : Bytes) → get (handle rs id) key ≡ ok (find key rs)
  get-image key = elim (Option-cases (find key rs)) [
    | inl missing ↦ get-miss key missing ∙ ap ok (sym missing)
    | inr (r, found) ↦ get-hit key r found ∙ ap ok (sym found)
  ]
