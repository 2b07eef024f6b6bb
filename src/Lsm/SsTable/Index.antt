-- ===== src/Lsm/SsTable/Index.antt =====
-- The index region, written and read back.
use native.Mathlib.Nat.{mod-eq_of_lt}
use rust_fundamentals.Base.{
  ℕ, zero, suc, ◌+◌, ◌^◌, ◌<◌, ◌≡◌, refl, sym, ap, ◌∙◌, subst, List, [], ◌∷◌, ◌++◌, length,
  append_assoc, append-nil, length-append, arith, All, lt→ltb, ge→ltb,
}
use rust_fundamentals.Base.Bytes.{
  Bytes, to_le_bytes, length-to_le_bytes, from_le_bytes-to_le_bytes, At, At-skip, get_range-At,
  length-At,
}
use rust_fundamentals.Lsm.Result.{ok}
use rust_fundamentals.Lsm.Encoding.{Record, encode}
use rust_fundamentals.Lsm.Wal.{FrameFits}
use rust_fundamentals.Lsm.SsTable.{IndexEntry, entry_bytes, next_entry, parse_index}
use rust_fundamentals.Lsm.SsTable.Layout.{data_region, index_of, index_region}

pub record EntryFits (e : IndexEntry) : Type 0 where
  pub key_fits : length e.key < 2 ^ 32
  pub offset_fits : e.offset < 2 ^ 64
  pub len_fits : e.len < 2 ^ 32

abbrev entry_layout : IndexEntry → Bytes → Bytes
entry_layout e rest =
    to_le_bytes 4 (length e.key)
    ++ (e.key ++ (to_le_bytes 8 e.offset ++ (to_le_bytes 4 e.len ++ rest)))

entry_bytes-layout :
    (e : IndexEntry) (rest : Bytes) → EntryFits e → entry_bytes e ++ rest ≡ entry_layout e rest
unfolding entry_bytes
entry_bytes-layout e rest f = rw (mod-eq_of_lt f.key_fits) (simp append_assoc)

length-entry_bytes : (e : IndexEntry) → length (entry_bytes e) ≡ length e.key + 16
unfolding entry_bytes
length-entry_bytes e = simp (length-append, length-to_le_bytes) (omega arith)

next_entry-At :
    {bytes : Bytes} {pos : ℕ} (e : IndexEntry) (rest : Bytes)
    → EntryFits e
    → At bytes pos (entry_bytes e ++ rest)
    → next_entry bytes pos ≡ ok (e, pos + length (entry_bytes e))
unfolding next_entry
next_entry-At {bytes} {pos} e rest f a =
    let key_len = from_le_bytes-to_le_bytes 4 (length e.key) f.key_fits in
    let a0 = subst (At bytes pos) (entry_bytes-layout e rest f) a in
    let a1 = At-skip (to_le_bytes 4 (length e.key)) _ a0 (length-to_le_bytes 4 (length e.key)) in
    let a2 = At-skip e.key _ a1 refl in
    let a3 = At-skip (to_le_bytes 8 e.offset) _ a2 (length-to_le_bytes 8 e.offset) in
    rw
      (
        get_range-At (to_le_bytes 4 (length e.key)) _ a0 (length-to_le_bytes 4 (length e.key)),
        key_len,
        get_range-At e.key _ a1 refl,
        get_range-At (to_le_bytes 8 e.offset) _ a2 (length-to_le_bytes 8 e.offset),
        get_range-At (to_le_bytes 4 e.len) _ a3 (length-to_le_bytes 4 e.len),
        from_le_bytes-to_le_bytes 8 e.offset f.offset_fits,
        from_le_bytes-to_le_bytes 4 e.len f.len_fits,
        length-entry_bytes e,
      )
      (ap (λ (k : ℕ). ok (e, k)) (omega arith))

pub parse_index-region :
    (es : List IndexEntry) (fuel : ℕ) (bytes : Bytes) (pos : ℕ) (index : List IndexEntry)
    → All EntryFits es
    → At bytes pos (index_region es)
    → length bytes < pos + fuel
    → parse_index fuel bytes pos index ≡ ok (index ++ es)
unfolding parse_index index_region
parse_index-region es zero bytes pos index fits a enough =
    absurd (omega (arith, length-At (index_region es) a))
parse_index-region [] (suc fuel) bytes pos index fits a enough =
    rw (ge→ltb pos (length bytes) (omega (arith, length-At [] a))) (ap ok (sym (append-nil index)))
parse_index-region (e ∷ es) (suc fuel) bytes pos index (fit, fits) a enough =
    let inside : pos < length bytes = omega (
      arith,
      length-At (entry_bytes e ++ index_region es) a,
      length-append (entry_bytes e) (index_region es),
      length-entry_bytes e,
    ) in
    rw (lt→ltb pos (length bytes) inside, next_entry-At e (index_region es) fit a)
      (parse_index-region es fuel bytes (pos + length (entry_bytes e)) (index ++ (e ∷ [])) fits
          (At-skip (entry_bytes e) (index_region es) a refl) (omega (arith, length-entry_bytes e))
        ∙ ap ok (append_assoc index (e ∷ []) es))

pub index_of-EntryFits :
    (rs : List Record) (offset : ℕ)
    → All FrameFits rs
    → offset + length (data_region rs) < 2 ^ 64
    → All EntryFits (index_of offset rs)
unfolding index_of data_region
index_of-EntryFits [] offset fits small = tt
index_of-EntryFits (r ∷ rs) offset (fit, fits) small = (
  record { key_fits = fit.fields.key_fits; offset_fits = omega arith; len_fits = omega arith },
  index_of-EntryFits rs (offset + length (encode r)) fits
      (omega (arith, length-append (encode r) (data_region rs))),
)
