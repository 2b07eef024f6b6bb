-- ===== src/Lsm/SsTable/Open.antt =====
-- `open` on what `write` wrote.
use rust_fundamentals.Base.{
  ℕ, suc, ◌+◌, ◌-◌, ◌^◌, ◌<◌, ◌≡◌, refl, sym, ap, ◌∙◌, subst, List, [], ◌∷◌, ◌++◌, length,
  append-nil, arith, All, ge→ltb,
}
use Prim.Native.Nat.{max}
use rust_fundamentals.Base.Bytes.{
  to_le_bytes, from_le_bytes, from_le_bytes-to_le_bytes, At, At-start, At-skip, length-At,
}
use rust_fundamentals.Lsm.Result.{ok}
use rust_fundamentals.Lsm.Encoding.{Record}
use rust_fundamentals.Lsm.Wal.{FrameFits}
use rust_fundamentals.Lsm.SsTable.{
  SsTable, footer, sst_magic, field, image, read_exact_at, parse_index, open_table,
}
use rust_fundamentals.Lsm.SsTable.Layout.{
  data_region, index_of, top_seq, index_bytes, footer_of, image-regions, TableFits,
  read_exact_at-At,
}
use rust_fundamentals.Lsm.SsTable.Index.{parse_index-region, index_of-EntryFits}

length-footer : (a b c d : ℕ) → length (footer a b c d) ≡ 36
unfolding footer to_le_bytes
length-footer a b c d = refl

-- The handle that `open` should give for a table of these records.
abbrev pub handle : List Record → ℕ → SsTable
handle rs id = record {
  id = id;
  file = image rs;
  index = index_of 0 rs;
  data_len = length (data_region rs);
  max_seq = top_seq 0 rs;
}

-- The four fields that `open` reads from a footer.
field_offset : (a b c d : ℕ) → a < 2 ^ 64 → field (footer a b c d) 0 8 ≡ a
unfolding footer to_le_bytes
field_offset a b c d h = from_le_bytes-to_le_bytes 8 a h

field_len : (a b c d : ℕ) → b < 2 ^ 64 → field (footer a b c d) 8 16 ≡ b
unfolding footer to_le_bytes
field_len a b c d h = from_le_bytes-to_le_bytes 8 b h

field_seq : (a b c d : ℕ) → d < 2 ^ 64 → field (footer a b c d) 24 32 ≡ d
unfolding footer to_le_bytes
field_seq a b c d h = from_le_bytes-to_le_bytes 8 d h

field_magic : (a b c d : ℕ) → field (footer a b c d) 32 36 ≡ sst_magic
unfolding footer to_le_bytes from_le_bytes
field_magic a b c d = refl

top_seq-lt :
    (rs : List Record) (seq : ℕ) → seq < 2 ^ 64 → All FrameFits rs → top_seq seq rs < 2 ^ 64
unfolding top_seq
top_seq-lt [] seq h fits = h
top_seq-lt (r ∷ rs) seq h (fit, fits) =
    top_seq-lt rs (max seq r.seq) (omega (arith, fit.fields.seq_fits)) fits

module _ (rs : List Record) (fits : TableFits rs) where
  pub first_region : At (image rs) 0 (data_region rs ++ (index_bytes rs ++ footer_of rs))
  first_region = subst (At (image rs) 0) (image-regions rs) (At-start (image rs))

  second_region : At (image rs) (length (data_region rs)) (index_bytes rs ++ footer_of rs)
  second_region =
      subst (λ (k : ℕ). At (image rs) k (index_bytes rs ++ footer_of rs)) (omega arith)
        (At-skip (data_region rs) (index_bytes rs ++ footer_of rs) first_region refl)

  third_region : At (image rs) (length (data_region rs) + length (index_bytes rs)) (footer_of rs)
  third_region = At-skip (index_bytes rs) (footer_of rs) second_region refl

  length-image : length (image rs) ≡ length (data_region rs) + length (index_bytes rs) + 36
  length-image =
      length-At (footer_of rs) third_region
      ∙ ap (λ (k : ℕ). length (data_region rs) + length (index_bytes rs) + k)
          (length-footer _ _ _ _)

  read_footer : read_exact_at (image rs) (length (image rs) - 36) 36 ≡ ok (footer_of rs)
  read_footer =
      read_exact_at-At (footer_of rs) []
        (subst (λ (k : ℕ). At (image rs) k (footer_of rs ++ [])) (omega (arith, length-image))
          (subst (At (image rs) _) (sym (append-nil (footer_of rs))) third_region))
        (length-footer _ _ _ _)

  read_index :
      read_exact_at (image rs) (length (data_region rs)) (length (index_bytes rs))
      ≡ ok (index_bytes rs)
  read_index = read_exact_at-At (index_bytes rs) (footer_of rs) second_region refl

  parse_index-image :
      parse_index (suc (length (index_bytes rs))) (index_bytes rs) 0 [] ≡ ok (index_of 0 rs)
  parse_index-image =
      parse_index-region (index_of 0 rs) _ (index_bytes rs) 0 []
        (index_of-EntryFits rs 0 fits.records (omega (arith, fits.small, length-image)))
        (At-start (index_bytes rs)) (omega arith)

  -- Opening the file that `write` wrote for these records gives the handle with their index, their
  -- data region's length and their highest sequence number.
  pub open_table-image : (id : ℕ) → open_table (image rs) id ≡ ok (handle rs id)
  unfolding open_table
  open_table-image id =
      let a = length (data_region rs) in
      let b = length (index_bytes rs) in
      let c = length (index_of 0 rs) in
      let d = top_seq 0 rs in
      rw (
        ge→ltb (length (image rs)) 36 (omega (arith, length-image)),
        read_footer,
        field_magic a b c d,
        field_offset a b c d (omega (arith, fits.small, length-image)),
        field_len a b c d (omega (arith, fits.small, length-image)),
        field_seq a b c d (top_seq-lt rs 0 (omega arith) fits.records),
        read_index,
        parse_index-image,
      )
