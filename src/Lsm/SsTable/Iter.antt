-- ===== src/Lsm/SsTable/Iter.antt =====
-- `iter` on a table that `write` wrote.
use rust_fundamentals.Base.{
  ℕ, zero, suc, ◌+◌, ◌<◌, ◌≡◌, refl, sym, ap, ◌∙◌, List, [], ◌∷◌, ◌++◌, length, append_assoc,
  append-nil, length-append, arith, All, lt→ltb, ge→ltb,
}
use rust_fundamentals.Base.Bytes.{Bytes, At, At-start, At-skip, length-At, drop-At}
use rust_fundamentals.Lsm.Result.{ok}
use rust_fundamentals.Lsm.Encoding.{Record, encode}
use rust_fundamentals.Lsm.Encoding.RoundTrip.{decode-encode, length-encode}
use rust_fundamentals.Lsm.Wal.{FrameFits}
use rust_fundamentals.Lsm.SsTable.{iter_loop, iter}
use rust_fundamentals.Lsm.SsTable.Layout.{
  data_region, index_bytes, footer_of, TableFits, read_exact_at-At,
}
use rust_fundamentals.Lsm.SsTable.Open.{handle, first_region}

iter_loop-region :
    (rs : List Record) (fuel : ℕ) (contents : Bytes) (pos : ℕ) (records : List Record)
    → All FrameFits rs
    → At contents pos (data_region rs)
    → length contents < pos + fuel
    → iter_loop fuel contents pos records ≡ ok (records ++ rs)
unfolding iter_loop data_region
iter_loop-region rs zero contents pos records fits a enough =
    absurd (omega (arith, length-At (data_region rs) a))
iter_loop-region [] (suc fuel) contents pos records fits a enough =
    rw (ge→ltb pos (length contents) (omega (arith, length-At [] a)))
      (ap ok (sym (append-nil records)))
iter_loop-region (r ∷ rs) (suc fuel) contents pos records (fit, fits) a enough =
    let inside : pos < length contents = omega (
      arith,
      length-At (encode r ++ data_region rs) a,
      length-append (encode r) (data_region rs),
      length-encode r,
    ) in
    rw
      (
        lt→ltb pos (length contents) inside,
        drop-At (encode r ++ data_region rs) a,
        decode-encode r (data_region rs) fit.fields,
      )
      (iter_loop-region rs fuel contents (pos + length (encode r)) (records ++ (r ∷ [])) fits
          (At-skip (encode r) (data_region rs) a refl) (omega (arith, length-encode r))
        ∙ ap ok (append_assoc records (r ∷ []) rs))

-- A table written for these records, and opened, iterates over them, in their order.
pub iter-image : (rs : List Record) (id : ℕ) → TableFits rs → iter (handle rs id) ≡ ok rs
unfolding iter
iter-image rs id fits =
    rw
      (read_exact_at-At (data_region rs) (index_bytes rs ++ footer_of rs) (first_region rs fits)
        refl)
      (iter_loop-region rs _ (data_region rs) 0 [] fits.records (At-start (data_region rs))
        (omega arith))
