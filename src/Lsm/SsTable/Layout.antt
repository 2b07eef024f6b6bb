-- ===== src/Lsm/SsTable/Layout.antt =====
-- The bytes that `write` lays down, region by region.
use Prim.Native.Nat.{max}
use rust_fundamentals.Base.{
  ℕ, zero, suc, ◌+◌, ◌-◌, ◌%◌, ◌^◌, ◌<◌, ◌≡◌, refl, sym, ap, ◌∙◌, List, [], ◌∷◌, ◌++◌, length,
  append_assoc, append-nil, length-append, arith, All, le→leb, take-append,
}
use rust_fundamentals.Base.Bytes.{Bytes, At, length-At, drop-At}
use rust_fundamentals.Lsm.Result.{ok}
use rust_fundamentals.Lsm.Encoding.{Record, Seq, encode}
use rust_fundamentals.Lsm.Wal.{FrameFits}
use rust_fundamentals.Lsm.SsTable.{
  IndexEntry, build, entry_bytes, append_index, footer, image, read_exact_at,
}

unfoldable pub data_region : List Record → Bytes
data_region [] = []
data_region (r ∷ rs) = encode r ++ data_region rs

-- One index entry for each record, from the offset of the first on.
unfoldable pub index_of : ℕ → List Record → List IndexEntry
index_of offset [] = []
index_of offset (r ∷ rs) =
    record { key = r.key; offset = offset; len = length (encode r) % 2 ^ 32 }
    ∷ index_of (offset + length (encode r)) rs

unfoldable pub top_seq : Seq → List Record → Seq
top_seq seq [] = seq
top_seq seq (r ∷ rs) = top_seq (max seq r.seq) rs

unfoldable pub index_region : List IndexEntry → Bytes
index_region [] = []
index_region (e ∷ es) = entry_bytes e ++ index_region es

build-regions :
    (rs : List Record) (contents : Bytes) (index : List IndexEntry) (seq : Seq)
    → build rs contents index seq
      ≡ (contents ++ data_region rs, index ++ index_of (length contents) rs, top_seq seq rs)
unfolding build data_region index_of top_seq
build-regions [] contents index seq = simp append-nil
build-regions (r ∷ rs) contents index seq =
    build-regions rs (contents ++ encode r) _ (max seq r.seq) ∙ simp (append_assoc, length-append)

append_index-region :
    (contents : Bytes) (es : List IndexEntry)
    → append_index contents es ≡ contents ++ index_region es
unfolding append_index index_region
append_index-region contents [] = sym (append-nil contents)
append_index-region contents (e ∷ es) =
    append_index-region (contents ++ entry_bytes e) es ∙ append_assoc contents (entry_bytes e) _

abbrev pub index_bytes : List Record → Bytes
index_bytes rs = index_region (index_of 0 rs)

abbrev pub footer_of : List Record → Bytes
footer_of rs =
    footer (length (data_region rs)) (length (index_bytes rs)) (length (index_of 0 rs))
      (top_seq 0 rs)

-- The image is the data region, the index region and the footer.
pub image-regions :
    (rs : List Record) → image rs ≡ data_region rs ++ (index_bytes rs ++ footer_of rs)
unfolding image
image-regions rs =
    rw (build-regions rs [] [] 0, append_index-region (data_region rs) (index_of 0 rs), behind)
      (append_assoc (data_region rs) (index_bytes rs) (footer_of rs))
  where
    behind :
        length (data_region rs ++ index_bytes rs) - length (data_region rs)
        ≡ length (index_bytes rs)
    behind = omega (arith, length-append (data_region rs) (index_bytes rs))

pub length-index_of : (rs : List Record) (offset : ℕ) → length (index_of offset rs) ≡ length rs
unfolding index_of
length-index_of [] offset = refl
length-index_of (r ∷ rs) offset = ap suc (length-index_of rs (offset + length (encode r)))

-- The records can be framed, and the file is shorter than 2^64 bytes.
pub record TableFits (rs : List Record) : Type 0 where
  pub records : All FrameFits rs
  pub small : length (image rs) < 2 ^ 64

nil_of_length : (chunk : Bytes) → length chunk ≡ 0 → chunk ≡ []
nil_of_length [] e = refl
nil_of_length (c ∷ chunk) e = absurd (omega arith)

read_whole :
    {file : Bytes} {pos : ℕ} (chunk rest : Bytes) (w : ℕ)
    → At file pos (chunk ++ rest)
    → length chunk ≡ w
    → read_exact_at file pos w ≡ ok chunk
unfolding read_exact_at
read_whole chunk rest zero a e = ap ok (sym (nil_of_length chunk e))
read_whole {file} {pos} chunk rest (suc more) a e = rw (
  le→leb (pos + suc more) (length file)
      (omega (arith, length-At (chunk ++ rest) a, e, length-append chunk rest)),
  drop-At (chunk ++ rest) a,
  ← e,
  take-append chunk rest,
)

pub read_exact_at-At :
    {file : Bytes} {pos : ℕ} (chunk rest : Bytes) {w : ℕ}
    → At file pos (chunk ++ rest)
    → length chunk ≡ w
    → read_exact_at file pos w ≡ ok chunk
read_exact_at-At chunk rest {w} a e = read_whole chunk rest w a e
