-- ===== src/Lsm/Wal/Frames.antt =====
-- One round of `replay` on a whole frame and on a frame that was cut short.
use native.Mathlib.Nat.{mod-eq_of_lt}
use native.Mathlib.Decide.{dec_lt}
use rust_fundamentals.Base.{
  ℕ, ◌+◌, ◌-◌, ◌≤◌, ◌<◌, ◌≡◌, refl, sym, ap, ◌∙◌, none, some, [], ◌++◌, length, take, drop,
  take-append_ge, ==_refl, ne→==, ◌≢◌, take-append-drop, length-append, append_assoc, append-nil,
  arith, ◌>>=◌, length-take, subst,
}
use rust_fundamentals.Base.Bytes.{
  Bytes, to_le_bytes, from_le_bytes, length-to_le_bytes, from_le_bytes-to_le_bytes, At, At-skip,
  get_range-At, get_range_outside, length-At,
}
use rust_fundamentals.Lsm.Encoding.{Record, encode, decode, Fits}
use rust_fundamentals.Lsm.Encoding.RoundTrip.{decode-encode}
use rust_fundamentals.Lsm.Crc.{crc32}
use rust_fundamentals.Lsm.Crc.Bitwise.{crc32-lt}
use rust_fundamentals.Lsm.Wal.{frame, next_frame, FrameFits}

abbrev pub header : Record → Bytes
header r = to_le_bytes 4 (crc32 (encode r)) ++ to_le_bytes 4 (length (encode r))

length-header : (r : Record) → length (header r) ≡ 8
unfolding to_le_bytes
length-header r = refl

frame-header : (r : Record) → FrameFits r → frame r ≡ header r ++ encode r
unfolding frame
frame-header r f = rw (mod-eq_of_lt f.payload_fits) (sym (append_assoc _ _ (encode r)))

header_crc : (r : Record) → from_le_bytes (take 4 (header r)) ≡ crc32 (encode r)
header_crc r = cut ∙ from_le_bytes-to_le_bytes 4 (crc32 (encode r)) (crc32-lt (encode r))
  where
    cut : from_le_bytes (take 4 (header r)) ≡ from_le_bytes (to_le_bytes 4 (crc32 (encode r)))
    cut = unfold to_le_bytes in refl

header_len :
    (r : Record) → FrameFits r → from_le_bytes (take 4 (drop 4 (header r))) ≡ length (encode r)
header_len r f = cut ∙ from_le_bytes-to_le_bytes 4 (length (encode r)) f.payload_fits
  where
    cut :
        from_le_bytes (take 4 (drop 4 (header r)))
        ≡ from_le_bytes (to_le_bytes 4 (length (encode r)))
    cut = unfold to_le_bytes in refl

pub length-frame : (r : Record) → length (frame r) ≡ 8 + length (encode r)
unfolding frame
length-frame r = simp (length-append, length-to_le_bytes) (omega arith)

pub decode-encode_alone : (r : Record) → Fits r → decode (encode r) ≡ some (r, length (encode r))
decode-encode_alone r f = rw append-nil at (decode-encode r [] f)

frame_then :
    (r : Record) (rest : Bytes) → FrameFits r → frame r ++ rest ≡ header r ++ (encode r ++ rest)
frame_then r rest f =
    ap (λ (t : Bytes). t ++ rest) (frame-header r f) ∙ append_assoc (header r) (encode r) rest

-- A whole frame gives its record and the offset behind it.
pub next_frame_whole :
    {buf : Bytes} {pos : ℕ} (r : Record) (rest : Bytes)
    → FrameFits r
    → At buf pos (frame r ++ rest)
    → next_frame buf pos ≡ some (r, pos + length (frame r))
unfolding next_frame
next_frame_whole {buf} {pos} r rest f a =
    let a' = subst (At buf pos) (frame_then r rest f) a in
    rw
      (
        get_range-At (header r) _ a' (length-header r),
        header_crc r,
        header_len r f,
        get_range-At (encode r) rest (At-skip (header r) _ a' (length-header r)) refl,
        ==_refl (crc32 (encode r)),
        decode-encode_alone r f.fields,
        length-frame r,
        ◌>>=◌,
      )
      (ap (λ (k : ℕ). some (r, k)) (omega arith))

-- A good header before too few bytes stops the loop.
next_frame_lacks :
    {buf : Bytes} {pos : ℕ} (r : Record) (body : Bytes)
    → FrameFits r
    → length body < length (encode r)
    → At buf pos (header r ++ body)
    → next_frame buf pos ≡ none
unfolding next_frame
next_frame_lacks {buf} {pos} r body f h a = rw (
  get_range-At (header r) _ a (length-header r),
  header_len r f,
  get_range_outside buf (pos + 8) (pos + 8 + length (encode r))
      (omega (arith, length-At _ a, length-append (header r) body, length-header r)),
)

-- A tail of less than eight bytes stops the loop.
pub next_frame_short :
    {buf : Bytes} {pos : ℕ} (rest : Bytes)
    → length rest < 8
    → At buf pos rest
    → next_frame buf pos ≡ none
unfolding next_frame
next_frame_short {buf} {pos} rest h a =
    rw (get_range_outside buf pos (pos + 8) (omega (arith, length-At rest a)), ◌>>=◌)

-- A frame that lacks bytes at its end stops the loop.
pub next_frame_torn :
    {buf : Bytes} {pos : ℕ} (r : Record) (n : ℕ)
    → FrameFits r
    → n < length (frame r)
    → At buf pos (take n (frame r))
    → next_frame buf pos ≡ none
next_frame_torn {buf} {pos} r n f h a = elim (dec_lt n 8) [
  | yes short ↦
      next_frame_short (take n (frame r)) (omega (arith, length-take n (frame r) (omega arith))) a
  | no long ↦
      next_frame_lacks r (take (n - 8) (encode r)) f
        (omega
          (arith, length-frame r, length-take (n - 8) (encode r) (omega (arith, length-frame r))))
        (subst (At buf pos) (cut (omega arith)) a)
]
  where
    cut : 8 ≤ n → take n (frame r) ≡ header r ++ take (n - 8) (encode r)
    cut long =
        ap (take n) (frame-header r f)
        ∙ take-append_ge (header r) (encode r) n (omega (arith, length-header r))
        ∙ ap (λ (k : ℕ). header r ++ take (n - k) (encode r)) (length-header r)

-- A frame whose payload has another checksum than its header says.
next_frame_differs :
    {buf : Bytes} {pos : ℕ} (r : Record) (payload rest : Bytes)
    → FrameFits r
    → crc32 payload ≢ crc32 (encode r)
    → length payload ≡ length (encode r)
    → At buf pos (header r ++ (payload ++ rest))
    → next_frame buf pos ≡ none
unfolding next_frame
next_frame_differs r payload rest f differs same a = rw (
  get_range-At (header r) _ a (length-header r),
  header_crc r,
  header_len r f,
  get_range-At payload rest (At-skip (header r) _ a (length-header r)) same,
  ne→== _ _ differs,
  ◌>>=◌,
)

-- A good header before bytes that are too few, or whose checksum is another, stops the loop.
pub next_frame_corrupt :
    {buf : Bytes} {pos : ℕ} (r : Record) (body : Bytes)
    → FrameFits r
    → crc32 (take (length (encode r)) body) ≢ crc32 (encode r)
    → At buf pos (header r ++ body)
    → next_frame buf pos ≡ none
next_frame_corrupt {buf} {pos} r body f differs a =
    elim (dec_lt (length body) (length (encode r))) [
      | yes short ↦ next_frame_lacks r body f short a
      | no long ↦
          next_frame_differs r (take (length (encode r)) body) (drop (length (encode r)) body) f
            differs (length-take (length (encode r)) body (omega arith))
            (subst (λ (t : Bytes). At buf pos (header r ++ t))
              (sym (take-append-drop (length (encode r)) body)) a)
    ]
