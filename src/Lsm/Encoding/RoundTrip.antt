-- ===== src/Lsm/Encoding/RoundTrip.antt =====
-- `decode` after `encode`.
use native.Mathlib.Nat.{mod-eq_of_lt}
use rust_fundamentals.Base.{
  ℕ, ◌+◌, ◌^◌, ◌<◌, ◌≡◌, refl, sym, some, [], ◌∷◌, ◌++◌, length, length-append, append_assoc, arith,
}
use rust_fundamentals.Base.Bytes.{
  Bytes, to_le_bytes, from_le_bytes, length-to_le_bytes, from_le_bytes-to_le_bytes, At-start,
  At-skip, get_range-At, get_elem?-At,
}
use rust_fundamentals.Lsm.Encoding.Reads.{Reads, decode_of_Reads}
use rust_fundamentals.Lsm.Encoding.{
  ValueKind, Record, put, delete, tag_and_payload, value_of, encode, decode, Fits,
}

-- The layout, with what follows the record bracketed to the right.
abbrev layout : Record → Bytes → Bytes
layout r rest =
    to_le_bytes 8 r.seq
    ++ ((tag_and_payload r.value).0
        ∷ (to_le_bytes 4 (length r.key)
            ++ (r.key
                ++ (to_le_bytes 4 (length (tag_and_payload r.value).1)
                    ++ ((tag_and_payload r.value).1 ++ rest)))))

encode-layout : (r : Record) (rest : Bytes) → Fits r → encode r ++ rest ≡ layout r rest
unfolding encode
encode-layout r rest f = rw (mod-eq_of_lt f.key_fits, mod-eq_of_lt f.value_fits) (simp append_assoc)

pub length-encode :
    (r : Record) → length (encode r) ≡ 17 + length r.key + length (tag_and_payload r.value).1
unfolding encode
length-encode r = simp (length-append, length-to_le_bytes) (omega arith)

value_of-tag : (v : ValueKind) → value_of (tag_and_payload v).0 (tag_and_payload v).1 ≡ some v
value_of-tag (put bytes) = refl
value_of-tag delete = refl

from_le_bytes-len : (n : ℕ) → n < 2 ^ 32 → from_le_bytes (to_le_bytes 4 n) ≡ n
from_le_bytes-len n h = from_le_bytes-to_le_bytes 4 n h

Reads-layout :
    (r : Record) (rest : Bytes)
    → Fits r
    → Reads (layout r rest) r (17 + length r.key + length (tag_and_payload r.value).1)
Reads-layout r rest f =
    let kl = to_le_bytes 4 (length r.key) in
    let payload = (tag_and_payload r.value).1 in
    let vl = to_le_bytes 4 (length payload) in
    let kind = (tag_and_payload r.value).0 in
    let ek = from_le_bytes-len (length r.key) f.key_fits in
    let ev = from_le_bytes-len (length payload) f.value_fits in
    let a0 = At-start (layout r rest) in
    let a1 =
      At-skip (to_le_bytes 8 r.seq) (kind ∷ (kl ++ (r.key ++ (vl ++ (payload ++ rest))))) a0
        (length-to_le_bytes 8 r.seq) in
    let a2 = At-skip (kind ∷ []) (kl ++ (r.key ++ (vl ++ (payload ++ rest)))) a1 refl in
    let a3 =
      At-skip kl (r.key ++ (vl ++ (payload ++ rest))) a2 (length-to_le_bytes 4 (length r.key)) in
    let a4 = At-skip r.key (vl ++ (payload ++ rest)) a3 (sym ek) in
    let a5 = At-skip vl (payload ++ rest) a4 (length-to_le_bytes 4 (length payload)) in
    record {
      seq_bytes = to_le_bytes 8 r.seq;
      kind = kind;
      klen_bytes = kl;
      vlen_bytes = vl;
      value_bytes = payload;
      at_seq = get_range-At _ _ a0 (length-to_le_bytes 8 r.seq);
      at_kind = get_elem?-At _ _ a1;
      at_klen = get_range-At _ _ a2 (length-to_le_bytes 4 (length r.key));
      at_key = get_range-At _ _ a3 (sym ek);
      at_vlen = get_range-At _ _ a4 (length-to_le_bytes 4 (length payload));
      at_value = get_range-At _ _ a5 (sym ev);
      seq_read = from_le_bytes-to_le_bytes 8 r.seq f.seq_fits;
      value_read = value_of-tag r.value;
      taken = omega (arith, ek, ev);
    }

-- Decoding a buffer that starts with the encoding of a record that fits gives the record and its
-- encoded length, whatever follows it.
pub decode-encode :
    (r : Record) (rest : Bytes) → Fits r → decode (encode r ++ rest) ≡ some (r, length (encode r))
decode-encode r rest f =
    rw (encode-layout r rest f, length-encode r) (decode_of_Reads (Reads-layout r rest f))
