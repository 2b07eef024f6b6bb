-- ===== src/Lsm/Encoding/Torn.antt =====
-- `decode` on a record that a crash or a damaged file cut short.
use rust_fundamentals.Base.{
  ℕ, ◌<◌, ◌≤◌, ◌≡◌, sym, ◌∙◌, none, some, [], ◌++◌, length, take, drop, take-append-drop,
  length-take, Option-cases, inl, inr, append-nil, arith,
}
use rust_fundamentals.Base.Bytes.{Bytes}
use rust_fundamentals.Lsm.Encoding.{Record, encode, decode, Fits}
use rust_fundamentals.Lsm.Encoding.Reads.{same_record, decode_takes}
use rust_fundamentals.Lsm.Encoding.RoundTrip.{decode-encode}

-- A decoded prefix has the length of the whole encoding.
decoded_length :
    (r : Record) (front back : Bytes) {r' : Record} {m : ℕ}
    → Fits r
    → front ++ back ≡ encode r
    → decode front ≡ some (r', m)
    → length (encode r) ≤ length front
decoded_length r front back {r'} {m} f cut e =
    let (_, fits, whole) = decode_takes front back e in
    let known : decode (front ++ back) ≡ some (r, length (encode r)) =
      rw cut (rw append-nil at (decode-encode r [] f)) in
    let (_, same) = same_record (sym whole ∙ known) in omega (arith, fits, same)

-- Every proper prefix of a record's encoding is refused, without a fault.
pub decode_torn :
    (r : Record) (n : ℕ) → Fits r → n < length (encode r) → decode (take n (encode r)) ≡ none
decode_torn r n f h = elim (Option-cases (decode (take n (encode r)))) [
  | inl e ↦ e
  | inr ((r', m), e) ↦ absurd (
      omega (
        arith,
        decoded_length r _ (drop n (encode r)) f (take-append-drop n (encode r)) e,
        length-take n (encode r) (omega arith),
      ))
]
