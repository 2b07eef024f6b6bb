-- ===== src/Lsm/Encoding/Reads.antt =====
-- The reads that a successful `decode` makes, as a record, and what follows from them.
use rust_fundamentals.Base.{
  ℕ, ◌+◌, ◌≤◌, ◌≡◌, refl, sym, ap, ◌∙◌, Option, none, some, ◌++◌, length, get_elem?, arith, ◌>>=◌,
  get_elem?-append_left,
}
use rust_fundamentals.Base.Bytes.{Bytes, from_le_bytes, get_range, get_range-some, get_range-append}
use rust_fundamentals.Lsm.Encoding.{ValueKind, Record, value_of, decode}

pub record Reads (buf : Bytes) (r : Record) (n : ℕ) : Type 0 where
  pub seq_bytes : Bytes
  pub kind : ℕ
  pub klen_bytes : Bytes
  pub vlen_bytes : Bytes
  pub value_bytes : Bytes
  pub at_seq : get_range buf 0 (0 + 8) ≡ some seq_bytes
  pub at_kind : get_elem? buf (0 + 8) ≡ some kind
  pub at_klen : get_range buf 9 (9 + 4) ≡ some klen_bytes
  pub at_key : get_range buf 13 (13 + from_le_bytes klen_bytes) ≡ some r.key
  pub at_vlen :
      get_range buf (13 + from_le_bytes klen_bytes) (13 + from_le_bytes klen_bytes + 4)
      ≡ some vlen_bytes
  pub at_value :
      get_range buf
        (13 + from_le_bytes klen_bytes + 4)
        (13 + from_le_bytes klen_bytes + 4 + from_le_bytes vlen_bytes)
      ≡ some value_bytes
  pub seq_read : from_le_bytes seq_bytes ≡ r.seq
  pub value_read : value_of kind value_bytes ≡ some r.value
  pub taken : n ≡ 13 + from_le_bytes klen_bytes + 4 + from_le_bytes vlen_bytes

pub decode_of_Reads : {buf : Bytes} {r : Record} {n : ℕ} → Reads buf r n → decode buf ≡ some (r, n)
unfolding decode
decode_of_Reads h =
    rw (h.at_seq, h.at_kind, h.at_klen, h.at_key, h.at_vlen, h.at_value, h.value_read, ◌>>=◌)
      (cc (h.seq_read, h.taken))

pub >>=-eq-some {ℓ κ} :
    {A : Type ℓ} {B : Type κ} (m : Option A) (f : A → Option B) {b : B}
    → (m >>= f) ≡ some b
    → (a : A) × (m ≡ some a) × (f a ≡ some b)
>>=-eq-some none f h = absurd (cc)
>>=-eq-some (some a) f h = (a, refl, h)

pub same_record :
    {a b : Record} {m n : ℕ}
    → ◌≡◌ {A = Option (Record × ℕ)} (some (a, m)) (some (b, n))
    → (a ≡ b) × (m ≡ n)
same_record e = (cc e, cc e)

Reads-of_parts :
    (buf : Bytes) {r : Record} {n : ℕ} (s : Bytes) (k : ℕ) (kl key vl vb : Bytes) (v : ValueKind)
    → get_range buf 0 (0 + 8) ≡ some s
    → get_elem? buf (0 + 8) ≡ some k
    → get_range buf 9 (9 + 4) ≡ some kl
    → get_range buf 13 (13 + from_le_bytes kl) ≡ some key
    → get_range buf (13 + from_le_bytes kl) (13 + from_le_bytes kl + 4) ≡ some vl
    → get_range buf (13 + from_le_bytes kl + 4) (13 + from_le_bytes kl + 4 + from_le_bytes vl)
      ≡ some vb
    → value_of k vb ≡ some v
    → record { seq = from_le_bytes s; key = key; value = v } ≡ r
    → 13 + from_le_bytes kl + 4 + from_le_bytes vl ≡ n
    → Reads buf r n
Reads-of_parts buf s k kl key vl vb v a b c d e f g same taken = record {
  seq_bytes = s;
  kind = k;
  klen_bytes = kl;
  vlen_bytes = vl;
  value_bytes = vb;
  at_seq = a;
  at_kind = b;
  at_klen = c;
  at_key = d ∙ ap (λ (q : Record). some q.key) same;
  at_vlen = e;
  at_value = f;
  seq_read = ap (λ (q : Record). q.seq) same;
  value_read = g ∙ ap (λ (q : Record). some q.value) same;
  taken = sym taken;
}

pub Reads-of_decode : (buf : Bytes) {r : Record} {n : ℕ} → decode buf ≡ some (r, n) → Reads buf r n
unfolding decode
Reads-of_decode buf h =
    let (s, at_seq, h1) = >>=-eq-some (get_range buf 0 8) _ h in
    let (k, at_kind, h2) = >>=-eq-some (get_elem? buf 8) _ h1 in
    let (kl, at_klen, h3) = >>=-eq-some (get_range buf 9 13) _ h2 in
    let (key, at_key, h4) = >>=-eq-some (get_range buf 13 (13 + from_le_bytes kl)) _ h3 in
    let (vl, at_vlen, h5) =
      >>=-eq-some (get_range buf (13 + from_le_bytes kl) (13 + from_le_bytes kl + 4)) _ h4 in
    let (vb, at_value, h6) =
      >>=-eq-some
        (get_range buf (13 + from_le_bytes kl + 4) (13 + from_le_bytes kl + 4 + from_le_bytes vl)) _
        h5 in
    let (v, value_read, h7) = >>=-eq-some (value_of k vb) _ h6 in
    let (same, taken) = same_record h7 in
    Reads-of_parts buf s k kl key vl vb v at_seq at_kind at_klen at_key at_vlen at_value value_read
      same taken

Reads-append :
    {buf : Bytes} (more : Bytes) {r : Record} {n : ℕ} → Reads buf r n → Reads (buf ++ more) r n
Reads-append {buf} more h = record {
  seq_bytes = h.seq_bytes;
  kind = h.kind;
  klen_bytes = h.klen_bytes;
  vlen_bytes = h.vlen_bytes;
  value_bytes = h.value_bytes;
  at_seq = get_range-append buf more _ _ h.at_seq;
  at_kind = (get_elem?-append_left buf more _ h.at_kind).0;
  at_klen = get_range-append buf more _ _ h.at_klen;
  at_key = get_range-append buf more _ _ h.at_key;
  at_vlen = get_range-append buf more _ _ h.at_vlen;
  at_value = get_range-append buf more _ _ h.at_value;
  seq_read = h.seq_read;
  value_read = h.value_read;
  taken = h.taken;
}

-- A decoded record takes at least 17 bytes and at most the buffer, and bytes behind the buffer do
-- not change the answer.
pub decode_takes :
    (buf more : Bytes) {r : Record} {n : ℕ}
    → decode buf ≡ some (r, n)
    → (17 ≤ n) × (n ≤ length buf) × (decode (buf ++ more) ≡ some (r, n))
decode_takes buf more {r} {n} h =
    let d = Reads-of_decode buf h in
    let (_, fits, _) = get_range-some buf _ _ _ d.at_value in
    (omega (arith, d.taken), omega (arith, d.taken, fits), decode_of_Reads (Reads-append more d))
