-- ===== src/Scan/Target/Parsed.antt =====
-- What 05-async-tokio/src/target.rs makes of a specification, and what it refuses.
use rust_fundamentals.Base.{
  some_injective, ℕ, ◌+◌, ◌-◌, ◌^◌, ◌≤◌, ◌<◌, ◌≡◌, ◌≢◌, ◌⊎◌, ◌↔◌, refl, sym, ap, ◌∙◌, subst, inl,
  inr, Bool, true, false, ◌||◌, Option, none, some, List, [], ◌∷◌, ◌++◌, All, In, ltb, ◌==◌, ltb→ge,
  ==→eq, ==→ne, Bool-cases, Option-cases, arith, if◌then◌else◌,
}
use rust_fundamentals.Base.Fallible.{ok, err, ◌>>=◌, answered, ok_injective}
use rust_fundamentals.Base.Bytes.{Bytes}
use rust_fundamentals.Base.Decimal.{parse_u16, parse_u16-lt}
use rust_fundamentals.Scan.Target.{
  Target, empty_range, rsplit_once, split_once, split, range_inclusive, port, token_ports,
  tokens_loop, sort, dedup, is_empty, parse_target,
}
use rust_fundamentals.Scan.Target.Ports.{
  In-append, In-ports_from, In-sort, In-dedup, Rising, sort-Sorted, dedup-Rising,
}

-- The ports that a token names: one, or those of a range.
abbrev CoversParts : Option (Bytes × Bytes) → Bytes → ℕ → Type 0
CoversParts none token p = parse_u16 token ≡ some p
CoversParts (some (first, last)) token p =
    (start : ℕ) × (end : ℕ) × (parse_u16 first ≡ some start)
    × (parse_u16 last ≡ some end)
    × (start ≤ p)
    × (p ≤ end)

abbrev pub Covers : Bytes → ℕ → Type 0
Covers token p = CoversParts (split_once b'-' token) token p

abbrev pub CoversAny : List Bytes → ℕ → Type 0
CoversAny [] p = ⊥
CoversAny (token ∷ tokens) p = Covers token p ⊎ CoversAny tokens p

port-ok : (token text : Bytes) {n : ℕ} → port token text ≡ ok n → parse_u16 text ≡ some n
unfolding port
port-ok token text h = elim (Option-cases (parse_u16 text)) [
  | inl bad ↦ absurd (cc (rw (bad, port) at h))
  | inr (m, good) ↦ good ∙ ap some (ok_injective m _ (rw (good, port) at h))
]

range-Covers :
    (token first last : Bytes) (start end p : ℕ) (ps : List ℕ)
    → parse_u16 first ≡ some start
    → parse_u16 last ≡ some end
    → (if ltb end start then err (empty_range start end) else ok (range_inclusive start end))
      ≡ ok ps
    → In p ps ↔ CoversParts (some (first, last)) token p
range-Covers token first last start end p ps e1 e2 h = elim (Bool-cases (ltb end start)) [
  | inl backwards ↦ absurd (cc (rw backwards at h))
  | inr fine ↦
      let le = ltb→ge end start fine in
      rw (← ok_injective _ ps (rw fine at h)) (
        let (to, from) = In-ports_from p (end + 1 - start) start in
        (
          λ i. let (low, high) = to i in (start, end, e1, e2, low, omega arith),
          λ c.
              let same1 : c.0 ≡ start = some_injective (sym c.2 ∙ e1) in
              let same2 : c.1 ≡ end = some_injective (sym c.3 ∙ e2) in
              from (omega (arith, c.4, same1), omega (arith, c.5, same2)),
        ))
]

single-Covers :
    (token : Bytes) (p q : ℕ) (ps : List ℕ)
    → parse_u16 token ≡ some q
    → (q ∷ []) ≡ ps
    → In p ps ↔ CoversParts none token p
single-Covers token p q ps e h = rw (← h) (
  λ i. elim i [ inl same ↦ e ∙ ap some (sym same) | inr none_left ↦ elim none_left [ ] ],
  λ c. inl (some_injective (sym c ∙ e)),
)

token_ports-Covers :
    (token : Bytes) (p : ℕ) (ps : List ℕ) → token_ports token ≡ ok ps → In p ps ↔ Covers token p
unfolding token_ports
token_ports-Covers token p ps h = elim (Option-cases (split_once b'-' token)) [
  | inl single ↦ rw single (
      let (q, e, f) =
        answered (port token token) (λ q. ok (q ∷ [])) (rw (single, token_ports) at h) in
      single-Covers token p q ps (port-ok token token e) (ok_injective (q ∷ []) ps f))
  | inr (parts, range) ↦ rw range (
      let (start, e, f) =
        answered (port token parts.0)
          (λ start. port token parts.1 >>= λ end.
            if ltb end start then err (empty_range start end) else ok (range_inclusive start end))
          (rw (range, token_ports) at h) in
      let (end, e', f') =
        answered (port token parts.1)
          (λ end.
            if ltb end start then err (empty_range start end) else ok (range_inclusive start end))
          f in
      range-Covers token parts.0 parts.1 start end p ps (port-ok token parts.0 e)
        (port-ok token parts.1 e') f')
]

tokens_loop-Covers :
    (tokens : List Bytes) (p : ℕ) (before ps : List ℕ)
    → tokens_loop tokens before ≡ ok ps
    → In p ps ↔ (In p before ⊎ CoversAny tokens p)
unfolding tokens_loop
tokens_loop-Covers [] p before ps h =
    rw (← ok_injective before ps h)
      (λ i. inl i, λ c. elim c [ inl i ↦ i | inr nothing ↦ elim nothing [ ] ])
tokens_loop-Covers (token ∷ tokens) p before ps h =
    let (more, e, rest) =
      answered (token_ports token) (λ more. tokens_loop tokens (before ++ more)) h in
    let (to, from) = tokens_loop-Covers tokens p (before ++ more) ps rest in
    let (split_up, join) = In-append p before more in
    let (covered, covers) = token_ports-Covers token p more e in
    (
      λ i. elim (to i) [
        | inl a ↦ elim (split_up a) [ inl b ↦ inl b | inr m ↦ inr (inl (covered m)) ]
        | inr c ↦ inr (inr c)
      ],
      λ c. elim c [
        | inl b ↦ from (inl (join (inl b)))
        | inr d ↦ elim d [
          | inl here ↦ from (inl (join (inr (covers here))))
          | inr later ↦ from (inr later)
        ]
      ],
    )

Covers-lt :
    (o : Option (Bytes × Bytes)) (token : Bytes) (p : ℕ) → CoversParts o token p → p < 2 ^ 16
Covers-lt none token p c = parse_u16-lt token c
Covers-lt (some (first, last)) token p (start, end, e, e', low, high) =
    omega (arith, parse_u16-lt last e')

CoversAny-lt : (tokens : List Bytes) (p : ℕ) → CoversAny tokens p → p < 2 ^ 16
CoversAny-lt [] p c = elim c [ ]
CoversAny-lt (token ∷ tokens) p (inl c) = Covers-lt (split_once b'-' token) token p c
CoversAny-lt (token ∷ tokens) p (inr c) = CoversAny-lt tokens p c

-- Cutting at the last `c`: the parts make the whole, and behind the cut there is no `c`.
rsplit_once-none : (c : ℕ) (xs : Bytes) → rsplit_once c xs ≡ none → All (λ x. x ≢ c) xs
unfolding rsplit_once
rsplit_once-none c [] h = tt
rsplit_once-none c (x ∷ xs) h = elim (Option-cases (rsplit_once c xs)) [
  | inl absent ↦ elim (Bool-cases (x == c)) [
    | inl here ↦ absurd (cc (rw here at (rw (absent, rsplit_once) at h)))
    | inr other ↦ (==→ne x c other, rsplit_once-none c xs absent)
  ]
  | inr (parts, found) ↦ absurd (cc (rw (found, rsplit_once) at h))
]

rsplit_once-some :
    (c : ℕ) (xs : Bytes) (parts : Bytes × Bytes)
    → rsplit_once c xs ≡ some parts
    → (xs ≡ parts.0 ++ (c ∷ parts.1)) × All (λ x. x ≢ c) parts.1
unfolding rsplit_once
rsplit_once-some c [] parts h = absurd (cc h)
rsplit_once-some c (x ∷ xs) parts h = elim (Option-cases (rsplit_once c xs)) [
  | inl absent ↦ elim (Bool-cases (x == c)) [
    | inl here ↦
        rw (← some_injective (rw here at (rw (absent, rsplit_once) at h)))
          (ap (λ (y : ℕ). y ∷ xs) (==→eq x c here), rsplit_once-none c xs absent)
    | inr other ↦ absurd (cc (rw other at (rw (absent, rsplit_once) at h)))
  ]
  | inr (inner, found) ↦
      let (whole, clean) = rsplit_once-some c xs inner found in
      rw (← some_injective (rw (found, rsplit_once) at h)) (ap (λ t. x ∷ t) whole, clean)
]

or_false_left : (a b : Bool) → (a || b) ≡ false → a ≡ false
or_false_left true b h = cc h
or_false_left false b h = refl

-- What an accepted specification says.
pub record Accepted (spec : Bytes) (t : Target) (port_spec : Bytes) : Type 0 where
  pub whole : spec ≡ t.host ++ (b':' ∷ port_spec)
  pub last_colon : All (λ c. c ≢ b':') port_spec
  pub has_host : is_empty t.host ≡ false
  pub rising : Rising t.ports
  pub named : (p : ℕ) → In p t.ports ↔ CoversAny (split b',' port_spec) p
  pub bounded : (p : ℕ) → In p t.ports → p < 2 ^ 16

ports-Accepted :
    (spec host port_spec : Bytes) (ports : List ℕ)
    → rsplit_once b':' spec ≡ some (host, port_spec)
    → is_empty host ≡ false
    → tokens_loop (split b',' port_spec) [] ≡ ok ports
    → Accepted spec (record { host = host; ports = dedup (sort ports) }) port_spec
ports-Accepted spec host port_spec ports e full h =
    let (whole, clean) = rsplit_once-some b':' spec (host, port_spec) e in
    let named : (p : ℕ) → In p (dedup (sort ports)) ↔ CoversAny (split b',' port_spec) p = λ p.
      let (to, from) = tokens_loop-Covers (split b',' port_spec) p [] ports h in
      let (sorted, unsorted) = In-sort p ports in
      let (undedup, deduped) = In-dedup p (sort ports) in
      (
        λ i. elim (to (sorted (undedup i))) [ inl nothing ↦ elim nothing [ ] | inr c ↦ c ],
        λ c. deduped (unsorted (from (inr c))),
      ) in
    record {
      whole = whole;
      last_colon = clean;
      has_host = full;
      rising = dedup-Rising (sort ports) (sort-Sorted ports);
      named = named;
      bounded = λ p i. CoversAny-lt (split b',' port_spec) p ((named p).0 i);
    }

-- A specification that is accepted is the target's host, which is not empty, a colon, and a list of
-- tokens without a colon; the target's ports are in ascending order with none twice, each of them
-- fits in 16 bits, and a port is among them exactly when one of the tokens, cut at the commas,
-- names it, as a number or inside a range.
pub parse_target-Accepted :
    (spec : Bytes) (t : Target)
    → parse_target spec ≡ ok t
    → (port_spec : Bytes) × Accepted spec t port_spec
unfolding parse_target
parse_target-Accepted spec t h = elim (Option-cases (rsplit_once b':' spec)) [
  | inl bare ↦ absurd (cc (rw (bare, parse_target) at h))
  | inr (parts, cut) ↦ elim (Bool-cases (is_empty parts.0 || is_empty parts.1)) [
    | inl hollow ↦ absurd (cc (rw hollow at (rw (cut, parse_target) at h)))
    | inr full ↦
        let (ports, loop, made) =
          answered (tokens_loop (split b',' parts.1) [])
            (λ ports. ok (record { host = parts.0; ports = dedup (sort ports) }))
            (rw full at (rw (cut, parse_target) at h)) in
        (
          parts.1,
          subst (λ t. Accepted spec t parts.1)
              (ok_injective (record { host = parts.0; ports = dedup (sort ports) }) t made)
              (ports-Accepted spec parts.0 parts.1 ports cut
                (or_false_left (is_empty parts.0) (is_empty parts.1) full) loop),
        )
  ]
]
