-- ===== src/Scan/Target/Ports.antt =====
-- Ranges, sorting and `dedup` of ports, 05-async-tokio/src/target.rs.
use rust_fundamentals.Base.{
  ℕ, zero, suc, ◌+◌, ◌≤◌, ◌<◌, ◌≢◌, ◌⊎◌, ◌↔◌, sym, ◌∙◌, inl, inr, List, [], ◌∷◌, ◌++◌, All, In, leb,
  ◌==◌, leb→le, leb→gt, ==→eq, ==→ne, Bool-cases, arith,
}
use rust_fundamentals.Scan.Target.{ports_from, insert_port, sort, dedup_from, dedup}

pub In-append : (p : ℕ) (xs ys : List ℕ) → In p (xs ++ ys) ↔ (In p xs ⊎ In p ys)
In-append p [] ys = (λ h. inr h, λ h. elim h [ inl i ↦ elim i [ ] | inr i ↦ i ])
In-append p (x ∷ xs) ys =
    let (to, from) = In-append p xs ys in
    (
      λ h. elim h [
        | inl e ↦ inl (inl e)
        | inr i ↦ elim (to i) [ inl a ↦ inl (inr a) | inr b ↦ inr b ]
      ],
      λ h. elim h [
        | inl a ↦ elim a [ inl e ↦ inl e | inr i ↦ inr (from (inl i)) ]
        | inr b ↦ inr (from (inr b))
      ],
    )

strict : (a b : ℕ) → a ≤ b → a ≢ b → a < b
strict a b le ne = elim (Bool-cases (leb b a)) [
  | inl ge ↦ absurd (ne (omega (arith, leb→le b a ge)))
  | inr gt ↦ leb→gt b a gt
]

pub In-ports_from : (p n start : ℕ) → In p (ports_from n start) ↔ ((start ≤ p) × (p < start + n))
unfolding ports_from
In-ports_from p zero start = (λ h. elim h [ ], λ h. absurd (omega (arith, h.0, h.1)))
In-ports_from p (suc n) start =
    let (to, from) = In-ports_from p n (start + 1) in
    (
      λ h. elim h [
        | inl e ↦ (omega (arith, e), omega (arith, e))
        | inr i ↦ let (low, high) = to i in (omega arith, omega arith)
      ],
      λ h. elim (Bool-cases (p == start)) [
        | inl e ↦ inl (==→eq p start e)
        | inr ne ↦
            let (low, high) = h in
            let apart = ==→ne p start ne in
            inr (from (omega (arith, strict start p low (λ e. apart (sym e))), omega arith))
      ],
    )

In-insert_port : (p q : ℕ) (xs : List ℕ) → In p (insert_port q xs) ↔ In p (q ∷ xs)
unfolding insert_port
In-insert_port p q [] = (λ h. h, λ h. h)
In-insert_port p q (x ∷ xs) =
    let (to, from) = In-insert_port p q xs in
    elim (Bool-cases (leb q x)) [
      | inl first ↦ rw first (λ h. h, λ h. h)
      | inr later ↦ rw later (
        λ h. elim h [
          | inl e ↦ inr (inl e)
          | inr i ↦ elim (to i) [ inl e ↦ inl e | inr j ↦ inr (inr j) ]
        ],
        λ h. elim h [
          | inl e ↦ inr (from (inl e))
          | inr i ↦ elim i [ inl e ↦ inl e | inr j ↦ inr (from (inr j)) ]
        ],
      )
    ]

pub In-sort : (p : ℕ) (xs : List ℕ) → In p (sort xs) ↔ In p xs
unfolding sort
In-sort p [] = (λ h. h, λ h. h)
In-sort p (x ∷ xs) =
    let (to, from) = In-insert_port p x (sort xs) in
    let (to', from') = In-sort p xs in
    (
      λ h. elim (to h) [ inl e ↦ inl e | inr i ↦ inr (to' i) ],
      λ h. from (elim h [ inl e ↦ inl e | inr i ↦ inr (from' i) ]),
    )

In-dedup_from : (p q : ℕ) (xs : List ℕ) → In p (dedup_from q xs) ↔ In p (q ∷ xs)
unfolding dedup_from
In-dedup_from p q [] = (λ h. h, λ h. h)
In-dedup_from p q (x ∷ xs) =
    let (to, from) = In-dedup_from p x xs in
    elim (Bool-cases (q == x)) [
      | inl same ↦ rw same (
        λ h. inr (to h),
        λ h. elim h [ inl e ↦ from (inl (e ∙ ==→eq q x same)) | inr i ↦ from i ],
      )
      | inr other ↦ rw other (
        λ h. elim h [ inl e ↦ inl e | inr i ↦ inr (to i) ],
        λ h. elim h [ inl e ↦ inl e | inr i ↦ inr (from i) ],
      )
    ]

pub In-dedup : (p : ℕ) (xs : List ℕ) → In p (dedup xs) ↔ In p xs
unfolding dedup
In-dedup p [] = (λ h. h, λ h. h)
In-dedup p (x ∷ xs) = In-dedup_from p x xs

-- In order, without a port twice.
abbrev pub Rising : List ℕ → Type 0
Rising [] = Unit {0}
Rising (x ∷ xs) = All (λ y. x < y) xs × Rising xs

abbrev pub Sorted : List ℕ → Type 0
Sorted [] = Unit {0}
Sorted (x ∷ xs) = All (λ y. x ≤ y) xs × Sorted xs

All-le : (a b : ℕ) (xs : List ℕ) → a ≤ b → All (λ y. b ≤ y) xs → All (λ y. a ≤ y) xs
All-le a b [] le h = tt
All-le a b (x ∷ xs) le (h, hs) = (omega arith, All-le a b xs le hs)

All-insert_port :
    (a p : ℕ) (xs : List ℕ) → a ≤ p → All (λ y. a ≤ y) xs → All (λ y. a ≤ y) (insert_port p xs)
unfolding insert_port
All-insert_port a p [] le h = (le, tt)
All-insert_port a p (x ∷ xs) le (h, hs) = elim (Bool-cases (leb p x)) [
  | inl first ↦ rw first (le, (h, hs))
  | inr later ↦ rw later (h, All-insert_port a p xs le hs)
]

insert_port-Sorted : (p : ℕ) (xs : List ℕ) → Sorted xs → Sorted (insert_port p xs)
unfolding insert_port
insert_port-Sorted p [] s = (tt, tt)
insert_port-Sorted p (x ∷ xs) (above, s) = elim (Bool-cases (leb p x)) [
  | inl first ↦ let le = leb→le p x first in rw first ((le, All-le p x xs le above), (above, s))
  | inr later ↦
      rw later
        (All-insert_port x p xs (omega (arith, leb→gt p x later)) above, insert_port-Sorted p xs s)
]

pub sort-Sorted : (xs : List ℕ) → Sorted (sort xs)
unfolding sort
sort-Sorted [] = tt
sort-Sorted (x ∷ xs) = insert_port-Sorted x (sort xs) (sort-Sorted xs)

All-lt : (a b : ℕ) (xs : List ℕ) → a < b → All (λ y. b ≤ y) xs → All (λ y. a < y) xs
All-lt a b [] lt h = tt
All-lt a b (x ∷ xs) lt (h, hs) = (omega arith, All-lt a b xs lt hs)

All-dedup_from :
    (a q : ℕ) (xs : List ℕ) → a < q → All (λ y. a < y) xs → All (λ y. a < y) (dedup_from q xs)
unfolding dedup_from
All-dedup_from a q [] lt h = (lt, tt)
All-dedup_from a q (x ∷ xs) lt (h, hs) = elim (Bool-cases (q == x)) [
  | inl same ↦ rw same (All-dedup_from a x xs h hs)
  | inr other ↦ rw other (lt, All-dedup_from a x xs h hs)
]

dedup_from-Rising : (q : ℕ) (xs : List ℕ) → Sorted (q ∷ xs) → Rising (dedup_from q xs)
unfolding dedup_from
dedup_from-Rising q [] s = (tt, tt)
dedup_from-Rising q (x ∷ xs) ((le, les), (above, s)) = elim (Bool-cases (q == x)) [
  | inl same ↦ rw same (dedup_from-Rising x xs (above, s))
  | inr other ↦ rw other (
    let lt = strict q x le (==→ne q x other) in All-dedup_from q x xs lt (All-lt q x xs lt above),
    dedup_from-Rising x xs (above, s),
  )
]

pub dedup-Rising : (xs : List ℕ) → Sorted xs → Rising (dedup xs)
unfolding dedup
dedup-Rising [] s = tt
dedup-Rising (x ∷ xs) s = dedup_from-Rising x xs s
