-- ===== src/Lsm/SsTable/Search.antt =====
-- The binary search of `get`.
use Prim.Native.Nat.{Ordering}
use Prim.Native.Nat.Ordering.{lt, eq, gt}
use rust_fundamentals.Base.{
  ℕ, zero, suc, ◌+◌, ◌-◌, ◌/◌, ◌≤◌, ◌<◌, ◌≡◌, ◌≢◌, refl, sym, ap, ◌∙◌, subst, some, List, length,
  get_elem?, arith, Bool-cases, lt→ltb, ge→ltb, Bool, true, false, Ordering-cases, Option-cases,
  inl, inr,
}
use native.Mathlib.Decide.{dec_lt}
use rust_fundamentals.Base.Bytes.{Bytes}
use rust_fundamentals.Base.Order.{cmp, cmp_refl, eq_of_cmp, gt_of_lt}
use rust_fundamentals.Base.Ascending.{Ascending, get_elem?-lt, lt_of_get_elem?, Ascending-get_elem?}
use rust_fundamentals.Lsm.SsTable.{IndexEntry, narrow, candidate, binary_search}

abbrev pub entry_key : IndexEntry → Bytes
entry_key e = e.key

abbrev is_gt : Ordering → Bool
is_gt gt = true
is_gt _ = false

of_is_gt : (o : Ordering) → is_gt o ≡ true → o ≡ gt
of_is_gt gt h = refl
of_is_gt lt h = absurd (cc)
of_is_gt eq h = absurd (cc)

not_is_gt : (o : Ordering) → is_gt o ≡ false → o ≢ gt
not_is_gt o h e = cc (h, ap is_gt e)

module _ (index : List IndexEntry) (sorted : Ascending entry_key index) where
  -- An entry is not greater than itself.
  one_place :
      (p mid : ℕ) (e m : IndexEntry)
      → p ≡ mid
      → get_elem? index p ≡ some e
      → get_elem? index mid ≡ some m
      → cmp m.key e.key ≢ gt
  one_place p mid e m same at_p at_mid greater =
      let here : get_elem? index p ≡ some m =
        subst (λ (k : ℕ). get_elem? index k ≡ some m) (sym same) at_mid in
      let alike : m ≡ e = cc (here, at_p) in
      cc (subst (λ (t : IndexEntry). cmp t.key e.key ≡ gt) alike greater, cmp_refl e.key)

  -- An entry with a greater key stands behind the place of the key.
  before_greater :
      (p mid : ℕ) (e m : IndexEntry)
      → get_elem? index p ≡ some e
      → get_elem? index mid ≡ some m
      → cmp m.key e.key ≡ gt
      → p < mid
  before_greater p mid e m at_p at_mid greater = elim (dec_lt p mid) [
    | yes h ↦ h
    | no h ↦ elim (dec_lt mid p) [
      | yes k ↦
          absurd (cc (Ascending-get_elem? entry_key index mid p sorted k at_mid at_p, greater))
      | no k ↦ absurd (one_place p mid e m (omega arith) at_p at_mid greater)
    ]
  ]

  -- An entry whose key is not greater does not stand behind it.
  not_behind :
      (p mid : ℕ) (e m : IndexEntry)
      → get_elem? index p ≡ some e
      → get_elem? index mid ≡ some m
      → cmp m.key e.key ≢ gt
      → mid ≤ p
  not_behind p mid e m at_p at_mid not_greater = elim (dec_lt p mid) [
    | yes h ↦ absurd (
        not_greater
          (gt_of_lt e.key m.key (Ascending-get_elem? entry_key index p mid sorted h at_p at_mid)))
    | no h ↦ omega arith
  ]

  -- The two ways of one round.
  narrow_left :
      (fuel base size : ℕ) (key : Bytes) (m : IndexEntry)
      → 1 < size
      → get_elem? index (base + size / 2) ≡ some m
      → cmp m.key key ≡ gt
      → narrow (suc fuel) index key base size ≡ narrow fuel index key base (size - size / 2)
  unfolding narrow
  narrow_left fuel base size key m more at_mid greater = rw (lt→ltb 1 size more, at_mid, greater)

  narrow_right :
      (fuel base size : ℕ) (key : Bytes) (m : IndexEntry)
      → 1 < size
      → get_elem? index (base + size / 2) ≡ some m
      → cmp m.key key ≢ gt
      → narrow (suc fuel) index key base size
        ≡ narrow fuel index key (base + size / 2) (size - size / 2)
  unfolding narrow
  narrow_right fuel base size key m more at_mid not_greater =
      elim (Ordering-cases (cmp m.key key)) [
        | inl o ↦ rw (lt→ltb 1 size more, at_mid, o)
        | inr (inl o) ↦ rw (lt→ltb 1 size more, at_mid, o)
        | inr (inr o) ↦ absurd (not_greater o)
      ]

  narrow_last :
      (fuel base size : ℕ) (key : Bytes) → size ≤ 1 → narrow (suc fuel) index key base size ≡ base
  unfolding narrow
  narrow_last fuel base size key one = rw (ge→ltb 1 size one)

  -- The search narrows down to the place of the key.
  narrow-finds :
      (fuel base size p : ℕ) (e : IndexEntry)
      → get_elem? index p ≡ some e
      → base ≤ p
      → p < base + size
      → base + size ≤ length index
      → size ≤ fuel
      → narrow fuel index e.key base size ≡ p
  narrow-finds zero base size p e at_p lo hi inside enough = absurd (omega arith)
  narrow-finds (suc fuel) base size p e at_p lo hi inside enough = elim (dec_lt 1 size) [
    | no one ↦ narrow_last fuel base size e.key (omega arith) ∙ omega arith
    | yes more ↦
        let (m, at_mid) = get_elem?-lt index (base + size / 2) (omega arith) in
        elim (Bool-cases (is_gt (cmp m.key e.key))) [
          | inl greater ↦
              narrow_left fuel base size e.key m more at_mid (of_is_gt _ greater)
              ∙ narrow-finds fuel base (size - size / 2) p e at_p lo
                  (omega (
                    arith,
                    before_greater p (base + size / 2) e m at_p at_mid (of_is_gt _ greater),
                  ))
                  (omega arith) (omega arith)
          | inr lower ↦
              narrow_right fuel base size e.key m more at_mid (not_is_gt _ lower)
              ∙ narrow-finds fuel (base + size / 2) (size - size / 2) p e at_p
                  (not_behind p (base + size / 2) e m at_p at_mid (not_is_gt _ lower)) (omega arith)
                  (omega arith) (omega arith)
        ]
  ]

  candidate_hit :
      (p : ℕ) (e : IndexEntry) → get_elem? index p ≡ some e → candidate index e.key p ≡ some p
  unfolding candidate
  candidate_hit p e at_p = rw (at_p, cmp_refl e.key, candidate)

  -- A key that stands in a sorted index is found at its place.
  pub binary_search-finds :
      (p : ℕ) (e : IndexEntry) → get_elem? index p ≡ some e → binary_search index e.key ≡ some p
  unfolding binary_search
  binary_search-finds p e at_p =
      ap (candidate index e.key) (
        narrow-finds (length index) 0 (length index) p e at_p (omega arith)
          (omega (arith, lt_of_get_elem? index p at_p)) (omega arith) (omega arith))
      ∙ candidate_hit p e at_p

candidate_sound :
    (index : List IndexEntry) (key : Bytes) (base i : ℕ)
    → candidate index key base ≡ some i
    → (e : IndexEntry) × (get_elem? index i ≡ some e) × (e.key ≡ key)
unfolding candidate
candidate_sound index key base i h = elim (Option-cases (get_elem? index base)) [
  | inl outside ↦ absurd (cc (rw (outside, candidate) at h))
  | inr (e, inside) ↦ elim (Ordering-cases (cmp e.key key)) [
    | inl o ↦ absurd (cc (rw (inside, o, candidate) at h))
    | inr (inl o) ↦ (
      e,
      subst (λ (k : ℕ). get_elem? index k ≡ some e) (cc (rw (inside, o, candidate) at h)) inside,
      eq_of_cmp e.key key o,
    )
    | inr (inr o) ↦ absurd (cc (rw (inside, o, candidate) at h))
  ]
]

-- What is found has the key.
pub binary_search_sound :
    (index : List IndexEntry) (key : Bytes) (i : ℕ)
    → binary_search index key ≡ some i
    → (e : IndexEntry) × (get_elem? index i ≡ some e) × (e.key ≡ key)
unfolding binary_search
binary_search_sound index key i h = candidate_sound index key _ i h
