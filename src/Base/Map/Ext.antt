-- ===== src/Base/Map/Ext.antt =====
-- A sorted map is determined by what is read from it.
use Prim.Native.Nat.Ordering.{lt, eq, gt}
use mathlib.Core.Path.{◌≡◌, refl, sym, ap, ◌∙◌, subst}
use mathlib.Core.Logic.{inl, inr}
use mathlib.Core.Option.{none, some}
use mathlib.Core.List.{[], ◌∷◌}
use rust_fundamentals.Base.Tests.{Ordering-cases, if◌then◌else◌}
use rust_fundamentals.Base.Bytes.{Bytes}
use rust_fundamentals.Base.Order.{cmp, cmp_refl, eq_of_cmp, gt_of_lt, lt_of_gt}
use rust_fundamentals.Base.Map.{Map, get, key_eq}
use rust_fundamentals.Base.Map.Sorted.{Above, IsSorted, get-Above}

module _ {ℓ} {V : Type ℓ} where
  get_head : (k : Bytes) (v : V) (m : Map V) → get k ((k, v) ∷ m) ≡ some v
  unfolding get
  get_head k v m = rw (cmp_refl k, get)

  get_before : (i k : Bytes) (v : V) (m : Map V) → cmp i k ≡ lt → get i ((k, v) ∷ m) ≡ none
  unfolding get
  get_before i k v m p = rw (p, get)

  get_behind : (i k : Bytes) (v : V) (m : Map V) → cmp i k ≡ gt → get i ((k, v) ∷ m) ≡ get i m
  unfolding get
  get_behind i k v m p = rw (p, get)

  -- Two maps with the same first key read alike behind it.
  tails_alike :
      (k : Bytes) (v w : V) (m n : Map V)
      → Above k m
      → Above k n
      → ((i : Bytes) → get i ((k, v) ∷ m) ≡ get i ((k, w) ∷ n))
      → (i : Bytes) → get i m ≡ get i n
  tails_alike k v w m n a b same i = elim (Ordering-cases (cmp i k)) [
    | inl p ↦ get-Above i k m a (inl p) ∙ sym (get-Above i k n b (inl p))
    | inr (inl p) ↦
        get-Above i k m a (inr (eq_of_cmp i k p)) ∙ sym (get-Above i k n b (inr (eq_of_cmp i k p)))
    | inr (inr p) ↦ sym (get_behind i k v m p) ∙ same i ∙ get_behind i k w n p
  ]

  -- Two sorted maps that read alike have the same first key.
  first_alike :
      (k j : Bytes) (v w : V) (m n : Map V)
      → ((i : Bytes) → get i ((k, v) ∷ m) ≡ get i ((j, w) ∷ n))
      → cmp k j ≡ eq
  first_alike k j v w m n same = elim (Ordering-cases (cmp k j)) [
    | inl p ↦ absurd (cc (same k, get_head k v m, get_before k j w n p))
    | inr (inl p) ↦ p
    | inr (inr p) ↦ absurd (cc (same j, get_head j w n, get_before j k v m (lt_of_gt k j p)))
  ]

  some_eq : (v w : V) → some v ≡ some w → v ≡ w
  some_eq v w e = cc e

  pub eq_of_get :
      (m n : Map V) → IsSorted m → IsSorted n → ((i : Bytes) → get i m ≡ get i n) → m ≡ n
  eq_of_get [] [] s t same = refl
  eq_of_get [] ((j, w) ∷ n) s t same = absurd (unfold get in cc (same j, get_head j w n))
  eq_of_get ((k, v) ∷ m) [] s t same = absurd (unfold get in cc (same k, get_head k v m))
  eq_of_get ((k, v) ∷ m) ((j, w) ∷ n) (a, s) (b, t) same =
      let e = eq_of_cmp k j (first_alike k j v w m n same) in
      let same' : (i : Bytes) → get i ((k, v) ∷ m) ≡ get i ((k, w) ∷ n) =
        λ i. same i ∙ ap (λ (x : Bytes). get i ((x, w) ∷ n)) (sym e) in
      let head = some_eq v w (sym (get_head k v m) ∙ same' k ∙ get_head k w n) in
      let rest =
        eq_of_get m n s t
          (tails_alike k v w m n a (subst (λ (x : Bytes). Above x n) (sym e) b) same') in
      cc (e, head, rest)

  -- Reading a sorted map at its first key and behind it.
  pub get-cons :
      (i k : Bytes) (v : V) (m : Map V)
      → Above k m
      → get i ((k, v) ∷ m) ≡ (if key_eq k i then some v else get i m)
  unfolding get key_eq
  get-cons i k v m a = elim (Ordering-cases (cmp i k)) [
    | inl p ↦ rw (p, get) (rw (gt_of_lt i k p, key_eq) (sym (get-Above i k m a (inl p))))
    | inr (inl p) ↦ rw (p, get) (rw (ap (λ t. cmp k t) (eq_of_cmp i k p) ∙ cmp_refl k, key_eq) refl)
    | inr (inr p) ↦ rw (p, get) (rw (lt_of_gt i k p, key_eq) refl)
  ]
