-- ===== src/Log/Stats/Reordered.antt =====
-- The order of the entries matters to the list of request times alone, for 04-concurrency/src/stats.rs.
use native.Mathlib.Nat.{add_assoc, add_comm}
use mathlib.Core.List.Permᴰ
use mathlib.Core.List.{Permᴰ}
use rust_fundamentals.Base.{
  ℕ, ◌+◌, ◌≡◌, ◌≢◌, refl, sym, ap, ◌∙◌, inl, inr, Bool-cases, false, some, List, [], ◌∷◌, ◌++◌,
  append_assoc, if◌then◌else◌,
}
use rust_fundamentals.Base.Bytes.{Bytes}
use rust_fundamentals.Base.Map
use rust_fundamentals.Base.Map.{key_eq}
use rust_fundamentals.Base.Map.Laws.{eq_of_key_eq, ne_of_key_eq, key_eq_of_ne}
use rust_fundamentals.Base.Map.Sorted.{IsSorted}
use rust_fundamentals.Base.Map.Ext.{eq_of_get}
use rust_fundamentals.Log.Parser.{LogEntry}
use rust_fundamentals.Log.Stats.{wrap, Counts, Stats, or_zero, bump, record_entry, record_malformed}
use rust_fundamentals.Log.Stats.Merged.{Sorted, wrap_left, get-bump, bump-IsSorted}

wrap_comm : (x a b : ℕ) → wrap (wrap (x + a) + b) ≡ wrap (wrap (x + b) + a)
wrap_comm x a b =
    wrap_left (x + a) b
    ∙ ap wrap (add_assoc x a b ∙ ap (λ n. x + n) (add_comm a b) ∙ sym (add_assoc x b a))
    ∙ sym (wrap_left (x + b) a)

-- The reads behind two counts of different keys.
get-bump_both :
    (i k j : Bytes) (m : Counts)
    → k ≢ j
    → Map.get i (bump k 1 (bump j 1 m)) ≡ (
        if key_eq k i
        then some (wrap (or_zero (Map.get k m) + 1))
        else if key_eq j i
        then some (wrap (or_zero (Map.get j m) + 1))
        else Map.get i m)
get-bump_both i k j m apart =
    get-bump i k 1 (bump j 1 m)
    ∙ rw (get-bump k j 1 m, key_eq_of_ne j k (λ e. apart (sym e)), get-bump i j 1 m) refl

bump-bump : (k j : Bytes) (m : Counts) → IsSorted m → bump k 1 (bump j 1 m) ≡ bump j 1 (bump k 1 m)
bump-bump k j m s = elim (Bool-cases (key_eq k j)) [
  | inl same ↦
      let e = eq_of_key_eq k j same in
      ap (λ i. bump k 1 (bump i 1 m)) (sym e) ∙ ap (λ i. bump i 1 (bump k 1 m)) e
  | inr other ↦
      let apart = ne_of_key_eq k j other in
      eq_of_get _ _ (bump-IsSorted k 1 (bump j 1 m) (bump-IsSorted j 1 m s))
        (bump-IsSorted j 1 (bump k 1 m) (bump-IsSorted k 1 m s))
        (λ i.
          get-bump_both i k j m apart
          ∙ (elim (Bool-cases (key_eq k i)) [
            | inl at_k ↦
                let e = eq_of_key_eq k i at_k in
                let not_j : key_eq j i ≡ false = key_eq_of_ne j i (λ d. apart (e ∙ sym d)) in
                rw (at_k, not_j) refl
            | inr not_k ↦ rw not_k refl
          ])
          ∙ sym (get-bump_both i j k m (λ e. apart (sym e))))
]

-- Everything but the request times.
abbrev pub forget : {F : Type 0} → Stats F → Stats F
forget s = record s { request_times = [] }

module _ {F : Type 0} where
  -- Alike but for the order of the request times.
  pub record Alike (s t : Stats F) : Type 0 where
    pub counts : forget s ≡ forget t
    pub times : Permᴰ s.request_times t.request_times

  pub Alike-refl : (s : Stats F) → Alike s s
  Alike-refl s = record { counts = refl; times = Permᴰ.refl s.request_times }

  pub Alike-trans : (s t u : Stats F) → Alike s t → Alike t u → Alike s u
  Alike-trans s t u p q = record {
    counts = p.counts ∙ q.counts;
    times = Permᴰ.trans p.times q.times;
  }

  forget-record_entry :
      (e : LogEntry F) (s : Stats F)
      → forget (record_entry e s) ≡ forget (record_entry e (forget s))
  unfolding record_entry
  forget-record_entry e s = refl

  pub record_entry-Alike :
      (e : LogEntry F) (s t : Stats F) → Alike s t → Alike (record_entry e s) (record_entry e t)
  unfolding record_entry
  record_entry-Alike e s t p = record {
    counts =
        forget-record_entry e s
        ∙ ap (λ u. forget (record_entry e u)) p.counts
        ∙ sym (forget-record_entry e t);
    times = Permᴰ.append_right (e.request_time_ms ∷ []) p.times;
  }

  pub record_malformed-Alike :
      (s t : Stats F) → Alike s t → Alike (record_malformed s) (record_malformed t)
  unfolding record_malformed
  record_malformed-Alike s t p = record {
    counts = ap (λ (u : Stats F). forget (record_malformed u)) p.counts;
    times = p.times;
  }

  swap_last :
      (xs : List F) (a b : F) → Permᴰ ((xs ++ (a ∷ [])) ++ (b ∷ [])) ((xs ++ (b ∷ [])) ++ (a ∷ []))
  swap_last xs a b =
      rw (append_assoc xs (a ∷ []) (b ∷ []), append_assoc xs (b ∷ []) (a ∷ []))
        (Permᴰ.append_left xs (Permᴰ.swap refl refl))

  pub record_entries-Alike :
      (d e : LogEntry F) (s : Stats F)
      → Sorted s
      → Alike (record_entry e (record_entry d s)) (record_entry d (record_entry e s))
  unfolding record_entry
  record_entries-Alike d e s o = record {
    counts =
        rw
          (
            wrap_comm s.total_bytes d.bytes e.bytes,
            bump-bump (e.status ∷ []) (d.status ∷ []) s.status_counts o.statuses,
            bump-bump e.path d.path s.path_counts o.paths,
            bump-bump e.ip d.ip s.ip_counts o.ips,
          )
          refl;
    times = swap_last s.request_times d.request_time_ms e.request_time_ms;
  }

  pub record_entry-record_malformed :
      (e : LogEntry F) (s : Stats F)
      → record_entry e (record_malformed s) ≡ record_malformed (record_entry e s)
  unfolding record_entry record_malformed
  record_entry-record_malformed e s = refl
