-- ===== src/Log/Stats/Merged.antt =====
-- Merging with the aggregate of further entries is recording them, for 04-concurrency/src/stats.rs.
use native.Mathlib.Nat.{add_assoc}
use rust_fundamentals.Base.{
  ℕ, ◌+◌, ◌^◌, ◌<◌, ◌≡◌, refl, sym, ap, ◌∙◌, inl, inr, Bool-cases, Option, none, some, [], ◌∷◌,
  append_assoc, append-nil, arith, if◌then◌else◌,
}
use rust_fundamentals.Base.Bytes.{Bytes}
use rust_fundamentals.Base.Map
use rust_fundamentals.Base.Map.{Map, key_eq}
use rust_fundamentals.Base.Map.Laws.{get-insert, eq_of_key_eq}
use rust_fundamentals.Base.Map.Sorted.{IsSorted, insert-IsSorted, get-Above}
use rust_fundamentals.Base.Map.Ext.{eq_of_get, get-cons}
use rust_fundamentals.Log.Parser.{LogEntry}
use rust_fundamentals.Log.Stats.{
  wrap, Counts, Stats, or_zero, bump, merge_counts, default, record_entry, record_malformed, merge,
}

pub wrap_left : (a b : ℕ) → wrap (wrap a + b) ≡ wrap (a + b)
unfolding wrap
wrap_left a b = omega arith

wrap_right : (a b : ℕ) → wrap (a + wrap b) ≡ wrap (a + b)
unfolding wrap
wrap_right a b = omega arith

wrap_none : (n : ℕ) → n < 2 ^ 64 → wrap (n + 0) ≡ n
unfolding wrap
wrap_none n h = omega arith

wrap_below : (n : ℕ) → wrap n < 2 ^ 64
unfolding wrap
wrap_below n = omega arith

-- One more added to a part is one more added to the whole.
wrap_step : (a b c : ℕ) → wrap (a + wrap (b + c)) ≡ wrap (wrap (a + b) + c)
wrap_step a b c = wrap_right a (b + c) ∙ ap wrap (sym (add_assoc a b c)) ∙ sym (wrap_left (a + b) c)

abbrev combine : Option ℕ → Option ℕ → Option ℕ
combine o none = o
combine o (some n) = some (wrap (or_zero o + n))

pub get-bump :
    (j k : Bytes) (c : ℕ) (m : Counts)
    → Map.get j (bump k c m)
      ≡ (if key_eq k j then some (wrap (or_zero (Map.get k m) + c)) else Map.get j m)
unfolding bump
get-bump j k c m = get-insert k j (wrap (or_zero (Map.get k m) + c)) m

pub bump-IsSorted : (k : Bytes) (c : ℕ) (m : Counts) → IsSorted m → IsSorted (bump k c m)
unfolding bump
bump-IsSorted k c m s = insert-IsSorted k (wrap (or_zero (Map.get k m) + c)) m s

merge_counts-IsSorted : (other m : Counts) → IsSorted m → IsSorted (merge_counts other m)
unfolding merge_counts
merge_counts-IsSorted [] m s = s
merge_counts-IsSorted ((k, c) ∷ other) m s =
    merge_counts-IsSorted other (bump k c m) (bump-IsSorted k c m s)

get-merge_counts :
    (j : Bytes) (other m : Counts)
    → IsSorted other
    → Map.get j (merge_counts other m) ≡ combine (Map.get j m) (Map.get j other)
unfolding merge_counts
get-merge_counts j [] m s = unfold Map.get in refl
get-merge_counts j ((k, c) ∷ other) m (a, s) =
    get-merge_counts j other (bump k c m) s
    ∙ rw (get-cons j k c other a, get-bump j k c m)
        (elim (Bool-cases (key_eq k j)) [
          | inl same ↦
              let e = eq_of_key_eq k j same in
              let gone : Map.get j other ≡ none = get-Above j k other a (inr (sym e)) in
              rw (same, gone) (ap (λ i. some (wrap (or_zero (Map.get i m) + c))) e)
          | inr other_key ↦ rw other_key refl
        ])

combine-step :
    (o p : Option ℕ) (c : ℕ)
    → combine o (some (wrap (or_zero p + c))) ≡ some (wrap (or_zero (combine o p) + c))
combine-step o none c =
    let none_yet : 0 + c ≡ c = omega arith in
    ap some (ap (λ n. wrap (or_zero o + wrap n)) none_yet ∙ wrap_right (or_zero o) c)
combine-step o (some n) c = ap some (wrap_step (or_zero o) n c)

merge_counts-bump :
    (k : Bytes) (c : ℕ) (other m : Counts)
    → IsSorted other
    → IsSorted m
    → merge_counts (bump k c other) m ≡ bump k c (merge_counts other m)
merge_counts-bump k c other m s t =
    eq_of_get _ _ (merge_counts-IsSorted (bump k c other) m t)
      (bump-IsSorted k c (merge_counts other m) (merge_counts-IsSorted other m t))
      (λ j.
        get-merge_counts j (bump k c other) m (bump-IsSorted k c other s)
        ∙ rw
            (
              get-bump j k c other,
              get-bump j k c (merge_counts other m),
              get-merge_counts j other m s,
              get-merge_counts k other m s,
            )
            (elim (Bool-cases (key_eq k j)) [
              | inl same ↦ rw same (
                  ap (λ i. combine (Map.get i m) (some (wrap (or_zero (Map.get k other) + c))))
                    (sym (eq_of_key_eq k j same))
                  ∙ combine-step (Map.get k m) (Map.get k other) c)
              | inr apart ↦ rw apart refl
            ]))

pub record Sorted {F : Type 0} (s : Stats F) : Type 0 where
  pub statuses : IsSorted s.status_counts
  pub paths : IsSorted s.path_counts
  pub ips : IsSorted s.ip_counts

-- Every count fits into 64 bits.
pub record Small {F : Type 0} (s : Stats F) : Type 0 where
  pub few_requests : s.requests < 2 ^ 64
  pub few_malformed : s.malformed < 2 ^ 64
  pub few_bytes : s.total_bytes < 2 ^ 64

module _ {F : Type 0} where
  pub default-Sorted : Sorted {F = F} default
  default-Sorted = record { statuses = tt; paths = tt; ips = tt }

  pub default-Small : Small {F = F} default
  default-Small = record {
    few_requests = omega arith;
    few_malformed = omega arith;
    few_bytes = omega arith;
  }

  pub record_entry-Sorted : (e : LogEntry F) (s : Stats F) → Sorted s → Sorted (record_entry e s)
  unfolding record_entry
  record_entry-Sorted e s o = record {
    statuses = bump-IsSorted (e.status ∷ []) 1 s.status_counts o.statuses;
    paths = bump-IsSorted e.path 1 s.path_counts o.paths;
    ips = bump-IsSorted e.ip 1 s.ip_counts o.ips;
  }

  pub record_malformed-Sorted : (s : Stats F) → Sorted s → Sorted (record_malformed s)
  unfolding record_malformed
  record_malformed-Sorted s o = record { statuses = o.statuses; paths = o.paths; ips = o.ips }

  pub record_entry-Small : (e : LogEntry F) (s : Stats F) → Small s → Small (record_entry e s)
  unfolding record_entry
  record_entry-Small e s o = record {
    few_requests = wrap_below (s.requests + 1);
    few_malformed = o.few_malformed;
    few_bytes = wrap_below (s.total_bytes + e.bytes);
  }

  pub record_malformed-Small : (s : Stats F) → Small s → Small (record_malformed s)
  unfolding record_malformed
  record_malformed-Small s o = record {
    few_requests = o.few_requests;
    few_malformed = wrap_below (s.malformed + 1);
    few_bytes = o.few_bytes;
  }

  pub merge-default : (s : Stats F) → Small s → merge default s ≡ s
  unfolding merge merge_counts
  merge-default s o =
      rw
        (
          wrap_none s.requests o.few_requests,
          wrap_none s.malformed o.few_malformed,
          wrap_none s.total_bytes o.few_bytes,
          append-nil s.request_times,
        )
        refl

  pub merge-record_entry :
      (e : LogEntry F) (t s : Stats F)
      → Sorted t
      → Sorted s
      → merge (record_entry e t) s ≡ record_entry e (merge t s)
  unfolding merge record_entry
  merge-record_entry e t s o p =
      rw
        (
          wrap_step s.requests t.requests 1,
          wrap_step s.total_bytes t.total_bytes e.bytes,
          merge_counts-bump (e.status ∷ []) 1 t.status_counts s.status_counts o.statuses p.statuses,
          merge_counts-bump e.path 1 t.path_counts s.path_counts o.paths p.paths,
          merge_counts-bump e.ip 1 t.ip_counts s.ip_counts o.ips p.ips,
          append_assoc s.request_times t.request_times (e.request_time_ms ∷ []),
        )
        refl

  pub merge-record_malformed :
      (t s : Stats F) → merge (record_malformed t) s ≡ record_malformed (merge t s)
  unfolding merge record_malformed
  merge-record_malformed t s =
      ap (λ n. record (merge t s) { malformed = n }) (wrap_step s.malformed t.malformed 1)
