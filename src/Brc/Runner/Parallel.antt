-- ===== src/Brc/Runner/Parallel.antt =====
-- The drivers of 08-performance/src/runner.rs.
use rust_fundamentals.Base.{
  ◌||◌, if◌then◌else◌, true, ℕ, ◌≡◌, refl, sym, ap, ◌∙◌, inl, inr, Option, none, some, List, [],
  ◌∷◌, ◌++◌, append_assoc, append-nil, ◌⊎◌, leb, leb→gt, Bool-cases, Option-cases, arith, ◌>>=◌,
}
use rust_fundamentals.Base.Bytes.{Bytes}
use rust_fundamentals.Base.Decimal.{ℤ}
use rust_fundamentals.Base.Map
use rust_fundamentals.Base.Map.{Map, key_eq}
use rust_fundamentals.Base.Map.Laws.{get-insert, eq_of_key_eq}
use rust_fundamentals.Base.Map.Sorted.{IsSorted, get-Above}
use rust_fundamentals.Base.Map.Ext.{get-cons}
use rust_fundamentals.Brc.Parse.{Memchr}
use rust_fundamentals.Brc.Stats.{Stats, default, record_all}
use rust_fundamentals.Brc.Runner.{
  FastMap, into_sorted, run_sequential, aggregate_all, merge_all, run_parallel, is_empty, allocates,
}
use rust_fundamentals.Brc.Runner.Lines.{lines, rows, record_rows, aggregate-rows, rows-append}
use rust_fundamentals.Brc.Runner.Chunks.{all_lines, split_chunks-tile, split_chunks-overflow}
use rust_fundamentals.Brc.Runner.Merge.{
  temps, after, after-record_all, get-rows, record_rows-IsSorted, merge_partial-record_rows,
}

-- The first chunk merged, its rows go to the earlier ones.
merge_first :
    (earlier rs : List (Bytes × ℤ)) (maps : Option (List FastMap))
    (later : Option (List (Bytes × ℤ)))
    → (maps >>= λ rest. some (merge_all rest (record_rows (earlier ++ rs) [])))
      ≡ (later >>= λ ss. some (record_rows ((earlier ++ rs) ++ ss) []))
    → (maps >>= (λ rest. some (record_rows rs [] ∷ rest)) >>= λ partials.
        some (merge_all partials (record_rows earlier [])))
      ≡ (later >>= (λ ss. some (rs ++ ss)) >>= λ ss. some (record_rows (earlier ++ ss) []))
unfolding merge_all
merge_first earlier rs none none h = refl
merge_first earlier rs none (some ss) h = absurd (cc h)
merge_first earlier rs (some rest) none h = absurd (cc h)
merge_first earlier rs (some rest) (some ss) h =
    ap (λ g. some (merge_all rest g)) (merge_partial-record_rows earlier rs)
    ∙ h
    ∙ ap (λ t. some (record_rows t [])) (append_assoc earlier rs ss)

-- The threads' maps merged behind the map of earlier rows are the map of all the rows.
merge_chunks :
    (mc : Memchr) (chunks : List Bytes) (earlier : List (Bytes × ℤ))
    → (aggregate_all mc chunks >>= λ partials. some (merge_all partials (record_rows earlier [])))
      ≡ (rows mc (all_lines chunks) >>= λ rs. some (record_rows (earlier ++ rs) []))
unfolding aggregate_all
merge_chunks mc [] earlier = unfold rows merge_all in rw append-nil
merge_chunks mc (chunk ∷ chunks) earlier =
    rw (aggregate-rows mc chunk, rows-append mc (lines [] chunk) (all_lines chunks))
      (elim (Option-cases (rows mc (lines [] chunk))) [
        | inl bad ↦ rw (bad, ◌>>=◌)
        | inr (rs, good) ↦
            rw (good, ◌>>=◌)
              (merge_first earlier rs (aggregate_all mc chunks) (rows mc (all_lines chunks))
                (merge_chunks mc chunks (earlier ++ rs)))
      ])

merge_all_chunks :
    (mc : Memchr) (chunks : List Bytes)
    → (aggregate_all mc chunks >>= λ partials. some (into_sorted (merge_all partials []) []))
      ≡ (rows mc (all_lines chunks) >>= λ rs. some (into_sorted (record_rows rs []) []))
merge_all_chunks mc chunks =
    sorted_alike (aggregate_all mc chunks) (rows mc (all_lines chunks)) (merge_chunks mc chunks [])
  where
    sorted_alike :
        (maps : Option (List FastMap)) (rs : Option (List (Bytes × ℤ)))
        → (maps >>= λ partials. some (merge_all partials []))
          ≡ (rs >>= λ rs. some (record_rows rs []))
        → (maps >>= λ partials. some (into_sorted (merge_all partials []) []))
          ≡ (rs >>= λ rs. some (into_sorted (record_rows rs []) []))
    sorted_alike none none h = refl
    sorted_alike none (some rs) h = absurd (cc h)
    sorted_alike (some maps) none h = absurd (cc h)
    sorted_alike (some maps) (some rs) h = cc h

sequential_rows :
    (mc : Memchr) (buf : Bytes)
    → run_sequential mc buf
      ≡ (rows mc (lines [] buf) >>= λ rs. some (into_sorted (record_rows rs []) []))
unfolding run_sequential
sequential_rows mc buf = rw (aggregate-rows mc buf) (elim (Option-cases (rows mc (lines [] buf))) [
  | inl bad ↦ rw (bad, ◌>>=◌)
  | inr (rs, good) ↦ rw (good, ◌>>=◌)
])

few-allocates :
    (buf : Bytes) (threads : ℕ) → leb threads 1 ≡ true → (is_empty buf || allocates threads) ≡ true
few-allocates [] threads one = refl
few-allocates (c ∷ rest) threads one = ground arith

-- On every buffer and with every number of threads, the parallel path gives what the sequential
-- path gives, a panic included, when the buffer is empty or a vector of that many chunks can be
-- allocated; it panics when the buffer is not empty and the vector is too large.
pub run_parallel-run_sequential :
    (mc : Memchr) (buf : Bytes) (threads : ℕ)
    → run_parallel mc buf threads
      ≡ (if is_empty buf || allocates threads then run_sequential mc buf else none)
unfolding run_parallel
run_parallel-run_sequential mc buf threads = elim (Bool-cases (leb threads 1)) [
  | inl one ↦ rw (one, few-allocates buf threads one) refl
  | inr more ↦ elim (Bool-cases (is_empty buf || allocates threads)) [
    | inl fits ↦
        let (chunks, split, short, full, whole, kept) =
          split_chunks-tile buf threads (omega (arith, leb→gt threads 1 more)) fits in
        rw (more, fits, split, ◌>>=◌)
          (merge_all_chunks mc chunks ∙ rw kept (sym (sequential_rows mc buf)))
    | inr over ↦ rw (more, over, split_chunks-overflow buf threads over, ◌>>=◌) refl
  ]
]

abbrev or_else : Option Stats → Option Stats → Option Stats
or_else none o = o
or_else (some s) o = some s

get-into_sorted :
    (station : Bytes) (map sorted : FastMap)
    → IsSorted map
    → Map.get station (into_sorted map sorted)
      ≡ or_else (Map.get station map) (Map.get station sorted)
unfolding into_sorted
get-into_sorted station [] sorted s = unfold Map.get in refl
get-into_sorted station ((name, t) ∷ map) sorted (a, s) =
    get-into_sorted station map (Map.insert name t sorted) s
    ∙ rw (get-cons station name t map a, get-insert name station t sorted)
        (elim (Bool-cases (key_eq name station)) [
          | inl same ↦
              let e = eq_of_key_eq name station same in
              rw (same, get-Above station name map a (inr (sym e)))
          | inr other ↦ rw other
        ])

or_else-empty :
    (station : Bytes) (o : Option Stats) → or_else o (Map.get {V = Stats} station []) ≡ o
unfolding Map.get
or_else-empty station none = refl
or_else-empty station (some s) = refl

-- What a station's entry should be: nothing without measurements, and else all of them recorded,
-- in the order of the rows, from `default` on.
unfoldable pub summary : List ℤ → Option Stats
summary [] = none
summary (t ∷ ts) = some (record_all (t ∷ ts) default)

after-summary : (ts : List ℤ) → after none ts ≡ summary ts
unfolding summary
after-summary [] = refl
after-summary (t ∷ ts) = after-record_all t ts none

-- When every line that a newline ends reads as a row, the sequential path gives a map that has,
-- for each station, the summary of its temperatures in the order of the rows, and for any other
-- name nothing; when some line does not, the path panics.
pub run_sequential-summary :
    (mc : Memchr) (buf : Bytes)
    → ((rows mc (lines [] buf) ≡ none) × (run_sequential mc buf ≡ none))
      ⊎ ((rs : List (Bytes × ℤ)) × (m : Map Stats) × (rows mc (lines [] buf) ≡ some rs)
          × (run_sequential mc buf ≡ some m)
          × ((station : Bytes) → Map.get station m ≡ summary (temps station rs)))
run_sequential-summary mc buf = elim (Option-cases (rows mc (lines [] buf))) [
  | inl bad ↦ inl (bad, sequential_rows mc buf ∙ rw (bad, ◌>>=◌))
  | inr (rs, good) ↦ inr (
    rs,
    into_sorted (record_rows rs []) [],
    good,
    sequential_rows mc buf ∙ rw (good, ◌>>=◌),
    λ station.
        get-into_sorted station (record_rows rs []) [] (record_rows-IsSorted rs [] tt)
        ∙ rw (get-rows station rs, after-summary (temps station rs))
            (or_else-empty station (summary (temps station rs))),
  )
]
