-- ===== src/Brc/Runner/Merge.antt =====
-- The maps of 08-performance/src/runner.rs by what is read from them: recording rows, and merging
-- the map of a part.
use rust_fundamentals.Base.{
  ◌≡◌, refl, sym, ap, ◌∙◌, inl, inr, Option, none, some, List, [], ◌∷◌, ◌++◌, Bool-cases,
  if◌then◌else◌,
}
use rust_fundamentals.Base.Bytes.{Bytes}
use rust_fundamentals.Base.Decimal.{ℤ}
use rust_fundamentals.Base.Map
use rust_fundamentals.Base.Map.{Map, key_eq}
use rust_fundamentals.Base.Map.Laws.{get-insert, eq_of_key_eq}
use rust_fundamentals.Base.Map.Sorted.{IsSorted, insert-IsSorted, get-Above}
use rust_fundamentals.Base.Map.Ext.{eq_of_get, get-cons}
use rust_fundamentals.Brc.Stats.{
  Stats, record_temp, merge, record_all, Capped, default-Capped, record_temp-Capped, merge_part,
}
use rust_fundamentals.Brc.Runner.{FastMap, or_default, record_in, merge_partial}
use rust_fundamentals.Brc.Runner.Lines.{record_rows, record_rows-append}

-- The temperatures of a station, in the order of the rows.
unfoldable pub temps : Bytes → List (Bytes × ℤ) → List ℤ
temps station [] = []
temps station ((name, temp) ∷ rs) =
    let rest = temps station rs in if key_eq name station then temp ∷ rest else rest

-- What an entry is after measurements; one that was not there and gets none stays away.
abbrev pub after : Option Stats → List ℤ → Option Stats
after o [] = o
after o (t ∷ ts) = after (some (record_temp t (or_default o))) ts

pub get-record_rows :
    (station : Bytes) (rs : List (Bytes × ℤ)) (map : FastMap)
    → Map.get station (record_rows rs map) ≡ after (Map.get station map) (temps station rs)
unfolding temps record_in
get-record_rows station [] map = refl
get-record_rows station ((name, temp) ∷ rs) map =
    get-record_rows station rs (record_in name temp map) ∙ elim (Bool-cases (key_eq name station)) [
      | inl same ↦
          rw (get-insert name station (record_temp temp (or_default (Map.get name map))) map, same)
            (ap
              (λ k. after (some (record_temp temp (or_default (Map.get k map)))) (temps station rs))
              (eq_of_key_eq name station same))
      | inr other ↦
          rw (get-insert name station (record_temp temp (or_default (Map.get name map))) map, other)
            refl
    ]

pub record_rows-IsSorted :
    (rs : List (Bytes × ℤ)) (map : FastMap) → IsSorted map → IsSorted (record_rows rs map)
unfolding record_in
record_rows-IsSorted [] map s = s
record_rows-IsSorted ((name, temp) ∷ rs) map s =
    record_rows-IsSorted rs (record_in name temp map)
      (insert-IsSorted name (record_temp temp (or_default (Map.get name map))) map s)

-- The entry of a part added to an entry.
abbrev combine : Option Stats → Option Stats → Option Stats
combine o none = o
combine o (some s) = some (merge s (or_default o))

get-merge_partial :
    (station : Bytes) (partial global : FastMap)
    → IsSorted partial
    → Map.get station (merge_partial partial global)
      ≡ combine (Map.get station global) (Map.get station partial)
unfolding merge_partial
get-merge_partial station [] global s = unfold Map.get in refl
get-merge_partial station ((name, t) ∷ partial) global (a, s) =
    let t' = merge t (or_default (Map.get name global)) in
    get-merge_partial station partial (Map.insert name t' global) s
    ∙ rw (get-cons station name t partial a, get-insert name station t' global)
        (elim (Bool-cases (key_eq name station)) [
          | inl same ↦
              let e = eq_of_key_eq name station same in
              let gone : Map.get station partial ≡ none =
                get-Above station name partial a (inr (sym e)) in
              rw (same, gone) (ap (λ k. some (merge t (or_default (Map.get k global)))) e)
          | inr other ↦ rw other refl
        ])

pub merge_partial-IsSorted :
    (partial global : FastMap) → IsSorted global → IsSorted (merge_partial partial global)
unfolding merge_partial
merge_partial-IsSorted [] global s = s
merge_partial-IsSorted ((name, t) ∷ partial) global s =
    merge_partial-IsSorted partial
      (Map.insert name (merge t (or_default (Map.get name global))) global)
      (insert-IsSorted name (merge t (or_default (Map.get name global))) global s)

-- Of an entry whose minimum and maximum stay in bounds, the entry of a part adds the part's rows.
AllCapped : Option Stats → Type 0
AllCapped none = Unit {0}
AllCapped (some s) = Capped s

or_default-Capped : (o : Option Stats) → AllCapped o → Capped (or_default o)
unfolding AllCapped
or_default-Capped none c = default-Capped
or_default-Capped (some s) c = c

pub after-record_all :
    (t : ℤ) (ts : List ℤ) (o : Option Stats)
    → after o (t ∷ ts) ≡ some (record_all (t ∷ ts) (or_default o))
after-record_all t [] o = refl
after-record_all t (u ∷ ts) o = after-record_all u ts (some (record_temp t (or_default o)))

after-AllCapped : (ts : List ℤ) (o : Option Stats) → AllCapped o → AllCapped (after o ts)
unfolding AllCapped
after-AllCapped [] o c = c
after-AllCapped (t ∷ ts) o c =
    after-AllCapped ts (some (record_temp t (or_default o)))
      (record_temp-Capped t (or_default o) (or_default-Capped o c))

combine-after :
    (o : Option Stats) (ts : List ℤ) → AllCapped o → combine o (after none ts) ≡ after o ts
combine-after o [] c = refl
combine-after o (t ∷ ts) c =
    ap (combine o) (after-record_all t ts none)
    ∙ ap some (merge_part (t ∷ ts) (or_default o) (or_default-Capped o c))
    ∙ sym (after-record_all t ts o)

-- What is read for a station from the map of some rows.
pub get-rows :
    (station : Bytes) (rs : List (Bytes × ℤ))
    → Map.get station (record_rows rs []) ≡ after none (temps station rs)
unfolding Map.get
get-rows station rs = get-record_rows station rs []

rows-AllCapped :
    (station : Bytes) (rs : List (Bytes × ℤ)) → AllCapped (after none (temps station rs))
unfolding AllCapped
rows-AllCapped station rs = after-AllCapped (temps station rs) none tt

-- Merging the map of some rows into the map of others records them behind the others.
pub merge_partial-record_rows :
    (rs ss : List (Bytes × ℤ))
    → merge_partial (record_rows ss []) (record_rows rs []) ≡ record_rows (rs ++ ss) []
merge_partial-record_rows rs ss =
    eq_of_get _ _
      (merge_partial-IsSorted (record_rows ss []) (record_rows rs [])
        (record_rows-IsSorted rs [] tt))
      (record_rows-IsSorted (rs ++ ss) [] tt)
      (λ station.
        get-merge_partial station (record_rows ss []) (record_rows rs [])
          (record_rows-IsSorted ss [] tt)
        ∙ rw (get-rows station rs, get-rows station ss)
            (combine-after (after none (temps station rs)) (temps station ss)
              (rows-AllCapped station rs))
        ∙ sym (
            ap (Map.get station) (record_rows-append rs ss [])
            ∙ get-record_rows station ss (record_rows rs [])
            ∙ ap (λ t. after t (temps station ss)) (get-rows station rs)))
