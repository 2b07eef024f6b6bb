-- ===== src/Lsm/Db/Levels.antt =====
-- The tables of a store and the files they are read from: listing, sorting and opening them again.
use mathlib.Core.List.{map, reverse, reverse-append}
use rust_fundamentals.Base.{
  ℕ, ◌+◌, ◌<◌, ◌≡◌, refl, ap, ◌∙◌, List, [], ◌∷◌, ◌++◌, All, arith, ==_refl, ne→==, gt→leb,
}
use rust_fundamentals.Base.Bytes.{Bytes}
use rust_fundamentals.Lsm.Result.{ok, err, panic, stuck, ◌>>=◌}
use rust_fundamentals.Lsm.Encoding.{Record}
use rust_fundamentals.Lsm.SsTable.{SsTable, image}
use rust_fundamentals.Lsm.SsTable.Layout.{TableFits}
use rust_fundamentals.Lsm.SsTable.Open.{handle, open_table-image}
use rust_fundamentals.Lsm.Db.{Dir, file_at, open_file, remove_file}
use rust_fundamentals.Lsm.Db.Recovery.{sort_in, sort, open_all, next_id}

-- A table's id and its records.
abbrev pub Level : Type 0
Level = ℕ × List Record

abbrev pub file_of : Level → ℕ × Bytes
file_of l = (l.0, image l.1)

abbrev pub files : List Level → Dir
files = map file_of

abbrev pub handles : List Level → List SsTable
handles = map (λ l. handle l.1 l.0)

-- Newest first: the ids go down from below the bound.
abbrev pub Below : ℕ → List Level → Type 0
Below bound [] = Unit {0}
Below bound (l ∷ ls) = (l.0 < bound) × Below l.0 ls

abbrev pub LevelsFit : List Level → Type 0
LevelsFit = All (λ l. TableFits l.1)

-- Every id is below the bound.
abbrev AllBelow : ℕ → List ℕ → Type 0
AllBelow bound = All (λ i. i < bound)

abbrev pub oldest_first : List Level → List SsTable
oldest_first [] = []
oldest_first (l ∷ ls) = oldest_first ls ++ (handle l.1 l.0 ∷ [])

-- Reversed, the newest comes first.
pub reverse-oldest_first : (ls : List Level) → reverse (oldest_first ls) ≡ handles ls
reverse-oldest_first [] = refl
reverse-oldest_first (l ∷ ls) =
    reverse-append (oldest_first ls) (handle l.1 l.0 ∷ [])
    ∙ ap (λ t. handle l.1 l.0 ∷ t) (reverse-oldest_first ls)

abbrev pub ids : List Level → List ℕ
ids [] = []
ids (l ∷ ls) = ids ls ++ (l.0 ∷ [])

AllBelow-snoc : (n i : ℕ) (xs : List ℕ) → AllBelow n xs → i < n → AllBelow n (xs ++ (i ∷ []))
AllBelow-snoc n i [] h p = (p, tt)
AllBelow-snoc n i (x ∷ xs) (q, h) p = (q, AllBelow-snoc n i xs h p)

ids-AllBelow : (n m : ℕ) (ls : List Level) → Below n ls → n < m + 1 → AllBelow m (ids ls)
ids-AllBelow n m [] b h = tt
ids-AllBelow n m (l ∷ ls) (p, b) h =
    AllBelow-snoc m l.0 (ids ls) (ids-AllBelow l.0 m ls b (omega arith)) (omega arith)

sort_in-last : (n : ℕ) (xs : List ℕ) → AllBelow n xs → sort_in n xs ≡ xs ++ (n ∷ [])
unfolding sort_in
sort_in-last n [] h = refl
sort_in-last n (x ∷ xs) (p, h) = rw (gt→leb n x p) (ap (λ t. x ∷ t) (sort_in-last n xs h))

-- Sorting the listing puts the newest table last.
pub sort-files : (n : ℕ) (ls : List Level) → Below n ls → sort (map (λ f. f.0) (files ls)) ≡ ids ls
unfolding sort
sort-files n [] b = refl
sort-files n (l ∷ ls) (p, b) =
    ap (sort_in l.0) (sort-files l.0 ls b)
    ∙ sort_in-last l.0 (ids ls) (ids-AllBelow l.0 l.0 ls b (omega arith))

next_id-snoc : (xs : List ℕ) (i : ℕ) → next_id (xs ++ (i ∷ [])) ≡ i + 1
unfolding next_id
next_id-snoc [] i = refl
next_id-snoc (x ∷ []) i = refl
next_id-snoc (x ∷ y ∷ xs) i = next_id-snoc (y ∷ xs) i

pub next_id-Below : (n : ℕ) (ls : List Level) → Below n ls → Below (next_id (ids ls)) ls
unfolding next_id
next_id-Below n [] b = tt
next_id-Below n (l ∷ ls) (p, b) = (omega (arith, next_id-snoc (ids ls) l.0), b)

open_all-snoc :
    (dir : Dir) (xs : List ℕ) (i : ℕ) (opened : List SsTable)
    → open_all dir (xs ++ (i ∷ [])) opened
      ≡ (open_all dir xs opened >>= λ ts. open_file dir i >>= λ t. ok (ts ++ (t ∷ [])))
unfolding open_all
open_all-snoc dir [] i opened = refl
open_all-snoc dir (x ∷ xs) i opened =
    elim (open_file dir x)
      as (λ o. (o >>= λ table. open_all dir (xs ++ (i ∷ [])) (opened ++ (table ∷ []))) ≡ (
        (o >>= λ table. open_all dir xs (opened ++ (table ∷ []))) >>= λ ts.
        open_file dir i >>= λ t. ok (ts ++ (t ∷ [])))) [
          | ok table ↦ open_all-snoc dir xs i (opened ++ (table ∷ []))
          | err e ↦ refl
          | panic ↦ refl
          | stuck ↦ refl
        ]

-- Each level's file opens to its handle.
abbrev Opens : Dir → List Level → Type 0
Opens dir = All (λ l. open_file dir l.0 ≡ ok (handle l.1 l.0))

open_all-levels :
    (dir : Dir) (ls : List Level) → Opens dir ls → open_all dir (ids ls) [] ≡ ok (oldest_first ls)
unfolding open_all
open_all-levels dir [] h = refl
open_all-levels dir (l ∷ ls) (p, h) =
    open_all-snoc dir (ids ls) l.0 [] ∙ rw (open_all-levels dir ls h, p)

open_file-behind :
    (i : ℕ) (f : ℕ × Bytes) (dir : Dir) → i < f.0 → open_file (f ∷ dir) i ≡ open_file dir i
unfolding open_file file_at
open_file-behind i f dir h = rw (ne→== f.0 i (λ e. omega (arith, e, h)))

Opens-behind :
    (n : ℕ) (f : ℕ × Bytes) (dir : Dir) (ls : List Level)
    → Below n ls
    → n < f.0 + 1
    → Opens dir ls
    → Opens (f ∷ dir) ls
Opens-behind n f dir [] b h o = tt
Opens-behind n f dir (l ∷ ls) (p, b) h (e, o) =
    (open_file-behind l.0 f dir (omega arith) ∙ e, Opens-behind l.0 f dir ls b (omega arith) o)

files-Opens : (n : ℕ) (ls : List Level) → Below n ls → LevelsFit ls → Opens (files ls) ls
unfolding open_file file_at
files-Opens n [] b fits = tt
files-Opens n (l ∷ ls) (p, b) (fit, fits) = (
  rw (==_refl l.0, open_table-image l.1 fit l.0),
  Opens-behind l.0 (file_of l) (files ls) ls b (omega arith) (files-Opens l.0 ls b fits),
)

-- A directory with a file for each level opens to the levels' handles, the oldest first.
pub open_all-files :
    (n : ℕ) (ls : List Level)
    → Below n ls
    → LevelsFit ls
    → open_all (files ls) (sort (map (λ f. f.0) (files ls))) [] ≡ ok (oldest_first ls)
open_all-files n ls b fits =
    ap (λ is. open_all (files ls) is []) (sort-files n ls b)
    ∙ open_all-levels (files ls) ls (files-Opens n ls b fits)

remove_file-above :
    (id n : ℕ) (ls : List Level) → Below n ls → n < id + 1 → remove_file id (files ls) ≡ files ls
unfolding remove_file
remove_file-above id n [] b h = refl
remove_file-above id n (l ∷ ls) (p, b) h =
    rw (ne→== l.0 id (λ e. omega (arith, e, p, h)))
      (ap (λ t. file_of l ∷ t) (remove_file-above id l.0 ls b (omega arith)))

-- The next table's file is not there yet.
pub remove_file-fresh : (n : ℕ) (ls : List Level) → Below n ls → remove_file n (files ls) ≡ files ls
remove_file-fresh n ls b = remove_file-above n n ls b (omega arith)
