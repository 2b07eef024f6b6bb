-- ===== src/Lsm/Db/Torn.antt =====
-- `open_with` after a crash in the middle of a write.
use rust_fundamentals.Base.{
  ℕ, zero, suc, ◌+◌, ◌≡◌, refl, sym, ap, ◌∙◌, subst, some, List, [], ◌∷◌, ◌++◌, length, take,
  take-nil, take_all, append-nil, All, arith, ◌-◌, take-append_ge, take_all, ◌⊎◌, inl, inr,
  if◌then◌else◌,
}
use rust_fundamentals.Base.Bytes.{Bytes}
use rust_fundamentals.Lsm.Result.{ok}
use rust_fundamentals.Lsm.Encoding.{Record}
use rust_fundamentals.Lsm.Wal
use rust_fundamentals.Lsm.Wal.{Wal, frame, log, replay, FrameFits}
use rust_fundamentals.Lsm.Wal.Crash.{Leaves, cut, crash_keeps_synced}
use rust_fundamentals.Lsm.MemTable
use rust_fundamentals.Lsm.Db.{Db, Options, get, get_tables, or_older}
use rust_fundamentals.Lsm.Db.Recovery.{insert_all}
use rust_fundamentals.Lsm.Db.Levels.{Level, handles}
use rust_fundamentals.Base.Map.{key_eq}
use rust_fundamentals.Lsm.Wal.{WriteAll, written, failed_after}
use rust_fundamentals.Lsm.Wal.Durable.{log-snoc}
use rust_fundamentals.Lsm.MemTable.{MemTable}
use rust_fundamentals.Lsm.Db.{live}
use rust_fundamentals.Lsm.Db.Write.{get-inserted}
use rust_fundamentals.Lsm.Db.Reopen.{
  Durable, reading, Recovers, Recovers-same, get-Durable, open_with-reads,
}

prefix_of_prefix : (a n : ℕ) (xs : Bytes) → (m : ℕ) × (take a (take n xs) ≡ take m xs)
prefix_of_prefix zero n xs = (0, refl)
prefix_of_prefix (suc a) zero xs = (0, refl)
prefix_of_prefix (suc a) (suc n) [] = (0, refl)
prefix_of_prefix (suc a) (suc n) (x ∷ xs) =
    let (m, e) = prefix_of_prefix a n xs in (suc m, ap (λ t. x ∷ t) e)

-- What a crash leaves of a log to which a part of a frame was appended is a part of the log with
-- the whole frame.
left_by_append :
    (w : Wal) (ws : List Record) (r : Record) (part : ℕ) {left : Bytes}
    → w.file ≡ log ws
    → w.synced ≡ length (log ws)
    → Leaves (record w { file = w.file ++ take part (frame r) }) left
    → Leaves (record { file = log (ws ++ (r ∷ [])); synced = length (log ws) }) left
left_by_append w ws r part whole synced (cut k h) =
    let (m, e) = prefix_of_prefix (k - length (log ws)) part (frame r) in
    let old = length (log ws) in
    subst (Leaves (record { file = log (ws ++ (r ∷ [])); synced = old }))
      (ap (take (old + m)) (sym (log-snoc ws r))
        ∙ take-append_ge (log ws) (frame r) (old + m) (omega arith)
        ∙ ap (λ i. log ws ++ take i (frame r)) (omega arith)
        ∙ ap (λ t. log ws ++ t) (sym e)
        ∙ sym (take-append_ge (log ws) (take part (frame r)) k (omega (arith, synced, h)))
        ∙ ap (λ t. take k (t ++ take part (frame r))) (sym whole))
      (cut (old + m) (omega arith))

-- An append that wrote everything wrote all of the frame.
append-part :
    (w : Wal) (r : Record) (outcome : WriteAll)
    → (part : ℕ) × ((Wal.append w r outcome).1 ≡ record w { file = w.file ++ take part (frame r) })
unfolding Wal.append
append-part w r (failed_after n) = (n, refl)
append-part w r written = (
  length (frame r),
  ap (λ t. record w { file = w.file ++ t }) (sym (take_all (frame r) _ (omega arith))),
)

replay_in_append :
    (w : Wal) (ws : List Record) (r : Record) (outcome : WriteAll) {left : Bytes}
    → w.file ≡ log ws
    → w.synced ≡ length (log ws)
    → All FrameFits (ws ++ (r ∷ []))
    → Leaves (Wal.append w r outcome).1 left
    → (replay (some left) ≡ some ws) ⊎ (replay (some left) ≡ some (ws ++ (r ∷ [])))
replay_in_append w ws r outcome {left} whole synced fits crash =
    let (part, e) = append-part w r outcome in
    let crash' =
      left_by_append w ws r part whole synced (subst (λ (x : Wal). Leaves x left) e crash) in
    let (m, replayed) = crash_keeps_synced _ ws (r ∷ []) fits refl refl crash' in
    old_or_new m replayed
  where
    old_or_new :
        (m : ℕ)
        → replay (some left) ≡ some (ws ++ take m (r ∷ []))
        → (replay (some left) ≡ some ws) ⊎ (replay (some left) ≡ some (ws ++ (r ∷ [])))
    old_or_new zero replayed = inl (replayed ∙ ap some (append-nil ws))
    old_or_new (suc m) replayed =
        inr (replayed ∙ ap (λ t. some (ws ++ (r ∷ t))) (take-nil Record m))

pub insert_all-snoc :
    (mem : MemTable) (ws : List Record) (r : Record)
    → insert_all mem (ws ++ (r ∷ [])) ≡ MemTable.insert (insert_all mem ws) r
unfolding insert_all
insert_all-snoc mem [] r = refl
insert_all-snoc mem (w ∷ ws) r = insert_all-snoc (MemTable.insert mem w) ws r

reading-snoc :
    (db : Db) (ls : List Level) (ws : List Record) (r : Record) (key : Bytes)
    → Durable db ls ws
    → reading ls (ws ++ (r ∷ [])) key ≡ (if key_eq r.key key then ok (live r.value) else get db key)
reading-snoc db ls ws r key d =
    ap (λ m. or_older (MemTable.get key m) (get_tables (handles ls) key))
      (insert_all-snoc MemTable.new ws r ∙ ap (λ m. MemTable.insert m r) (sym d.buffered))
    ∙ ap (λ ts. or_older (MemTable.get key (MemTable.insert db.mem r)) (get_tables ts key))
        (sym d.opened)
    ∙ get-inserted db r key

-- A crash while `put` or `delete` appends and syncs its record leaves a store that opens again and
-- reads either as before, for every key, or with the whole write done, however much of the record's
-- frame was written and however much of that a crash leaves.
pub Recovers-in_write :
    (db : Db) (ls : List Level) (ws : List Record) (r : Record) (opts : Options)
    (outcome : WriteAll) {left : Bytes}
    → Durable db ls ws
    → All FrameFits (ws ++ (r ∷ []))
    → Leaves (Wal.append db.wal r outcome).1 left
    → Recovers db.dir left opts (get db)
      ⊎ Recovers db.dir left opts
          (λ key. if key_eq r.key key then ok (live r.value) else get db key)
Recovers-in_write db ls ws r opts outcome {left} d fits crash =
    elim (replay_in_append db.wal ws r outcome d.logged d.synced fits crash) [
      | inl old ↦ inl (
          Recovers-same left opts (sym d.tables) (λ key. get-Durable db ls ws key d)
            (open_with-reads db.next_sst_id ls ws left opts d.fresh d.fits old))
      | inr new ↦ inr (
          Recovers-same left opts (sym d.tables) (λ key. reading-snoc db ls ws r key d)
            (open_with-reads db.next_sst_id ls (ws ++ (r ∷ [])) left opts d.fresh d.fits new))
    ]
