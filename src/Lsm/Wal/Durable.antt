-- ===== src/Lsm/Wal/Durable.antt =====
-- The durability protocol `append`, then `sync`, and what becomes of frames behind a torn one.
use rust_fundamentals.Base.{
  ℕ, ◌<◌, ◌≡◌, ◌≢◌, refl, sym, ap, ◌∙◌, true, some, List, [], ◌∷◌, ◌++◌, length, take, take-nil,
  append-nil, All, subst,
}
use rust_fundamentals.Base.Bytes.{Bytes, At}
use rust_fundamentals.Lsm.Encoding.{Record, encode}
use rust_fundamentals.Lsm.Crc.{crc32}
use rust_fundamentals.Lsm.Wal.{
  Wal, written, failed_after, frame, append, sync, replay, log, FrameFits,
}
use rust_fundamentals.Lsm.Wal.Replay.{replay_stops}
use rust_fundamentals.Lsm.Wal.Frames.{header, next_frame_torn, next_frame_corrupt}
use rust_fundamentals.Lsm.Wal.Crash.{Leaves, crash_keeps_synced, log-append}

pub log-snoc : (rs : List Record) (r : Record) → log rs ++ frame r ≡ log (rs ++ (r ∷ []))
unfolding log
log-snoc rs r =
    sym (log-append rs (r ∷ []) ∙ ap (λ (t : Bytes). log rs ++ t) (append-nil (frame r)))

At-behind : (rs : List Record) (tail : Bytes) → At (log rs ++ tail) (length (log rs)) tail
At-behind rs tail = record { before = log rs; whole = refl; here = refl }

-- Once `append` and `sync` have succeeded on a log of whole frames, whatever a crash leaves replays
-- to the old records followed by the new one.
pub append-sync_durable :
    (w : Wal) (rs : List Record) (r : Record) {left : Bytes}
    → All FrameFits (rs ++ (r ∷ []))
    → w.file ≡ log rs
    → Leaves (sync (append w r written).1 true).1 left
    → replay (some left) ≡ some (rs ++ (r ∷ []))
unfolding append sync
append-sync_durable w rs r fits whole crash =
    let now = ap (λ (t : Bytes). t ++ frame r) whole ∙ log-snoc rs r in
    let (m, e) =
      crash_keeps_synced _ (rs ++ (r ∷ [])) []
        (subst (All FrameFits) (sym (append-nil (rs ++ (r ∷ [])))) fits)
        (now ∙ ap log (sym (append-nil (rs ++ (r ∷ []))))) (ap length now) crash in
    e
    ∙ ap some (
        ap (λ (t : List Record). (rs ++ (r ∷ [])) ++ t) (take-nil Record m)
        ∙ append-nil (rs ++ (r ∷ [])))

-- A failed `append` loses nothing that was logged before it: the torn frame ends the replay.
pub failed_append_keeps :
    (w : Wal) (rs : List Record) (r : Record) (n : ℕ)
    → All FrameFits rs
    → FrameFits r
    → w.file ≡ log rs
    → n < length (frame r)
    → replay (some (append w r (failed_after n)).1.file) ≡ some rs
unfolding append
failed_append_keeps w rs r n fits fit whole h =
    ap (λ (t : Bytes). replay (some (t ++ take n (frame r)))) whole
    ∙ replay_stops rs (take n (frame r)) fits
        (next_frame_torn r n fit h (At-behind rs (take n (frame r))))

-- Whatever is logged behind a frame that was torn in its payload is not replayed, unless the bytes
-- that complete the frame happen to have its checksum: the replay ends at the torn frame.
pub behind_torn_frame :
    (rs : List Record) (r : Record) (m : ℕ) (tail : Bytes)
    → All FrameFits rs
    → FrameFits r
    → crc32 (take (length (encode r)) (take m (encode r) ++ tail)) ≢ crc32 (encode r)
    → replay (some (log rs ++ (header r ++ (take m (encode r) ++ tail)))) ≡ some rs
behind_torn_frame rs r m tail fits fit differs =
    replay_stops rs _ fits
      (next_frame_corrupt r (take m (encode r) ++ tail) fit differs (At-behind rs _))
