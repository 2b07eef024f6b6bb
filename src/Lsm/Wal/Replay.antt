-- ===== src/Lsm/Wal/Replay.antt =====
-- `replay` ends on every file, and reads a log of whole frames up to the first bad one.
use rust_fundamentals.Base.{
  ℕ, zero, suc, ◌+◌, ◌≤◌, ◌<◌, ◌≡◌, refl, sym, ap, ◌∙◌, Option, none, some, List, [], ◌∷◌, ◌++◌,
  length, take, drop, append_assoc, append-nil, arith, length-append, Option-cases, inl, inr, All,
  subst, ◌==◌, if◌then◌else◌,
}
use rust_fundamentals.Base.Bytes.{
  Bytes, from_le_bytes, get_range, get_range-some, At, At-start, At-skip, length-At,
}
use rust_fundamentals.Lsm.Encoding.{Record, decode}
use rust_fundamentals.Lsm.Encoding.Reads.{>>=-eq-some, same_record}
use rust_fundamentals.Lsm.Crc.{crc32}
use rust_fundamentals.Lsm.Wal.{frame, next_frame, replay_loop, replay, log, FrameFits}
use rust_fundamentals.Lsm.Wal.Frames.{next_frame_whole, length-frame}

-- A frame that is read ends inside the buffer, and takes eight bytes at least.
next_frame_advances :
    (buf : Bytes) (pos : ℕ) {r : Record} {next : ℕ}
    → next_frame buf pos ≡ some (r, next)
    → (pos + 8 ≤ next) × (next ≤ length buf)
unfolding next_frame
next_frame_advances buf pos h =
    let (header, _, h1) = >>=-eq-some (get_range buf pos (pos + 8)) _ h in
    let (payload, read, h2) =
      >>=-eq-some (get_range buf (pos + 8) (pos + 8 + from_le_bytes (take 4 (drop 4 header)))) _
        h1 in
    let ((rec, consumed), _, h3) =
      >>=-eq-some (if crc32 payload == from_le_bytes (take 4 header) then decode payload else none)
        _ h2 in
    let (_, fits, _) = get_range-some buf _ _ payload read in
    let (_, at_next) = same_record h3 in (omega (arith, at_next), omega (arith, at_next, fits))

replay_loop_total :
    (fuel : ℕ) (buf : Bytes) (pos : ℕ) (records : List Record)
    → pos ≤ length buf
    → length buf < pos + fuel
    → (rs : List Record) × (replay_loop fuel buf pos records ≡ some rs)
unfolding replay_loop
replay_loop_total zero buf pos records inside enough = absurd (omega arith)
replay_loop_total (suc fuel) buf pos records inside enough =
    elim (Option-cases (next_frame buf pos)) [
      | inl stop ↦ (records, rw (stop, replay_loop))
      | inr ((r, next), read) ↦
          let (ahead, fits) = next_frame_advances buf pos read in
          let (rs, e) =
            replay_loop_total fuel buf next (records ++ (r ∷ [])) fits (omega (arith, ahead)) in
          (rs, rw (read, replay_loop) e)
    ]

-- Replaying any file, or no file, ends: the fuel is enough, and no input is an error.
pub replay_total : (file : Option Bytes) → (rs : List Record) × (replay file ≡ some rs)
unfolding replay
replay_total none = ([], refl)
replay_total (some buf) = replay_loop_total (suc (length buf)) buf 0 [] (omega arith) (omega arith)

pub replay_loop_whole :
    (fuel : ℕ) {buf : Bytes} {pos : ℕ} (records : List Record) (r : Record) (rest : Bytes)
    → FrameFits r
    → At buf pos (frame r ++ rest)
    → replay_loop (suc fuel) buf pos records
      ≡ replay_loop fuel buf (pos + length (frame r)) (records ++ (r ∷ []))
unfolding replay_loop
replay_loop_whole fuel records r rest f a = rw (next_frame_whole r rest f a, replay_loop)

pub replay_loop_stop :
    (fuel : ℕ) (buf : Bytes) (pos : ℕ) (records : List Record)
    → next_frame buf pos ≡ none
    → replay_loop (suc fuel) buf pos records ≡ some records
unfolding replay_loop
replay_loop_stop fuel buf pos records stop = rw (stop, replay_loop)

replay_loop-log :
    (rs : List Record) (fuel : ℕ) (buf : Bytes) (pos : ℕ) (records : List Record) (tail : Bytes)
    → All FrameFits rs
    → At buf pos (log rs ++ tail)
    → length buf < pos + fuel
    → next_frame buf (pos + length (log rs)) ≡ none
    → replay_loop fuel buf pos records ≡ some (records ++ rs)
unfolding log
replay_loop-log rs zero buf pos records tail fits a enough stop =
    absurd (omega (arith, length-At (log rs ++ tail) a))
replay_loop-log [] (suc fuel) buf pos records tail fits a enough stop =
    replay_loop_stop fuel buf pos records
      (subst (λ (k : ℕ). next_frame buf k ≡ none) (omega arith) stop)
    ∙ ap some (sym (append-nil records))
replay_loop-log (r ∷ rs) (suc fuel) buf pos records tail (fit, fits) a enough stop =
    replay_loop_whole fuel records r (log rs ++ tail) fit a'
    ∙ replay_loop-log rs fuel buf (pos + length (frame r)) (records ++ (r ∷ [])) tail fits
        (At-skip (frame r) (log rs ++ tail) a' refl) (omega (arith, length-frame r))
        (subst (λ (k : ℕ). next_frame buf k ≡ none)
          (omega (arith, length-append (frame r) (log rs))) stop)
    ∙ ap some (append_assoc records (r ∷ []) rs)
  where
    a' : At buf pos (frame r ++ (log rs ++ tail))
    a' = subst (At buf pos) (append_assoc (frame r) (log rs) tail) a

-- Behind whole frames the replay stops at the first tail that is no good frame, with the records
-- before it.
pub replay_stops :
    (rs : List Record) (tail : Bytes)
    → All FrameFits rs
    → next_frame (log rs ++ tail) (length (log rs)) ≡ none
    → replay (some (log rs ++ tail)) ≡ some rs
unfolding replay
replay_stops rs tail fits stop =
    replay_loop-log rs (suc (length (log rs ++ tail))) (log rs ++ tail) 0 [] tail fits (At-start _)
      (omega arith) (subst (λ (k : ℕ). next_frame (log rs ++ tail) k ≡ none) (omega arith) stop)
