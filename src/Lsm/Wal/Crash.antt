-- ===== src/Lsm/Wal/Crash.antt =====
-- What a crash leaves of the log, and what is replayed from it.
use rust_fundamentals.Base.{
  ℕ, zero, suc, ◌+◌, ◌-◌, ◌≤◌, ◌<◌, ◌≡◌, refl, sym, ap, ◌∙◌, some, List, [], ◌∷◌, ◌++◌, length,
  take, append_assoc, append-nil, arith, length-append, All, subst, leb, if◌then◌else◌, Bool-cases,
  inl, inr, le→leb, leb→le, leb→gt, take-append_ge, take-append_le,
}
use rust_fundamentals.Base.Bytes.{Bytes, At, At-start, At-skip, length-At}
use rust_fundamentals.Lsm.Encoding.{Record}
use rust_fundamentals.Lsm.Wal.{Wal, frame, replay_loop, replay, log, FrameFits}
use rust_fundamentals.Lsm.Wal.Frames.{next_frame_torn, next_frame_short, length-frame}
use rust_fundamentals.Lsm.Wal.Replay.{replay_loop_whole, replay_loop_stop}

-- The records whose frames lie within the first `n` bytes of the log.
unfoldable pub intact : ℕ → List Record → List Record
intact n [] = []
intact n (r ∷ rs) =
    let rest = intact (n - length (frame r)) rs in if leb (length (frame r)) n then r ∷ rest else []

short : (n : ℕ) → length (take {A = ℕ} n []) < 8
short zero = omega arith
short (suc n) = omega arith

replay_loop_cut :
    (rs : List Record) (n fuel : ℕ) (buf : Bytes) (pos : ℕ) (records : List Record)
    → All FrameFits rs
    → At buf pos (take n (log rs))
    → length buf < pos + fuel
    → replay_loop fuel buf pos records ≡ some (records ++ intact n rs)
unfolding log intact
replay_loop_cut rs n zero buf pos records fits a enough =
    absurd (omega (arith, length-At (take n (log rs)) a))
replay_loop_cut [] n (suc fuel) buf pos records fits a enough =
    replay_loop_stop fuel buf pos records (next_frame_short (take n []) (short n) a)
    ∙ ap some (sym (append-nil records))
replay_loop_cut (r ∷ rs) n (suc fuel) buf pos records (fit, fits) a enough =
    elim (Bool-cases (leb (length (frame r)) n)) [
      | inl whole ↦ rw whole (
          replay_loop_whole fuel records r (take (n - length (frame r)) (log rs)) fit
            (subst (At buf pos) (take-append_ge (frame r) (log rs) n (leb→le _ _ whole)) a)
          ∙ replay_loop_cut rs (n - length (frame r)) fuel buf (pos + length (frame r))
              (records ++ (r ∷ [])) fits
              (At-skip (frame r) _
                (subst (At buf pos) (take-append_ge (frame r) (log rs) n (leb→le _ _ whole)) a)
                refl)
              (omega (arith, length-frame r))
          ∙ ap some (append_assoc records (r ∷ []) _))
      | inr torn ↦ rw torn (
          replay_loop_stop fuel buf pos records (
            next_frame_torn r n fit (leb→gt _ _ torn) (
              subst (At buf pos)
                (take-append_le n (frame r) (log rs) (omega (arith, leb→gt _ _ torn))) a))
          ∙ ap some (sym (append-nil records)))
    ]

-- A log cut at any byte replays to the records whose frames are whole, in their order.
pub replay_cut :
    (rs : List Record) (n : ℕ)
    → All FrameFits rs
    → replay (some (take n (log rs))) ≡ some (intact n rs)
unfolding replay
replay_cut rs n fits = replay_loop_cut rs n _ (take n (log rs)) 0 [] fits (At-start _) (omega arith)

pub log-append : (rs more : List Record) → log (rs ++ more) ≡ log rs ++ log more
unfolding log
log-append [] more = refl
log-append (r ∷ rs) more =
    ap (λ (t : Bytes). frame r ++ t) (log-append rs more) ∙ sym (append_assoc (frame r) _ _)

intact-append :
    (rs more : List Record) (n : ℕ)
    → length (log rs) ≤ n
    → intact n (rs ++ more) ≡ rs ++ intact (n - length (log rs)) more
unfolding log intact
intact-append [] more n h = ap (λ (k : ℕ). intact k more) (omega arith)
intact-append (r ∷ rs) more n h =
    rw (le→leb (length (frame r)) n (omega (arith, length-append (frame r) (log rs)))) (
      ap (λ (t : List Record). r ∷ t)
        (intact-append rs more (n - length (frame r))
            (omega (arith, length-append (frame r) (log rs)))
          ∙ ap (λ (k : ℕ). rs ++ intact k more) (omega (arith, length-append (frame r) (log rs)))))

-- The whole frames are the first ones.
intact-take : (n : ℕ) (rs : List Record) → intact n rs ≡ take (length (intact n rs)) rs
unfolding intact
intact-take n [] = refl
intact-take n (r ∷ rs) = elim (Bool-cases (leb (length (frame r)) n)) [
  | inl whole ↦ rw whole (ap (λ (t : List Record). r ∷ t) (intact-take (n - length (frame r)) rs))
  | inr torn ↦ rw torn
]

-- What a power cut can leave of the file: everything synced, and any part of the rest.
pub data Leaves (w : Wal) : Bytes → Type 0 where
  cut : (n : ℕ) → w.synced ≤ n → Leaves w (take n w.file)

-- Take a log whose first records are synced. Whatever a crash leaves of it replays to those records,
-- all of them, followed by a first part of the others.
pub crash_keeps_synced :
    (w : Wal) (acked others : List Record) {left : Bytes}
    → All FrameFits (acked ++ others)
    → w.file ≡ log (acked ++ others)
    → w.synced ≡ length (log acked)
    → Leaves w left
    → (m : ℕ) × (replay (some left) ≡ some (acked ++ take m others))
crash_keeps_synced w acked others fits whole synced (cut n h) =
    let kept = intact (n - length (log acked)) others in
    (
      length kept,
      ap (λ (t : Bytes). replay (some (take n t))) whole
          ∙ replay_cut (acked ++ others) n fits
          ∙ ap some (
              intact-append acked others n (omega (arith, synced, h))
              ∙ ap (λ (t : List Record). acked ++ t) (intact-take (n - length (log acked)) others)),
    )
