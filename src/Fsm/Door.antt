-- ===== src/Fsm/Door.antt =====
-- 02-ownership-types-traits/src/door.rs: the state of a door is an index of its type, as the type
-- parameter is in the source.
use rust_fundamentals.Base.{
  ◌≡◌, ◌≢◌, ◌⊎◌, refl, sym, ap, ◌∙◌, inl, inr, Option, none, some, [], ◌∷◌, Bool-cases,
  if◌then◌else◌,
}
use rust_fundamentals.Base.Bytes.{Bytes}
use rust_fundamentals.Base.Map.{key_eq}
use rust_fundamentals.Base.Map.Laws.{eq_of_key_eq, ne_of_key_eq}

pub data Lock : Type 0 where
  locked : Lock
  unlocked : Lock

pub record Door (state : Lock) : Type 0 where
  pub key : Bytes

-- `skeleton`
abbrev pub expected_key : Bytes
expected_key = b's' ∷ b'k' ∷ b'e' ∷ b'l' ∷ b'e' ∷ b't' ∷ b'o' ∷ b'n' ∷ []

unfoldable pub new : Door locked
new = record { key = expected_key }

-- `Ok` with the unlocked door, or `Err` with the door as it was.
unfoldable pub unlock : Bytes → Door locked → Door unlocked ⊎ Door locked
unlock key door = if key_eq key door.key then inl (record { key = door.key }) else inr door

-- What opening prints: `creak…`, in UTF-8, and a newline.
unfoldable pub open_door : Door unlocked → Bytes
open_door door = b'c' ∷ b'r' ∷ b'e' ∷ b'a' ∷ b'k' ∷ 0xe2 ∷ 0x80 ∷ 0xa6 ∷ 10 ∷ []

unfoldable pub lock : Door unlocked → Door locked
lock door = record { key = door.key }

-- The calls by which a program can come to a door.
pub data History : (state : Lock) → Door state → Type 0 where
  made : History locked new
  passed :
      {d : Door locked} {d' : Door unlocked} (key : Bytes)
      → History locked d
      → unlock key d ≡ inl d'
      → History unlocked d'
  refused :
      {d d' : Door locked} (key : Bytes)
      → History locked d
      → unlock key d ≡ inr d'
      → History locked d'
  shut : {d : Door unlocked} → History unlocked d → History locked (lock d)

-- The key of the unlocking that no locking has followed.
unfoldable pub key_in_use : {state : Lock} {d : Door state} → History state d → Option Bytes
key_in_use made = none
key_in_use (passed key h e) = some key
key_in_use (refused key h e) = none
key_in_use (shut h) = none

inl_key :
    (d d' : Door unlocked) → ◌≡◌ {A = Door unlocked ⊎ Door locked} (inl d) (inl d') → d.key ≡ d'.key
inl_key d d' e = cc e

inr_key :
    (d d' : Door locked) → ◌≡◌ {A = Door unlocked ⊎ Door locked} (inr d) (inr d') → d.key ≡ d'.key
inr_key d d' e = cc e

History-key : {state : Lock} {d : Door state} → History state d → d.key ≡ expected_key
unfolding new unlock lock
History-key made = refl
History-key (passed {d} {d'} key h e) = elim (Bool-cases (key_eq key d.key)) [
  | inl right ↦ sym (inl_key (record { key = d.key }) d' (rw (right, unlock) at e)) ∙ History-key h
  | inr wrong ↦ absurd (cc (rw (wrong, unlock) at e))
]
History-key (refused {d} {d'} key h e) = elim (Bool-cases (key_eq key d.key)) [
  | inl right ↦ absurd (cc (rw (right, unlock) at e))
  | inr wrong ↦ sym (inr_key d d' (rw (wrong, unlock) at e)) ∙ History-key h
]
History-key (shut h) = History-key h

unlock_right :
    (key : Bytes) (d : Door locked) (d' : Door unlocked) → unlock key d ≡ inl d' → key ≡ d.key
unfolding unlock
unlock_right key d d' e = elim (Bool-cases (key_eq key d.key)) [
  | inl right ↦ eq_of_key_eq key d.key right
  | inr wrong ↦ absurd (cc (rw (wrong, unlock) at e))
]

-- However a program came to a door that it can open, the door was unlocked with the expected key,
-- and it has not been locked since.
pub History-unlocked :
    (d : Door unlocked) (h : History unlocked d) → key_in_use h ≡ some expected_key
unfolding key_in_use
History-unlocked d (passed {d = d0} key h e) = ap some (unlock_right key d0 d e ∙ History-key h)

-- However a program came to a locked door, the expected key unlocks it, and every other key gives
-- it back as it was.
pub History-locked :
    (d : Door locked) (h : History locked d) (key : Bytes)
    → ((key ≡ expected_key) × (unlock key d ≡ inl (record { key = expected_key })))
      ⊎ ((key ≢ expected_key) × (unlock key d ≡ inr d))
unfolding unlock
History-locked d h key = elim (Bool-cases (key_eq key d.key)) [
  | inl right ↦
      inl (eq_of_key_eq key d.key right ∙ History-key h, rw (right, unlock) (cc (History-key h)))
  | inr wrong ↦
      inr (λ e. ne_of_key_eq key d.key wrong (e ∙ sym (History-key h)), rw (wrong, unlock))
]
