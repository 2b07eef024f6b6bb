-- ===== src/Fsm/TrafficLight.antt =====
-- 02-ownership-types-traits/src/traffic_light.rs and observer.rs. Shared observers live in a heap
-- of cells; a cell that is borrowed panics when the light borrows it. An operation gives the light
-- and the heap that it leaves, and whether it came to its end.
pub mod Observed
use rust_fundamentals.Base.{
  ℕ, zero, suc, Bool, true, false, Option, none, some, List, [], ◌∷◌, ◌++◌, ◌==◌, if◌then◌else◌,
}
use rust_fundamentals.Base.Bytes.{Bytes}

-- The types that implement `State`.
pub data State : Type 0 where
  red : State
  green : State
  yellow : State

abbrev pub name : State → Bytes
name red = b'R' ∷ b'e' ∷ b'd' ∷ []
name green = b'G' ∷ b'r' ∷ b'e' ∷ b'e' ∷ b'n' ∷ []
name yellow = b'Y' ∷ b'e' ∷ b'l' ∷ b'l' ∷ b'o' ∷ b'w' ∷ []

abbrev pub next : State → State
next red = green
next green = yellow
next yellow = red

pub record LogObserver : Type 0 where
  pub entries : List Bytes
  pub borrowed : Bool

abbrev pub Heap : Type 0
Heap = ℕ → LogObserver

unfoldable pub new_observer : LogObserver
new_observer = record { entries = []; borrowed = false }

-- `{from}->{to}`
abbrev pub entry : Bytes → Bytes → Bytes
entry from to = from ++ (b'-' ∷ b'>' ∷ to)

unfoldable pub on_transition : Bytes → Bytes → LogObserver → LogObserver
on_transition from to o = record o { entries = o.entries ++ (entry from to ∷ []) }

pub record TrafficLight : Type 0 where
  pub state : Option State
  pub observers : List ℕ

unfoldable pub new : TrafficLight
new = record { state = some red; observers = [] }

-- `none` is the panic of `expect`.
unfoldable pub current : TrafficLight → Option Bytes
current light = elim light.state [ none ↦ none | some s ↦ some (name s) ]

unfoldable pub subscribe : ℕ → TrafficLight → TrafficLight
subscribe observer light = record light { observers = light.observers ++ (observer ∷ []) }

-- One observer told; `borrow_mut` of a borrowed cell panics.
unfoldable pub notify : Bytes → Bytes → List ℕ → Heap → Heap × Bool
notify from to [] heap = (heap, true)
notify from to (observer ∷ rest) heap = elim (heap observer).borrowed [
  | true ↦ (heap, false)
  | false ↦
      notify from to rest (λ o. if observer == o then on_transition from to (heap o) else heap o)
]

-- The next state is in place before any observer is told.
unfoldable pub tick : TrafficLight → Heap → TrafficLight × Heap × Bool
tick light heap = elim light.state [
  | none ↦ (light, heap, false)
  | some s ↦
      let (heap', done) = notify (name s) (name (next s)) light.observers heap in
      (record light { state = some (next s) }, heap', done)
]
