-- ===== src/Fsm/Tests.antt =====
-- The theorems on the state machines at concrete inputs.
use rust_fundamentals.Base.{ℕ, ◌≡◌, refl, inl, true, false, some, [], ◌∷◌, ◌++◌, replicate, ◌==◌}
use rust_fundamentals.Base.Order.{cmp}
use rust_fundamentals.Base.Map.{key_eq}
use rust_fundamentals.Fsm.Door.{
  Lock, locked, unlocked, Door, expected_key, unlock, History, made, passed, key_in_use,
  History-unlocked,
}
use rust_fundamentals.Fsm.Door
use rust_fundamentals.Fsm.TrafficLight.{red, green, yellow, name, Heap, entry, TrafficLight, tick}
use rust_fundamentals.Fsm.TrafficLight.Observed.{times, ticks, log_of, ticks-told, tick_borrowed}

abbrev opened : Door unlocked
opened = record { key = expected_key }

passes : unlock expected_key Door.new ≡ inl opened
unfolding unlock Door.new key_eq cmp
passes = refl

abbrev once_unlocked : History unlocked opened
once_unlocked = passed expected_key made passes

History-unlocked_example : key_in_use once_unlocked ≡ some expected_key
History-unlocked_example = History-unlocked opened once_unlocked

-- Observer 3 is subscribed twice, and nobody else.
abbrev light : TrafficLight
light = record { state = some red; observers = 3 ∷ 3 ∷ [] }

abbrev fresh : Heap
fresh o = record { entries = []; borrowed = false }

ticks-told_example :
    (heap' : Heap) × (ticks 4 light fresh ≡ (record light { state = some green }, heap', true))
    × ((o : ℕ) → (heap' o).entries ≡ [] ++ log_of 4 red (times o (3 ∷ 3 ∷ [])))
ticks-told_example = ticks-told 4 light fresh red refl (refl, (refl, tt))

-- Observer 5 is borrowed, behind observer 3.
abbrev taken : Heap
taken o = record { entries = []; borrowed = o == 5 }

tick_borrowed_example :
    (heap' : Heap) × (tick (record { state = some yellow; observers = 3 ∷ 5 ∷ 3 ∷ [] }) taken
      ≡ (record { state = some red; observers = 3 ∷ 5 ∷ 3 ∷ [] }, heap', false))
    × ((o : ℕ)
        → heap' o ≡ record (taken o) {
          entries = [] ++ replicate (times o (3 ∷ [])) (entry (name yellow) (name red));
        })
tick_borrowed_example = tick_borrowed (3 ∷ []) (3 ∷ []) 5 taken yellow (refl, tt) refl
