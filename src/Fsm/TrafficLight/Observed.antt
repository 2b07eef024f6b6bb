-- ===== src/Fsm/TrafficLight/Observed.antt =====
-- What the observers of 02-ownership-types-traits/src/traffic_light.rs see.
use rust_fundamentals.Base.{
  ℕ, zero, suc, ◌≡◌, refl, sym, ap, ◌∙◌, inl, inr, Bool, true, false, some, List, [], ◌∷◌, ◌++◌,
  append-nil, append_assoc, replicate, All, ◌==◌, Bool-cases, if◌then◌else◌,
}
use rust_fundamentals.Base.Bytes.{Bytes}
use rust_fundamentals.Fsm.TrafficLight.{
  State, name, next, LogObserver, Heap, entry, on_transition, TrafficLight, notify, tick,
}

-- How often an observer is subscribed.
unfoldable pub times : ℕ → List ℕ → ℕ
times o [] = 0
times o (p ∷ ps) = let rest = times o ps in if p == o then suc rest else rest

-- No observer is borrowed elsewhere.
abbrev pub Idle : List ℕ → Heap → Type 0
Idle observers heap = All (λ o. (heap o).borrowed ≡ false) observers

abbrev told : LogObserver → List Bytes → LogObserver
told o more = record o { entries = o.entries ++ more }

Idle-told :
    (observers : List ℕ) (heap heap' : Heap)
    → ((o : ℕ) → (heap' o).borrowed ≡ (heap o).borrowed)
    → Idle observers heap
    → Idle observers heap'
Idle-told [] heap heap' same idle = tt
Idle-told (o ∷ os) heap heap' same (free, idle) = (same o ∙ free, Idle-told os heap heap' same idle)

-- The heap after one observer is told.
abbrev one_told : Bytes → Bytes → ℕ → Heap → Heap
one_told from to p heap o = if p == o then on_transition from to (heap o) else heap o

one_told-borrowed :
    (from to : Bytes) (p : ℕ) (heap : Heap) (o : ℕ)
    → (one_told from to p heap o).borrowed ≡ (heap o).borrowed
unfolding on_transition
one_told-borrowed from to p heap o = elim (Bool-cases (p == o)) [
  | inl same ↦ rw same
  | inr other ↦ rw other
]

told_twice :
    (from to : Bytes) (o : LogObserver) (more : List Bytes)
    → told (on_transition from to o) more ≡ told o (entry from to ∷ more)
unfolding on_transition
told_twice from to o more =
    ap (λ es. record o { entries = es }) (append_assoc o.entries (entry from to ∷ []) more)

notify-told :
    (from to : Bytes) (observers : List ℕ) (heap : Heap)
    → Idle observers heap
    → ((notify from to observers heap).1 ≡ true)
      × ((o : ℕ)
          → (notify from to observers heap).0 o
            ≡ told (heap o) (replicate (times o observers) (entry from to)))
unfolding notify times
notify-told from to [] heap idle =
    (refl, λ o. ap (λ es. record (heap o) { entries = es }) (sym (append-nil (heap o).entries)))
notify-told from to (p ∷ ps) heap (free, idle) =
    let heap' = one_told from to p heap in
    let (done, seen) =
      notify-told from to ps heap'
        (Idle-told ps heap heap' (one_told-borrowed from to p heap) idle) in
    rw (free, notify)
      (
        done,
        λ o. seen o ∙ elim (Bool-cases (p == o)) [
          | inl same ↦
              rw same (told_twice from to (heap o) (replicate (times o ps) (entry from to)))
          | inr other ↦ rw other
        ],
      )

-- `n` ticks, with the heap and whether all came to their end.
abbrev pub ticks : ℕ → TrafficLight → Heap → TrafficLight × Heap × Bool
ticks zero light heap = (light, heap, true)
ticks (suc n) light heap =
    let (light', heap', done) = tick light heap in
    if done then ticks n light' heap' else (light', heap', false)

-- The state after `n` steps, and the entries of an observer that is told `times` times of each.
abbrev pub state_after : ℕ → State → State
state_after zero s = s
state_after (suc n) s = state_after n (next s)

abbrev pub log_of : ℕ → State → ℕ → List Bytes
log_of zero s copies = []
log_of (suc n) s copies =
    replicate copies (entry (name s) (name (next s))) ++ log_of n (next s) copies

tick-told :
    (light : TrafficLight) (heap : Heap) (s : State)
    → light.state ≡ some s
    → Idle light.observers heap
    → (heap' : Heap) × (tick light heap ≡ (record light { state = some (next s) }, heap', true))
      × ((o : ℕ)
          → heap' o
            ≡ told (heap o) (replicate (times o light.observers) (entry (name s) (name (next s)))))
unfolding tick
tick-told light heap s e idle =
    let (done, seen) = notify-told (name s) (name (next s)) light.observers heap idle in
    ((notify (name s) (name (next s)) light.observers heap).0, rw (e, tick) (cc done), seen)

-- Ticks of a light none of whose observers is borrowed elsewhere come to their end and step through
-- the states; the light keeps its observers, and each observer's log grows by an entry for each
-- transition, in their order, as often as the observer is subscribed, which for one that is not is
-- never.
pub ticks-told :
    (n : ℕ) (light : TrafficLight) (heap : Heap) (s : State)
    → light.state ≡ some s
    → Idle light.observers heap
    → (heap' : Heap) × (ticks n light heap
        ≡ (record light { state = some (state_after n s) }, heap', true))
      × ((o : ℕ) → (heap' o).entries ≡ (heap o).entries ++ log_of n s (times o light.observers))
ticks-told zero light heap s e idle = (heap, cc e, λ o. sym (append-nil (heap o).entries))
ticks-told (suc n) light heap s e idle =
    let (heap1, first, seen) = tick-told light heap s e idle in
    let light1 : TrafficLight = record light { state = some (next s) } in
    let (heap2, later, grown) = ticks-told n light1 heap1 (next s) refl (
      Idle-told light.observers heap heap1 (λ o. ap (λ (x : LogObserver). x.borrowed) (seen o))
        idle) in
    (
      heap2,
      rw first later,
      λ o.
          grown o
          ∙ ap (λ (x : LogObserver). x.entries ++ log_of n (next s) (times o light.observers))
              (seen o)
          ∙ append_assoc (heap o).entries
              (replicate (times o light.observers) (entry (name s) (name (next s))))
              (log_of n (next s) (times o light.observers)),
    )

-- Observers before the first one that is borrowed.
notify_borrowed :
    (from to : Bytes) (before after : List ℕ) (p : ℕ) (heap : Heap)
    → Idle before heap
    → (heap p).borrowed ≡ true
    → ((notify from to (before ++ (p ∷ after)) heap).1 ≡ false)
      × ((o : ℕ)
          → (notify from to (before ++ (p ∷ after)) heap).0 o
            ≡ told (heap o) (replicate (times o before) (entry from to)))
unfolding notify times
notify_borrowed from to [] after p heap idle taken =
    rw (taken, notify)
      (refl, λ o. ap (λ es. record (heap o) { entries = es }) (sym (append-nil (heap o).entries)))
notify_borrowed from to (q ∷ qs) after p heap (free, idle) taken =
    let heap' = one_told from to q heap in
    let (failed, seen) =
      notify_borrowed from to qs after p heap'
        (Idle-told qs heap heap' (one_told-borrowed from to q heap) idle)
        (one_told-borrowed from to q heap p ∙ taken) in
    rw (free, notify)
      (
        failed,
        λ o. seen o ∙ elim (Bool-cases (q == o)) [
          | inl same ↦
              rw same (told_twice from to (heap o) (replicate (times o qs) (entry from to)))
          | inr other ↦ rw other
        ],
      )

-- A tick whose first borrowed observer is `p` panics; the light has stepped all the same, the
-- observers before `p` have their entries, and no other log has grown.
pub tick_borrowed :
    (before after : List ℕ) (p : ℕ) (heap : Heap) (s : State)
    → Idle before heap
    → (heap p).borrowed ≡ true
    → let light : TrafficLight = record { state = some s; observers = before ++ (p ∷ after) } in
      (heap' : Heap) × (tick light heap ≡ (record light { state = some (next s) }, heap', false))
      × ((o : ℕ)
          → heap' o ≡ record (heap o) {
            entries =
                (heap o).entries ++ replicate (times o before) (entry (name s) (name (next s)));
          })
unfolding tick
tick_borrowed before after p heap s idle taken =
    let (failed, seen) = notify_borrowed (name s) (name (next s)) before after p heap idle taken in
    ((notify (name s) (name (next s)) (before ++ (p ∷ after)) heap).0, cc failed, seen)
