-- ===== src/Events.antt =====
-- The events of a third-party library that ARST_QUOTE/ARSTHeartbeat.cpp and ARST_QUOTE/ARSTRequest.cpp
-- use: `CreateEvent(0, 0)` twice, `SetEvent`, and `WaitForMultipleEvents` for either of both. They
-- are functions over the state of the library.
use cta_alristrol_gallardo_v.Base.{ℕ, ◌<◌, ◌≡◌, ◌≢◌, Bool, true, false, List, [], ◌∷◌, ◌==◌, pos}
use cta_alristrol_gallardo_v.Heartbeat.{Wait}

pub record Events (E : Type 0) : Type 0 where
  pub create_events : E
  pub set_event : ℕ → E → E
  pub wait_for_multiple_events : E → Wait × E

-- The wait that found the event of this index.
abbrev pub found : ℕ → Wait
found i = record { result = pos 0; index = pos i }

-- Documented of events that reset themselves: such an event is set until a wait finds it. A wait
-- finds one of the two that is set and resets it, and finds nothing where none is.
pub record IsAutoReset {E : Type 0} (ev : Events E) (set : ℕ → E → Bool) : Type 0 where
  pub unset : (i : ℕ) → set i ev.create_events ≡ false
  pub sets : (i : ℕ) (e : E) → set i (ev.set_event i e) ≡ true
  pub keeps : (i j : ℕ) (e : E) → (i == j) ≡ false → set j (ev.set_event i e) ≡ set j e
  pub finds :
      (i : ℕ) (e : E)
      → i < 2
      → set i e ≡ true
      → (j : ℕ) × (j < 2)
        × (set j e ≡ true)
        × ((ev.wait_for_multiple_events e).0 ≡ found j)
        × (set j (ev.wait_for_multiple_events e).1 ≡ false)
        × ((m : ℕ) → (m == j) ≡ false → set m (ev.wait_for_multiple_events e).1 ≡ set m e)
  pub idles :
      (e : E)
      → set 0 e ≡ false
      → set 1 e ≡ false
      → ((ev.wait_for_multiple_events e).0.result ≢ pos 0)
        × ((m : ℕ) → set m (ev.wait_for_multiple_events e).1 ≡ set m e)

-- What the threads do with the two events: one of them is set, or a wait for both returns.
pub data Act : Type 0 where
  sets_first sets_second waits : Act

module _ {E : Type 0} (ev : Events E) where
  -- The outcomes of the waits.
  unfoldable pub waits_of : List Act → E → List Wait
  waits_of [] e = []
  waits_of (sets_first ∷ as') e = waits_of as' (ev.set_event 0 e)
  waits_of (sets_second ∷ as') e = waits_of as' (ev.set_event 1 e)
  waits_of (waits ∷ as') e = let (w, e') = ev.wait_for_multiple_events e in w ∷ waits_of as' e'
