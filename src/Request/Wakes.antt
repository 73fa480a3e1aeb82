-- ===== src/Request/Wakes.antt =====
-- What ARST_QUOTE/ARSTRequest.cpp passes on: each wake-up before the end, once, whatever fails.
use cta_alristrol_gallardo_v.Base.{
  ℕ, suc, ◌≡◌, refl, Bool, true, false, not, ◌&&◌, ◌||◌, List, [], ◌∷◌, arith, if◌then◌else◌, ℤ,
  pos, eq_ℤ,
}
use cta_alristrol_gallardo_v.Heartbeat.{Wait}
use cta_alristrol_gallardo_v.Request.{RequestCallback, on_request, on_request_error, round, run}

-- A wait that found the event of this index.
abbrev pub finds : ℤ → Wait → Bool
finds i w = eq_ℤ w.result (pos 0) && eq_ℤ w.index i

-- The waits before the first that found the second event.
unfoldable pub before_end : List Wait → List Wait
before_end [] = []
before_end (w ∷ ws) = if finds (pos 1) w then [] else w ∷ before_end ws

-- How many of the waits found the first event.
unfoldable pub wakes : List Wait → ℕ
wakes [] = 0
wakes (w ∷ ws) = if finds (pos 0) w then suc (wakes ws) else wakes ws

unfoldable pub ends : List Wait → Bool
ends [] = false
ends (w ∷ ws) = finds (pos 1) w || ends ws

pub requests : List RequestCallback → ℕ
requests [] = 0
requests (on_request ∷ cs) = suc (requests cs)
requests (on_request_error n e ∷ cs) = requests cs

-- Over any waits of a dispatcher that has a callback: `OnRequest` is called once for each wake-up
-- that was found before the first terminate event, and not again; and the thread has ended exactly
-- if a terminate event was found, so that no error and no timeout ends it.
pub run-wakes :
    (ws : List Wait)
    → (requests (run true ws).calls ≡ wakes (before_end ws))
      × ((run true ws).running ≡ not (ends ws))
unfolding run round requests wakes before_end ends
run-wakes [] = (refl, refl)
run-wakes (w ∷ ws) = (ground (arith, run-wakes ws), ground (arith, run-wakes ws))
