-- ===== src/Heartbeat/Bounds.antt =====
-- The idle time of ARST_QUOTE/ARSTHeartbeat.cpp stays near the interval, and the loop ends with
-- the first callback that is no request.
use cta_alristrol_gallardo_v.Base.{
  ℕ, suc, ◌+◌, ◌≤◌, ◌≡◌, refl, ap, ◌∙◌, ◌≢◌, ◌⊎◌, inl, inr, Bool, true, false, List, [], ◌∷◌, ◌++◌,
  arith, replicate,
}
use cta_alristrol_gallardo_v.Heartbeat.{
  Heartbeat, Wait, Callback, on_heartbeat_request, round, run, watch,
}

-- A timer whose loop runs on has not passed the grace time.
abbrev pub IsWithin : Heartbeat → Type 0
IsWithin h = h.idle_time ≤ h.time_interval + 10

round-IsWithin :
    (h : Heartbeat) (w : Wait)
    → IsWithin h
    → ((round h w).running ≡ false) ⊎ IsWithin (round h w).beat
unfolding round
round-IsWithin h w v = ground arith

round_bounds :
    (h : Heartbeat) (w : Wait)
    → IsWithin h
    → ((round h w).beat.idle_time ≤ h.time_interval + 15)
      × ((round h w).beat.time_interval ≡ h.time_interval)
      × ((round h w).beat.callback ≡ h.callback)
unfolding round
round_bounds h w v = ground arith

run_bounds :
    (h : Heartbeat) (ws : List Wait) → IsWithin h → (run h ws).beat.idle_time ≤ h.time_interval + 15
unfolding run
run_bounds h [] v = omega arith
run_bounds h (w ∷ ws) v =
    ground (arith, round-IsWithin h w v, round_bounds h w v, run_bounds (round h w).beat ws)

-- Whatever the waits of a timer that was set to `interval` return, its idle time never passes
-- the interval by more than 15 seconds.
pub run-idle_bounded :
    (interval : ℕ) (ws : List Wait) → (run (watch interval) ws).beat.idle_time ≤ interval + 15
unfolding watch
run-idle_bounded interval ws = run_bounds (watch interval) ws (omega arith)

-- The list is a row of requests, behind which stands one callback of another kind if the timer
-- has stopped.
pub data Trace : Bool → List Callback → Type 0 where
  alive : (n : ℕ) (cs : List Callback) → cs ≡ replicate n on_heartbeat_request → Trace true cs
  ended :
      (n : ℕ) (c : Callback) (cs : List Callback)
      → c ≢ on_heartbeat_request
      → cs ≡ replicate n on_heartbeat_request ++ c ∷ []
      → Trace false cs

-- How a round can go.
round_cases :
    (h : Heartbeat) (w : Wait)
    → ((round h w).running ≡ true)
        × ((round h w).beat.callback ≡ h.callback)
        × (((round h w).calls ≡ []) ⊎ ((round h w).calls ≡ on_heartbeat_request ∷ []))
      ⊎ ((round h w).running ≡ false)
        × ((c : Callback) × (c ≢ on_heartbeat_request) × ((round h w).calls ≡ c ∷ []))
unfolding round
round_cases h w = ground arith

Trace-cons : {b : Bool} {cs : List Callback} → Trace b cs → Trace b (on_heartbeat_request ∷ cs)
Trace-cons (alive n cs e) = alive (suc n) _ (ap (λ ds. on_heartbeat_request ∷ ds) e)
Trace-cons (ended n c cs d e) = ended (suc n) c _ d (ap (λ ds. on_heartbeat_request ∷ ds) e)

run-Trace_from :
    (h : Heartbeat) (ws : List Wait) → h.callback ≡ true → Trace (run h ws).running (run h ws).calls
unfolding run
run-Trace_from h [] e = rw e (alive 0 [] refl)
run-Trace_from h (w ∷ ws) e = elim (round_cases h w) [
  | inl (up, same, inl none') ↦ simp (e, up, none') (run-Trace_from (round h w).beat ws (same ∙ e))
  | inl (up, same, inr one) ↦
      simp (e, up, one) (Trace-cons (run-Trace_from (round h w).beat ws (same ∙ e)))
  | inr (down, (c, d, one)) ↦ simp (e, down, one) (ended 0 c (c ∷ []) d refl)
]

-- Whatever the waits return, the callbacks of a timer are a row of requests; exactly if its thread
-- has stopped, one callback of another kind follows them, and it is the last.
pub run-Trace :
    (interval : ℕ) (ws : List Wait)
    → Trace (run (watch interval) ws).running (run (watch interval) ws).calls
unfolding watch
run-Trace interval ws = run-Trace_from (watch interval) ws refl
