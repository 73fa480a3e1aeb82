-- ===== src/Heartbeat.antt =====
-- ARST_QUOTE/ARSTHeartbeat.cpp and ARSTHeartbeat.h: the idle timer that watches a connection.
-- `WaitForMultipleEvents` is a library's, so what it leaves in `nResult` and `nIndex` is the input
-- of a round; `Run` is a fold over these outcomes and its callbacks are its output.
pub mod Bounds
pub mod Silence
pub mod Blame
pub mod Quiet
use cta_alristrol_gallardo_v.Base.{
  ℕ, ◌+◌, Bool, true, false, not, ◌&&◌, List, [], ◌∷◌, ◌++◌, ℤ, pos, negsuc, eq_ℤ, ltb, leb,
  if◌then◌else◌,
}

-- Seconds by which a round without an event raises the idle time.
abbrev pub idle_increment : ℕ
idle_increment = 5

-- Seconds past the interval in which requests are still sent.
abbrev pub extra_grace : ℕ
extra_grace = 10

-- `WAIT_TIMEOUT` is `ETIMEDOUT`, 110 on Linux.
abbrev pub wait_timeout : ℤ
wait_timeout = pos 110

-- The texts that `OnHeartbeatError` is given.
pub data ErrorMessage : Type 0 where
  heartbeat_error_in_wait heartbeat_terminate heartbeat_unexpected_index_error : ErrorMessage

-- The interface `ARSTHeartbeatCallback`: which method is called, with its arguments.
pub data Callback : Type 0 where
  on_heartbeat_lost on_heartbeat_request : Callback
  on_heartbeat_error : ℤ → ErrorMessage → Callback

-- The timer's fields. `callback` tells whether the callback pointer is set. The idle time and the
-- interval are `int`s that the program never makes negative; no wrap-around is modelled.
pub record Heartbeat : Type 0 where
  pub time_interval : ℕ
  pub idle_time : ℕ
  pub callback : Bool

-- What one wait leaves in `nResult` and `nIndex`.
pub record Wait : Type 0 where
  pub result : ℤ
  pub index : ℤ

-- The timer after some rounds, the callbacks made on the way, and whether the thread still runs.
pub record Run : Type 0 where
  pub beat : Heartbeat
  pub calls : List Callback
  pub running : Bool

unfoldable pub new_heartbeat : Bool → Heartbeat
new_heartbeat callback = record { time_interval = 0; idle_time = 0; callback = callback }

unfoldable pub set_time_interval : Heartbeat → ℕ → Heartbeat
set_time_interval h n = record h { time_interval = n }

go_on : Heartbeat → List Callback → Run
go_on h calls = record { beat = h; calls = calls; running = true }

stop : Heartbeat → List Callback → Run
stop h calls = record { beat = h; calls = calls; running = false }

-- The branch of `WAIT_TIMEOUT`.
on_timeout : Heartbeat → Run
unfolding go_on stop
on_timeout h =
    let h' = record h { idle_time = h.idle_time + idle_increment } in
    if ltb h'.idle_time h'.time_interval
    then go_on h' []
    else if leb h'.idle_time (h'.time_interval + extra_grace)
    then go_on h' (on_heartbeat_request ∷ [])
    else stop h' (on_heartbeat_lost ∷ [])

-- The `switch` on the index of the event.
on_event : Heartbeat → ℤ → Run
unfolding go_on stop
on_event h (pos i) =
    if eq_ℤ (pos i) (pos 0)
    then go_on (record h { idle_time = 0 }) []
    else if eq_ℤ (pos i) (pos 1)
    then stop h (on_heartbeat_error (pos 0) heartbeat_terminate ∷ [])
    else stop h (on_heartbeat_error (pos i) heartbeat_unexpected_index_error ∷ [])
on_event h (negsuc i) = stop h (on_heartbeat_error (negsuc i) heartbeat_unexpected_index_error ∷ [])

-- One round of the loop in `Run`.
unfoldable pub round : Heartbeat → Wait → Run
unfolding on_timeout on_event stop
round h w =
    if not (eq_ℤ w.result (pos 0)) && not (eq_ℤ w.result wait_timeout)
    then stop h (on_heartbeat_error (pos 0) heartbeat_error_in_wait ∷ [])
    else if eq_ℤ w.result wait_timeout
    then on_timeout h
    else on_event h w.index

-- What a round adds to the rest of a run.
abbrev after : Run → Run → Run
after s rest =
    if s.running
    then record { beat = rest.beat; calls = s.calls ++ rest.calls; running = rest.running }
    else s

-- `Run` over the outcomes of its waits; at the end of the list it waits for the next.
unfoldable pub run : Heartbeat → List Wait → Run
run h [] = record { beat = h; calls = []; running = h.callback }
run h (w ∷ ws) =
    let rest = run (round h w).beat ws in
    if h.callback then after (round h w) rest else record { beat = h; calls = []; running = false }

-- A wait that ended after five seconds with no event, one that found the reply event, and one
-- that found the terminate event.
abbrev pub silent : Wait
silent = record { result = wait_timeout; index = negsuc 0 }

abbrev pub reply : Wait
reply = record { result = pos 0; index = pos 0 }

abbrev pub terminate : Wait
terminate = record { result = pos 0; index = pos 1 }

-- A timer as its owners set it up: a callback, and an interval.
unfoldable pub watch : ℕ → Heartbeat
unfolding new_heartbeat set_time_interval
watch interval = set_time_interval (new_heartbeat true) interval
