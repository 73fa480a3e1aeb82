-- ===== src/Request.antt =====
-- ARST_QUOTE/ARSTRequest.cpp: the thread that passes requests to its owner (`ARSTRequest::Run`), over
-- the outcomes of its waits for two events, of which the first wakes it and the second ends it.
pub mod Triggers
pub mod Wakes
use cta_alristrol_gallardo_v.Base.{
  ◌+◌, Bool, true, false, not, List, [], ◌∷◌, ◌++◌, if◌then◌else◌, ℤ, pos, eq_ℤ,
}
use cta_alristrol_gallardo_v.Heartbeat.{Wait, wait_timeout}

-- The texts that `OnRequestError` is given.
pub data RequestError : Type 0 where
  request_wait_timeout_error request_error_in_wait terminate_request : RequestError
  request_unexpected_index_error : RequestError

-- The interface `ARSTRequestCallback`: which method is called, with its arguments.
pub data RequestCallback : Type 0 where
  on_request : RequestCallback
  on_request_error : ℤ → RequestError → RequestCallback

-- The callbacks that were made, and whether the thread still runs.
pub record Dispatch : Type 0 where
  pub calls : List RequestCallback
  pub running : Bool

go_on : RequestCallback → Dispatch
go_on c = record { calls = c ∷ []; running = true }

-- One turn of the loop.
unfoldable pub round : Wait → Dispatch
unfolding go_on
round w =
    if eq_ℤ w.result wait_timeout
    then go_on (on_request_error (pos 0) request_wait_timeout_error)
    else if not (eq_ℤ w.result (pos 0))
    then go_on (on_request_error w.result request_error_in_wait)
    else if eq_ℤ w.index (pos 0)
    then go_on on_request
    else if eq_ℤ w.index (pos 1)
    then record { calls = on_request_error (pos 0) terminate_request ∷ []; running = false }
    else go_on (on_request_error w.index request_unexpected_index_error)

-- `Run` over the outcomes of its waits; `callback` tells whether the callback pointer is set.
unfoldable pub run : (callback : Bool) → List Wait → Dispatch
unfolding round
run callback [] = record { calls = []; running = callback }
run callback (w ∷ ws) =
    let rest = run callback ws in
    let s = round w in
    if callback
    then if s.running then record { calls = s.calls ++ rest.calls; running = rest.running } else s
    else record { calls = []; running = false }
