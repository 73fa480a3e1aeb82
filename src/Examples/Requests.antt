-- ===== src/Examples/Requests.antt =====
-- A dispatcher that is woken twice, with a failed wait between, and then ended.
use cta_alristrol_gallardo_v.Base.{ℕ, ◌≡◌, refl, true, List, [], ◌∷◌, pos, negsuc}
use cta_alristrol_gallardo_v.Heartbeat.{Wait}
use cta_alristrol_gallardo_v.Request.{
  on_request, on_request_error, run, request_error_in_wait, terminate_request,
}

abbrev found : ℕ → Wait
found i = record { result = pos 0; index = pos i }

abbrev waits : List Wait
waits = found 0 ∷ record { result = pos 22; index = negsuc 0 } ∷ found 0 ∷ found 1 ∷ found 0 ∷ []

waits_passed :
    (run true waits).calls
    ≡ on_request
      ∷ on_request_error (pos 22) request_error_in_wait
      ∷ on_request
      ∷ on_request_error (pos 0) terminate_request
      ∷ []
unfolding run
waits_passed = refl
