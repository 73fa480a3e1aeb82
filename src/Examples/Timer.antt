-- ===== src/Examples/Timer.antt =====
-- The heartbeat of an exchange connection, which is watched at 60 seconds.
use cta_alristrol_gallardo_v.Base.{◌≡◌, refl, true, false, [], ◌∷◌, ◌++◌, arith, replicate}
use cta_alristrol_gallardo_v.Heartbeat.{
  on_heartbeat_request, on_heartbeat_lost, run, watch, silent, round,
}
use cta_alristrol_gallardo_v.Heartbeat.Silence.{silent_requests, silent_lost}

-- 70 silent seconds: requests after 60, 65 and 70.
silent_requests_example : run (watch 60) (replicate 14 silent) ≡ record {
  beat = record { time_interval = 60; idle_time = 70; callback = true };
  calls = replicate 3 on_heartbeat_request;
  running = true;
}
silent_requests_example = silent_requests 60 14 (omega arith) (omega arith)

silent_lost_example : run (watch 60) (replicate 20 silent) ≡ record {
  beat = record { time_interval = 60; idle_time = 75; callback = true };
  calls = replicate 3 on_heartbeat_request ++ on_heartbeat_lost ∷ [];
  running = false;
}
silent_lost_example = silent_lost 60 20 (omega arith) (omega arith)

-- At the interval itself a request is sent already.
at_interval : (run (watch 10) (silent ∷ silent ∷ [])).calls ≡ on_heartbeat_request ∷ []
unfolding run watch round
at_interval = refl
