-- ===== src/Examples/Beats.antt =====
-- A heartbeat request to a client without an EPID, at the second day of 2025.
use cta_alristrol_gallardo_v.Base.{ℕ, ◌+◌, ◌≤◌, ◌<◌, ◌≡◌, refl, [], ◌∷◌, ◌++◌, arith}
use cta_alristrol_gallardo_v.Text.{codes, decimal, decimal2}
use cta_alristrol_gallardo_v.Text.Clock.{Clock, IsClock}
use cta_alristrol_gallardo_v.Client.{Sent}
use cta_alristrol_gallardo_v.Client.Sending.{Outcome}
use cta_alristrol_gallardo_v.Client.Beat.{
  heartbeat_request_text, on_heartbeat_request, beaten, overflows, on_heartbeat_request_cases,
}
use cta_alristrol_gallardo_v.Examples.Sending.{alice, slow_send, slow_send-IsSend}

abbrev pub clock : Clock
clock = record { tm_year = 125; tm_mon = 0; tm_mday = 2; tm_hour = 9; tm_min = 30; tm_sec = 15 }

pub clock-IsClock : IsClock clock
clock-IsClock = record {
  year = omega arith;
  mon = omega arith;
  mday = omega arith;
  hour = omega arith;
  min = omega arith;
  sec = omega arith;
}

on_heartbeat_request_cases_example :
    (0 ≤ 76
      → (s : Sent ℕ) × (on_heartbeat_request slow_send alice clock 99
          ≡ beaten (record s { client = record s.client { replies = s.client.replies + 1 } }))
        × Outcome alice (heartbeat_request_text clock []) s)
    × (76 < 0 → on_heartbeat_request slow_send alice clock 99 ≡ overflows)
on_heartbeat_request_cases_example =
    on_heartbeat_request_cases slow_send alice clock 99 slow_send-IsSend clock-IsClock

clock_text :
    heartbeat_request_text clock (65 ∷ [])
    ≡ codes "03_ServerDate=20250102,ServerTime=09301500,EPID=A," ++ 13 ∷ 10 ∷ []
unfolding heartbeat_request_text decimal decimal2
clock_text = refl
