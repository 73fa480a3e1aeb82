-- ===== src/Examples/Logs.antt =====
-- What the monitor is told, and what the log shows.
use cta_alristrol_gallardo_v.Base.{
  ℕ, ◌≤◌, ◌<◌, ◌≡◌, refl, none, some, List, [], ◌∷◌, arith, length, take, All, pos, negsuc,
}
use cta_alristrol_gallardo_v.Servers.Monitor.{
  varying, on_heartbeat_request, monitored, overflows, monitor_text, system_text,
  on_heartbeat_request-posts,
}
use cta_alristrol_gallardo_v.Text.{codes, decimal, decimal2}
use cta_alristrol_gallardo_v.Thread.{Counts}
use cta_alristrol_gallardo_v.QueueNode.{QueueNode}
use cta_alristrol_gallardo_v.ErrorLog.{
  TimeOfDay, Message, no_message, message_of, log_line, shown, shown_bytes, shown_byte,
}
use cta_alristrol_gallardo_v.ErrorLog.Printable.{IsPrintable, log_line-All}
use cta_alristrol_gallardo_v.Examples.Posts.{
  one_queue, in_queue, one_queue-IsFifo, one_queue-Accepts, node, node-SendsTo,
}
use cta_alristrol_gallardo_v.Examples.Beats.{clock, clock-IsClock}

abbrev threads : Counts
threads = record { current = 4; most = 7 }

abbrev host : List ℕ
host = codes "quote"

monitor_told :
    monitor_text host clock
    ≡ codes
        "{\"Type\":\"Heartbeat\",\"Component\":\"Quote\",\"Hostname\":\"quote\",\"ServerDate\":\"20250102\",\"ServerTime\":\"09301500\"}"
unfolding monitor_text decimal decimal2
monitor_told = refl

on_heartbeat_request-posts_example :
    (5 ≤ 25
      → (n' : QueueNode) × (k' : List (List ℕ)) × (on_heartbeat_request one_queue node host threads
            (codes "12")
            clock
            0
            []
          ≡ monitored n' k' 1)
        × (k' ≡ monitor_text host clock ∷ take 127 (system_text host threads (codes "12")) ∷ []))
    × (25 < 5
        → on_heartbeat_request one_queue node host threads (codes "12") clock 0 [] ≡ overflows)
    × (varying host threads (codes "12") ≤ 25
        → take 127 (system_text host threads (codes "12")) ≡ system_text host threads (codes "12"))
    × (25 < varying host threads (codes "12")
        → length (take 127 (system_text host threads (codes "12")))
          < length (system_text host threads (codes "12")))
on_heartbeat_request-posts_example =
    on_heartbeat_request-posts {held = in_queue} one_queue node (pos 3) host threads (codes "12")
      clock 0 [] one_queue-IsFifo one_queue-Accepts node-SendsTo clock-IsClock

abbrev at : TimeOfDay
at = record { tm_hour = 9; tm_min = 30; tm_sec = 15; tv_usec = 42 }

-- The text "A", an escape and a NUL.
abbrev raw : Message
raw = message_of (65 ∷ 27 ∷ 0 ∷ []) 3

escape_seen : shown raw ≡ some (codes "{A[0x1b][0]}")
unfolding shown shown_bytes shown_byte
escape_seen = refl

logged :
    log_line at (codes "ERR") (negsuc 0) (pos 0) none 0 raw no_message
    ≡ some (codes "[09:30:15'000042][ERR][-1,0]{A[0x1b][0]}{}")
unfolding log_line decimal
logged = refl

log_line-All_example :
    (s : List ℕ) × (log_line at (codes "ERR") (negsuc 0) (pos 0) none 0 raw no_message ≡ some s)
    × All IsPrintable s
log_line-All_example =
    log_line-All at (codes "ERR") (negsuc 0) (pos 0) none 0 raw no_message letters tt bytes tt
  where
    letters : All IsPrintable (codes "ERR")
    letters =
        ((omega arith, omega arith), ((omega arith, omega arith), ((omega arith, omega arith), tt)))

    bytes : (3 ≤ 3) × All (λ c. c < 256) (65 ∷ 27 ∷ 0 ∷ [])
    bytes = (omega arith, (omega arith, (omega arith, (omega arith, tt))))
