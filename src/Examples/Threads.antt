-- ===== src/Examples/Threads.antt =====
-- The two threads of a connection: the reader waits for the network while the heartbeat gives up.
use cta_alristrol_gallardo_v.Base.{◌≡◌, refl}
use cta_alristrol_gallardo_v.WebConn.{ss_free}
use cta_alristrol_gallardo_v.WebConn.Lock.{
  Shared, here, own, locks, gives_up, still, move, receiving, watching, reporting, reader,
  silent_status,
}

abbrev waiting : Shared
waiting = record { status = ss_free; holder = reader; reader_at = receiving; beat_at = watching }

silent_status_example :
    ((record waiting { beat_at = reporting }).status ≡ waiting.status)
    × ((record waiting { beat_at = reporting }).reader_at ≡ receiving)
silent_status_example =
    silent_status ss_free waiting (record waiting { beat_at = reporting })
      (own here (locks refl refl refl)) refl (move still (gives_up refl))
