-- ===== src/Examples/Nodes.antt =====
-- Two threads that take ticks in turn, and two whose rounds overlap.
use cta_alristrol_gallardo_v.Examples.Wires.{
  Wires, byte_send, byte_send-IsWire, on_wire, silence, three, three-Apart,
}
use cta_alristrol_gallardo_v.QueueDao.Wire.{Wired}
use cta_alristrol_gallardo_v.Base.{ℕ, ◌≡◌, refl, some, List, [], ◌∷◌, ◌++◌}
use cta_alristrol_gallardo_v.QueueDao.Nodes.{
  Nodes, IsQuiet, run_nodes, feed, merged, run_nodes-delivered,
}
use cta_alristrol_gallardo_v.QueueDao.Mixed.{Shared, two_taken, Reach, second_lost, finished}
use cta_alristrol_gallardo_v.QueueDao.{contains}
use cta_alristrol_gallardo_v.QueueDao.Ticks.{key}
use cta_alristrol_gallardo_v.QueueDao.Delivery.{delivered, keys_behind, forgotten}
use cta_alristrol_gallardo_v.QueueDao.Receivers.{AllReceive}
use cta_alristrol_gallardo_v.Clients.{Slot}
use cta_alristrol_gallardo_v.Examples.Ticks.{tick, again, tick_feed}

abbrev idle_nodes : Nodes
idle_nodes = record {
  hash_string = [];
  queue_local = [];
  locals = λ _. record { recv_buf = []; readcount = 0 };
}

idle_nodes-IsQuiet : IsQuiet idle_nodes
idle_nodes-IsQuiet = record {
  no_hash = refl;
  no_text = λ _. refl;
  no_count = λ _. refl;
  distinct = tt;
}

-- The first to thread 0, its repetition to thread 1.
abbrev shared_feed : List (ℕ × List ℕ)
shared_feed = (0, tick) ∷ (1, again) ∷ []

run_nodes-delivered_example :
    (n' : Nodes) × (slots' : List Slot) × (net' : Wires) × (run_nodes byte_send idle_nodes three
        silence
        (feed shared_feed)
      ≡ some (n', slots', net'))
    × (n'.queue_local ≡ keys_behind [] (merged shared_feed))
    × IsQuiet n'
    × AllReceive (delivered [] (merged shared_feed)) three slots'
    × Wired on_wire silence net' three slots'
run_nodes-delivered_example =
    run_nodes-delivered byte_send on_wire shared_feed idle_nodes three silence byte_send-IsWire
      three-Apart idle_nodes-IsQuiet tick_feed

second_lost_example :
    (s : Shared) × Reach (two_taken [] tick again) s
    × (s.at 0 ≡ finished)
    × (s.at 1 ≡ finished)
    × (s.sent ≡ tick ∷ [])
    × (s.queue_local ≡ forgotten ([] ++ (key tick ++ key again) ∷ []))
unfolding contains
second_lost_example = second_lost [] tick again refl
