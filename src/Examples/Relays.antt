-- ===== src/Examples/Relays.antt =====
-- Two lines on their way, in two orders of turns.
use cta_alristrol_gallardo_v.Examples.Wires.{
  Wires, byte_send, byte_send-IsWire, on_wire, silence, three, three-Apart,
}
use cta_alristrol_gallardo_v.QueueDao.Wire.{Wired}
use cta_alristrol_gallardo_v.QueueDao.Ticks.{new_dao-IsClean}
use cta_alristrol_gallardo_v.Base.{ℕ, ◌≡◌, some, List, [], ◌∷◌, ◌++◌, arith, pos}
use cta_alristrol_gallardo_v.QueueDao.{new_dao}
use cta_alristrol_gallardo_v.QueueDao.Delivery.{delivered, keys_behind}
use cta_alristrol_gallardo_v.QueueDao.Receivers.{AllReceive}
use cta_alristrol_gallardo_v.Pipeline.Relay.{Turn, sender, receiver, Relay, relay}
use cta_alristrol_gallardo_v.Pipeline.Relay.Flight.{IsReady}
use cta_alristrol_gallardo_v.Pipeline.Relay.Order.{relay-order}
use cta_alristrol_gallardo_v.Pipeline.Relay.Drain.{in_turn, relay-drains}
use cta_alristrol_gallardo_v.Examples.Ticks.{tick, again, tick_feed}
use cta_alristrol_gallardo_v.Examples.Posts.{
  one_queue, in_queue, one_queue-IsFifo, one_queue-Accepts, node, node-SendsTo,
}

abbrev two_lines : Relay (List (List ℕ)) Wires
two_lines = record {
  unsent = tick ∷ again ∷ [];
  node = node;
  kernel = [];
  dao = new_dao;
  slots = three;
  wire = silence;
}

two_lines-IsReady : IsReady one_queue in_queue byte_send (pos 3) two_lines
two_lines-IsReady = record {
  clean = new_dao-IsClean;
  sends = node-SendsTo;
  ticks = tt;
  unsent_ticks = tick_feed;
}

-- The receiver waits, gets the first line while the second is sent, and stops before it.
abbrev some_turns : List Turn
some_turns = receiver ∷ sender ∷ sender ∷ receiver ∷ []

relay-order_example :
    (r' : Relay (List (List ℕ)) Wires) × (got : List (List ℕ)) × (relay one_queue in_queue byte_send
        (pos 3)
        some_turns
        two_lines
      ≡ some r')
    × (tick ∷ again ∷ [] ≡ got ++ (r'.kernel ++ r'.unsent))
    × (r'.dao.queue_local ≡ keys_behind [] got)
    × IsReady one_queue in_queue byte_send (pos 3) r'
    × AllReceive (delivered [] got) three r'.slots
    × Wired on_wire silence r'.wire three r'.slots
unfolding new_dao
relay-order_example =
    relay-order one_queue in_queue byte_send (pos 3) on_wire some_turns two_lines one_queue-IsFifo
      one_queue-Accepts byte_send-IsWire three-Apart two_lines-IsReady

relay-drains_example :
    (r' : Relay (List (List ℕ)) Wires) × (relay one_queue in_queue byte_send
        (pos 3)
        (in_turn 2)
        two_lines
      ≡ some r')
    × (r'.kernel ≡ [])
    × (r'.unsent ≡ [])
    × IsReady one_queue in_queue byte_send (pos 3) r'
    × AllReceive (delivered [] (tick ∷ again ∷ [])) three r'.slots
    × Wired on_wire silence r'.wire three r'.slots
unfolding new_dao
relay-drains_example =
    relay-drains one_queue in_queue byte_send (pos 3) on_wire 2 two_lines one_queue-IsFifo
      one_queue-Accepts byte_send-IsWire three-Apart two_lines-IsReady (omega arith)
