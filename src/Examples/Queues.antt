-- ===== src/Examples/Queues.antt =====
-- A kernel with a queue for each key, and one that refuses every queue.
use cta_alristrol_gallardo_v.Examples.Wires.{
  Wires, byte_send, byte_send-IsWire, on_wire, silence, three, three-Apart,
}
use cta_alristrol_gallardo_v.QueueDao.Wire.{Wired}
use cta_alristrol_gallardo_v.Base.{
  ℕ, suc, ◌≡◌, refl, ap, ◌∙◌, ◌≢◌, true, some, List, [], ◌∷◌, ◌++◌, arith, if◌then◌else◌, length, ℤ,
  pos, negsuc, eq_ℤ, eq_ℤ_iff,
}
use mathlib.Core.Option.{some_inj}
use cta_alristrol_gallardo_v.Clients.{Slot}
use cta_alristrol_gallardo_v.QueueDao
use cta_alristrol_gallardo_v.QueueDao.{Dao, new_dao, round, exits}
use cta_alristrol_gallardo_v.QueueDao.Ticks.{IsClean}
use cta_alristrol_gallardo_v.QueueDao.Feed.{firsts}
use cta_alristrol_gallardo_v.QueueDao.Receivers.{AllReceive}
use cta_alristrol_gallardo_v.WebConn.Reading.{heard}
use cta_alristrol_gallardo_v.WebConn.Stream
use cta_alristrol_gallardo_v.WebConn.Stream.{line}
use cta_alristrol_gallardo_v.Pipeline.Made.{made_nodes_serve}
use cta_alristrol_gallardo_v.Examples.Sending.{slow_send}
use cta_alristrol_gallardo_v.Examples.Posts.{fed, fed-FeedsLines, fed-IsLine, taken, taken-first}
use cta_alristrol_gallardo_v.Examples.Lines.{held_bytes, line_server, line_server-IsOpen, tick_line}
use cta_alristrol_gallardo_v.QueueNode.Keyed.{IsKeyed, Gives}
use cta_alristrol_gallardo_v.Queue.{Queue, Ipc, bufsize}
use cta_alristrol_gallardo_v.Queue.Fifo.{IsFifo, Accepts, drain}
use cta_alristrol_gallardo_v.QueueNode.{QueueNode, new_queue_node, send_texts}
use cta_alristrol_gallardo_v.QueueNode.Meeting.{FailsUnmade, new_queue_node-refused}
use cta_alristrol_gallardo_v.Examples.Sweep.{crowd}

-- What each queue holds, by its number.
abbrev Shelf : Type 0
Shelf = ℤ → List (List ℕ)

abbrev put : ℤ → List (List ℕ) → Shelf → Shelf
put id ts k = λ j. if eq_ℤ j id then ts else k j

-- No key's number is -1.
abbrev number : ℤ → ℤ
number (pos n) = pos n
number (negsuc n) = negsuc (suc n)

abbrev shelf : Ipc Shelf
shelf = record {
  msgget = λ key k. (number key, k);
  msgsnd = λ id type bytes flag k. (pos 0, put id (k id ++ bytes ∷ []) k);
  msgrcv = λ id size type flag k. ((taken size (k id)).0, put id (taken size (k id)).1 k);
  msgctl_rmid = λ id k. (pos 0, put id [] k);
}

abbrev on_shelf : ℤ → Shelf → List (List ℕ)
on_shelf id k = k id

put-same : (id : ℤ) (ts : List (List ℕ)) (k : Shelf) → put id ts k id ≡ ts
put-same id ts k = rw ((eq_ℤ_iff id id).1 refl) refl

shelf-IsFifo : IsFifo shelf on_shelf
shelf-IsFifo = record {
  sends = λ id type bytes flag k e. put-same id _ k;
  receives = λ id size flag k t ts e l. (
    ap (λ p. p.0) (taken-first size (k id) t ts e l),
    put-same id _ k ∙ ap (λ p. p.1) (taken-first size (k id) t ts e l),
  );
}

shelf-Accepts : Accepts shelf
shelf-Accepts id type bytes k = refl

number-made : (key : ℤ) → number key ≢ negsuc 0
number-made (pos n) = λ e. cc
number-made (negsuc n) = λ e. cc

shelf-Gives : Gives shelf
shelf-Gives key k = number-made key

shelf-IsKeyed : IsKeyed shelf on_shelf (λ key k. some (number key))
shelf-IsKeyed = record {
  names = λ key k p g. refl;
  finds = λ key id k p n g. some_inj.0 n;
  others = λ key other k d. refl;
  holds = λ key id k. refl;
}

-- No queue can be made or used.
abbrev full_up : Ipc ℕ
full_up = record {
  msgget = λ key k. (negsuc 0, k);
  msgsnd = λ id type bytes flag k. (negsuc 0, k);
  msgrcv = λ id size type flag k. (record { result = negsuc 0; bytes = [] }, k);
  msgctl_rmid = λ id k. (negsuc 0, k);
}

full_up-FailsUnmade : FailsUnmade full_up
full_up-FailsUnmade size type flag k = refl

new_queue_node-refused_example :
    (q : Queue) × ((new_queue_node full_up [] (pos 9) (pos 7) 0).0.started ≡ true)
    × ((new_queue_node full_up [] (pos 9) (pos 7) 0).0.recv_queue ≡ some q)
    × (round slow_send new_dao crowd.slots 9 (full_up.msgrcv q.id bufsize 0 0 5).0 ≡ exits)
new_queue_node-refused_example =
    new_queue_node-refused full_up slow_send [] (pos 9) (pos 7) 0 5 crowd.slots 9
      full_up-FailsUnmade refl

abbrev no_messages : Shelf
no_messages _ = []

made_nodes_serve_example :
    (q : Queue) × (lines : List (List ℕ)) × (rs : List ℤ) × (n' : QueueNode) × (k' : Shelf)
    × (d' : Dao) × (slots' : List Slot) × (wire' : Wires) × ((new_queue_node shelf []
          (pos 9)
          (pos 7)
          no_messages).0.recv_queue
        ≡ some q)
    × (lines ≡ line tick_line ∷ line tick_line ∷ [])
    × (Stream.run held_bytes 2 line_server fed ≡ some (heard 6 line_server, [], lines))
    × (send_texts shelf
          (new_queue_node shelf [] (pos 7) (pos 8) no_messages).0
          lines
          (new_queue_node shelf [] (pos 9) (pos 7) no_messages).1
        ≡ some (rs, n', k'))
    × (QueueDao.run byte_send new_dao three silence (drain shelf (length lines) q k').0
        ≡ some (d', slots', wire'))
    × IsClean d'
    × AllReceive (firsts [] lines) three slots'
    × Wired on_wire silence wire' three slots'
made_nodes_serve_example =
    made_nodes_serve {held = on_shelf} {named = λ key k. some (number key)} held_bytes byte_send
      shelf line_server fed [] (tick_line ∷ tick_line ∷ []) [] [] (pos 7) (pos 8) (pos 9)
      no_messages no_messages three silence on_wire refl line_server-IsOpen refl fed-IsLine
      fed-FeedsLines shelf-IsFifo shelf-Accepts shelf-IsKeyed shelf-Gives (λ e. cc) refl
      (λ id e. refl) byte_send-IsWire three-Apart (omega arith)
