-- ===== src/Pipeline/Made.antt =====
-- The way of a tick from an exchange to the clients, from the constructors of the two queue nodes on
-- (`ARSTQueueDAO` in ARST_QUOTE/ARSTQueueNode.cpp).
use cta_alristrol_gallardo_v.Base.{
  ℕ, ◌≤◌, ◌≡◌, ◌≢◌, true, Option, some, List, [], map, arith, length, All, ℤ,
}
use cta_alristrol_gallardo_v.Client.Wire.{IsWire}
use cta_alristrol_gallardo_v.QueueDao.Wire.{Apart, Wired}
use cta_alristrol_gallardo_v.Clients.{Slot}
use cta_alristrol_gallardo_v.Queue.{Queue, Ipc}
use cta_alristrol_gallardo_v.Queue.Fifo.{Accepts, IsFifo, drain}
use cta_alristrol_gallardo_v.QueueNode.{QueueNode, new_queue_node, send_texts}
use cta_alristrol_gallardo_v.QueueNode.Keyed.{IsKeyed, Gives, ipc_private, new_queue_node-share}
use cta_alristrol_gallardo_v.QueueDao
use cta_alristrol_gallardo_v.QueueDao.{Dao, new_dao}
use cta_alristrol_gallardo_v.QueueDao.Ticks.{IsClean, new_dao-IsClean}
use cta_alristrol_gallardo_v.QueueDao.Feed.{firsts}
use cta_alristrol_gallardo_v.QueueDao.Receivers.{AllReceive}
use cta_alristrol_gallardo_v.WebConn.{Server, is_serving}
use cta_alristrol_gallardo_v.WebConn.Feed.{IsOpen}
use cta_alristrol_gallardo_v.WebConn.Reading.{heard}
use cta_alristrol_gallardo_v.WebConn.Stream
use cta_alristrol_gallardo_v.WebConn.Stream.{line, total, FeedsLines, IsLine}
use cta_alristrol_gallardo_v.Pipeline.{lines_reach_clients}

-- A queue node is made with a key to send with, and later another with this key to receive with, by
-- a kernel that refuses no queue, accepts every message and keeps the order. The key is not
-- `IPC_PRIVATE`, and goes on to name its queue, which is empty. A serving connection with an open
-- socket and a heartbeat is fed at most 750 texts of at most 1022 bytes, with no newline and no
-- NUL, each with a newline behind it, and sends the lines by the first node. The new thread of the
-- second, reading what it is given, serves the clients, which are the same behind it: for one that
-- is not offline in the end the system has taken exactly those lines whose key is that of no
-- earlier line, whole and in their order, and it counts a reply more for each; one that was offline
-- stays so, and a dead one is not touched. The wire of each client's socket has grown by exactly
-- the bytes that were taken for it, and no other wire has changed. It is assumed that no two
-- clients have one socket, and of `send` that it takes at most the bytes offered and puts on the
-- wire of the socket what it says it has taken.
pub made_nodes_serve :
    {Net Wire K : Type 0} {held : ℤ → K → List (List ℕ)} {named : ℤ → K → Option ℤ}
    (recv : ℕ → Net → ℤ × List ℕ × Net) (send : ℤ → List ℕ → Wire → ℤ × Wire) (ipc : Ipc K)
    (s : Server) (net net' : Net) (texts : List (List ℕ)) (sender receiver : List ℕ)
    (key from to : ℤ) (k k1 : K) (slots : List Slot) (wire : Wire) (wires : Wire → ℤ → List ℕ)
    → is_serving s.status ≡ true
    → IsOpen s
    → s.has_heartbeat ≡ true
    → All (IsLine recv) texts
    → FeedsLines recv net texts net'
    → IsFifo ipc held
    → Accepts ipc
    → IsKeyed ipc held named
    → Gives ipc
    → key ≢ ipc_private
    → named key k1 ≡ named key (new_queue_node ipc sender key from k).1
    → ((id : ℤ) → named key k1 ≡ some id → held id k1 ≡ [])
    → IsWire send wires
    → Apart slots
    → length texts ≤ 750
    → (q : Queue) × (lines : List (List ℕ)) × (rs : List ℤ) × (n' : QueueNode) × (k' : K)
      × (d' : Dao) × (slots' : List Slot) × (wire' : Wire) × ((new_queue_node ipc receiver to key
            k1).0.recv_queue
          ≡ some q)
      × (lines ≡ map line texts)
      × (Stream.run recv (length texts) s net ≡ some (heard (total texts) s, net', lines))
      × (send_texts ipc
            (new_queue_node ipc sender key from k).0
            lines
            (new_queue_node ipc receiver to key k1).1
          ≡ some (rs, n', k'))
      × (QueueDao.run send new_dao slots wire (drain ipc (length lines) q k').0
          ≡ some (d', slots', wire'))
      × IsClean d'
      × AllReceive (firsts [] lines) slots slots'
      × Wired wires wire wire' slots slots'
unfolding new_dao
made_nodes_serve {held} {named} recv send ipc s net net' texts sender receiver key from to k k1
      slots wire wires v o h l fs f a w g p same e b z m =
    let (q, made, sends, empty) =
      new_queue_node-share ipc {held = held} {named = named} sender receiver key from to k k1 [] w g
        p same e in
    let (lines, rs, n', k', d', slots', wire', x1, x2, x3, x4, x5, x6, x7) =
      lines_reach_clients {held = held} recv send ipc s net net' texts
        (new_queue_node ipc sender key from k).0 q (new_queue_node ipc receiver to key k1).1 new_dao
        slots wire wires v o h l fs f a sends empty b z new_dao-IsClean (omega arith) in
    (q, lines, rs, n', k', d', slots', wire', made, x1, x2, x3, x4, x5, x6, x7)
