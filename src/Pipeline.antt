-- ===== src/Pipeline.antt =====
-- The way of a tick from an exchange to the clients: the connection of ARST_QUOTE/ARSTWebConn.cpp
-- reads lines, the queue node of ARST_QUOTE/ARSTQueueNode.cpp posts them, and another node's thread
-- takes them out and serves the clients.
pub mod Made
pub mod Relay
use cta_alristrol_gallardo_v.Base.{
  ℕ, ◌+◌, ◌≤◌, ◌≡◌, refl, ap, ◌∙◌, true, some, List, [], ◌∷◌, map, arith, length, All,
  length-append, length-map, ℤ, subst,
}
use cta_alristrol_gallardo_v.Client.Wire.{IsWire}
use cta_alristrol_gallardo_v.Queue.Buffer.{message}
use cta_alristrol_gallardo_v.QueueDao.Wire.{Apart, Wired}
use cta_alristrol_gallardo_v.QueueDao.Wire.Rounds.{RanWired, run-RanWired}
use cta_alristrol_gallardo_v.Clients.{Slot}
use cta_alristrol_gallardo_v.Text.Digits.{NonZero}
use cta_alristrol_gallardo_v.Queue.{Queue, Ipc, bufsize}
use cta_alristrol_gallardo_v.Queue.Fifo.{Accepts, IsFifo, drain}
use cta_alristrol_gallardo_v.QueueNode.{QueueNode, send_texts}
use cta_alristrol_gallardo_v.QueueNode.Posting.{SendsTo, send_texts-drain}
use cta_alristrol_gallardo_v.QueueDao
use cta_alristrol_gallardo_v.QueueDao.{Dao}
use cta_alristrol_gallardo_v.QueueDao.Ticks.{IsClean}
use cta_alristrol_gallardo_v.QueueDao.Feed.{IsTick, firsts}
use cta_alristrol_gallardo_v.QueueDao.Delivery.{run-delivered, delivered-firsts}
use cta_alristrol_gallardo_v.QueueDao.Receivers.{AllReceive}
use cta_alristrol_gallardo_v.WebConn.{Server, newline, is_serving}
use cta_alristrol_gallardo_v.WebConn.Feed.{IsOpen, IsText}
use cta_alristrol_gallardo_v.WebConn.Reading.{heard}
use cta_alristrol_gallardo_v.WebConn.Stream
use cta_alristrol_gallardo_v.WebConn.Stream.{line, total, FeedsLines, IsLine, run-lines}

line-NonZero : (t : List ℕ) → All IsText t → All NonZero (line t)
line-NonZero [] v = ((λ e. absurd (omega arith)), tt)
line-NonZero (b ∷ t) v = (v.0.1, line-NonZero t v.1)

module _ {Net : Type 0} (recv : ℕ → Net → ℤ × List ℕ × Net) where
  lines-IsTick : (ts : List (List ℕ)) → All (IsLine recv) ts → All IsTick (map line ts)
  lines-IsTick [] v = tt
  lines-IsTick (t ∷ ts) v = (
    (
      omega (arith, length-append t (newline ∷ [])),
      omega (arith, length-append t (newline ∷ [])),
      line-NonZero t v.0.0,
    ),
    lines-IsTick ts v.1,
  )

fits : (ts : List (List ℕ)) → All IsTick ts → All (λ t. length t ≤ bufsize) ts
fits [] v = tt
fits (t ∷ ts) v = (omega arith, fits ts v.1)

-- A serving connection with an open socket and a heartbeat is fed texts of at most 1022 bytes, with
-- no newline and no NUL, each with a newline behind it. It hands these lines on in their order.
-- Sent to an empty queue of a kernel whose queues keep their order and that accepts every message,
-- and read from there by a clean thread that holds no more keys than make 750 with the lines,
-- exactly those lines whose key the thread does not hold and is that of no earlier line reach the
-- clients. The clients are the same: for one that is not offline in the end the system has taken
-- exactly these lines, whole and in their order, and it counts a reply more for each; one that was
-- offline stays so, and a dead one is not touched. The wire of each client's socket has grown by
-- exactly the bytes that were taken for it, and no other wire has changed. It is assumed that no
-- two clients have one socket, and of `send` that it takes at most the bytes offered and puts on
-- the wire of the socket what it says it has taken.
pub lines_reach_clients :
    {Net Wire K : Type 0} {held : ℤ → K → List (List ℕ)} (recv : ℕ → Net → ℤ × List ℕ × Net)
    (send : ℤ → List ℕ → Wire → ℤ × Wire) (ipc : Ipc K) (s : Server) (net net' : Net)
    (texts : List (List ℕ)) (n : QueueNode) (q : Queue) (k : K) (d : Dao) (slots : List Slot)
    (wire : Wire) (wires : Wire → ℤ → List ℕ)
    → is_serving s.status ≡ true
    → IsOpen s
    → s.has_heartbeat ≡ true
    → All (IsLine recv) texts
    → FeedsLines recv net texts net'
    → IsFifo ipc held
    → Accepts ipc
    → SendsTo n q.id
    → held q.id k ≡ []
    → IsWire send wires
    → Apart slots
    → IsClean d
    → length d.queue_local + length texts ≤ 750
    → (lines : List (List ℕ)) × (rs : List ℤ) × (n' : QueueNode) × (k' : K) × (d' : Dao)
      × (slots' : List Slot) × (wire' : Wire) × (lines ≡ map line texts)
      × (Stream.run recv (length texts) s net ≡ some (heard (total texts) s, net', lines))
      × (send_texts ipc n lines k ≡ some (rs, n', k'))
      × (QueueDao.run send d slots wire (drain ipc (length lines) q k').0
          ≡ some (d', slots', wire'))
      × IsClean d'
      × AllReceive (firsts d.queue_local lines) slots slots'
      × Wired wires wire wire' slots slots'
lines_reach_clients {held} recv send ipc s net net' texts n q k d slots wire wires v o h l fs f a to
      e b z c m =
    let lines = map line texts in
    let ticks : All IsTick lines = lines-IsTick recv texts l in
    let count : length lines ≡ length texts = length-map line texts in
    let (rs, n', k', p, _, got) =
      send_texts-drain ipc {held = held} lines n q k f a to e (fits lines ticks) in
    let (d', slots', wire', r, _, c', w) = run-delivered send lines d slots wire b.bound c ticks in
    let same = delivered-firsts d.queue_local lines (omega arith) in
    (
      lines,
      rs,
      n',
      k',
      d',
      slots',
      wire',
      refl,
      run-lines recv texts s net net' v o h l fs,
      p,
      ap (QueueDao.run send d slots wire) got ∙ r,
      c',
      subst (λ ls. AllReceive ls slots slots') same w,
      subst (RanWired send wires b wire slots) r
          (run-RanWired send wires b (map message lines) d slots wire z),
    )
