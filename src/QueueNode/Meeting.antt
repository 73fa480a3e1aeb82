-- ===== src/QueueNode/Meeting.antt =====
-- Two `ARSTQueueDAO`s of ARST_QUOTE/ARSTQueueNode.cpp that are made with the same key, one to send and
-- one to receive; and one whose queue the kernel refuses.
use cta_alristrol_gallardo_v.Base.{
  ℕ, ◌≤◌, ◌≡◌, ap, ◌∙◌, ◌≢◌, true, Option, some, List, ◌++◌, map, length, All, All-append, ℤ, pos,
  negsuc,
}
use cta_alristrol_gallardo_v.Clients.{Slot}
use cta_alristrol_gallardo_v.Queue.{Queue, Ipc, bufsize}
use cta_alristrol_gallardo_v.Queue.Buffer.{message}
use cta_alristrol_gallardo_v.Queue.Fifo.{Accepts, IsFifo, drain, drain-message}
use cta_alristrol_gallardo_v.QueueDao.{new_dao, round, exits}
use cta_alristrol_gallardo_v.QueueDao.Ending.{round-failed}
use cta_alristrol_gallardo_v.QueueNode.{QueueNode, new_queue_node, send_texts}
use cta_alristrol_gallardo_v.QueueNode.Posting.{send_texts-Posted}
use cta_alristrol_gallardo_v.QueueNode.Keyed.{
  IsKeyed, Gives, ipc_private, new_queue_node-share, receives_by, new_queue_node-made,
}

module _ {K : Type 0} (ipc : Ipc K) where
  -- A node that is made with a key to send with, and later another that is made with this key to
  -- receive with, the key not being `IPC_PRIVATE`, in a kernel that refuses no queue, accepts every
  -- message and keeps the order; in between the key goes on to name its queue. Both then have the
  -- same queue, also one that was there before: texts of at most 1500 bytes that the one sends are
  -- what the other reads, whole and in their order, behind the messages that the queue held, of at
  -- most 1500 bytes each.
  pub new_queue_node-meet :
      {held : ℤ → K → List (List ℕ)} {named : ℤ → K → Option ℤ} (sender receiver : List ℕ)
      (key from to : ℤ) (k k1 : K) (old texts : List (List ℕ))
      → IsFifo ipc held
      → Accepts ipc
      → IsKeyed ipc held named
      → Gives ipc
      → key ≢ ipc_private
      → named key k1 ≡ named key (new_queue_node ipc sender key from k).1
      → ((id : ℤ) → named key k1 ≡ some id → held id k1 ≡ old)
      → All (λ t. length t ≤ bufsize) old
      → All (λ t. length t ≤ bufsize) texts
      → (q : Queue) × (rs : List ℤ) × (n' : QueueNode) × (k' : K) × ((new_queue_node ipc receiver to
            key k1).0.recv_queue
          ≡ some q)
        × (send_texts ipc
              (new_queue_node ipc sender key from k).0
              texts
              (new_queue_node ipc receiver to key k1).1
            ≡ some (rs, n', k'))
        × All (λ r. r ≡ pos 0) rs
        × ((drain ipc (length (old ++ texts)) q k').0 ≡ map message (old ++ texts))
  new_queue_node-meet {held} {named} sender receiver key from to k k1 old texts f a v g p same h lo
        lt =
      let (q, b, sends, holds) =
        new_queue_node-share ipc {held = held} {named = named} sender receiver key from to k k1 old
          v g p same h in
      let (rs, n', k', e, z, s) =
        send_texts-Posted ipc {held = held} q.id texts (new_queue_node ipc sender key from k).0
          (new_queue_node ipc receiver to key k1).1 f a sends lt in
      (
        q,
        rs,
        n',
        k',
        b,
        e,
        z,
        drain-message ipc q (old ++ texts) k' f (s ∙ ap (λ t. t ++ texts) holds)
            (All-append _ old texts lo lt),
      )

  -- Documented of `msgrcv`: where there is no queue it fails with -1.
  abbrev pub FailsUnmade : Type 0
  FailsUnmade =
      (size type flag : ℕ) (k : K) → (ipc.msgrcv (negsuc 0) size type flag k).0.result ≡ negsuc 0

  -- A node whose queue to receive from the kernel refuses: its constructor ends as any, and starts
  -- the thread; and whatever the kernel is by then, the first round of this thread ends the program.
  pub new_queue_node-refused :
      {Net : Type 0} (send : ℤ → List ℕ → Net → ℤ × Net) (service : List ℕ) (from to : ℤ) (k k1 : K)
      (slots : List Slot) (net : Net)
      → FailsUnmade
      → (ipc.msgget to (ipc.msgget from k).1).0 ≡ negsuc 0
      → (q : Queue) × ((new_queue_node ipc service from to k).0.started ≡ true)
        × ((new_queue_node ipc service from to k).0.recv_queue ≡ some q)
        × (round send new_dao slots net (ipc.msgrcv q.id bufsize 0 0 k1).0 ≡ exits)
  new_queue_node-refused send service from to k k1 slots net f e = (
    receives_by ipc from to k,
    ap (λ m. m.0.started) (new_queue_node-made ipc service from to k),
    ap (λ m. m.0.recv_queue) (new_queue_node-made ipc service from to k),
    round-failed send new_dao slots net (ipc.msgrcv (receives_by ipc from to k).id bufsize 0 0 k1).0
        (ap (λ j. (ipc.msgrcv j bufsize 0 0 k1).0.result) e ∙ f bufsize 0 0 k1),
  )
