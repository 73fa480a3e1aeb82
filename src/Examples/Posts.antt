-- ===== src/Examples/Posts.antt =====
-- Ticks on their way: a kernel with one queue, and a network that feeds two lines.
use cta_alristrol_gallardo_v.Base.{
  ℕ, zero, suc, ◌≤◌, ◌≡◌, refl, ap, ◌≢◌, true, some, List, [], ◌∷◌, ◌++◌, arith, leb, if◌then◌else◌,
  length, replicate, All, ℤ, pos, negsuc, le→leb,
}
use cta_alristrol_gallardo_v.Queue.{Ipc, Received, Queue, bufsize}
use cta_alristrol_gallardo_v.Queue.Buffer.{message}
use cta_alristrol_gallardo_v.Queue.Fifo.{IsFifo, Accepts}
use cta_alristrol_gallardo_v.QueueNode.{QueueNode}
use cta_alristrol_gallardo_v.QueueNode.Posting.{SendsTo}
use cta_alristrol_gallardo_v.QueueDao
use cta_alristrol_gallardo_v.QueueDao.{new_dao, out_of_fuel}
use cta_alristrol_gallardo_v.QueueDao.Ending.{round_returns}
use cta_alristrol_gallardo_v.WebConn
use cta_alristrol_gallardo_v.WebConn.{newline}
use cta_alristrol_gallardo_v.WebConn.Reading.{heard}
use cta_alristrol_gallardo_v.WebConn.Ending.{IsRecv, round_ends}
use cta_alristrol_gallardo_v.WebConn.Stream
use cta_alristrol_gallardo_v.WebConn.Stream.{line, FeedsLines, nothing, another, IsLine, run-lines}
use cta_alristrol_gallardo_v.Examples.Sending.{slow_send, slow_send-IsSend}
use cta_alristrol_gallardo_v.Examples.Sweep.{crowd}
use cta_alristrol_gallardo_v.Examples.Lines.{
  held_bytes, held_bytes-Feeds, line_server, line_server-IsOpen, tick_line, tick_line-IsText,
}

-- The first message, if it has room.
pub taken : ℕ → List (List ℕ) → Received × List (List ℕ)
taken size [] = (record { result = negsuc 0; bytes = [] }, [])
taken size (t ∷ ts) =
    if leb (length t) size
    then (message t, ts)
    else (record { result = negsuc 0; bytes = [] }, t ∷ ts)

abbrev pub one_queue : Ipc (List (List ℕ))
one_queue = record {
  msgget = λ key k. (pos 0, k);
  msgsnd = λ id type bytes flag k. (pos 0, k ++ bytes ∷ []);
  msgrcv = λ id size type flag k. taken size k;
  msgctl_rmid = λ id k. (pos 0, []);
}

abbrev pub in_queue : ℤ → List (List ℕ) → List (List ℕ)
in_queue id k = k

pub taken-first :
    (size : ℕ) (k : List (List ℕ)) (t : List ℕ) (ts : List (List ℕ))
    → k ≡ t ∷ ts
    → length t ≤ size
    → taken size k ≡ (message t, ts)
unfolding taken
taken-first size k t ts e l = rw (e, taken) (rw (le→leb (length t) size l) refl)

pub one_queue-IsFifo : IsFifo one_queue in_queue
one_queue-IsFifo = record {
  sends = λ id type bytes flag k e. refl;
  receives = λ id size flag k t ts e l.
      (ap (λ p. p.0) (taken-first size k t ts e l), ap (λ p. p.1) (taken-first size k t ts e l));
}

pub one_queue-Accepts : Accepts one_queue
one_queue-Accepts id type bytes k = refl

abbrev queue : Queue
queue = record { id = pos 3; message_type = 0; message_buf = replicate bufsize 0 }

abbrev pub node : QueueNode
node = record {
  service = [];
  send_key = pos 1;
  recv_key = pos 2;
  send_queue = some queue;
  recv_queue = some queue;
  started = true;
}

pub node-SendsTo : SendsTo node (pos 3)
node-SendsTo = record { queue = queue; set = refl; same = refl }

abbrev texts : List (List ℕ)
texts = tick_line ∷ (84 ∷ 44 ∷ 54 ∷ []) ∷ []

-- The bytes of both lines.
abbrev pub fed : List ℕ
fed = tick_line ++ newline ∷ (tick_line ++ newline ∷ [])

pub fed-FeedsLines : FeedsLines held_bytes fed (tick_line ∷ tick_line ∷ []) []
unfolding held_bytes
fed-FeedsLines =
    another tick_line (held_bytes-Feeds tick_line (newline ∷ (tick_line ++ newline ∷ []))) refl
      (another tick_line (held_bytes-Feeds tick_line (newline ∷ [])) refl nothing)

pub fed-IsLine : All (IsLine held_bytes) (tick_line ∷ tick_line ∷ [])
fed-IsLine = ((tick_line-IsText, omega arith), ((tick_line-IsText, omega arith), tt))

run-lines_example :
    Stream.run held_bytes 2 line_server fed
    ≡ some (heard 6 line_server, [], line tick_line ∷ line tick_line ∷ [])
run-lines_example =
    run-lines held_bytes (tick_line ∷ tick_line ∷ []) line_server fed [] refl line_server-IsOpen
      refl fed-IsLine fed-FeedsLines

held_bytes-IsRecv : IsRecv held_bytes
unfolding held_bytes
held_bytes-IsRecv n [] = tt
held_bytes-IsRecv zero (b ∷ bs) = omega arith
held_bytes-IsRecv (suc n) (b ∷ bs) = omega arith

round_ends_example : WebConn.round held_bytes line_server tick_line ≢ WebConn.out_of_fuel
round_ends_example = round_ends held_bytes line_server tick_line held_bytes-IsRecv

round_returns_example :
    QueueDao.round slow_send new_dao crowd.slots 9 (message (replicate 1500 65)) ≢ out_of_fuel
round_returns_example =
    round_returns slow_send new_dao crowd.slots 9 (message (replicate 1500 65)) slow_send-IsSend
