-- ===== src/Pipeline/Relay.antt =====
-- The two ends of a message queue at the same time: the thread of a connection
-- (ARST_QUOTE/ARSTWebConn.cpp) sends its lines by `SendData` of ARST_QUOTE/ARSTQueueNode.cpp, while the
-- thread of another node takes them out in `Run` and serves the clients. The turns of both come in
-- any order.
pub mod Drain
pub mod Flight
pub mod Order
pub mod Wire
use mathlib.Core.Option
use cta_alristrol_gallardo_v.Base.{ℕ, Option, none, some, List, [], ◌∷◌, length, ℤ}
use cta_alristrol_gallardo_v.Clients.{Slot}
use cta_alristrol_gallardo_v.Queue.{Ipc, bufsize}
use cta_alristrol_gallardo_v.QueueNode.{QueueNode, send_data}
use cta_alristrol_gallardo_v.QueueDao.{Dao, went, exits, faults, out_of_fuel, round}

pub data Turn : Type 0 where
  sender receiver : Turn

-- The lines that are not sent yet, the sender, the kernel, and the receiving thread with the clients.
pub record Relay (K Wire : Type 0) : Type 0 where
  pub unsent : List (List ℕ)
  pub node : QueueNode
  pub kernel : K
  pub dao : Dao
  pub slots : List Slot
  pub wire : Wire

module _ {K Wire : Type 0} (ipc : Ipc K) (held : ℤ → K → List (List ℕ))
    (send : ℤ → List ℕ → Wire → ℤ × Wire) (id : ℤ) where
  -- The sender's turn, if it has a line; its result is not looked at. `none` is a fault.
  send_one : Relay K Wire → Option (Relay K Wire)
  send_one r = elim r.unsent [
    | [] ↦ some r
    | t ∷ ts ↦
        Option.map (λ (_, n, k). record r { unsent = ts; node = n; kernel = k })
          (send_data ipc r.node t (length t) 1 0 r.kernel)
  ]

  -- The receiver's turn. It waits while the queue is empty. `none` is an end of the program, or a
  -- fault.
  take_one : Relay K Wire → Option (Relay K Wire)
  take_one r = elim (held id r.kernel) [
    | [] ↦ some r
    | _ ∷ _ ↦
        let (m, k) = ipc.msgrcv id bufsize 0 0 r.kernel in
        elim (round send r.dao r.slots r.wire m) [
          | went d ss w ↦ some (record r { kernel = k; dao = d; slots = ss; wire = w })
          | exits ↦ none
          | faults ↦ none
          | out_of_fuel ↦ none
        ]
  ]

  pub one : Turn → Relay K Wire → Option (Relay K Wire)
  unfolding send_one take_one
  one sender r = send_one r
  one receiver r = take_one r

  pub relay : List Turn → Relay K Wire → Option (Relay K Wire)
  unfolding one
  relay [] r = some r
  relay (t ∷ ts) r = elim (one t r) [ none ↦ none | some r' ↦ relay ts r' ]
