-- ===== src/QueueNode.antt =====
-- ARST_QUOTE/ARSTQueueNode.cpp and .h: the object `ARSTQueueDAO` with its two queues. Its thread is
-- `QueueDao`.
pub mod Keyed
pub mod Meeting
pub mod Posting
use mathlib.Core.Option
use cta_alristrol_gallardo_v.Base.{
  ℕ, Bool, true, Option, none, some, List, [], ◌∷◌, map, length, ℤ, negsuc,
}
use cta_alristrol_gallardo_v.Queue.{Queue, Ipc, new_queue, create, send_message}

pub record QueueNode : Type 0 where
  pub service : List ℕ
  pub send_key : ℤ
  pub recv_key : ℤ
  pub send_queue : Option Queue
  pub recv_queue : Option Queue
  pub started : Bool

unfoldable pub get_send_key : QueueNode → ℤ
get_send_key n = n.send_key

unfoldable pub get_recv_key : QueueNode → ℤ
get_recv_key n = n.recv_key

module _ {K : Type 0} (ipc : Ipc K) where
  -- The constructor. The results of the two `Create`s are not looked at.
  unfoldable pub new_queue_node : List ℕ → ℤ → ℤ → K → QueueNode × K
  new_queue_node service send_key recv_key k =
      let (_, send_queue, k1) = create ipc new_queue send_key k in
      let (_, recv_queue, k2) = create ipc new_queue recv_key k1 in
      (
        record {
          service = service;
          send_key = send_key;
          recv_key = recv_key;
          send_queue = some send_queue;
          recv_queue = some recv_queue;
          started = true;
        },
        k2,
      )

  -- `SendData`; `none` is a write behind the message.
  unfoldable pub send_data : QueueNode → List ℕ → ℕ → ℕ → ℕ → K → Option (ℤ × QueueNode × K)
  send_data n buf size type flag k = elim n.send_queue [
    | none ↦ some (negsuc 0, n, k)
    | some q ↦
        Option.map (λ (r, q', k'). (r, record n { send_queue = some q' }, k'))
          (send_message ipc q buf size type flag k)
  ]

  -- The calls of `SendData` for texts in turn, as an exchange connection makes them, with their
  -- results.
  unfoldable pub send_texts : QueueNode → List (List ℕ) → K → Option (List ℤ × QueueNode × K)
  unfolding send_data
  send_texts n [] k = some ([], n, k)
  send_texts n (t ∷ ts) k = elim (send_data n t (length t) 1 0 k) [
    | none ↦ none
    | some (r, n', k') ↦ Option.map (λ (rs, m, k''). (r ∷ rs, m, k'')) (send_texts n' ts k')
  ]
