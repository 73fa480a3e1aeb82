-- ===== src/Client.antt =====
-- ARST_QUOTE/ARSTServiceHandler.cpp and .h: one connected client (`ARSTClient`).
-- `send` is the operating system's. It takes the socket and the bytes that are offered, and gives
-- its `int` result; `Net` is the state of the network that it reads and changes.
pub mod Running
pub mod Sending
pub mod Beat
pub mod Wire
use mathlib.Core.Option
use cta_alristrol_gallardo_v.Base.{
  ℕ, zero, suc, ◌+◌, ◌-◌, Bool, true, false, Option, none, some, List, [], ◌++◌, map, ltb, ◌==◌,
  if◌then◌else◌, take, drop, ℤ, pos, negsuc,
}

pub data ClientStatus : Type 0 where
  cs_none cs_logoning cs_online cs_offline : ClientStatus

abbrev pub is_offline : ClientStatus → Bool
is_offline cs_offline = true
is_offline _ = false

-- `m_ClientAddrInfo`, less the raw address from which `ip` was printed.
pub record ClientAddrInfo : Type 0 where
  pub socket : ℤ
  pub ip : List ℕ

-- The fields that the code reads. `replies` counts the calls of `TriggerGetReplyEvent` on the
-- client's heartbeat, and `beat_interval` is what `SetTimeInterval` was given.
pub record Client : Type 0 where
  pub addr : ClientAddrInfo
  pub status : ClientStatus
  pub epid : List ℕ
  pub beat_interval : ℤ
  pub replies : ℕ

unfoldable pub set_status : Client → ClientStatus → Client
set_status c s = record c { status = s }

unfoldable pub get_status : Client → ClientStatus
get_status c = c.status

unfoldable pub get_client_socket : Client → ℤ
get_client_socket c = c.addr.socket

unfoldable pub trigger_get_reply_event : Client → Client
trigger_get_reply_event c = record c { replies = c.replies + 1 }

-- What `SendAll` leaves: the client, the network, the bytes that the system took, the result.
pub record Sent (Net : Type 0) : Type 0 where
  pub client : Client
  pub net : Net
  pub taken : List ℕ
  pub result : Bool

-- The bytes that an earlier turn passed on stand before those of the later ones.
abbrev pub behind : {Net : Type 0} → List ℕ → Sent Net → Sent Net
behind bytes s = record s { taken = bytes ++ s.taken }

-- What a turn does with the result of `send`, of `left` bytes offered. `more` is the next turn.
judge : {Net : Type 0} → Client → List ℕ → ℕ → ℤ → Net → (ℕ → Option (Sent Net)) → Option (Sent Net)
unfolding set_status
judge c offered left (negsuc k) net more =
    some (record { client = set_status c cs_offline; net = net; taken = []; result = false })
judge c offered left (pos k) net more =
    if k == 0
    then some
        (record { client = set_status c cs_offline; net = net; taken = []; result = k == left })
    else if k == left
    then some (record { client = c; net = net; taken = take k offered; result = true })
    else if ltb k left
    then Option.map (behind (take k offered)) (more k)
    else some (record { client = c; net = net; taken = offered; result = false })

module _ {Net : Type 0} (send : ℤ → List ℕ → Net → ℤ × Net) where
  -- One turn of the loop, from `nToSend -= nSend` on, where `n_to_send`, `n_send` and `n_sended`
  -- are as the turn finds them. The loop goes on only after a send of fewer bytes than it was
  -- offered, so `n_send` is a count then and the subtraction is exact. `none` is fuel run out.
  pub send_loop : ℕ → Client → List ℕ → ℕ → ℕ → ℕ → Net → Option (Sent Net)
  unfolding judge
  send_loop zero c buf n_to_send n_send n_sended net = none
  send_loop (suc fuel) c buf n_to_send n_send n_sended net =
      let left = n_to_send - n_send in
      let offered = take left (drop n_sended buf) in
      let (r, net') = send c.addr.socket offered net in
      judge c offered left r net' (λ k. send_loop fuel c buf left k (n_sended + k) net')

  -- `SendAll`, with fuel for one turn a byte and one more.
  unfoldable pub send_all : Client → List ℕ → ℕ → Net → Option (Sent Net)
  unfolding send_loop
  send_all c buf n_to_send net =
      if n_to_send == 0
      then some (record { client = c; net = net; taken = []; result = true })
      else send_loop (n_to_send + 1) c buf n_to_send 0 0 net
