-- ===== src/ServerSocket.antt =====
-- ARST_QUOTE/ARSTCommon/ARSTServerSocket.cpp and .h: the socket that accepts clients
-- (`ARSTServerSocket`). What the operating system answers is an argument of each operation.
pub mod Shutting
use cta_alristrol_gallardo_v.Base.{
  ◌+◌, Bool, true, false, Option, none, some, List, [], ◌∷◌, ◌++◌, if◌then◌else◌, ℤ, pos, negsuc,
  eq_ℤ,
}

pub data ServerSocketStatus : Type 0 where
  sss_none sss_listening sss_shutdown : ServerSocketStatus

abbrev pub is_listening : ServerSocketStatus → Bool
is_listening sss_listening = true
is_listening _ = false

-- `m_AddrRes`: no address, one that is held, or one that was freed and is still pointed at.
pub data Address : Type 0 where
  null held freed : Address

-- `closed` records the descriptors that were closed, also those of clients.
pub record ServerSocket : Type 0 where
  pub has_callback : Bool
  pub socket : ℤ
  pub status : ServerSocketStatus
  pub addr_res : Address
  pub closed : List ℤ

-- The answers to `Listen`: whether `getaddrinfo` set a result, the descriptor of `socket`, and the
-- results of `bind` and `listen`.
pub record ListenAnswers : Type 0 where
  pub resolved : Bool
  pub descriptor : ℤ
  pub bound : ℤ
  pub listening : ℤ

unfoldable pub new_server_socket : Bool → ServerSocket
new_server_socket has_callback = record {
  has_callback = has_callback;
  socket = pos 0;
  status = sss_none;
  addr_res = null;
  closed = [];
}

-- `Listen`, with whether `OnListening` is called; `none` is a null pointer used. A `bind` that fails
-- is only logged.
unfoldable pub listen : ServerSocket → ListenAnswers → Option (ServerSocket × Bool)
listen s a =
    let opened = record s { socket = a.descriptor; addr_res = held } in
    if a.resolved
    then if eq_ℤ a.listening (negsuc 0)
      then some (record opened { status = sss_shutdown }, false)
      else some (record opened { status = sss_listening }, s.has_callback)
    else none

-- `Accept` returns what the system returns.
unfoldable pub accept : ServerSocket → ℤ → ℤ
accept s answer = answer

-- The first half of `Close`: the descriptor.
shut : ServerSocket → ServerSocket
shut s =
    if is_listening s.status
    then record s { closed = s.closed ++ s.socket ∷ []; status = sss_shutdown; socket = pos 0 }
    else s

-- `freeaddrinfo`; nothing is done for a null pointer, and `none` is an address freed again.
free : ServerSocket → Option ServerSocket
free s = elim s.addr_res [
  | null ↦ some s
  | held ↦ some (record s { addr_res = freed })
  | freed ↦ none
]

unfoldable pub close : ServerSocket → Option ServerSocket
unfolding shut free
close s = free (shut s)

unfoldable pub shutdown_server : ServerSocket → Option ServerSocket
unfolding close
shutdown_server s = close s

unfoldable pub shutdown_client : ServerSocket → ℤ → ServerSocket
shutdown_client s fd = record s { closed = s.closed ++ fd ∷ [] }

unfoldable pub get_status : ServerSocket → ServerSocketStatus
get_status s = s.status
