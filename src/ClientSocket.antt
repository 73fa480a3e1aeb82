-- ===== src/ClientSocket.antt =====
-- ARST_QUOTE/ARSTCommon/ARSTClientSocket.cpp and .h: the socket to an exchange
-- (`ARSTClientSocket`). What the operating system answers is an argument of each operation.
pub mod Closing
use cta_alristrol_gallardo_v.Base.{
  ℕ, ◌+◌, Bool, true, false, Option, none, some, List, [], ◌∷◌, ◌++◌, ◌==◌, if◌then◌else◌, ℤ, pos,
  eq_ℤ,
}

pub data ClientSocketStatus : Type 0 where
  css_none css_connecting css_connected css_disconnect : ClientSocketStatus

abbrev pub is_connected : ClientSocketStatus → Bool
is_connected css_connected = true
is_connected _ = false

-- The interface `ARSTClientSocketCallback`, less `OnData`, which is never called.
pub data SocketCallback : Type 0 where
  on_connect on_disconnect : SocketCallback

abbrev pub connect_tcp : ℕ
connect_tcp = 1

abbrev pub connect_websock : ℕ
connect_websock = 2

-- `addr_res` tells whether `m_AddrRes` is set. `closed` and `frees` record the descriptors that
-- were closed and the calls of `freeaddrinfo`.
pub record ClientSocket : Type 0 where
  pub has_callback : Bool
  pub socket : ℤ
  pub status : ClientSocketStatus
  pub addr_res : Bool
  pub closed : List ℤ
  pub frees : ℕ

unfoldable pub new_client_socket : Bool → ClientSocket
new_client_socket has_callback = record {
  has_callback = has_callback;
  socket = pos 0;
  status = css_none;
  addr_res = false;
  closed = [];
  frees = 0;
}

-- The answers to `Connect`: whether `getaddrinfo` set a result, the descriptor of `socket`, and
-- the result of `connect`.
pub record Dial : Type 0 where
  pub resolved : Bool
  pub descriptor : ℤ
  pub result : ℤ

abbrev when : Bool → SocketCallback → Option SocketCallback
when true c = some c
when false c = none

-- `Connect`, with the callback that it makes. `none` is a use of a null pointer: of the address
-- if it was not resolved, or of the callback on a web socket.
unfoldable pub connect : ClientSocket → ℕ → Dial → Option (ClientSocket × Option SocketCallback)
connect s type d =
    if type == connect_tcp
    then if d.resolved
      then if eq_ℤ d.result (pos 0)
        then some (
          record s { socket = d.descriptor; status = css_connected; addr_res = true },
          when s.has_callback on_connect,
        )
        else some (
          record s { socket = d.descriptor; status = css_disconnect; addr_res = true },
          when s.has_callback on_disconnect,
        )
      else none
    else if type == connect_websock
    then if s.has_callback then some (s, some on_connect) else none
    else some (s, none)

-- The first half of `Close`: the descriptor.
shut : ClientSocket → ClientSocket
shut s =
    if is_connected s.status
    then record s { closed = s.closed ++ s.socket ∷ []; status = css_disconnect; socket = pos 0 }
    else s

-- The second half: the address.
free : ClientSocket → ClientSocket
free s = if s.addr_res then record s { frees = s.frees + 1; addr_res = false } else s

unfoldable pub close : ClientSocket → ClientSocket
unfolding shut free
close s = free (shut s)

unfoldable pub disconnect : ClientSocket → ClientSocket
disconnect s = close s

-- `Send`, on the result of the system's `send`.
unfoldable pub send : ClientSocket → ℤ → ClientSocket × ℤ
send s r =
    if is_connected s.status then if eq_ℤ r (pos 0) then (close s, r) else (s, r) else (s, pos 0)

-- `Recv`, on the result of the system's `recv`.
unfoldable pub recv : ClientSocket → ℤ → ClientSocket × ℤ
recv s r =
    if is_connected s.status then if eq_ℤ r (pos 0) then (close s, r) else (s, r) else (s, pos 0)
