-- ===== src/WebConn/Status.antt =====
-- The status of a connection of ARST_QUOTE/ARSTWebConn.cpp after it was made.
use cta_alristrol_gallardo_v.Base.{
  ℕ, ◌≡◌, ◌≢◌, inl, inr, true, false, none, some, List, [], arith, Bool-cases, pos, eq_ℤ,
}
use cta_alristrol_gallardo_v.ClientSocket
use cta_alristrol_gallardo_v.ClientSocket.{
  ClientSocket, css_connected, css_disconnect, Dial, ClientSocketStatus,
}
use cta_alristrol_gallardo_v.WebConn.{
  Server, ss_none, ss_breakdown, new_server, dial, on_connected, on_disconnected,
}

-- What a dial leaves in the server's socket, by the result of `connect`.
abbrev pub dialled : Dial → ClientSocketStatus → ClientSocket
dialled d st = record {
  has_callback = true;
  socket = d.descriptor;
  status = st;
  addr_res = true;
  closed = [];
  frees = 0;
}

abbrev fresh : List ℕ → List ℕ → List ℕ → ℕ → Server
fresh host para name market = record {
  host = host;
  para = para;
  name = name;
  market = market;
  status = ss_none;
  socket = none;
  started = false;
  has_heartbeat = false;
  replies = 0;
}

-- A connection that is made to an address that resolves: if `connect` succeeds it has a connected
-- socket, its thread is started and its status is still none; if not, its thread is not started
-- and it is broken down from the first. If the address does not resolve, a null pointer is used.
pub new_server_cases :
    (host para name : List ℕ) (market : ℕ) (d : Dial)
    → let s = fresh host para name market in
      (d.resolved ≡ true
        → d.result ≡ pos 0
        → new_server host para name market d
          ≡ some (record s { socket = some (dialled d css_connected); started = true }))
      × (d.resolved ≡ true
          → d.result ≢ pos 0
          → new_server host para name market d
            ≡ some (record s { socket = some (dialled d css_disconnect); status = ss_breakdown }))
      × (d.resolved ≡ false → new_server host para name market d ≡ none)
unfolding new_server ClientSocket.connect ClientSocket.new_client_socket
new_server_cases host para name market d =
    (λ r z. ground arith, λ r z. ground arith, λ r. ground arith)

dial-some : (s : Server) (d : Dial) → d.resolved ≡ true → (s' : Server) × (dial s d ≡ some s')
unfolding dial ClientSocket.connect ClientSocket.new_client_socket
dial-some s d r = elim (Bool-cases (eq_ℤ d.result (pos 0))) [
  | inl up ↦ (on_connected (record s { socket = some (dialled d css_connected) }), ground arith)
  | inr down' ↦
      (on_disconnected (record s { socket = some (dialled d css_disconnect) }), ground arith)
]

-- A new connection bears the name that it was given.
pub new_server-name :
    (host para name : List ℕ) (market : ℕ) (d : Dial) (s : Server)
    → new_server host para name market d ≡ some s
    → s.name ≡ name
unfolding new_server ClientSocket.connect ClientSocket.new_client_socket
new_server-name host para name market d s e = ground arith

pub new_server-some :
    (host para name : List ℕ) (market : ℕ) (d : Dial)
    → d.resolved ≡ true
    → (s : Server) × (new_server host para name market d ≡ some s)
unfolding new_server
new_server-some host para name market d r = dial-some (fresh host para name market) d r
