-- ===== src/Acceptor.antt =====
-- ARST_QUOTE/ARSTServer.cpp: the accepting half of `ARSTClients`, with its server socket.
pub mod Accepting
use mathlib.Core.Option
use cta_alristrol_gallardo_v.Base.{
  ℕ, ◌+◌, Bool, true, Option, none, some, List, [], ◌∷◌, ◌++◌, if◌then◌else◌, ℤ,
}
use cta_alristrol_gallardo_v.Text.{decimal}
use cta_alristrol_gallardo_v.Clients
use cta_alristrol_gallardo_v.Clients.{Clients, accept_client}
use cta_alristrol_gallardo_v.ServerSocket
use cta_alristrol_gallardo_v.ServerSocket.{
  ServerSocket, ListenAnswers, new_server_socket, is_listening,
}

-- `started` tells that `Start` was called.
pub record Acceptor : Type 0 where
  pub clients : Clients
  pub server_socket : Option ServerSocket
  pub started : Bool

-- The four bytes of an IPv4 address, of which each is below 256.
pub record Ipv4 : Type 0 where
  pub a : ℕ
  pub b : ℕ
  pub c : ℕ
  pub d : ℕ

-- What the system returns to `accept`, and the address that it fills in.
pub record Accepted : Type 0 where
  pub descriptor : ℤ
  pub ip : Ipv4

-- `sprintf` of "%d.%d.%d.%d".
unfoldable pub ip_text : Ipv4 → List ℕ
ip_text i = decimal i.a ++ 46 ∷ (decimal i.b ++ 46 ∷ (decimal i.c ++ 46 ∷ decimal i.d))

unfoldable pub on_listening : Acceptor → Acceptor
on_listening c = record c { started = true }

-- `SetConfiguration`; `none` is a null pointer used in `Listen`.
unfoldable pub set_configuration :
    Acceptor → List ℕ → List ℕ → List ℕ → ℕ → ListenAnswers → Option Acceptor
unfolding on_listening
set_configuration c listen_port heart_beat_time epid_num service a =
    let configured = record c {
      clients = record c.clients {
        listen_port = listen_port;
        heart_beat_time = heart_beat_time;
        epid_num = epid_num;
        service = service;
        has_server_socket = true;
      };
    } in
    elim (ServerSocket.listen (new_server_socket true) a) [
      | none ↦ none
      | some (s, called) ↦
          let listening = record configured { server_socket = some s } in
          some (if called then on_listening listening else listening)
    ]

-- The body of the loop in `Run`.
unfoldable pub accept_one : Clients → Accepted → Clients
unfolding ip_text
accept_one cs p = accept_client cs (record { socket = p.descriptor; ip = ip_text p.ip })

-- `Run`, over what the system accepts; at the end of the list it waits for the next.
unfoldable pub run : Clients → ServerSocket → List Accepted → Clients
unfolding accept_one
run cs s [] = cs
run cs s (p ∷ ps) =
    let rest = run (accept_one cs p) s ps in
    if is_listening (ServerSocket.get_status s) then rest else cs

-- The destructor, less the deletion of the server socket; `none` is an address freed twice.
unfoldable pub destroy : Acceptor → Option Acceptor
destroy c =
    let cleared = record c { clients = record c.clients { slots = [] }; server_socket = none } in
    elim c.server_socket [
      | none ↦ some cleared
      | some s ↦ Option.map (λ _. cleared) (ServerSocket.shutdown_server s)
    ]
