-- ===== src/ServerSocket/Shutting.antt =====
-- Listening and closing in ARST_QUOTE/ARSTCommon/ARSTServerSocket.cpp.
use cta_alristrol_gallardo_v.Base.{
  ◌≡◌, refl, sym, ap, ◌∙◌, ◌≢◌, true, none, some, List, [], ◌∷◌, ◌++◌, append-nil, append_assoc,
  arith, ℤ, pos, negsuc, eq_ℤ_iff,
}
use cta_alristrol_gallardo_v.ServerSocket.{
  ServerSocket, ListenAnswers, held, freed, sss_listening, sss_shutdown, new_server_socket, listen,
  close, shutdown_server, shutdown_client,
}

-- The socket that a successful `Listen` leaves.
abbrev pub listener : ListenAnswers → ServerSocket
listener a = record {
  has_callback = true;
  socket = a.descriptor;
  status = sss_listening;
  addr_res = held;
  closed = [];
}

pub listen-listener :
    (a : ListenAnswers)
    → a.resolved ≡ true
    → a.listening ≢ negsuc 0
    → listen (new_server_socket true) a ≡ some (listener a, true)
unfolding listen new_server_socket
listen-listener a r l = ground (arith, eq_ℤ_iff a.listening (negsuc 0))

-- `ShutdownClient` for clients in turn.
pub shutdown_clients : ServerSocket → List ℤ → ServerSocket
shutdown_clients s [] = s
shutdown_clients s (fd ∷ fds) = shutdown_clients (shutdown_client s fd) fds

shutdown_clients_lem :
    (s : ServerSocket) (fds : List ℤ)
    → shutdown_clients s fds ≡ record s { closed = s.closed ++ fds }
unfolding shutdown_clients shutdown_client
shutdown_clients_lem s [] = ap (λ c. record s { closed = c }) (sym (append-nil s.closed))
shutdown_clients_lem s (fd ∷ fds) =
    shutdown_clients_lem (shutdown_client s fd) fds
    ∙ ap (λ c. record s { closed = c }) (append_assoc s.closed (fd ∷ []) fds)

-- A new socket listens if its address resolves and `listen` does not fail, whatever `bind` has
-- answered, and then calls `OnListening`. It shuts down some clients, and then itself: the
-- descriptors of the clients are closed, in their order, and then its own, and the address is freed.
-- To shut it down again frees the address again.
pub shutdown_server-once :
    (a : ListenAnswers) (fds : List ℤ)
    → a.resolved ≡ true
    → a.listening ≢ negsuc 0
    → (s s' : ServerSocket) × (listen (new_server_socket true) a ≡ some (s, true))
      × (shutdown_server (shutdown_clients s fds) ≡ some s')
      × (s'.status ≡ sss_shutdown)
      × (s'.addr_res ≡ freed)
      × (s'.closed ≡ fds ++ a.descriptor ∷ [])
      × (shutdown_server s' ≡ none)
unfolding shutdown_server close
shutdown_server-once a fds r l = (
  listener a,
  record (listener a) {
    socket = pos 0;
    status = sss_shutdown;
    addr_res = freed;
    closed = fds ++ a.descriptor ∷ [];
  },
  listen-listener a r l,
  rw (shutdown_clients_lem (listener a) fds) refl,
  refl,
  refl,
  refl,
  refl,
)
