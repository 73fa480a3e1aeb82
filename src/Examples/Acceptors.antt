-- ===== src/Examples/Acceptors.antt =====
-- A server socket on descriptor 5, and what it accepts.
use cta_alristrol_gallardo_v.Base.{
  ◌≡◌, ℤ, refl, true, none, some, List, [], ◌∷◌, ◌++◌, map, pos, negsuc,
}
use cta_alristrol_gallardo_v.ServerSocket.{
  ServerSocket, ListenAnswers, listen, new_server_socket, shutdown_server, sss_shutdown, freed,
}
use cta_alristrol_gallardo_v.ServerSocket.Shutting.{
  listener, shutdown_clients, shutdown_server-once,
}
use cta_alristrol_gallardo_v.Acceptor.{Acceptor, Ipv4, Accepted, set_configuration, run}
use cta_alristrol_gallardo_v.Acceptor.Accepting.{accepted, set_configuration-run, Reads}
use cta_alristrol_gallardo_v.Program.{no_clients}

abbrev pub answers : ListenAnswers
answers = record { resolved = true; descriptor = pos 5; bound = negsuc 0; listening = pos 0 }

shutdown_server-once_example :
    (s s' : ServerSocket) × (listen (new_server_socket true) answers ≡ some (s, true))
    × (shutdown_server (shutdown_clients s (pos 7 ∷ [])) ≡ some s')
    × (s'.status ≡ sss_shutdown)
    × (s'.addr_res ≡ freed)
    × (s'.closed ≡ pos 7 ∷ pos 5 ∷ [])
    × (shutdown_server s' ≡ none)
shutdown_server-once_example = shutdown_server-once answers (pos 7 ∷ []) refl (λ e. cc)

abbrev broadcast_ip : Ipv4
broadcast_ip = record { a = 255; b = 255; c = 255; d = 255 }

abbrev two : List Accepted
two =
    record { descriptor = pos 7; ip = broadcast_ip }
    ∷ record { descriptor = negsuc 0; ip = broadcast_ip }
    ∷ []

set_configuration-run_example :
    (c' : Acceptor) × (set_configuration no_clients (56 ∷ []) (51 ∷ []) (69 ∷ []) 0 answers
      ≡ some c')
    × (c'.started ≡ true)
    × (c'.server_socket ≡ some (listener answers))
    × (c'.clients.heart_beat_time ≡ 51 ∷ [])
    × (c'.clients.epid_num ≡ 69 ∷ [])
    × (interval : ℤ) × Reads (51 ∷ []) interval
    × (run c'.clients (listener answers) two
        ≡ record c'.clients { slots = [] ++ map (accepted (69 ∷ []) interval) two })
set_configuration-run_example =
    set_configuration-run no_clients (56 ∷ []) (51 ∷ []) (69 ∷ []) 0 answers two refl (λ e. cc)
