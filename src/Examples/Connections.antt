-- ===== src/Examples/Connections.antt =====
-- Connections to an exchange: two that succeed, one that is used and closed, one that is remade.
use cta_alristrol_gallardo_v.Base.{ℕ, ◌+◌, ◌≡◌, refl, true, some, List, [], ◌∷◌, arith, pos}
use cta_alristrol_gallardo_v.ClientSocket.{
  ClientSocket, new_client_socket, connect, connect_tcp, on_connect, Dial, css_connected,
}
use cta_alristrol_gallardo_v.ClientSocket.Closing.{
  sends, recvs, disconnects, use_all, Ledger, connect-Ledger,
}
use cta_alristrol_gallardo_v.WebConn.{Server, ss_breakdown}
use cta_alristrol_gallardo_v.WebConn.Closing.{destroy}
use cta_alristrol_gallardo_v.WebConn.Status.{dialled}
use cta_alristrol_gallardo_v.Servers.{ServerInfo, Config, Servers, ok, check_client_vector}
use cta_alristrol_gallardo_v.Servers.Revival.{Resolves, Fates, check_client_vector-Fates}
use cta_alristrol_gallardo_v.Examples.Lines.{line_server}

abbrev up_dial : Dial
up_dial = record { resolved = true; descriptor = pos 4; result = pos 0 }

connect-Ledger_example :
    (s : ClientSocket) × (connect (new_client_socket true) connect_tcp up_dial
      ≡ some (s, some on_connect))
    × Ledger (pos 4) (use_all s (recvs (pos 9) ∷ sends (pos 0) ∷ disconnects ∷ []))
connect-Ledger_example = connect-Ledger (pos 4) (recvs (pos 9) ∷ sends (pos 0) ∷ disconnects ∷ [])

-- A network that lets every connection succeed, with the next descriptor.
pub counted_dial : ServerInfo → ℕ → Dial × ℕ
counted_dial i n = (record { resolved = true; descriptor = pos n; result = pos 0 }, n + 1)

pub counted_dial-Resolves : Resolves counted_dial
unfolding counted_dial
counted_dial-Resolves i n = refl

abbrev pub entry : ServerInfo
entry = record { host = []; para = []; name = 66 ∷ [] }

abbrev pub config : Config
config = record { server_count = 1; server_set = 0; server_info = entry ∷ [] }

abbrev pub broken_pool : Servers
broken_pool = record {
  configs = config ∷ [];
  pool = record line_server { status = ss_breakdown } ∷ line_server ∷ [];
  errors = 0;
}

check_client_vector-Fates_example :
    (pool' : List Server) × (net' : ℕ) × (check_client_vector counted_dial broken_pool 5
      ≡ ok (record broken_pool { pool = pool' }, net'))
    × Fates counted_dial (entry ∷ []) broken_pool.pool pool'
check_client_vector-Fates_example =
    check_client_vector-Fates counted_dial broken_pool config [] 5 refl counted_dial-Resolves
      (omega arith)

-- A connection that is destroyed leaves its descriptor open.
left_open : (destroy line_server).1 ≡ some (dialled up_dial css_connected)
unfolding destroy
left_open = refl
