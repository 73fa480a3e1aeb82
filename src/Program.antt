-- ===== src/Program.antt =====
-- `main` of ARST_QUOTE/ARSTMain.cpp: the order of the starts, and the loop that sweeps the clients and
-- the connections. The queue DAOs are started by a manager that is not in the repository: here the
-- place of their start is marked, and it is assumed to return.
pub mod Turns
use cta_alristrol_gallardo_v.Base.{ℕ, false, none, some, List, [], ◌∷◌}
use cta_alristrol_gallardo_v.Text.{codes}
use cta_alristrol_gallardo_v.ClientSocket.{Dial}
use cta_alristrol_gallardo_v.Clients
use cta_alristrol_gallardo_v.Clients.{Clients}
use cta_alristrol_gallardo_v.ServerSocket.{ListenAnswers}
use cta_alristrol_gallardo_v.Acceptor
use cta_alristrol_gallardo_v.Acceptor.{Acceptor}
use cta_alristrol_gallardo_v.Servers
use cta_alristrol_gallardo_v.Servers.{
  ServerInfo, Servers, Config, start_up_servers, ok, out_of_range, null_pointer,
}
use cta_alristrol_gallardo_v.Settings.{
  KeyFile, Reading, read, failed, null_string, ClientSettings, QueueSettings, read_config_file,
  read_client_config_file, read_queue_dao_config_file,
}

-- The two objects that the loop looks after.
pub record Program : Type 0 where
  pub servers : Servers
  pub acceptor : Acceptor

-- What has been started, in this order.
pub data Stage : Type 0 where
  connections daos clients : Stage

-- How the starts end: in the loop, by `exit`, or by a null pointer or an exception that nobody
-- catches; with what was started by then.
pub data Start (Net : Type 0) : Type 0 where
  runs : Program → Net → Start Net
  exits : ℕ → List Stage → Start Net
  aborts : List Stage → Start Net

-- How some turns of the loop end.
pub data Turned (Net : Type 0) : Type 0 where
  goes_on : Program → Net → Turned Net
  stops : Turned Net

abbrev pub exchange_section : List ℕ
exchange_section = codes "EXCHANGE"

-- The objects as `GetInstance` makes them.
abbrev pub no_servers : Servers
no_servers = record { configs = []; pool = []; errors = 0 }

abbrev pub no_clients : Acceptor
no_clients = record {
  clients = record {
    slots = [];
    has_server_socket = false;
    listen_port = [];
    heart_beat_time = [];
    epid_num = [];
    service = 0;
    closed = [];
  };
  server_socket = none;
  started = false;
}

module _ {Net : Type 0} (dial : ServerInfo → Net → Dial × Net) (a : ListenAnswers) where
  -- The last start: the clients, with the service 0.
  start_clients : ClientSettings → Servers → Net → Start Net
  start_clients cl sv net =
      elim (Acceptor.set_configuration no_clients cl.listen_port cl.heart_beat_time cl.epid_num 0
        a) [
          | none ↦ aborts (connections ∷ daos ∷ [])
          | some c ↦ runs (record { servers = sv; acceptor = c }) net
        ]

  start_daos : ClientSettings → Reading QueueSettings → Servers → Net → Start Net
  unfolding start_clients
  start_daos cl (read q) sv net = start_clients cl sv net
  start_daos cl failed sv net = exits 1 (connections ∷ [])
  start_daos cl null_string sv net = aborts (connections ∷ [])

  -- The connections, before the settings of the queues are read.
  start_connections : ClientSettings → Reading Config → KeyFile → Net → Start Net
  unfolding start_daos
  start_connections cl (read c) queue_file net =
      elim (start_up_servers dial (Servers.set_configuration no_servers c) net) [
        | ok (sv, net') ↦ start_daos cl (read_queue_dao_config_file queue_file) sv net'
        | out_of_range ↦ aborts []
        | null_pointer ↦ aborts []
      ]
  start_connections cl failed queue_file net = exits 1 []
  start_connections cl null_string queue_file net = aborts []

  start_settings : Reading ClientSettings → KeyFile → KeyFile → Net → Start Net
  unfolding start_connections
  start_settings (read cl) exchange_file queue_file net =
      start_connections cl (read_config_file exchange_file exchange_section) queue_file net
  start_settings failed exchange_file queue_file net = exits 1 []
  start_settings null_string exchange_file queue_file net = aborts []

  -- `main` up to its loop. The configuration file is loaded three times, and may change between.
  pub start : KeyFile → KeyFile → KeyFile → Net → Start Net
  unfolding start_settings
  start client_file exchange_file queue_file net =
      start_settings (read_client_config_file client_file) exchange_file queue_file net

module _ {Net : Type 0} (dial : ServerInfo → Net → Dial × Net) where
  -- One turn of the loop. `none` of the sweep is none of the program's.
  turn : Program → Net → Turned Net
  turn p net = elim (Clients.check_client_vector p.acceptor.clients) [
    | none ↦ stops
    | some cs ↦ elim (Servers.check_client_vector dial p.servers net) [
      | ok (sv, net') ↦
          goes_on (record { servers = sv; acceptor = record p.acceptor { clients = cs } }) net'
      | out_of_range ↦ stops
      | null_pointer ↦ stops
    ]
  ]

  -- The loop, with what the other threads do to the two objects before each turn.
  pub turns : List (Program → Program) → Program → Net → Turned Net
  unfolding turn
  turns [] p net = goes_on p net
  turns (f ∷ fs) p net = elim (turn (f p) net) [
    | goes_on p' net' ↦ turns fs p' net'
    | stops ↦ stops
  ]
