-- ===== src/Examples/Programs.antt =====
-- A program with one connection.
use cta_alristrol_gallardo_v.Base.{ℕ, ◌≡◌, refl, false, [], ◌∷◌, ◌++◌}
use cta_alristrol_gallardo_v.Text.{codes, decimal2}
use cta_alristrol_gallardo_v.Clients.Sweep.{survivors}
use cta_alristrol_gallardo_v.Servers.StartUp.{MadeFrom}
use cta_alristrol_gallardo_v.Settings.{
  KeyFile, read, failed, ClientSettings, QueueSettings, read_client_config_file, read_config_file,
  read_queue_dao_config_file, key_name,
}
use cta_alristrol_gallardo_v.Program.{Program, start, turns, runs, goes_on, exchange_section}
use cta_alristrol_gallardo_v.Program.Turns.{start-turns, listening}
use cta_alristrol_gallardo_v.Examples.Connections.{counted_dial, counted_dial-Resolves}
use cta_alristrol_gallardo_v.Examples.Files.{file, one_entry}
use cta_alristrol_gallardo_v.Examples.Acceptors.{answers}
use cta_alristrol_gallardo_v.Examples.Sending.{alice}

-- Every string of the file is the name of its key.
abbrev client_settings : ClientSettings
client_settings = record {
  epid_num = codes "EpidNum";
  listen_port = codes "ListenPort";
  heart_beat_time = codes "HeartBeatTime";
}

abbrev queue_settings : QueueSettings
queue_settings = record {
  service = codes "Service";
  number_of_queue_dao = 1;
  write_start_key = 1;
  write_end_key = 1;
  read_start_key = 1;
  read_end_key = 1;
  monitor_key = 1;
}

client_file_read : read_client_config_file file ≡ read client_settings
unfolding read_client_config_file
client_file_read = refl

exchange_file_read : read_config_file file exchange_section ≡ read one_entry
unfolding read_config_file key_name decimal2
exchange_file_read = refl

queue_file_read : read_queue_dao_config_file file ≡ read queue_settings
unfolding read_queue_dao_config_file
queue_file_read = refl

-- Between the turns a client comes.
abbrev client_comes : Program → Program
client_comes p = record p {
  acceptor = record p.acceptor {
    clients = record p.acceptor.clients {
      slots = p.acceptor.clients.slots ++ record { client = alice; use_count = 1; taken = [] } ∷ [];
    };
  };
}

start-turns_example :
    (p p' : Program) × (net1 net2 : ℕ) × (start counted_dial answers file file file 4 ≡ runs p net1)
    × MadeFrom counted_dial one_entry.server_info p.servers.pool
    × (p.acceptor ≡ listening counted_dial answers client_settings)
    × (turns counted_dial (client_comes ∷ client_comes ∷ []) p net1 ≡ goes_on p' net2)
    × (survivors p'.acceptor.clients.slots ≡ p'.acceptor.clients.slots)
start-turns_example =
    start-turns counted_dial answers file file file client_settings one_entry queue_settings 4
      (client_comes ∷ client_comes ∷ []) client_file_read exchange_file_read queue_file_read
      counted_dial-Resolves refl (λ e. cc) ((λ p. refl), ((λ p. refl), tt))

-- The file is gone at its third reading.
abbrev gone_file : KeyFile
gone_file = record file { loads = false }

gone_file_read : read_queue_dao_config_file gone_file ≡ failed
unfolding read_queue_dao_config_file
gone_file_read = refl
