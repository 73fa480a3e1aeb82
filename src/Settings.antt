-- ===== src/Settings.antt =====
-- The configuration readers of ARST_QUOTE/ARSTMain.cpp. GLib's key file is a parameter: whether it
-- could be loaded, and for a section and a key an integer or a string, or neither where GLib
-- reports an error; it then returns 0 or a null pointer.
pub mod Entries
use cta_alristrol_gallardo_v.Base.{
  ℕ, zero, suc, ◌+◌, Bool, ◌&&◌, Option, none, some, List, [], ◌∷◌, ◌++◌, if◌then◌else◌, take,
}
use cta_alristrol_gallardo_v.Text.{codes, decimal2}
use cta_alristrol_gallardo_v.Servers.{ServerInfo, Config}

pub record KeyFile : Type 0 where
  pub created : Bool
  pub loads : Bool
  pub get_integer : List ℕ → List ℕ → Option ℕ
  pub get_string : List ℕ → List ℕ → Option (List ℕ)

-- How a reader ends: it returns true with what it read, or false, or it makes a `std::string` of a
-- null pointer.
pub data Reading (A : Type 0) : Type 0 where
  read : A → Reading A
  failed null_string : Reading A

infixl 5 ◌>>=◌
abbrev pub ◌>>=◌ : {A B : Type 0} → Reading A → (A → Reading B) → Reading B
read a >>= f = f a
failed >>= f = failed
null_string >>= f = null_string

-- An integer that is missing is logged, and is 0.
abbrev pub integer : KeyFile → List ℕ → List ℕ → ℕ
integer k section key = elim (k.get_integer section key) [ none ↦ 0 | some n ↦ n ]

-- A string that is missing is a null pointer, from which the assignment makes a string.
abbrev pub string : KeyFile → List ℕ → List ℕ → Reading (List ℕ)
string k section key = elim (k.get_string section key) [ none ↦ null_string | some s ↦ read s ]

-- `if (!keyfile)`, and the load.
abbrev pub opened : {A : Type 0} → KeyFile → Reading A → Reading A
opened k r = if k.created && k.loads then r else failed

-- `snprintf` of a prefix and "%02d" into 16 bytes.
unfoldable pub key_name : List ℕ → ℕ → List ℕ
key_name pre n = take 15 (pre ++ decimal2 n)

abbrev pub ip_prefix : List ℕ
ip_prefix = codes "IP"

abbrev pub port_prefix : List ℕ
port_prefix = codes "PORT"

abbrev pub name_prefix : List ℕ
name_prefix = codes "NAME"

-- The entry of number `n`.
pub read_entry : KeyFile → List ℕ → ℕ → Reading ServerInfo
read_entry k section n = do
  host ← string k section (key_name ip_prefix n)
  para ← string k section (key_name port_prefix n)
  name ← string k section (key_name name_prefix n)
  read (record { host = host; para = para; name = name })

-- The loop over `i`, with `turns` left.
unfoldable pub read_entries : ℕ → ℕ → KeyFile → List ℕ → List ServerInfo → Reading (List ServerInfo)
unfolding read_entry
read_entries zero i k section infos = read infos
read_entries (suc turns) i k section infos =
    read_entry k section (i + 1) >>= λ e. read_entries turns (i + 1) k section (infos ++ e ∷ [])

abbrev pub server_count_key : List ℕ
server_count_key = codes "ServerCount"

abbrev server_set_key : List ℕ
server_set_key = codes "ServerSet"

-- The configuration of the entries and the two integers.
abbrev pub assembled : KeyFile → List ℕ → List ServerInfo → Config
assembled k section infos = record {
  server_count = integer k section server_count_key;
  server_set = integer k section server_set_key;
  server_info = infos;
}

-- `ReadConfigFile` into an empty configuration.
unfoldable pub read_config_file : KeyFile → List ℕ → Reading Config
unfolding read_entries
read_config_file k section = opened k (
    read_entries (integer k section server_count_key) 0 k section [] >>= λ infos.
    read (assembled k section infos))

-- "SERVER", "QUEUE" and their keys.
abbrev server_section : List ℕ
server_section = codes "SERVER"

abbrev queue_section : List ℕ
queue_section = codes "QUEUE"

-- What `ReadClientConfigFile` reads.
pub record ClientSettings : Type 0 where
  pub epid_num : List ℕ
  pub listen_port : List ℕ
  pub heart_beat_time : List ℕ

unfoldable pub read_client_config_file : KeyFile → Reading ClientSettings
read_client_config_file k = opened k (do
  epid ← string k server_section (codes "EpidNum")
  port ← string k server_section (codes "ListenPort")
  time ← string k server_section (codes "HeartBeatTime")
  read (record { epid_num = epid; listen_port = port; heart_beat_time = time }))

-- What `ReadQueueDAOConfigFile` reads. The keys are read as counts: a negative one is left out.
pub record QueueSettings : Type 0 where
  pub service : List ℕ
  pub number_of_queue_dao : ℕ
  pub write_start_key : ℕ
  pub write_end_key : ℕ
  pub read_start_key : ℕ
  pub read_end_key : ℕ
  pub monitor_key : ℕ

unfoldable pub read_queue_dao_config_file : KeyFile → Reading QueueSettings
read_queue_dao_config_file k = opened k (do
  service ← string k queue_section (codes "Service")
  read (record {
    service = service;
    number_of_queue_dao = integer k queue_section (codes "NumberOfQueueDAO");
    write_start_key = integer k queue_section (codes "QueueNodeWriteStartKey");
    write_end_key = integer k queue_section (codes "QueueNodeWriteEndKey");
    read_start_key = integer k queue_section (codes "QueueNodeReadStartKey");
    read_end_key = integer k queue_section (codes "QueueNodeReadEndKey");
    monitor_key = integer k queue_section (codes "QueueNodeMonitorKey");
  }))
