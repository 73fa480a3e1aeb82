-- ===== src/Program/Turns.antt =====
-- What `main` of ARST_QUOTE/ARSTMain.cpp starts, and that its loop goes on.
use cta_alristrol_gallardo_v.Base.{
  ◌≤◌, ◌≡◌, refl, sym, ap, subst, ◌∙◌, ◌≢◌, true, List, [], ◌∷◌, ◌++◌, arith, if◌then◌else◌, length,
  take, All, take-le, negsuc,
}
use cta_alristrol_gallardo_v.ClientSocket.{Dial}
use cta_alristrol_gallardo_v.Clients.Sweep.{
  casualties, survivors-survivors, survivors, check_client_vector-sweeps, survivors-survivors,
}
use cta_alristrol_gallardo_v.ServerSocket.{ListenAnswers}
use cta_alristrol_gallardo_v.Acceptor.{Acceptor}
use cta_alristrol_gallardo_v.Acceptor.Accepting.{configured, set_configuration-configured}
use cta_alristrol_gallardo_v.Servers
use cta_alristrol_gallardo_v.Servers.{ServerInfo, Servers, Config, start_up_servers, ok}
use cta_alristrol_gallardo_v.WebConn.{Server}
use cta_alristrol_gallardo_v.Servers.Revival.{Resolves, Fates, check_client_vector-Fates}
use cta_alristrol_gallardo_v.Servers.StartUp.{MadeFrom, start_up_servers-MadeFrom}
use cta_alristrol_gallardo_v.Settings.{
  failed, KeyFile, read, ClientSettings, QueueSettings, read_config_file, read_client_config_file,
  read_queue_dao_config_file,
}
use cta_alristrol_gallardo_v.Settings.Entries.{read_config_file-Entries}
use cta_alristrol_gallardo_v.Program.{
  exits, connections, start_connections, start_clients, Program, runs, Turned, goes_on,
  exchange_section, no_servers, no_clients, start, turn, turns,
}

-- The pool stands behind a configuration that has as many entries as it counts.
abbrev IsReady : Config → Program → Type 0
IsReady c p = (rest : List Config) × (p.servers.configs ≡ c ∷ rest)

module _ {Net : Type 0} (dial : ServerInfo → Net → Dial × Net) (c : Config) where
  -- The entries that the configuration counts.
  abbrev entries : List ServerInfo
  entries = take c.server_count c.server_info

  -- How a turn ends in a ready program.
  abbrev Swept : Program → Turned Net → Type 0
  Swept p o =
      (p' : Program) × (net' : Net) × (o ≡ goes_on p' net')
      × IsReady c p'
      × (p'.acceptor.clients.slots ≡ survivors p.acceptor.clients.slots)
      × Fates dial entries p.servers.pool p'.servers.pool

  -- The program behind a turn.
  abbrev swept : Program → List Server → Program
  swept p pool' = record {
    servers = record p.servers { pool = pool' };
    acceptor = record p.acceptor {
      clients = record p.acceptor.clients {
        slots = survivors p.acceptor.clients.slots;
        closed =
            if p.acceptor.clients.has_server_socket
            then p.acceptor.clients.closed ++ casualties p.acceptor.clients.slots
            else p.acceptor.clients.closed;
      };
    };
  }

  turn-Swept :
      (p : Program) (net : Net)
      → Resolves dial
      → c.server_count ≤ length c.server_info
      → IsReady c p
      → Swept p (turn dial p net)
  unfolding turn
  turn-Swept p net r l (rest, e) =
      let (pool', net', s, f) = check_client_vector-Fates dial p.servers c rest net e r l in
      (
        swept p pool',
        net',
        rw (check_client_vector-sweeps p.acceptor.clients, turn) (rw (s, turn) refl),
        (rest, e),
        refl,
        f,
      )

  -- Another thread leaves the configurations alone.
  abbrev pub Keeps : (Program → Program) → Type 0
  Keeps f = (p : Program) → (f p).servers.configs ≡ p.servers.configs

  -- The loop goes on, and no client is left that a sweep would drop.
  abbrev Turning : Turned Net → Type 0
  Turning o =
      (p' : Program) × (net' : Net) × (o ≡ goes_on p' net')
      × (survivors p'.acceptor.clients.slots ≡ p'.acceptor.clients.slots)

  turns-Turning :
      (fs : List (Program → Program)) (p : Program) (net : Net)
      → Resolves dial
      → c.server_count ≤ length c.server_info
      → All Keeps fs
      → IsReady c p
      → survivors p.acceptor.clients.slots ≡ p.acceptor.clients.slots
      → Turning (turns dial fs p net)
  unfolding turns
  turns-Turning [] p net r l k v s = (p, net, refl, s)
  turns-Turning (f ∷ fs) p net r l k (rest, e) s =
      let (p1, net1, t, v1, s1, _) = turn-Swept (f p) net r l (rest, k.0 p ∙ e) in
      let (p2, net2, t', s2) =
        turns-Turning fs p1 net1 r l k.1 v1
          (ap survivors s1 ∙ survivors-survivors (f p).acceptor.clients.slots ∙ sym s1) in
      (p2, net2, rw (t, turns) t', s2)

module _ {Net : Type 0} (dial : ServerInfo → Net → Dial × Net) (a : ListenAnswers) where
  -- The acceptor at the start of the loop.
  abbrev pub listening : ClientSettings → Acceptor
  listening cl = configured no_clients cl.listen_port cl.heart_beat_time cl.epid_num 0 a

  start-runs :
      (kc ke kq : KeyFile) (cl : ClientSettings) (c : Config) (q : QueueSettings) (net net1 : Net)
      (sv : Servers)
      → read_client_config_file kc ≡ read cl
      → read_config_file ke exchange_section ≡ read c
      → read_queue_dao_config_file kq ≡ read q
      → start_up_servers dial (Servers.set_configuration no_servers c) net ≡ ok (sv, net1)
      → a.resolved ≡ true
      → a.listening ≢ negsuc 0
      → start dial a kc ke kq net ≡ runs (record { servers = sv; acceptor = listening cl }) net1
  unfolding start
  start-runs kc ke kq cl c q net net1 sv hc he hq s ra rl =
      rw (hc, start)
        (rw he (
          rw (s, start_connections)
            (rw hq (
              rw
                (
                  set_configuration-configured no_clients cl.listen_port cl.heart_beat_time
                      cl.epid_num 0 a ra rl,
                  start_clients,
                )
                refl))))

  -- The configuration file gives all the settings, every address resolves, and `listen` does not
  -- fail. Then `main` reaches its loop: the pool has one connection for each entry of the file, made
  -- from it, in the order of the entries, and the clients listen with the settings of the file. No
  -- number of turns makes a null pointer or an exception stop the loop, whatever the other threads do
  -- to the clients and to the pool between the turns, as long as they leave the configurations alone;
  -- and behind each turn no client is left that is offline and held by nobody else.
  pub start-turns :
      (client_file exchange_file queue_file : KeyFile) (cl : ClientSettings) (c : Config)
      (q : QueueSettings) (net : Net) (others : List (Program → Program))
      → read_client_config_file client_file ≡ read cl
      → read_config_file exchange_file exchange_section ≡ read c
      → read_queue_dao_config_file queue_file ≡ read q
      → Resolves dial
      → a.resolved ≡ true
      → a.listening ≢ negsuc 0
      → All (Keeps dial c) others
      → (p p' : Program) × (net1 net2 : Net) × (start dial a client_file exchange_file queue_file
            net
          ≡ runs p net1)
        × MadeFrom dial c.server_info p.servers.pool
        × (p.acceptor ≡ listening cl)
        × (turns dial others p net1 ≡ goes_on p' net2)
        × (survivors p'.acceptor.clients.slots ≡ p'.acceptor.clients.slots)
  unfolding Servers.set_configuration
  start-turns kc ke kq cl c q net fs hc he hq r ra rl k =
      let (l, _) = read_config_file-Entries ke exchange_section c he in
      let sv0 = Servers.set_configuration no_servers c in
      let (ss, net1, e, m) = start_up_servers-MadeFrom dial sv0 c [] net r refl (omega arith) in
      let p : Program = record { servers = record sv0 { pool = ss }; acceptor = listening cl } in
      let (p', net2, t, s) =
        turns-Turning dial c fs p net1 r (omega arith) k ([], refl) (unfold survivors in refl) in
      (
        p,
        p',
        net1,
        net2,
        start-runs kc ke kq cl c q net net1 (record sv0 { pool = ss }) hc he hq e ra rl,
        subst (λ is. MadeFrom dial is ss) (take-le c.server_count c.server_info (omega arith)) m,
        refl,
        t,
        s,
      )

  -- If the first two readings of the file succeed, every address resolves and the third reading
  -- fails, `main` exits with 1, and the connections to the exchanges are up by then.
  pub start-exits :
      (client_file exchange_file queue_file : KeyFile) (cl : ClientSettings) (c : Config)
      (net : Net)
      → read_client_config_file client_file ≡ read cl
      → read_config_file exchange_file exchange_section ≡ read c
      → read_queue_dao_config_file queue_file ≡ failed
      → Resolves dial
      → start dial a client_file exchange_file queue_file net ≡ exits 1 (connections ∷ [])
  unfolding start
  start-exits kc ke kq cl c net hc he hq r =
      let (l, _) = read_config_file-Entries ke exchange_section c he in
      let sv0 = Servers.set_configuration no_servers c in
      let (ss, net1, e, m) =
        start_up_servers-MadeFrom dial sv0 c [] net r (unfold Servers.set_configuration in refl)
          (omega arith) in
      rw (hc, start) (rw he (rw (e, start_connections) (rw hq refl)))
