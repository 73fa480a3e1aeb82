-- ===== src/Clients.antt =====
-- ARST_QUOTE/ARSTServer.cpp and .h: the accepted clients (`ARSTClients`), and the constructor of
-- `ARSTClient` in ARST_QUOTE/ARSTServiceHandler.cpp. The locks of the vector are not modelled:
-- each function below is one critical section or is run by one thread.
pub mod Sweep
pub mod Walk
use Prim.Native.Nat.{bit_and}
use cta_alristrol_gallardo_v.Client.{Client, ClientAddrInfo, cs_none, is_offline}
use cta_alristrol_gallardo_v.Base.{
  ℕ, zero, suc, ◌+◌, Bool, not, ◌&&◌, Option, none, some, List, [], ◌∷◌, ◌++◌, ◌==◌, if◌then◌else◌,
  length, get_elem?, ℤ, pos, ◌^◌,
}
use cta_alristrol_gallardo_v.Text.{stoi, Parsed, number, invalid_argument, out_of_range}

-- A `shared_ptr<ARSTClient>` in the vector, with its `use_count`. `taken` is what the system has taken
-- of the bytes that the loop of `ARSTQueueDAO::Run` offered for this client to `send`.
pub record Slot : Type 0 where
  pub client : Client
  pub use_count : ℕ
  pub taken : List ℕ

-- `has_server_socket` tells whether `m_pServerSocket` is set, and `closed` lists the descriptors
-- that its `ShutdownClient` has closed, in order.
pub record Clients : Type 0 where
  pub slots : List Slot
  pub has_server_socket : Bool
  pub listen_port : List ℕ
  pub heart_beat_time : List ℕ
  pub epid_num : List ℕ
  pub service : ℕ
  pub closed : List ℤ

-- The interval that the constructor of `ARSTClient` hands to its heartbeat. An exception of
-- `stoi` is caught, and leaves the heartbeat's own 0.
unfoldable pub beat_interval_of : Parsed → ℤ
beat_interval_of (number n) = n
beat_interval_of invalid_argument = pos 0
beat_interval_of out_of_range = pos 0

unfoldable pub new_client : Clients → ClientAddrInfo → Client
unfolding beat_interval_of
new_client cs addr = record {
  addr = addr;
  status = cs_none;
  epid = cs.epid_num;
  beat_interval = beat_interval_of (stoi cs.heart_beat_time);
  replies = 0;
}

unfoldable pub push_back_client_to_vector : Clients → Slot → Clients
push_back_client_to_vector cs s = record cs { slots = cs.slots ++ s ∷ [] }

-- `vector::erase` at an index.
pub erase {ℓ} : {A : Type ℓ} → List A → ℕ → List A
erase [] i = []
erase (x ∷ xs) zero = xs
erase (x ∷ xs) (suc i) = x ∷ erase xs i

unfoldable pub erase_client_from_vector : Clients → ℕ → Clients
unfolding erase
erase_client_from_vector cs i = record cs { slots = erase cs.slots i }

unfoldable pub shutdown_client : Clients → ℤ → Clients
shutdown_client cs fd =
    if cs.has_server_socket then record cs { closed = cs.closed ++ fd ∷ [] } else cs

-- `GetStatus() == csOffline && unique()`.
abbrev pub is_dead : Slot → Bool
is_dead s = is_offline s.client.status && (s.use_count == 1)

-- The loop of `CheckClientVector`, at an index for the iterator; `none` is fuel run out.
check_loop : ℕ → Clients → ℕ → Option Clients
unfolding erase_client_from_vector shutdown_client
check_loop zero cs i = none
check_loop (suc fuel) cs i = elim (get_elem? cs.slots i) [
  | none ↦ some cs
  | some s ↦
      let erased =
        check_loop fuel (erase_client_from_vector (shutdown_client cs s.client.addr.socket) i) i in
      let kept = check_loop fuel cs (i + 1) in if is_dead s then erased else kept
]

-- `CheckClientVector`, with fuel for one turn a client and the last test.
unfoldable pub check_client_vector : Clients → Option Clients
unfolding check_loop
check_client_vector cs = check_loop (length cs.slots + 1) cs 0

-- One turn of `Run`: what `Accept` returned goes into a new client, also if it is -1.
unfoldable pub accept_client : Clients → ClientAddrInfo → Clients
unfolding new_client push_back_client_to_vector
accept_client cs addr =
    push_back_client_to_vector cs
      (record { client = new_client cs addr; use_count = 1; taken = [] })

-- `Run`, over what `Accept` returns while the server socket listens.
unfoldable pub run : Clients → List ClientAddrInfo → Clients
unfolding accept_client
run cs [] = cs
run cs (a ∷ as') = run (accept_client cs a) as'

-- `IsServiceRunning`: the bit of the market is set in `m_nService`.
unfoldable pub is_service_running : Clients → ℕ → Bool
is_service_running cs market = not (bit_and cs.service (2 ^ market) == 0)
