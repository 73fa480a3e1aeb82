-- ===== src/WebConn.antt =====
-- ARST_QUOTE/ARSTWebConn.cpp and .h: a connection to an exchange (`ARSTServer`), whose thread reads
-- lines and hands each to the queue. `recv` is the operating system's: of a count and the state of
-- the network it gives its `int` result and the bytes that it wrote.
-- The lock of the status is the subject of `Lock`; here each function runs by itself.
pub mod Closing
pub mod Status
pub mod Lock
pub mod Feed
pub mod Reading
pub mod Lines
pub mod Stream
pub mod Ending
use mathlib.Core.Option
use cta_alristrol_gallardo_v.Base.{
  ℕ, zero, suc, ◌+◌, ◌-◌, Bool, true, false, Option, none, some, List, [], ◌∷◌, ◌++◌, map, ◌==◌,
  if◌then◌else◌, bytes_eq, replicate, ℤ, pos, negsuc,
}
use cta_alristrol_gallardo_v.Text.{c_string}
use cta_alristrol_gallardo_v.Queue.{overwrite}
use cta_alristrol_gallardo_v.ClientSocket
use cta_alristrol_gallardo_v.ClientSocket.{
  ClientSocket, SocketCallback, on_connect, on_disconnect, Dial, connect_tcp,
}

pub data ServerStatus : Type 0 where
  ss_none ss_free ss_inuse ss_breakdown ss_reconnecting : ServerStatus

abbrev pub is_serving : ServerStatus → Bool
is_serving ss_free = true
is_serving ss_inuse = true
is_serving _ = false

-- The fields that the code reads. `started` tells that `Start` was called, `has_heartbeat` that
-- `m_pHeartbeat` is set, and `replies` counts the calls of its `TriggerGetReplyEvent`.
pub record Server : Type 0 where
  pub host : List ℕ
  pub para : List ℕ
  pub name : List ℕ
  pub market : ℕ
  pub status : ServerStatus
  pub socket : Option ClientSocket
  pub started : Bool
  pub has_heartbeat : Bool
  pub replies : ℕ

unfoldable pub set_status : Server → ServerStatus → Server
set_status s st = record s { status = st }

unfoldable pub get_status : Server → ServerStatus
get_status s = s.status

-- The two branches that log differ from doing nothing only in the log.
trigger_get_reply_event : Server → Server
trigger_get_reply_event s = if s.has_heartbeat then record s { replies = s.replies + 1 } else s

abbrev pub is_none : ServerStatus → Bool
is_none ss_none = true
is_none _ = false

abbrev pub is_reconnecting : ServerStatus → Bool
is_reconnecting ss_reconnecting = true
is_reconnecting _ = false

unfoldable pub on_connected : Server → Server
unfolding set_status trigger_get_reply_event
on_connected s =
    if is_none s.status
    then record s { started = true }
    else if is_reconnecting s.status
    then trigger_get_reply_event (set_status s ss_free)
    else s

unfoldable pub on_disconnected : Server → Server
unfolding set_status
on_disconnected s = set_status s ss_breakdown

unfoldable pub on_heartbeat_lost : Server → Server
unfolding set_status
on_heartbeat_lost s = set_status s ss_breakdown

unfoldable pub on_heartbeat_error : Server → Server
unfolding set_status
on_heartbeat_error s = set_status s ss_breakdown

-- The callback of the socket reaches the server.
abbrev called_back : Server → Option SocketCallback → Server
called_back s none = s
called_back s (some on_connect) = on_connected s
called_back s (some on_disconnect) = on_disconnected s

-- A new socket, dialled over TCP; `none` is a null pointer used.
dial : Server → Dial → Option Server
unfolding on_connected on_disconnected
dial s d = elim (ClientSocket.connect (ClientSocket.new_client_socket true) connect_tcp d) [
  | none ↦ none
  | some (sock, c) ↦ some (called_back (record s { socket = some sock }) c)
]

-- The constructor, with the answers to its `Connect`.
unfoldable pub new_server : List ℕ → List ℕ → List ℕ → ℕ → Dial → Option Server
unfolding dial
new_server host para name market d =
    dial
      (record {
        host = host;
        para = para;
        name = name;
        market = market;
        status = ss_none;
        socket = none;
        started = false;
        has_heartbeat = false;
        replies = 0;
      })
      d

unfoldable pub reconnect_socket : Server → Dial → Option Server
unfolding dial set_status
reconnect_socket s d = elim (dial (set_status s ss_reconnecting) d) [
  | none ↦ none
  | some s' ↦ some (set_status s' ss_none)
]

-- The start of the thread: the heartbeat is made and started, and the server is free.
unfoldable pub run_start : Server → Server
unfolding set_status
run_start s = set_status (record s { has_heartbeat = true }) ss_free

-- What `RecvAll` leaves: the server, the network, the bytes that it wrote, and its result.
pub record Got (Net : Type 0) : Type 0 where
  pub server : Server
  pub net : Net
  pub bytes : List ℕ
  pub result : Bool

-- What the loop over the bytes of a line leaves; `result` is `bRecvAll`.
abbrev pub ahead : {Net : Type 0} → List ℕ → Got Net → Got Net
ahead bs g = record g { bytes = bs ++ g.bytes }

pub data Round (Net : Type 0) : Type 0 where
  -- A line was handed to the queue.
  sends : Server → Net → List ℕ → Round Net
  -- The thread sleeps for good, to be replaced.
  down : Server → Net → Round Net
  -- The status forbids to read.
  waits : Server → Net → Round Net
  -- The string of the buffer runs off its end.
  faults : Round Net
  -- None of the program's.
  out_of_fuel : Round Net

abbrev pub buffersize : ℕ
buffersize = 1024

abbrev pub newline : ℕ
newline = b'\n'

module _ {Net : Type 0} (recv : ℕ → Net → ℤ × List ℕ × Net) where
  -- What a turn of `RecvAll` does with the result of `Recv`, of `left` bytes wanted. It is assumed
  -- here that the system returns at most what is wanted.
  judge : Server → ℕ → ℤ → List ℕ → Net → (ℕ → Option (Got Net)) → Option (Got Net)
  judge s left (negsuc k) bytes net more =
      some (record { server = s; net = net; bytes = []; result = false })
  judge s left (pos k) bytes net more =
      if k == 0
      then some (record { server = s; net = net; bytes = []; result = k == left })
      else if k == left
      then some (record { server = s; net = net; bytes = bytes; result = true })
      else Option.map (ahead bytes) (more k)

  -- A turn on the server's socket, or its end where there is none.
  take_turn :
      Option ClientSocket
      → Server
      → ℕ
      → ℕ
      → Net
      → (Server → Net → ℕ → Option (Got Net))
      → Option (Got Net)
  take_turn none s left n_recv net more =
      some (record { server = s; net = net; bytes = []; result = n_recv == left })
  take_turn (some sock) s left n_recv net more =
      let (r, bytes, net') = recv left net in
      let (sock', r') = ClientSocket.recv sock r in
      let s' = record s { socket = some sock' } in judge s' left r' bytes net' (more s' net')

  -- One turn of `RecvAll`, from `nToRecv -= nRecv` on.
  recv_loop : ℕ → Server → ℕ → ℕ → Net → Option (Got Net)
  unfolding take_turn judge
  recv_loop zero s n_to_recv n_recv net = none
  recv_loop (suc fuel) s n_to_recv n_recv net =
      let left = n_to_recv - n_recv in
      take_turn s.socket s left n_recv net (λ s' net' k. recv_loop fuel s' left k net')

  pub recv_all : Server → ℕ → Net → Option (Got Net)
  unfolding recv_loop
  recv_all s n_to_recv net = recv_loop (n_to_recv + 1) s n_to_recv 0 net

  -- The loop over `char_index`, with `room` bytes of the buffer left. A line stops at a failure,
  -- at a newline, which it keeps, or where the buffer is full.
  pub read_line : ℕ → Server → Net → Option (Got Net)
  unfolding trigger_get_reply_event
  read_line zero s net = some (record { server = s; net = net; bytes = []; result = true })
  read_line (suc room) s net = elim (recv_all s 1 net) [
    | none ↦ none
    | some g ↦ elim g.result [
      | false ↦ some (record g { bytes = [] })
      | true ↦ elim (bytes_eq g.bytes (newline ∷ [])) [
        | true ↦ some g
        | false ↦
            Option.map (ahead g.bytes) (read_line room (trigger_get_reply_event g.server) g.net)
      ]
    ]
  ]

  -- What follows the line: the thread gives up, or the buffer's string goes to the queue.
  forward : Option (Got Net) → Round Net
  unfolding set_status
  forward none = out_of_fuel
  forward (some g) =
      if g.result
      then elim (c_string (overwrite g.bytes (replicate buffersize 0))) [
        | none ↦ faults
        | some text ↦ sends g.server g.net text
      ]
      else down (set_status g.server ss_breakdown) g.net

  -- One round of `Run`.
  pub round : Server → Net → Round Net
  unfolding forward
  round s net =
      let read = forward (read_line buffersize s net) in
      if is_serving s.status then read else waits s net
