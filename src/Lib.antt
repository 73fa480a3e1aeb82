-- ===== src/Lib.antt =====
-- A verification of the quote server of ARST_QUOTE/: it reads lines from exchanges, passes them
-- through a message queue, and hands each new tick to the clients that are connected.
--
-- The parts, in the order in which a tick meets them:
--   * a connection to an exchange, `ARSTServer`, whose thread reads lines byte by byte and puts each
--     into the queue; a heartbeat watches it, and a pool, `ARSTServers`, replaces it when it has
--     broken down;
--   * a queue node, `ARSTQueueDAO`, whose thread takes messages from the queue, forms a key of three
--     fields, drops a tick whose key is among those held, and sends any other to each client that
--     is not both offline and held by nobody else;
--   * a client, `ARSTClient`, whose `SendAll` deals with short sends and errors, and the list of the
--     clients, `ARSTClients`, which accepts them and sweeps the dead.
-- `main` starts these parts in turn and then sweeps the clients and the pool for ever. Pipeline
-- and its modules Made and Relay put the way of a tick together, Recovery the loss and the
-- replacement of a connection, Program the starts and the loop.
--
-- Which file models which part (paths of sources from the repository's root):
--   * Heartbeat: ARST_QUOTE/ARSTHeartbeat.cpp. `round` is one turn of `Run`, `run` the loop over the
--     outcomes of its waits; `on_timeout` and `on_event` are its two branches. Heartbeat/Quiet puts
--     the two triggers beside the loop.
--   * Events: the events of the third-party pevents as a parameter, with `waits_of` for the outcomes of
--     the waits that the triggers and the loop share.
--   * Client: ARST_QUOTE/ARSTServiceHandler.cpp. `send_all` is `SendAll`, `send_loop` its loop, and
--     `judge` what a turn does with the result of `send`; Client/Beat is `OnHeartbeatRequest`,
--     and Client/Running `Run`. Client/Wire relates what `send_all` counts as taken to what `send`
--     has put on the wire of the socket.
--   * Clients: ARST_QUOTE/ARSTServer.cpp, and the constructor of a client. A slot is a shared
--     pointer with its use count and with the bytes that the system took for it; `check_client_vector` is `CheckClientVector`, `run` the acceptor.
--     Clients/Walk is the loop of a queue node over the clients beside that sweep, as a step relation.
--   * ServerSocket: ARST_QUOTE/ARSTCommon/ARSTServerSocket.cpp; Acceptor: the half of `ARSTClients`
--     that listens and accepts, `set_configuration` being `SetConfiguration` and `run` being `Run`.
--   * Singleton: `GetInstance` of ARST_QUOTE/ARSTServer.cpp and ARST_QUOTE/ARSTWebConns.cpp, as a step
--     relation on any number of threads that call it.
--   * Queue: ARST_QUOTE/ARSTCommon/ARSTQueue.cpp. The System V calls are parameters, and Queue/Fifo
--     says what is relied on of them.
--   * QueueNode: the object of ARST_QUOTE/ARSTQueueNode.cpp with its two queues; `send_data` is
--     `SendData`, `send_texts` its calls in turn. QueueNode/Keyed and
--     QueueNode/Meeting are about the keys of the queues. In Pipeline/Relay the turns of a sender
--     and of a receiver come in any order.
--   * QueueDao: ARST_QUOTE/ARSTQueueNode.cpp. `round` is one turn of `Run`: `act` on the result of
--     the queue, `handle` on a message, `fresh` and `stale` on a new and a known key; `tokens` and
--     `key_of` form the key, `broadcast` sends, `trim` bounds the window; `run` is the loop.
--     QueueDao/Nodes and QueueDao/Mixed are about the threads of several objects, which share the
--     window: rounds that follow one another, and rounds that overlap, as a step relation.
--     QueueDao/Wire follows what the clients' sockets are sent.
--   * ClientSocket: ARST_QUOTE/ARSTCommon/ARSTClientSocket.cpp, with a record of what was closed.
--   * WebConn: ARST_QUOTE/ARSTWebConn.cpp. `new_server` is the constructor, `round` one turn of
--     `Run`, `read_line` its loop over the bytes, `recv_all` is `RecvAll`. `Lock` models the
--     lock of the status as a step relation on the reading thread and the heartbeat's; Stream is
--     the loop of `Run` over several lines.
--   * Servers: ARST_QUOTE/ARSTWebConns.cpp. `start_up_servers`, `get_server_by_name` and
--     `check_client_vector` are the methods of these names; Monitor is its `OnHeartbeatRequest`.
--   * Settings: the readers of ARST_QUOTE/ARSTMain.cpp. GLib's key file is a parameter.
--   * Program: `main` of that file; `start` is what stands before its loop, `turn` the body of the
--     loop, and `turns` the loop, with what the other threads do in between.
--   * MemUsage: `mem_usage` of that file over the text of /proc/self/stat; MemUsage/Numbers is about
--     what its stream reads, MemUsage/Stat about the fields of the kernel's line.
--   * Formats: the packed structs of ARST_QUOTE/Include, as lists of their members.
--   * Thread: ARST_QUOTE/ARSTCommon/ARSTThread.cpp over the results of pthreads; Peak its counts of
--     threads, and Race `Start` beside the new thread.
--   * ErrorLog: ARST_QUOTE/ARSTDumpErrLog.cpp; `log_line` is the line that it prints.
--   * Request: ARST_QUOTE/ARSTRequest.cpp. `round` is one turn of `Run`, `run` the loop over the
--     outcomes of its waits; Request/Triggers puts the two triggers beside it.
--   * SharedMemory: ARST_SHRMEM/ARSTSharedMemory.cpp, and ARST_SHRMEM/ARSTSetTickNumber.cpp, whose
--     `main` is `tool`.
--   * ServerMemory: ARST_QUOTE/ARSTCommon/ARSTSharedMemory.cpp, another class of that name; Globals:
--     `InitialGlobal` of ARST_QUOTE/ARSTGlobal.cpp.
--   * Text: bytes, decimal numbers and C strings, as the parts above use them.
--   * Base: names of the libraries, tests, lists and signed integers that the parts share.
--   * Examples: runs at concrete inputs.
--
-- Conventions. Text is a list of bytes. A call of the system is a function of the state of the
-- network or of the system, or its answer is an argument. A loop is on fuel where its end depends
-- on an answer: `send_all` and `recv_all` have one turn for each byte and one more, the sweep of
-- the clients one for each client and one more, the trimming of the window one for each key and one
-- more; each turn but the last uses up a byte, a client or keys. Reads and writes outside a buffer,
-- null pointers and uncaught exceptions are outcomes of their own.
--
-- Assumed of the system: `send` takes at most the bytes it is offered, and where a theorem speaks of
-- wires, it puts on the wire of the socket what it says it has taken, and on no other. `recv` of at most n bytes
-- returns at most n. Where a theorem says so, a message queue of the kernel keeps its order and
-- accepts every message, as it does for a sender that waits; a key names one queue; and an event
-- that resets itself is set until a wait finds it.
--
-- Not modelled: the calls of the log; negative counts and keys in the configuration; the inner
-- workings of the third-party pevents in ARST_QUOTE/ARSTCommon; the queue manager
-- `ARSTQueueManager.h`, which is not in the repository, so that the start of the queue nodes is
-- only marked in `main`; the constants of ARST_QUOTE/ARSTGlobal.h that no code uses. The threads
-- run by themselves, except in WebConn/Lock, Singleton, Thread/Race, Events, QueueDao/Nodes,
-- QueueDao/Mixed, Clients/Walk and Pipeline/Relay; Program takes what they do to the clients and
-- to the pool between two turns as arguments.
pub mod Base
pub mod Text
pub mod Thread
pub mod ErrorLog
pub mod Heartbeat
pub mod Events
pub mod Request
pub mod Client
pub mod Clients
pub mod Queue
pub mod ServerSocket
pub mod Acceptor
pub mod QueueDao
pub mod QueueNode
pub mod ClientSocket
pub mod WebConn
pub mod Pipeline
pub mod Recovery
pub mod Singleton
pub mod Servers
pub mod Settings
pub mod Program
pub mod MemUsage
pub mod SharedMemory
pub mod ServerMemory
pub mod Globals
pub mod Formats
mod Examples
