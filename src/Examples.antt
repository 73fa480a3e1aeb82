-- ===== src/Examples.antt =====
-- The theorems at concrete inputs, and tests.
mod Timer
mod Sending
mod Sweep
mod Ticks
mod Lines
mod Threads
mod Connections
mod Files
mod Memory
mod Requests
mod Beats
mod Posts
mod Objects
mod Acceptors
mod Programs
mod Threading
mod Logs
mod Cuts
mod Segments
mod Nodes
mod Queues
mod Memories
mod Alarms
mod Walks
mod Wires
mod Relays
