-- ===== src/Servers/Monitor.antt =====
-- The heartbeat of the pool in ARST_QUOTE/ARSTWebConns.cpp (`ARSTServers::OnHeartbeatRequest`), which
-- tells the monitor that the program lives, and how many threads it has.
use cta_alristrol_gallardo_v.Base.{
  ℕ, ◌+◌, ◌-◌, ◌≤◌, ◌<◌, ◌≡◌, refl, true, false, none, some, List, [], ◌∷◌, ◌++◌, arith, ltb,
  if◌then◌else◌, length, take, length-append, length-take, take-le, ℤ, lt→ltb, le→ltb_false,
}
use cta_alristrol_gallardo_v.Text.{codes, decimal}
use cta_alristrol_gallardo_v.Text.Clock.{
  Clock, IsClock, date_text, time_text, length-date_text, length-time_text,
}
use cta_alristrol_gallardo_v.Queue.{Ipc, bufsize}
use cta_alristrol_gallardo_v.Queue.Fifo.{IsFifo, Accepts}
use cta_alristrol_gallardo_v.QueueNode.{QueueNode, send_texts}
use cta_alristrol_gallardo_v.QueueNode.Posting.{SendsTo, send_texts-Posted}
use cta_alristrol_gallardo_v.Thread.{Counts}

-- "Heartbeat", with the name of the host, the date and the time.
unfoldable pub monitor_text : List ℕ → Clock → List ℕ
monitor_text host t =
    codes "{\"Type\":\"Heartbeat\",\"Component\":\"Quote\",\"Hostname\":\""
    ++ (host
        ++ (codes "\",\"ServerDate\":\""
            ++ (date_text t ++ (codes "\",\"ServerTime\":\"" ++ (time_text t ++ codes "00\"}")))))

-- "System", with the counts of threads and the memory that is used, as it is printed.
unfoldable pub system_text : List ℕ → Counts → List ℕ → List ℕ
system_text host c usage =
    codes "{\"Type\":\"System\",\"Component\":\"Quote\",\"Hostname\":\""
    ++ (host
        ++ (codes "\",\"CurrentThread\":\""
            ++ (decimal c.current
                ++ (codes "\",\"MaxThread\":\""
                    ++ (decimal c.most
                        ++ (codes "\",\"MemoryUsage\":\"" ++ (usage ++ codes "\"}")))))))

abbrev pub monitor_buffer_size : ℕ
monitor_buffer_size = 128

-- How the callback ends: with the node, the kernel and the number of reply events, or with a write
-- outside a buffer.
pub data Monitored (K : Type 0) : Type 0 where
  monitored : QueueNode → K → ℕ → Monitored K
  overflows : Monitored K

-- The callback, with the node of the monitor. The first text is printed with no limit, the second
-- is cut so that a NUL fits behind it. The name of the host holds no NUL.
unfoldable pub on_heartbeat_request :
    {K : Type 0} → Ipc K → QueueNode → List ℕ → Counts → List ℕ → Clock → ℕ → K → Monitored K
unfolding monitor_text system_text
on_heartbeat_request ipc n host c usage t replies k =
    let text = monitor_text host t in
    let system = take (monitor_buffer_size - 1) (system_text host c usage) in
    if ltb (length text) monitor_buffer_size
    then elim (send_texts ipc n (text ∷ system ∷ []) k) [
      | none ↦ overflows
      | some (rs, n', k') ↦ monitored n' k' (replies + 1)
    ]
    else overflows

length-monitor_text :
    (host : List ℕ) (t : Clock) → IsClock t → length (monitor_text host t) ≡ 102 + length host
unfolding monitor_text
length-monitor_text host t v = omega (
  arith,
  length-append host (
      codes "\",\"ServerDate\":\""
      ++ (date_text t ++ (codes "\",\"ServerTime\":\"" ++ (time_text t ++ codes "00\"}")))),
  length-append (date_text t) (codes "\",\"ServerTime\":\"" ++ (time_text t ++ codes "00\"}")),
  length-append (time_text t) (codes "00\"}"),
  length-date_text t v,
  length-time_text t v,
)

system-fits : (s : List ℕ) → length (take (monitor_buffer_size - 1) s) ≤ bufsize
system-fits s = omega (arith, length-take (monitor_buffer_size - 1) s)

length-system_text :
    (host : List ℕ) (c : Counts) (usage : List ℕ)
    → length (system_text host c usage)
      ≡ 102
        + (length host + (length (decimal c.current) + (length (decimal c.most) + length usage)))
unfolding system_text
length-system_text host c usage =
    let last = usage ++ codes "\"}" in
    let most = decimal c.most ++ (codes "\",\"MemoryUsage\":\"" ++ last) in
    let current = decimal c.current ++ (codes "\",\"MaxThread\":\"" ++ most) in
    omega (
      arith,
      length-append host (codes "\",\"CurrentThread\":\"" ++ current),
      length-append (decimal c.current) (codes "\",\"MaxThread\":\"" ++ most),
      length-append (decimal c.most) (codes "\",\"MemoryUsage\":\"" ++ last),
      length-append usage (codes "\"}"),
    )

-- The bytes of the second text that depend on the host and the program.
abbrev pub varying : List ℕ → Counts → List ℕ → ℕ
varying host c usage =
    length host + (length (decimal c.current) + (length (decimal c.most) + length usage))

-- At a date and a time as `localtime` gives them, of a year of four digits, with a kernel whose
-- queues keep their order and that accepts every message: if the name of the host has at most 25
-- bytes, the callback puts both texts behind what the queue of the monitor holds, the second cut to
-- 127 bytes, and resets the heartbeat once; if the name is longer, the first text is written past
-- the buffer. The second text is whole if the name, the two counts and the memory have at most 25
-- bytes together, and loses bytes at its end if they have more. It is assumed of the name that it
-- holds no NUL.
pub on_heartbeat_request-posts :
    {K : Type 0} {held : ℤ → K → List (List ℕ)} (ipc : Ipc K) (n : QueueNode) (id : ℤ)
    (host : List ℕ) (c : Counts) (usage : List ℕ) (t : Clock) (replies : ℕ) (k : K)
    → IsFifo ipc held
    → Accepts ipc
    → SendsTo n id
    → IsClock t
    → (length host ≤ 25
        → (n' : QueueNode) × (k' : K) × (on_heartbeat_request ipc n host c usage t replies k
            ≡ monitored n' k' (replies + 1))
          × (held id k'
              ≡ held id k ++ monitor_text host t ∷ take 127 (system_text host c usage) ∷ []))
      × (25 < length host → on_heartbeat_request ipc n host c usage t replies k ≡ overflows)
      × (varying host c usage ≤ 25 → take 127 (system_text host c usage) ≡ system_text host c usage)
      × (25 < varying host c usage
          → length (take 127 (system_text host c usage)) < length (system_text host c usage))
unfolding on_heartbeat_request
on_heartbeat_request-posts {held} ipc n id host c usage t replies k f a s v =
    let text = monitor_text host t in
    let size = length-monitor_text host t v in
    (
      λ l.
          let fits : ltb (length text) 128 ≡ true = lt→ltb (length text) 128 (omega arith) in
          let (rs, n', k', e, _, h) =
            send_texts-Posted ipc {held = held} id (text ∷ take 127 (system_text host c usage) ∷ [])
              n k f a s (omega arith, (system-fits (system_text host c usage), tt)) in
          (n', k', rw fits (rw e refl), h),
      λ l.
          let full : ltb (length text) 128 ≡ false = le→ltb_false (length text) 128 (omega arith) in
          rw full refl,
      λ l. take-le 127 (system_text host c usage) (omega (arith, length-system_text host c usage)),
      λ l.
          omega
            (arith, length-system_text host c usage, length-take 127 (system_text host c usage)),
    )
