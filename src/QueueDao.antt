-- ===== src/QueueDao.antt =====
-- ARST_QUOTE/ARSTQueueNode.cpp: the thread that reads ticks off a queue, drops those that it has
-- seen, and sends the others to every client (`ARSTQueueDAO::Run`).
-- The lines under `#if 0`, and `out_string` with them, are compiled out.
pub mod Window
pub mod Ticks
pub mod Feed
pub mod Receivers
pub mod Delivery
pub mod Ending
pub mod Keys
pub mod Nodes
pub mod Mixed
pub mod Cast
pub mod Wire
use mathlib.Core.Option
use cta_alristrol_gallardo_v.Client.{send_all, trigger_get_reply_event}
use cta_alristrol_gallardo_v.Clients.{Slot, is_dead}
use cta_alristrol_gallardo_v.Queue.{Received, get_message, bufsize}
use cta_alristrol_gallardo_v.Text.{c_string}
use cta_alristrol_gallardo_v.Base.{
  ℕ, zero, suc, ◌+◌, ◌*◌, ◌/◌, Bool, true, false, ◌||◌, Option, none, some, List, [], ◌∷◌, ◌++◌,
  map, ltb, leb, ◌==◌, if◌then◌else◌, bytes_eq, length, drop, replicate, ℤ, pos, negsuc,
}

abbrev pub price_pos : ℕ
price_pos = 3

abbrev pub volume_pos : ℕ
volume_pos = 4

abbrev pub epoch_pos : ℕ
epoch_pos = 8

abbrev pub queue_local_size : ℕ
queue_local_size = 1000

abbrev pub merge_count : ℕ
merge_count = 1

-- A token that `strtok` has found, if it is not empty.
abbrev pub flush : List ℕ → List (List ℕ)
flush [] = []
flush (c ∷ cs) = (c ∷ cs) ∷ []

-- The tokens that `strtok` with "," finds in turn: the longest runs of other bytes. `token` is the
-- part of the current one that has been read.
unfoldable pub tokens_from : List ℕ → List ℕ → List (List ℕ)
tokens_from token [] = flush token
tokens_from token (c ∷ cs) =
    let next = tokens_from [] cs in
    let longer = tokens_from (token ++ c ∷ []) cs in
    if c == b',' then flush token ++ next else longer

unfoldable pub tokens : List ℕ → List (List ℕ)
unfolding tokens_from
tokens s = tokens_from [] s

abbrev pub is_key_pos : ℕ → Bool
is_key_pos i = i == price_pos || i == epoch_pos || i == volume_pos

-- The inner loop: the tokens at the three positions, one behind the other. `i` is `GTA_index`.
unfoldable pub key_from : ℕ → List (List ℕ) → List ℕ
key_from i [] = []
key_from i (t ∷ ts) =
    let rest = key_from (i + 1) ts in if is_key_pos (i + 1) then t ++ rest else rest

-- What a tick adds to `hash_string`. The first token is read before the loop.
unfoldable pub key_of : List (List ℕ) → List ℕ
unfolding key_from
key_of [] = []
key_of (t ∷ ts) = key_from 0 ts

-- `find` over `QueueLocal`.
unfoldable pub contains : List ℕ → List (List ℕ) → Bool
unfolding bytes_eq
contains k [] = false
contains k (j ∷ js) = bytes_eq j k || contains k js

-- The loop that drops the oldest 250 keys while more than three quarters of the size are held;
-- `none` is fuel run out.
unfoldable pub trim : ℕ → List (List ℕ) → Option (List (List ℕ))
trim zero ks = none
trim (suc fuel) ks =
    let shorter = trim fuel (drop 250 ks) in
    if ltb (queue_local_size / 4 * 3) (length ks) then shorter else some ks

-- What `Run` keeps between rounds: `hash_string`, `QueueLocal`, the string in `uncaRecvBuf`, and
-- `readcount`.
pub record Dao : Type 0 where
  pub hash_string : List ℕ
  pub queue_local : List (List ℕ)
  pub recv_buf : List ℕ
  pub readcount : ℕ

unfoldable pub new_dao : Dao
new_dao = record { hash_string = []; queue_local = []; recv_buf = []; readcount = 0 }

-- How a round ends. `faults` is a read or write outside a buffer, `exits` is `exit(-1)`, and
-- `out_of_fuel` is none of the program's.
pub data Round (Net : Type 0) : Type 0 where
  went : Dao → List Slot → Net → Round Net
  exits faults out_of_fuel : Round Net

module _ {Net : Type 0} (send : ℤ → List ℕ → Net → ℤ × Net) where
  -- The client's part of the loop over `m_vClient`, with the bytes that the system took of it.
  offer : Slot → List ℕ → Net → Option (Slot × Net)
  unfolding trigger_get_reply_event
  offer s text net = elim (send_all send s.client text (length text) net) [
    | none ↦ none
    | some r ↦ some (
      record s {
        client = if r.result then trigger_get_reply_event r.client else r.client;
        taken = s.taken ++ r.taken;
      },
      r.net,
    )
  ]

  -- The loop over `m_vClient`.
  pub broadcast : List Slot → List ℕ → Net → Option (List Slot × Net)
  unfolding offer
  broadcast [] text net = some ([], net)
  broadcast (s ∷ ss) text net = elim (is_dead s) [
    | true ↦ Option.map (λ (ss', net'). (s ∷ ss', net')) (broadcast ss text net)
    | false ↦ elim (offer s text net) [
      | none ↦ none
      | some (s', net') ↦ Option.map (λ (ss', net''). (s' ∷ ss', net'')) (broadcast ss text net')
    ]
  ]

  -- A tick whose key is new: it is kept, and sent once `merge_count` ticks are merged.
  fresh : Dao → List ℕ → List ℕ → List Slot → Net → Round Net
  fresh d key text slots net =
      let buf = d.recv_buf ++ text in
      let d' : Dao = record {
        hash_string = [];
        queue_local = d.queue_local ++ key ∷ [];
        recv_buf = buf;
        readcount = d.readcount + 1;
      } in
      if leb bufsize (length buf)
      then faults
      else if leb merge_count d'.readcount
      then elim (broadcast slots buf net) [
        | none ↦ out_of_fuel
        | some (slots', net') ↦ went (record d' { recv_buf = []; readcount = 0 }) slots' net'
      ]
      else went d' slots net

  -- A tick whose key is known.
  stale : Dao → List Slot → Net → Round Net
  stale d slots net = elim (trim (length d.queue_local + 1) d.queue_local) [
    | none ↦ out_of_fuel
    | some ks ↦ went (record d { hash_string = []; queue_local = ks }) slots net
  ]

  handle : Dao → List ℕ → List Slot → Net → Round Net
  unfolding fresh stale
  handle d text slots net =
      let key = d.hash_string ++ key_of (tokens text) in
      if contains key d.queue_local then stale d slots net else fresh d key text slots net

  -- What follows the copy of the buffer's string, of which there may be none.
  act : Dao → List Slot → Net → ℤ → Option (List ℕ) → Round Net
  unfolding handle
  act d slots net n none = faults
  act d slots net (negsuc k) (some text) = exits
  act d slots net (pos k) (some text) = if k == 0 then went d slots net else handle d text slots net

  -- One round of `Run`, on what `msgrcv` returns to it. The string of the buffer is copied before
  -- the result is tested.
  pub round : Dao → List Slot → Net → Received → Round Net
  unfolding act
  round d slots net r =
      let (n, buf) = get_message r (replicate bufsize 0) in act d slots net n (c_string buf)

  -- The loop of `Run` over the messages that come; `none` is any other end.
  unfoldable pub run : Dao → List Slot → Net → List Received → Option (Dao × List Slot × Net)
  unfolding round
  run d slots net [] = some (d, slots, net)
  run d slots net (m ∷ ms) = elim (round d slots net m) [
    | went d' slots' net' ↦ run d' slots' net' ms
    | exits ↦ none
    | faults ↦ none
    | out_of_fuel ↦ none
  ]
