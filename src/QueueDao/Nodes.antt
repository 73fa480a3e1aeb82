-- ===== src/QueueDao/Nodes.antt =====
-- The threads of several `ARSTQueueDAO`s of ARST_QUOTE/ARSTQueueNode.cpp beside one another.
-- `QueueLocal` is a global and `hash_string` a static variable of `Run`, so all of them share these;
-- the buffer and the count are each thread's own. Here the rounds of the threads follow one
-- another in any order; QueueDao/Mixed is about rounds that overlap.
use cta_alristrol_gallardo_v.Base.{
  ℕ, ◌≡◌, refl, ◌∙◌, inl, inr, Option, none, some, List, [], ◌∷◌, map, arith, ◌==◌, if◌then◌else◌,
  Bool-cases, All, ℤ, subst,
}
use cta_alristrol_gallardo_v.Client.Sending.{IsSend}
use cta_alristrol_gallardo_v.Client.Wire.{IsWire}
use cta_alristrol_gallardo_v.QueueDao.Wire.{Apart, Wired, Wired-refl}
use cta_alristrol_gallardo_v.QueueDao.Wire.Rounds.{RanWired, RanWired-round, round-WentWired}
use cta_alristrol_gallardo_v.Clients.{Slot}
use cta_alristrol_gallardo_v.Queue.{Received}
use cta_alristrol_gallardo_v.Queue.Buffer.{message}
use cta_alristrol_gallardo_v.QueueDao.{Dao, went, exits, faults, out_of_fuel, contains, round}
use cta_alristrol_gallardo_v.QueueDao.Window.{IsDistinct}
use cta_alristrol_gallardo_v.QueueDao.Ticks.{IsClean, key, kept, trimmed, round_new, round_known}
use cta_alristrol_gallardo_v.QueueDao.Feed.{IsTick}
use cta_alristrol_gallardo_v.QueueDao.Delivery.{delivered, keys_behind}
use cta_alristrol_gallardo_v.QueueDao.Receivers.{AllReceive, AllReceive-none, AllServed-AllReceive}

-- What a thread keeps for itself: the string in `uncaRecvBuf`, and `readcount`.
pub record Local : Type 0 where
  pub recv_buf : List ℕ
  pub readcount : ℕ

pub record Nodes : Type 0 where
  pub hash_string : List ℕ
  pub queue_local : List (List ℕ)
  pub locals : ℕ → Local

-- What the thread of a number sees, and what it leaves.
abbrev pub seen_by : Nodes → ℕ → Dao
seen_by n i = record {
  hash_string = n.hash_string;
  queue_local = n.queue_local;
  recv_buf = (n.locals i).recv_buf;
  readcount = (n.locals i).readcount;
}

abbrev pub left_by : Nodes → ℕ → Dao → Nodes
left_by n i d = record {
  hash_string = d.hash_string;
  queue_local = d.queue_local;
  locals =
      λ j. if j == i then record { recv_buf = d.recv_buf; readcount = d.readcount } else n.locals j;
}

module _ {Net : Type 0} (send : ℤ → List ℕ → Net → ℤ × Net) where
  -- Rounds of the threads, each with the number of the thread and what its queue gave it; `none` is
  -- any other end.
  pub run_nodes : Nodes → List Slot → Net → List (ℕ × Received) → Option (Nodes × List Slot × Net)
  run_nodes n slots net [] = some (n, slots, net)
  run_nodes n slots net ((i, m) ∷ ms) = elim (round send (seen_by n i) slots net m) [
    | went d' slots' net' ↦ run_nodes (left_by n i d') slots' net' ms
    | exits ↦ none
    | faults ↦ none
    | out_of_fuel ↦ none
  ]

-- Between rounds no key and no text is left over in any thread, and no key is held twice.
pub record IsQuiet (n : Nodes) : Type 0 where
  pub no_hash : n.hash_string ≡ []
  pub no_text : (i : ℕ) → (n.locals i).recv_buf ≡ []
  pub no_count : (i : ℕ) → (n.locals i).readcount ≡ 0
  pub distinct : IsDistinct n.queue_local

seen_by-IsClean : (n : Nodes) (i : ℕ) → IsQuiet n → IsClean (seen_by n i)
seen_by-IsClean n i v = record {
  no_hash = v.no_hash;
  no_text = v.no_text i;
  no_count = v.no_count i;
  distinct = v.distinct;
}

left_by-IsQuiet : (n : Nodes) (i : ℕ) (d : Dao) → IsQuiet n → IsClean d → IsQuiet (left_by n i d)
left_by-IsQuiet n i d v c = record {
  no_hash = c.no_hash;
  no_text = λ j. ground (arith, c.no_text, v.no_text j);
  no_count = λ j. ground (arith, c.no_count, v.no_count j);
  distinct = c.distinct;
}

-- The threads' rounds, by the number of the thread and the text of its message.
abbrev pub feed : List (ℕ × List ℕ) → List (ℕ × Received)
feed ts = map (λ t. (t.0, message t.1)) ts

abbrev pub merged : List (ℕ × List ℕ) → List (List ℕ)
merged ts = map (λ t. t.1) ts

module _ {Net : Type 0} (send : ℤ → List ℕ → Net → ℤ × Net) where
  run_nodes-went :
      (n : Nodes) (i : ℕ) (d' : Dao) (slots slots' : List Slot) (net net' : Net) (m : Received)
      (ms : List (ℕ × Received))
      → round send (seen_by n i) slots net m ≡ went d' slots' net'
      → run_nodes send n slots net ((i, m) ∷ ms) ≡ run_nodes send (left_by n i d') slots' net' ms
  unfolding run_nodes
  run_nodes-went n i d' slots slots' net net' m ms e = rw (e, run_nodes) refl

  run_nodes-RanWired :
      (wire : Net → ℤ → List ℕ) (w : IsWire send wire) (ms : List (ℕ × Received)) (n : Nodes)
      (slots : List Slot) (net : Net)
      → Apart slots
      → RanWired send wire w net slots (run_nodes send n slots net ms)
  unfolding run_nodes
  run_nodes-RanWired wire w [] n slots net a = Wired-refl wire net slots
  run_nodes-RanWired wire w ((i, m) ∷ ms) n slots net a =
      RanWired-round send wire w slots net (round send (seen_by n i) slots net m)
        (λ d' ss' net'. run_nodes send (left_by n i d') ss' net' ms) a
        (round-WentWired send wire w (seen_by n i) slots net a m)
        (λ d' ss' net' b. run_nodes-RanWired wire w ms (left_by n i d') ss' net' b)

  run_nodes-AllReceive :
      (ts : List (ℕ × List ℕ)) (n : Nodes) (slots : List Slot) (net : Net)
      → IsSend send
      → IsQuiet n
      → All (λ t. IsTick t.1) ts
      → (n' : Nodes) × (slots' : List Slot) × (net' : Net) × (run_nodes send n slots net (feed ts)
          ≡ some (n', slots', net'))
        × (n'.queue_local ≡ keys_behind n.queue_local (merged ts))
        × IsQuiet n'
        × AllReceive (delivered n.queue_local (merged ts)) slots slots'
  unfolding delivered keys_behind
  run_nodes-AllReceive [] n slots net b c v =
      (n, slots, net, unfold run_nodes in refl, refl, c, AllReceive-none slots)
  run_nodes-AllReceive ((i, t) ∷ ts) n slots net b c v =
      elim (Bool-cases (contains (key t) n.queue_local)) [
        | inl held ↦
            let (e, _, _, c') =
              round_known send (seen_by n i) slots net t (seen_by-IsClean n i c) v.0.0 v.0.1 v.0.2
                held in
            let d = trimmed (seen_by n i) in
            let (n', ss, w, r, k, c2, g) =
              run_nodes-AllReceive ts (left_by n i d) slots net b (left_by-IsQuiet n i d c c')
                v.1 in
            (
              n',
              ss,
              w,
              run_nodes-went n i d slots slots net net (message t) (feed ts) e ∙ r,
              k ∙ rw held refl,
              c2,
              rw held g,
            )
        | inr new ↦
            let (ss1, w1, e, a, c') =
              round_new send (seen_by n i) slots net t b (seen_by-IsClean n i c) v.0.0 v.0.1 v.0.2
                new in
            let d = kept (seen_by n i) t in
            let (n', ss, w, r, k, c2, g) =
              run_nodes-AllReceive ts (left_by n i d) ss1 w1 b (left_by-IsQuiet n i d c c') v.1 in
            (
              n',
              ss,
              w,
              run_nodes-went n i d slots ss1 net w1 (message t) (feed ts) e ∙ r,
              k ∙ rw new refl,
              c2,
              rw new (AllServed-AllReceive send t _ slots ss1 ss a g),
            )
      ]

  -- Any number of threads with nothing left over in them take messages of 1 to 1499 bytes, none of
  -- them NUL, in any order, one round behind the other. Together they hold the keys that one window
  -- of keys holds behind the messages in this order, whichever thread takes which, and leave
  -- nothing over. The clients are the same, and each receives exactly what the window makes of the
  -- messages: for one that is not offline in the end the system has taken exactly these texts,
  -- whole and in their order, and it counts a reply more for each; one that was offline stays so,
  -- and a dead one is not touched. The wire of each client's socket has grown by exactly the bytes
  -- that were taken for it, and no other wire has changed. It is assumed that no two clients have
  -- one socket, and of `send` that it takes at most the bytes offered and puts on the wire of the
  -- socket what it says it has taken.
  pub run_nodes-delivered :
      (wire : Net → ℤ → List ℕ) (ts : List (ℕ × List ℕ)) (n : Nodes) (slots : List Slot) (net : Net)
      → IsWire send wire
      → Apart slots
      → IsQuiet n
      → All (λ t. IsTick t.1) ts
      → (n' : Nodes) × (slots' : List Slot) × (net' : Net) × (run_nodes send n slots net (feed ts)
          ≡ some (n', slots', net'))
        × (n'.queue_local ≡ keys_behind n.queue_local (merged ts))
        × IsQuiet n'
        × AllReceive (delivered n.queue_local (merged ts)) slots slots'
        × Wired wire net net' slots slots'
  run_nodes-delivered wire ts n slots net w a c v =
      let (n', slots', net', r, k, c', g) = run_nodes-AllReceive ts n slots net w.bound c v in
      (
        n',
        slots',
        net',
        r,
        k,
        c',
        g,
        subst (RanWired send wire w net slots) r
            (run_nodes-RanWired wire w (feed ts) n slots net a),
      )
