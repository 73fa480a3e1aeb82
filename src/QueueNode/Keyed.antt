-- ===== src/QueueNode/Keyed.antt =====
-- What the constructor of `ARSTQueueDAO` in ARST_QUOTE/ARSTQueueNode.cpp relies on of the keys of
-- queues, and that two objects with one key share its queue.
use cta_alristrol_gallardo_v.Base.{
  ℕ, ◌≡◌, refl, sym, ap, subst, ◌∙◌, ◌≢◌, inl, inr, true, Option, some, List, arith, Bool-cases, ℤ,
  pos, negsuc, eq_ℤ, eq_ℤ_iff,
}
use cta_alristrol_gallardo_v.QueueNode.Posting.{SendsTo}
use cta_alristrol_gallardo_v.Queue.{Queue, Ipc, new_queue, create}
use cta_alristrol_gallardo_v.QueueNode.{new_queue_node}

-- The key for which `msgget` makes a queue of its own at each call.
abbrev pub ipc_private : ℤ
ipc_private = pos 0

module _ {K : Type 0} (ipc : Ipc K) where
  -- Documented of `msgget` with the flag that makes a queue: if it succeeds it returns the number of
  -- the queue that the key names from then on, which is the one that the key named before if there
  -- was one. The names of the other keys stay, and no queue gains or loses a message.
  pub record IsKeyed (held : ℤ → K → List (List ℕ)) (named : ℤ → K → Option ℤ) : Type 0 where
    pub names :
        (key : ℤ) (k : K)
        → key ≢ ipc_private
        → (ipc.msgget key k).0 ≢ negsuc 0
        → named key (ipc.msgget key k).1 ≡ some (ipc.msgget key k).0
    pub finds :
        (key id : ℤ) (k : K)
        → key ≢ ipc_private
        → named key k ≡ some id
        → (ipc.msgget key k).0 ≢ negsuc 0
        → (ipc.msgget key k).0 ≡ id
    pub others :
        (key other : ℤ) (k : K) → other ≢ key → named other (ipc.msgget key k).1 ≡ named other k
    pub holds : (key id : ℤ) (k : K) → held id (ipc.msgget key k).1 ≡ held id k

  -- A kernel that refuses no queue.
  abbrev pub Gives : Type 0
  Gives = (key : ℤ) (k : K) → (ipc.msgget key k).0 ≢ negsuc 0

  -- The two queues of the constructor.
  abbrev pub sends_by : ℤ → K → Queue
  sends_by key k = record new_queue { id = (ipc.msgget key k).0 }

  abbrev pub receives_by : ℤ → ℤ → K → Queue
  receives_by send_key recv_key k = record new_queue {
    id = (ipc.msgget recv_key (ipc.msgget send_key k).1).0;
  }

  -- The kernel behind it.
  abbrev pub behind : ℤ → ℤ → K → K
  behind send_key recv_key k = (ipc.msgget recv_key (ipc.msgget send_key k).1).1

  pub new_queue_node-made :
      (service : List ℕ) (send_key recv_key : ℤ) (k : K)
      → new_queue_node ipc service send_key recv_key k ≡ (
        record {
          service = service;
          send_key = send_key;
          recv_key = recv_key;
          send_queue = some (sends_by send_key k);
          recv_queue = some (receives_by send_key recv_key k);
          started = true;
        },
        behind send_key recv_key k,
      )
  unfolding new_queue_node create
  new_queue_node-made service send_key recv_key k = refl

  msgget-named :
      {held : ℤ → K → List (List ℕ)} {named : ℤ → K → Option ℤ} (key other id : ℤ) (k : K)
      → IsKeyed held named
      → Gives
      → key ≢ ipc_private
      → named key k ≡ some id
      → named key (ipc.msgget other k).1 ≡ some id
  msgget-named {named} key other id k v g p n = elim (Bool-cases (eq_ℤ key other)) [
    | inl same ↦
        let e = (eq_ℤ_iff key other).0 same in
        subst (λ j. named key (ipc.msgget j k).1 ≡ some id) e
          (v.names key k p (g key k) ∙ ap some (v.finds key id k p n (g key k)))
    | inr differs ↦ v.others other key k (λ e. ground (arith, (eq_ℤ_iff key other).1 e)) ∙ n
  ]

  -- A node that is made with a key to send with, and later another that is made with this key to
  -- receive with, have the same queue, in between the key goes on to name its queue.
  pub new_queue_node-share :
      {held : ℤ → K → List (List ℕ)} {named : ℤ → K → Option ℤ} (sender receiver : List ℕ)
      (key from to : ℤ) (k k1 : K) (old : List (List ℕ))
      → IsKeyed held named
      → Gives
      → key ≢ ipc_private
      → named key k1 ≡ named key (new_queue_node ipc sender key from k).1
      → ((id : ℤ) → named key k1 ≡ some id → held id k1 ≡ old)
      → (q : Queue) × ((new_queue_node ipc receiver to key k1).0.recv_queue ≡ some q)
        × SendsTo (new_queue_node ipc sender key from k).0 q.id
        × (held q.id (new_queue_node ipc receiver to key k1).1 ≡ old)
  new_queue_node-share {held} {named} sender receiver key from to k k1 old v g p same h =
      let id = (ipc.msgget key k).0 in
      let q = receives_by to key k1 in
      let made_a = new_queue_node-made sender key from k in
      let made_b = new_queue_node-made receiver to key k1 in
      let n1 : named key k1 ≡ some id =
        same
        ∙ ap (λ m. named key m.1) made_a
        ∙ msgget-named key from id (ipc.msgget key k).1 v g p (v.names key k p (g key k)) in
      let q_id : q.id ≡ id =
        v.finds key id (ipc.msgget to k1).1 p (msgget-named key to id k1 v g p n1)
          (g key (ipc.msgget to k1).1) in
      (
        q,
        ap (λ m. m.0.recv_queue) made_b,
        record { queue = sends_by key k; set = ap (λ m. m.0.send_queue) made_a; same = sym q_id },
        ap (λ m. held q.id m.1) made_b
            ∙ v.holds key q.id (ipc.msgget to k1).1
            ∙ v.holds to q.id k1
            ∙ ap (λ j. held j k1) q_id
            ∙ h id n1,
      )
