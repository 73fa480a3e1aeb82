-- ===== src/QueueNode/Posting.antt =====
-- What `SendData` of ARST_QUOTE/ARSTQueueNode.cpp puts into a queue, another node takes out.
use cta_alristrol_gallardo_v.Base.{
  ℕ, ◌≤◌, ◌≡◌, refl, sym, ap, ◌∙◌, Option, some, List, [], ◌∷◌, ◌++◌, map, append-nil, append_assoc,
  length, take, replicate, All, ℤ, pos, le→leb,
}
use cta_alristrol_gallardo_v.Queue.{Queue, Ipc, overwrite, bufsize, send_message}
use cta_alristrol_gallardo_v.Queue.Buffer.{message}
use cta_alristrol_gallardo_v.Queue.Fifo.{Accepts, IsFifo, drain, drain-message, sent_bytes}
use cta_alristrol_gallardo_v.QueueNode.{QueueNode, send_data, send_texts}

-- The node sends to the queue of this number.
pub record SendsTo (n : QueueNode) (id : ℤ) : Type 0 where
  pub queue : Queue
  pub set : n.send_queue ≡ some queue
  pub same : queue.id ≡ id

module _ {K : Type 0} (ipc : Ipc K) where
  -- The queue behind a send.
  abbrev pub sent : Queue → List ℕ → Queue
  sent q t = record q {
    message_type = 1;
    message_buf = overwrite (take (length t) t) (replicate bufsize 0);
  }

  pub send_data-text :
      (n : QueueNode) (q : Queue) (t : List ℕ) (k : K)
      → n.send_queue ≡ some q
      → length t ≤ bufsize
      → send_data ipc n t (length t) 1 0 k
        ≡ some (
          (ipc.msgsnd q.id 1 t 0 k).0,
          record n { send_queue = some (sent q t) },
          (ipc.msgsnd q.id 1 t 0 k).1,
        )
  unfolding send_data send_message
  send_data-text n q t k e l =
      rw (e, send_data) (rw (sent_bytes ipc t l) (rw (le→leb (length t) bufsize l) refl))

  -- The calls end, accepted each, and the texts stand in the queue.
  abbrev pub Posted :
      (ℤ → K → List (List ℕ)) → ℤ → K → List (List ℕ) → Option (List ℤ × QueueNode × K) → Type 0
  Posted held id k texts o =
      (rs : List ℤ) × (n' : QueueNode) × (k' : K) × (o ≡ some (rs, n', k'))
      × All (λ r. r ≡ pos 0) rs
      × (held id k' ≡ held id k ++ texts)

  pub send_texts-Posted :
      {held : ℤ → K → List (List ℕ)} (id : ℤ) (texts : List (List ℕ)) (n : QueueNode) (k : K)
      → IsFifo ipc held
      → Accepts ipc
      → SendsTo n id
      → All (λ t. length t ≤ bufsize) texts
      → Posted held id k texts (send_texts ipc n texts k)
  unfolding send_texts
  send_texts-Posted id [] n k f a s l = ([], n, k, refl, tt, sym (append-nil _))
  send_texts-Posted {held} id (t ∷ ts) n k f a s l =
      let e = send_data-text n s.queue t k s.set l.0 in
      let k1 = (ipc.msgsnd s.queue.id 1 t 0 k).1 in
      let (rs, n', k', e', z, h) =
        send_texts-Posted {held = held} id ts (record n { send_queue = some (sent s.queue t) }) k1 f
          a (record { queue = sent s.queue t; set = refl; same = s.same }) l.1 in
      (
        (ipc.msgsnd s.queue.id 1 t 0 k).0 ∷ rs,
        n',
        k',
        rw (e, send_texts) (rw e' refl),
        (a s.queue.id 1 t k, z),
        h
            ∙ ap (λ b. b ++ ts)
                (ap (λ j. held j k1) (sym s.same)
                  ∙ f.sends s.queue.id 1 t 0 k (a s.queue.id 1 t k)
                  ∙ ap (λ j. held j k ++ t ∷ []) s.same)
            ∙ append_assoc (held id k) (t ∷ []) ts,
      )

  -- A node sends texts of at most 1500 bytes to a queue that holds nothing, in a kernel whose queues
  -- keep their order and that accepts every message. The calls end well, and so many reads of the
  -- queue give these texts, whole and in their order.
  pub send_texts-drain :
      {held : ℤ → K → List (List ℕ)} (texts : List (List ℕ)) (n : QueueNode) (q : Queue) (k : K)
      → IsFifo ipc held
      → Accepts ipc
      → SendsTo n q.id
      → held q.id k ≡ []
      → All (λ t. length t ≤ bufsize) texts
      → (rs : List ℤ) × (n' : QueueNode) × (k' : K) × (send_texts ipc n texts k ≡ some (rs, n', k'))
        × All (λ r. r ≡ pos 0) rs
        × ((drain ipc (length texts) q k').0 ≡ map message texts)
  send_texts-drain {held} texts n q k f a s h l =
      let (rs, n', k', e, z, p) = send_texts-Posted {held = held} q.id texts n k f a s l in
      (rs, n', k', e, z, drain-message ipc q texts k' f (p ∙ ap (λ b. b ++ texts) h) l)
