-- ===== src/Pipeline/Relay/Flight.antt =====
-- One turn of either end of a message queue, by `SendData` and by `Run` of
-- ARST_QUOTE/ARSTQueueNode.cpp, while lines are in the queue.
use cta_alristrol_gallardo_v.Base.{
  ℕ, ◌≤◌, ◌≡◌, refl, sym, ap, ap₂, subst, ◌∙◌, Option, some, List, [], ◌∷◌, ◌++◌, length, All,
  All-append, ℤ,
}
use cta_alristrol_gallardo_v.Clients.{Slot}
use cta_alristrol_gallardo_v.Queue.{Queue, Ipc, bufsize}
use cta_alristrol_gallardo_v.Queue.Buffer.{message}
use cta_alristrol_gallardo_v.Queue.Fifo.{Accepts, IsFifo}
use cta_alristrol_gallardo_v.QueueNode.Posting.{SendsTo, send_data-text, sent}
use cta_alristrol_gallardo_v.QueueDao.{Dao, went, round}
use cta_alristrol_gallardo_v.QueueDao.Ticks.{IsClean}
use cta_alristrol_gallardo_v.QueueDao.Feed.{IsTick}
use cta_alristrol_gallardo_v.QueueDao.Delivery.{delivered, keys_behind}
use cta_alristrol_gallardo_v.QueueDao.Receivers.{AllReceive}
use cta_alristrol_gallardo_v.Pipeline.Relay.{
  Turn, sender, receiver, Relay, relay, one, send_one, take_one,
}

module _ {K Wire : Type 0} (ipc : Ipc K) (held : ℤ → K → List (List ℕ))
    (send : ℤ → List ℕ → Wire → ℤ × Wire) (id : ℤ) where
  -- The receiver is clean, the sender sends to the queue, and each line in the queue or not sent yet
  -- has 1 to 1499 bytes, none of them NUL.
  pub record IsReady (r : Relay K Wire) : Type 0 where
    pub clean : IsClean r.dao
    pub sends : SendsTo r.node id
    pub ticks : All IsTick (held id r.kernel)
    pub unsent_ticks : All IsTick r.unsent

  -- How turns end that started from a state: what the receiver got by then stands before what the
  -- queue holds and what is not sent; and the end is as wished.
  abbrev pub Relayed : (Relay K Wire → Type 0) → Relay K Wire → Option (Relay K Wire) → Type 0
  Relayed p r o =
      (r' : Relay K Wire) × (got : List (List ℕ)) × (o ≡ some r')
      × (held id r.kernel ++ r.unsent ≡ got ++ (held id r'.kernel ++ r'.unsent))
      × (r'.dao.queue_local ≡ keys_behind r.dao.queue_local got)
      × IsReady r'
      × p r'
      × AllReceive (delivered r.dao.queue_local got) r.slots r'.slots

  -- A turn that hands nothing over and leaves the receiver as it was.
  pub Relayed-idle :
      (p : Relay K Wire → Type 0) (t : Turn) (ts : List Turn) (r r1 : Relay K Wire)
      → one ipc held send id t r ≡ some r1
      → r1.dao ≡ r.dao
      → r1.slots ≡ r.slots
      → held id r1.kernel ++ r1.unsent ≡ held id r.kernel ++ r.unsent
      → Relayed p r1 (relay ipc held send id ts r1)
      → Relayed p r (relay ipc held send id (t ∷ ts) r)
  unfolding relay
  Relayed-idle p t ts r r1 e d s h (r', got, o, l, k, v, w, a) = (
    r',
    got,
    rw (e, relay) o,
    sym h ∙ l,
    k ∙ ap (λ (x : Dao). keys_behind x.queue_local got) d,
    v,
    w,
    subst (λ ss. AllReceive (delivered r.dao.queue_local got) ss r'.slots) s
        (subst (λ (x : Dao). AllReceive (delivered x.queue_local got) r1.slots r'.slots) d a),
  )

  -- A turn in which the receiver gets a message.
  pub Relayed-got :
      (p : Relay K Wire → Type 0) (ts : List Turn) (r r1 : Relay K Wire) (m : List ℕ)
      (rest : List (List ℕ)) (handed_on : List (List ℕ))
      → one ipc held send id receiver r ≡ some r1
      → held id r.kernel ≡ m ∷ rest
      → held id r1.kernel ≡ rest
      → r1.unsent ≡ r.unsent
      → ((got : List (List ℕ))
          → delivered r.dao.queue_local (m ∷ got) ≡ handed_on ++ delivered r1.dao.queue_local got)
      → ((got : List (List ℕ))
          → keys_behind r.dao.queue_local (m ∷ got) ≡ keys_behind r1.dao.queue_local got)
      → ((texts : List (List ℕ)) (ss : List Slot)
          → AllReceive texts r1.slots ss
          → AllReceive (handed_on ++ texts) r.slots ss)
      → Relayed p r1 (relay ipc held send id ts r1)
      → Relayed p r (relay ipc held send id (receiver ∷ ts) r)
  unfolding relay
  Relayed-got p ts r r1 m rest handed_on e h h1 u d k s (r', got, o, l, k', v, w, a) = (
    r',
    m ∷ got,
    rw (e, relay) o,
    ap₂ (λ x y. x ++ y) h (sym u) ∙ ap (λ x. m ∷ x) (ap (λ x. x ++ r1.unsent) (sym h1) ∙ l),
    k' ∙ sym (k got),
    v,
    w,
    subst (λ ts'. AllReceive ts' r.slots r'.slots) (sym (d got))
        (s (delivered r1.dao.queue_local got) r'.slots a),
  )

  -- The state behind the sender's turn.
  abbrev pub sent_relay : Relay K Wire → Queue → List ℕ → List (List ℕ) → Relay K Wire
  sent_relay r q t ts = record r {
    unsent = ts;
    node = record r.node { send_queue = some (sent ipc q t) };
    kernel = (ipc.msgsnd q.id 1 t 0 r.kernel).1;
  }

  pub sender-one :
      (r : Relay K Wire) (q : Queue) (t : List ℕ) (ts : List (List ℕ))
      → r.unsent ≡ t ∷ ts
      → r.node.send_queue ≡ some q
      → length t ≤ bufsize
      → one ipc held send id sender r ≡ some (sent_relay r q t ts)
  unfolding one send_one
  sender-one r q t ts u e l = rw (u, one) (rw (send_data-text ipc r.node q t r.kernel e l) refl)

  pub sent_relay-held :
      (r : Relay K Wire) (t : List ℕ) (ts : List (List ℕ))
      → IsFifo ipc held
      → Accepts ipc
      → (v : IsReady r)
      → held id (sent_relay r v.sends.queue t ts).kernel ≡ held id r.kernel ++ t ∷ []
  sent_relay-held r t ts f a v =
      let k1 = (ipc.msgsnd v.sends.queue.id 1 t 0 r.kernel).1 in
      ap (λ j. held j k1) (sym v.sends.same)
      ∙ f.sends v.sends.queue.id 1 t 0 r.kernel (a v.sends.queue.id 1 t r.kernel)
      ∙ ap (λ j. held j r.kernel ++ t ∷ []) v.sends.same

  pub sent_relay-IsReady :
      (r : Relay K Wire) (t : List ℕ) (ts : List (List ℕ))
      → IsFifo ipc held
      → Accepts ipc
      → (v : IsReady r) → r.unsent ≡ t ∷ ts
      → IsReady (sent_relay r v.sends.queue t ts)
  sent_relay-IsReady r t ts f a v u =
      let ticks : All IsTick (t ∷ ts) = subst (All IsTick) u v.unsent_ticks in
      record {
        clean = v.clean;
        sends = record { queue = sent ipc v.sends.queue t; set = refl; same = v.sends.same };
        ticks =
            subst (All IsTick) (sym (sent_relay-held r t ts f a v))
              (All-append IsTick (held id r.kernel) (t ∷ []) v.ticks (ticks.0, tt));
        unsent_ticks = ticks.1;
      }

  -- The state behind the receiver's turn.
  abbrev pub got_relay : Relay K Wire → Dao → List Slot → Wire → Relay K Wire
  got_relay r d ss w = record r {
    kernel = (ipc.msgrcv id bufsize 0 0 r.kernel).1;
    dao = d;
    slots = ss;
    wire = w;
  }

  pub receiver-one :
      (r : Relay K Wire) (m : List ℕ) (rest : List (List ℕ)) (d : Dao) (ss : List Slot) (w : Wire)
      → held id r.kernel ≡ m ∷ rest
      → (ipc.msgrcv id bufsize 0 0 r.kernel).0 ≡ message m
      → round send r.dao r.slots r.wire (message m) ≡ went d ss w
      → one ipc held send id receiver r ≡ some (got_relay r d ss w)
  unfolding one take_one
  receiver-one r m rest d ss w h g e = rw (h, take_one) (rw g (rw e refl))
