-- ===== src/Pipeline/Relay/Order.antt =====
-- That no line is lost or overtaken between `SendData` and the clients (ARST_QUOTE/ARSTQueueNode.cpp),
-- in whatever order both ends of the queue take their turns.
use cta_alristrol_gallardo_v.Base.{
  ℕ, ◌≤◌, ◌≡◌, refl, sym, ap, subst, ◌∙◌, inl, inr, some, List, [], ◌∷◌, ◌++◌, append_assoc, arith,
  Bool-cases, All, ℤ, List-cases,
}
use cta_alristrol_gallardo_v.QueueDao.{contains}
use cta_alristrol_gallardo_v.Queue.{Ipc, bufsize}
use cta_alristrol_gallardo_v.Client.Sending.{IsSend}
use cta_alristrol_gallardo_v.Client.Wire.{IsWire}
use cta_alristrol_gallardo_v.QueueDao.Wire.{Apart, Wired}
use cta_alristrol_gallardo_v.Pipeline.Relay.Wire.{RelayWired, relay-RelayWired}
use cta_alristrol_gallardo_v.QueueDao.Feed.{IsTick}
use cta_alristrol_gallardo_v.Queue.Fifo.{Accepts, IsFifo}
use cta_alristrol_gallardo_v.QueueDao.Delivery.{delivered, keys_behind}
use cta_alristrol_gallardo_v.Pipeline.Relay.{
  Turn, sender, receiver, Relay, relay, one, send_one, take_one,
}
use cta_alristrol_gallardo_v.QueueDao.Ticks.{key, kept, trimmed, round_new, round_known}
use cta_alristrol_gallardo_v.QueueDao.Receivers.{AllReceive, AllReceive-none, AllServed-AllReceive}
use cta_alristrol_gallardo_v.Pipeline.Relay.Flight.{
  IsReady, Relayed, Relayed-idle, Relayed-got, sent_relay, sender-one, sent_relay-held,
  sent_relay-IsReady, got_relay, receiver-one,
}

module _ {K Wire : Type 0} (ipc : Ipc K) (held : ℤ → K → List (List ℕ))
    (send : ℤ → List ℕ → Wire → ℤ × Wire) (id : ℤ) where
  pub sender-waits : (r : Relay K Wire) → r.unsent ≡ [] → one ipc held send id sender r ≡ some r
  unfolding one send_one
  sender-waits r u = simp (u, send_one)

  pub receiver-waits :
      (r : Relay K Wire) → held id r.kernel ≡ [] → one ipc held send id receiver r ≡ some r
  unfolding one take_one
  receiver-waits r h = rw (h, take_one) refl

  module _ (f : IsFifo ipc held) (a : Accepts ipc) (b : IsSend send) (p : Relay K Wire → Type 0)
      (ts : List Turn) (r : Relay K Wire) (v : IsReady ipc held send id r) where
    -- The rest of the turns, from a ready state with this in the queue and this unsent.
    abbrev pub Rest : List (List ℕ) → List (List ℕ) → Type 0
    Rest hs us =
        (r1 : Relay K Wire)
        → IsReady ipc held send id r1
        → held id r1.kernel ≡ hs
        → r1.unsent ≡ us
        → Relayed ipc held send id p r1 (relay ipc held send id ts r1)

    pub Relayed-sends :
        (t : List ℕ) (us : List (List ℕ))
        → r.unsent ≡ t ∷ us
        → Rest (held id r.kernel ++ t ∷ []) us
        → Relayed ipc held send id p r (relay ipc held send id (sender ∷ ts) r)
    Relayed-sends t us u rest =
        let l : All IsTick (t ∷ us) = subst (All IsTick) u v.unsent_ticks in
        let r1 = sent_relay ipc held send id r v.sends.queue t us in
        let h = sent_relay-held ipc held send id r t us f a v in
        Relayed-idle ipc held send id p sender ts r r1
          (sender-one ipc held send id r v.sends.queue t us u v.sends.set (omega (arith, l.0.1)))
          refl refl
          (ap (λ x. x ++ us) h
            ∙ append_assoc (held id r.kernel) (t ∷ []) us
            ∙ ap (λ x. held id r.kernel ++ x) (sym u))
          (rest r1 (sent_relay-IsReady ipc held send id r t us f a v u) h refl)

    pub Relayed-receives :
        (m : List ℕ) (ms : List (List ℕ))
        → held id r.kernel ≡ m ∷ ms
        → Rest ms r.unsent
        → Relayed ipc held send id p r (relay ipc held send id (receiver ∷ ts) r)
    unfolding delivered keys_behind
    Relayed-receives m ms h rest =
        let l : All IsTick (m ∷ ms) = subst (All IsTick) h v.ticks in
        let (g, h1) = f.receives id bufsize 0 r.kernel m ms h (omega (arith, l.0.1)) in
        let left : All IsTick (held id (ipc.msgrcv id bufsize 0 0 r.kernel).1) =
          subst (All IsTick) (sym h1) l.1 in
        elim (Bool-cases (contains (key m) r.dao.queue_local)) [
          | inl known ↦
              let (e, _, _, c) =
                round_known send r.dao r.slots r.wire m v.clean l.0.0 l.0.1 l.0.2 known in
              let r1 = got_relay ipc held send id r (trimmed r.dao) r.slots r.wire in
              Relayed-got ipc held send id p ts r r1 m ms []
                (receiver-one ipc held send id r m ms (trimmed r.dao) r.slots r.wire h g e) h h1
                refl (λ got. rw known refl) (λ got. rw known refl) (λ texts ss x. x)
                (rest r1
                  (record {
                    clean = c;
                    sends = v.sends;
                    ticks = left;
                    unsent_ticks = v.unsent_ticks;
                  })
                  h1 refl)
          | inr new ↦
              let (ss, w, e, served, c) =
                round_new send r.dao r.slots r.wire m b v.clean l.0.0 l.0.1 l.0.2 new in
              let r1 = got_relay ipc held send id r (kept r.dao m) ss w in
              Relayed-got ipc held send id p ts r r1 m ms (m ∷ [])
                (receiver-one ipc held send id r m ms (kept r.dao m) ss w h g e) h h1 refl
                (λ got. rw new refl) (λ got. rw new refl)
                (λ texts ss2 x. AllServed-AllReceive send m texts r.slots ss ss2 served x)
                (rest r1
                  (record {
                    clean = c;
                    sends = v.sends;
                    ticks = left;
                    unsent_ticks = v.unsent_ticks;
                  })
                  h1 refl)
        ]

  Relayed-any :
      (turns : List Turn) (r : Relay K Wire)
      → IsFifo ipc held
      → Accepts ipc
      → IsSend send
      → IsReady ipc held send id r
      → Relayed ipc held send id (λ _. 0 ≤ 0) r (relay ipc held send id turns r)
  unfolding delivered keys_behind
  Relayed-any [] r f a b v =
      (r, [], unfold relay in refl, refl, refl, v, omega arith, AllReceive-none r.slots)
  Relayed-any (sender ∷ ts) r f a b v = elim (List-cases r.unsent) [
    | inl none_left ↦
        Relayed-idle ipc held send id (λ _. 0 ≤ 0) sender ts r r (sender-waits r none_left) refl
          refl refl (Relayed-any ts r f a b v)
    | inr (t, us, u) ↦
        Relayed-sends f a b (λ _. 0 ≤ 0) ts r v t us u (λ r1 v1 _ _. Relayed-any ts r1 f a b v1)
  ]
  Relayed-any (receiver ∷ ts) r f a b v = elim (List-cases (held id r.kernel)) [
    | inl empty ↦
        Relayed-idle ipc held send id (λ _. 0 ≤ 0) receiver ts r r (receiver-waits r empty) refl
          refl refl (Relayed-any ts r f a b v)
    | inr (m, ms, h) ↦
        Relayed-receives f a b (λ _. 0 ≤ 0) ts r v m ms h (λ r1 v1 _ _. Relayed-any ts r1 f a b v1)
  ]

  -- The turns of the sender and of the receiver come in any order, from a clean receiver, a sender
  -- that sends to the queue, and lines of 1 to 1499 bytes with no NUL, in the queue or not sent
  -- yet. The kernel's queues keep their order, and it accepts every message, when the sender has
  -- waited for room. Whatever the order: the turns end well; what the receiver has got by then,
  -- what the queue holds, and what is not sent are still all the lines, each once and in their
  -- order; and the clients, which are the same, receive exactly what a window of keys makes of the
  -- lines that the receiver has got: for one that is not offline in the end the system has taken
  -- exactly these lines, whole and in their order, and it counts a reply more for each; one that
  -- was offline stays so, and a dead one is not touched. The wire of each client's socket has grown
  -- by exactly the bytes that were taken for it, and no other wire has changed. It is assumed that
  -- no two clients have one socket, and of `send` that it takes at most the bytes offered and puts
  -- on the wire of the socket what it says it has taken.
  pub relay-order :
      (wire : Wire → ℤ → List ℕ) (turns : List Turn) (r : Relay K Wire)
      → IsFifo ipc held
      → Accepts ipc
      → IsWire send wire
      → Apart r.slots
      → IsReady ipc held send id r
      → (r' : Relay K Wire) × (got : List (List ℕ)) × (relay ipc held send id turns r ≡ some r')
        × (held id r.kernel ++ r.unsent ≡ got ++ (held id r'.kernel ++ r'.unsent))
        × (r'.dao.queue_local ≡ keys_behind r.dao.queue_local got)
        × IsReady ipc held send id r'
        × AllReceive (delivered r.dao.queue_local got) r.slots r'.slots
        × Wired wire r.wire r'.wire r.slots r'.slots
  relay-order wire turns r f a b p v =
      let (r', got, o, l, k, w, _, x) = Relayed-any turns r f a b.bound v in
      (
        r',
        got,
        o,
        l,
        k,
        w,
        x,
        subst (RelayWired ipc held send id wire b r) o
            (relay-RelayWired ipc held send id wire b turns r p),
      )
