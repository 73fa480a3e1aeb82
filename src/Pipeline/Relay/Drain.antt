-- ===== src/Pipeline/Relay/Drain.antt =====
-- That all lines reach the receiver of ARST_QUOTE/ARSTQueueNode.cpp if both ends of the queue take
-- their turns in alternation.
use cta_alristrol_gallardo_v.Base.{
  ℕ, zero, suc, ◌+◌, ◌≤◌, ◌≡◌, refl, sym, ap, ap₂, subst, ◌∙◌, inl, inr, some, List, [], ◌∷◌, ◌++◌,
  append-nil, arith, length, length-append, ℤ, List-cases,
}
use cta_alristrol_gallardo_v.Client.Sending.{IsSend}
use cta_alristrol_gallardo_v.Client.Wire.{IsWire}
use cta_alristrol_gallardo_v.QueueDao.Wire.{Apart, Wired}
use cta_alristrol_gallardo_v.Pipeline.Relay.Wire.{RelayWired, relay-RelayWired}
use cta_alristrol_gallardo_v.Queue.{Ipc}
use cta_alristrol_gallardo_v.Queue.Fifo.{Accepts, IsFifo}
use cta_alristrol_gallardo_v.QueueDao.Delivery.{delivered, keys_behind}
use cta_alristrol_gallardo_v.QueueDao.Receivers.{AllReceive, AllReceive-none}
use cta_alristrol_gallardo_v.Pipeline.Relay.{Turn, sender, receiver, Relay, relay}
use cta_alristrol_gallardo_v.Pipeline.Relay.Flight.{IsReady, Relayed, Relayed-idle}
use cta_alristrol_gallardo_v.Pipeline.Relay.Order.{
  sender-waits, receiver-waits, Relayed-sends, Relayed-receives,
}

-- So many turns of each.
pub in_turn : ℕ → List Turn
in_turn zero = []
in_turn (suc n) = sender ∷ receiver ∷ in_turn n

empty-of_length : (xs : List (List ℕ)) → length xs ≤ 0 → xs ≡ []
empty-of_length [] l = refl
empty-of_length (x ∷ xs) l = absurd (omega arith)

module _ {K Wire : Type 0} (ipc : Ipc K) (held : ℤ → K → List (List ℕ))
    (send : ℤ → List ℕ → Wire → ℤ × Wire) (id : ℤ) where
  -- Nothing is on its way.
  abbrev pub IsDrained : Relay K Wire → Type 0
  IsDrained r = (held id r.kernel ≡ []) × (r.unsent ≡ [])

  abbrev waiting : Relay K Wire → ℕ
  waiting r = length (held id r.kernel) + length r.unsent

  module _ (f : IsFifo ipc held) (a : Accepts ipc) (b : IsSend send) where
    -- What is left to the turns that follow.
    abbrev DrainsIn : ℕ → Type 0
    DrainsIn n =
        (r : Relay K Wire)
        → IsReady ipc held send id r
        → waiting r ≤ n
        → Relayed ipc held send id IsDrained r (relay ipc held send id (in_turn n) r)

    -- The receiver's turn: there is a message, or nothing left.
    receiver-turn :
        (n : ℕ) (r : Relay K Wire)
        → DrainsIn n
        → IsReady ipc held send id r
        → waiting r ≤ suc n
        → (held id r.kernel ≡ [] → waiting r ≤ n)
        → Relayed ipc held send id IsDrained r (relay ipc held send id (receiver ∷ in_turn n) r)
    receiver-turn n r next v l none_left = elim (List-cases (held id r.kernel)) [
      | inl empty ↦
          Relayed-idle ipc held send id IsDrained receiver (in_turn n) r r
            (receiver-waits ipc held send id r empty) refl refl refl (next r v (none_left empty))
      | inr (m, ms, h) ↦
          Relayed-receives ipc held send id f a b IsDrained (in_turn n) r v m ms h
            (λ r1 v1 h1 u1. next r1 v1 (omega (arith, ap length h, ap length h1, ap length u1)))
    ]

    DrainsIn-all : (n : ℕ) → DrainsIn n
    unfolding in_turn delivered keys_behind
    DrainsIn-all zero r v l =
        let empty = empty-of_length (held id r.kernel) (omega arith) in
        let sent = empty-of_length r.unsent (omega arith) in
        (r, [], unfold relay in refl, refl, refl, v, (empty, sent), AllReceive-none r.slots)
    DrainsIn-all (suc n) r v l = elim (List-cases r.unsent) [
      | inl none_left ↦
          Relayed-idle ipc held send id IsDrained sender (receiver ∷ in_turn n) r r
            (sender-waits ipc held send id r none_left) refl refl refl
            (receiver-turn n r (DrainsIn-all n) v l
              (λ e. omega (arith, ap length e, ap length none_left)))
      | inr (t, us, u) ↦
          Relayed-sends ipc held send id f a b IsDrained (receiver ∷ in_turn n) r v t us u
            (λ r1 v1 h1 u1.
              receiver-turn n r1 (DrainsIn-all n) v1
                (omega (
                  arith,
                  ap length h1,
                  ap length u1,
                  ap length u,
                  length-append (held id r.kernel) (t ∷ []),
                ))
                (λ e. absurd (
                  omega
                    (arith, ap length h1, ap length e, length-append (held id r.kernel) (t ∷ [])))))
    ]

  -- The turns of the sender and of the receiver alternate, from a clean receiver, a sender that
  -- sends to the queue, and lines of 1 to 1499 bytes with no NUL, in the queue or not sent yet,
  -- with as many turns of each as there are lines. The kernel's queues keep their order, and it
  -- accepts every message. Then nothing is left in the queue or unsent, and the clients, which are
  -- the same, receive exactly what a window of keys makes of all the lines: for one that is not
  -- offline in the end the system has taken exactly these lines, whole and in their order, and it
  -- counts a reply more for each; one that was offline stays so, and a dead one is not touched. The
  -- wire of each client's socket has grown by exactly the bytes that were taken for it, and no
  -- other wire has changed. It is assumed that no two clients have one socket, and of `send` that
  -- it takes at most the bytes offered and puts on the wire of the socket what it says it has
  -- taken.
  pub relay-drains :
      (wire : Wire → ℤ → List ℕ) (n : ℕ) (r : Relay K Wire)
      → IsFifo ipc held
      → Accepts ipc
      → IsWire send wire
      → Apart r.slots
      → IsReady ipc held send id r
      → length (held id r.kernel) + length r.unsent ≤ n
      → (r' : Relay K Wire) × (relay ipc held send id (in_turn n) r ≡ some r')
        × (held id r'.kernel ≡ [])
        × (r'.unsent ≡ [])
        × IsReady ipc held send id r'
        × AllReceive (delivered r.dao.queue_local (held id r.kernel ++ r.unsent)) r.slots r'.slots
        × Wired wire r.wire r'.wire r.slots r'.slots
  relay-drains wire n r f a b p v l =
      let (r', got, o, s, _, w, (h, u), x) = DrainsIn-all f a b.bound n r v l in
      let all : got ≡ held id r.kernel ++ r.unsent =
        sym (s ∙ ap (λ t. got ++ t) (ap₂ (λ y z. y ++ z) h u) ∙ append-nil got) in
      (
        r',
        o,
        h,
        u,
        w,
        subst (λ g. AllReceive (delivered r.dao.queue_local g) r.slots r'.slots) all x,
        subst (RelayWired ipc held send id wire b r) o
            (relay-RelayWired ipc held send id wire b (in_turn n) r p),
      )
