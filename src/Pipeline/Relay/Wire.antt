-- ===== src/Pipeline/Relay/Wire.antt =====
-- What the turns of both ends of a queue (ARST_QUOTE/ARSTQueueNode.cpp) leave on the wires of the
-- clients' sockets.
use mathlib.Core.Option
use cta_alristrol_gallardo_v.Base.{
  ℕ, subst, inl, inr, Option, none, some, List, [], ◌∷◌, Option-cases, length, ℤ, List-cases,
}
use cta_alristrol_gallardo_v.Client.Wire.{IsWire}
use cta_alristrol_gallardo_v.Queue.{Ipc, bufsize}
use cta_alristrol_gallardo_v.QueueNode.{QueueNode, send_data}
use cta_alristrol_gallardo_v.QueueDao.{Round, went, exits, faults, out_of_fuel, round}
use cta_alristrol_gallardo_v.QueueDao.Wire.{
  Apart, Wired, Wired-refl, Wired-trans, AllGrown-Apart, WentWired,
}
use cta_alristrol_gallardo_v.QueueDao.Wire.Rounds.{round-WentWired}
use cta_alristrol_gallardo_v.Pipeline.Relay.{
  Turn, sender, receiver, Relay, relay, one, send_one, take_one,
}

module _ {K Wire : Type 0} (ipc : Ipc K) (held : ℤ → K → List (List ℕ))
    (send : ℤ → List ℕ → Wire → ℤ × Wire) (id : ℤ) (wire : Wire → ℤ → List ℕ)
    (w : IsWire send wire) where
  -- How turns end from a state, if they end well.
  abbrev pub RelayWired : Relay K Wire → Option (Relay K Wire) → Type 0
  RelayWired r none = Unit {0}
  RelayWired r (some r') = Wired wire r.wire r'.wire r.slots r'.slots

  posted-RelayWired :
      (r : Relay K Wire) (ts : List (List ℕ)) (o : Option (ℤ × QueueNode × K))
      → RelayWired r (Option.map (λ (_, n, k). record r { unsent = ts; node = n; kernel = k }) o)
  posted-RelayWired r ts none = tt
  posted-RelayWired r ts (some x) = Wired-refl wire r.wire r.slots

  served-RelayWired :
      (r : Relay K Wire) (k : K) (o : Round Wire)
      → WentWired wire r.wire r.slots o
      → RelayWired r (elim o [
        | went d ss w' ↦ some (record r { kernel = k; dao = d; slots = ss; wire = w' })
        | exits ↦ none
        | faults ↦ none
        | out_of_fuel ↦ none
      ])
  served-RelayWired r k (went d ss w') v = v
  served-RelayWired r k exits v = tt
  served-RelayWired r k faults v = tt
  served-RelayWired r k out_of_fuel v = tt

  one-RelayWired :
      (t : Turn) (r : Relay K Wire) → Apart r.slots → RelayWired r (one ipc held send id t r)
  unfolding one send_one take_one
  one-RelayWired sender r a = elim (List-cases r.unsent) [
    | inl e ↦ rw (e, RelayWired, send_one) (Wired-refl wire r.wire r.slots)
    | inr (t, ts, e) ↦
        rw (e, RelayWired, send_one)
          (posted-RelayWired r ts (send_data ipc r.node t (length t) 1 0 r.kernel))
  ]
  one-RelayWired receiver r a = elim (List-cases (held id r.kernel)) [
    | inl e ↦ rw (e, RelayWired, take_one) (Wired-refl wire r.wire r.slots)
    | inr (m, ms, e) ↦
        let (x, k) = ipc.msgrcv id bufsize 0 0 r.kernel in
        rw (e, RelayWired, take_one)
          (served-RelayWired r k (round send r.dao r.slots r.wire x)
            (round-WentWired send wire w r.dao r.slots r.wire a x))
  ]

  behind-RelayWired :
      (r r1 : Relay K Wire) (o : Option (Relay K Wire))
      → RelayWired r (some r1)
      → RelayWired r1 o
      → RelayWired r o
  behind-RelayWired r r1 none v u = tt
  behind-RelayWired r r1 (some r2) v u =
      Wired-trans wire r.wire r1.wire r2.wire r.slots r1.slots r2.slots v u

  pub relay-RelayWired :
      (ts : List Turn) (r : Relay K Wire)
      → Apart r.slots
      → RelayWired r (relay ipc held send id ts r)
  unfolding relay
  relay-RelayWired [] r a = Wired-refl wire r.wire r.slots
  relay-RelayWired (t ∷ ts) r a = elim (Option-cases (one ipc held send id t r)) [
    | inl e ↦ rw (e, RelayWired, relay) tt
    | inr (r1, e) ↦
        let v : RelayWired r (some r1) = subst (RelayWired r) e (one-RelayWired t r a) in
        rw (e, RelayWired, relay)
          (behind-RelayWired r r1 (relay ipc held send id ts r1) v (
            relay-RelayWired ts r1 (AllGrown-Apart wire r.wire r1.wire r.slots r1.slots v.grown a)))
  ]
