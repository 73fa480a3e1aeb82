-- ===== src/QueueDao/Cast.antt =====
-- The loop over the clients in `ARSTQueueDAO::Run` of ARST_QUOTE/ARSTQueueNode.cpp: who gets a tick.
use cta_alristrol_gallardo_v.Client.{Sent, cs_offline, send_all, trigger_get_reply_event}
use cta_alristrol_gallardo_v.Client.Sending.{IsSend, Outcome, whole, broken, send_all-Outcome}
use cta_alristrol_gallardo_v.Clients.{Slot, is_dead}
use cta_alristrol_gallardo_v.QueueDao.{offer, broadcast}
use cta_alristrol_gallardo_v.Base.{
  ℕ, ◌+◌, ◌≡◌, refl, inl, inr, true, false, some, List, [], ◌∷◌, if◌then◌else◌, Bool-cases, length,
  ℤ, ◌++◌,
}

module _ {Net : Type 0} (send : ℤ → List ℕ → Net → ℤ × Net) where
  -- What a tick does to a client's slot: nothing to a dead one; to another it is sent, and the
  -- client counts one more reply if the whole text was taken, and is offline if only a part was.
  pub data Served (text : List ℕ) (s s' : Slot) : Type 0 where
    passed : is_dead s ≡ true → s' ≡ s → Served text s s'
    reached :
        is_dead s ≡ false
        → s' ≡ record s {
          client = record s.client { replies = s.client.replies + 1 };
          taken = s.taken ++ text;
        }
        → Served text s s'
    dropped :
        (part missing : List ℕ)
        → is_dead s ≡ false
        → text ≡ part ++ missing
        → s'
          ≡ record s { client = record s.client { status = cs_offline }; taken = s.taken ++ part }
        → Served text s s'

  abbrev pub AllServed : List ℕ → List Slot → List Slot → Type 0
  AllServed text [] [] = Unit {0}
  AllServed text [] (s' ∷ ss') = ⊥
  AllServed text (s ∷ ss) [] = ⊥
  AllServed text (s ∷ ss) (s' ∷ ss') = Served text s s' × AllServed text ss ss'

  abbrev Offers : Slot → List ℕ → Net → Type 0
  Offers s text net =
      (s' : Slot) × (net' : Net) × (offer send s text net ≡ some (s', net')) × Served text s s'

  -- The slot that `offer` leaves.
  abbrev served : Slot → Sent Net → Slot
  served s r = record s {
    client = if r.result then trigger_get_reply_event r.client else r.client;
    taken = s.taken ++ r.taken;
  }

  offered :
      (s : Slot) (text : List ℕ) (net : Net) (r : Sent Net)
      → is_dead s ≡ false
      → send_all send s.client text (length text) net ≡ some r
      → Outcome s.client text r
      → Offers s text net
  unfolding offer
  offered s text net r d e (whole t c k) =
      (served s r, r.net, rw (e, offer), reached d (simp (t, c, k)))
  offered s text net r d e (broken m t c k n) =
      (served s r, r.net, rw (e, offer), dropped r.taken m d k (simp (t, c)))

  offer-Served :
      (s : Slot) (text : List ℕ) (net : Net) → IsSend send → is_dead s ≡ false → Offers s text net
  offer-Served s text net b d =
      let (r, e, o) = send_all-Outcome send s.client text net b in offered s text net r d e o

  -- The loop ends, and serves every client.
  pub broadcast-AllServed :
      (ss : List Slot) (text : List ℕ) (net : Net)
      → IsSend send
      → (ss' : List Slot) × (net' : Net) × (broadcast send ss text net ≡ some (ss', net'))
        × AllServed text ss ss'
  unfolding broadcast
  broadcast-AllServed [] text net b = ([], net, refl, tt)
  broadcast-AllServed (s ∷ ss) text net b = elim (Bool-cases (is_dead s)) [
    | inl dead ↦
        let (ss', net', e, a) = broadcast-AllServed ss text net b in
        (s ∷ ss', net', rw (dead, broadcast) (rw e), (passed dead refl, a))
    | inr live ↦
        let (s', net1, e, o) = offer-Served s text net b live in
        let (ss', net', f, a) = broadcast-AllServed ss text net1 b in
        (s' ∷ ss', net', rw (live, broadcast) (rw (e, broadcast) (rw f)), (o, a))
  ]
