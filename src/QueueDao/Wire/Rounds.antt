-- ===== src/QueueDao/Wire/Rounds.antt =====
-- The rounds of `ARSTQueueDAO::Run` of ARST_QUOTE/ARSTQueueNode.cpp, and what they leave on the wires.
use mathlib.Core.Option
use cta_alristrol_gallardo_v.Base.{
  ℕ, ◌+◌, ◌≡◌, refl, subst, ◌∙◌, ◌≢◌, inl, inr, Option, none, some, List, [], ◌∷◌, ◌++◌, leb, ◌==◌,
  Bool-cases, Option-cases, length, replicate, ℤ, pos, negsuc,
}
use cta_alristrol_gallardo_v.Client.{send_all, trigger_get_reply_event}
use cta_alristrol_gallardo_v.Client.Wire.{IsWire, Put, PutAll, send_all-Put}
use cta_alristrol_gallardo_v.Clients.{Slot, is_dead}
use cta_alristrol_gallardo_v.Queue.{Received, get_message, bufsize}
use cta_alristrol_gallardo_v.Text.{c_string}
use cta_alristrol_gallardo_v.QueueDao.{
  Dao, Round, went, exits, faults, out_of_fuel, offer, broadcast, fresh, stale, handle, act, round,
  run, trim, contains, key_of, tokens,
}
use cta_alristrol_gallardo_v.QueueDao.Wire.{
  socket_of, Unused, Apart, Grown, Wired, Grown-refl, Wired-refl, Wired-trans, AllGrown-Apart, Cast,
  WentWired, AllGrown-behind,
}

module _ {Net : Type 0} (send : ℤ → List ℕ → Net → ℤ × Net) (wire : Net → ℤ → List ℕ)
    (w : IsWire send wire) where
  -- What `offer` does to a client's slot and to the wires.
  abbrev Offered : Slot → Net → Option (Slot × Net) → Type 0
  Offered s net none = Unit {0}
  Offered s net (some (s', net')) =
      Grown wire net net' s s'
      × ((other : ℤ) → socket_of s ≢ other → wire net' other ≡ wire net other)

  offer-Offered : (s : Slot) (text : List ℕ) (net : Net) → Offered s net (offer send s text net)
  unfolding offer trigger_get_reply_event
  offer-Offered s text net = elim (Option-cases (send_all send s.client text (length text) net)) [
    | inl e ↦ rw (e, Offered, offer) tt
    | inr (r, e) ↦
        let (a, p, o) : Put wire s.client net r =
          subst (PutAll wire s.client net) e (send_all-Put wire s.client send text _ net w) in
        rw (e, Offered, offer)
          (
            record {
              addr = elim (Bool-cases r.result) [ inl t ↦ rw t a | inr f ↦ rw f a ];
              bytes = r.taken;
              taken = refl;
              put = p;
            },
            o,
          )
  ]

  -- The first client's part, and then that of the others.
  Cast-behind :
      (s s' : Slot) (ss : List Slot) (net net1 : Net) (o : Option (List Slot × Net))
      → Unused (socket_of s) ss
      → Grown wire net net1 s s'
      → ((other : ℤ) → socket_of s ≢ other → wire net1 other ≡ wire net other)
      → Cast wire net1 ss o
      → Cast wire net (s ∷ ss) (Option.map (λ (ss', net'). (s' ∷ ss', net')) o)
  Cast-behind s s' ss net net1 none a g k c = tt
  Cast-behind s s' ss net net1 (some (ss', net')) a g k c = record {
    grown = (
      record {
        addr = g.addr;
        bytes = g.bytes;
        taken = g.taken;
        put = c.others (socket_of s) a ∙ g.put;
      },
      AllGrown-behind wire net net1 net' ss ss'
          (λ fd n. k fd (λ e. n (subst (λ f. Unused f ss) e a))) c.grown,
    );
    others = λ fd u. c.others fd u.1 ∙ k fd u.0;
  }

  broadcast-Cast :
      (ss : List Slot) (text : List ℕ) (net : Net)
      → Apart ss
      → Cast wire net ss (broadcast send ss text net)
  unfolding broadcast
  broadcast-Cast [] text net a = Wired-refl wire net []
  broadcast-Cast (s ∷ ss) text net a = elim (Bool-cases (is_dead s)) [
    | inl dead ↦
        rw (dead, Cast, broadcast)
          (Cast-behind s s ss net net _ a.0 (Grown-refl wire net s) (λ other e. refl)
            (broadcast-Cast ss text net a.1))
    | inr live ↦
        rw (live, Cast, broadcast)
          (elim (Option-cases (offer send s text net)) [
            | inl e ↦ rw (e, Cast) tt
            | inr ((s', net1), e) ↦
                let (g, k) : Offered s net (some (s', net1)) =
                  subst (Offered s net) e (offer-Offered s text net) in
                rw (e, Cast)
                  (Cast-behind s s' ss net net1 _ a.0 g k (broadcast-Cast ss text net1 a.1))
          ])
  ]

  module _ (d : Dao) (slots : List Slot) (net : Net) (a : Apart slots) where
    fresh-WentWired :
        (key text : List ℕ) → WentWired wire net slots (fresh send d key text slots net)
    unfolding fresh
    fresh-WentWired key text =
        let buf = d.recv_buf ++ text in
        elim (Bool-cases (leb bufsize (length buf))) [
          | inl full ↦ rw full tt
          | inr fits ↦ rw fits (elim (Bool-cases (leb 1 (d.readcount + 1))) [
            | inr waits ↦ rw waits (Wired-refl wire net slots)
            | inl sends ↦ rw sends (elim (Option-cases (broadcast send slots buf net)) [
              | inl e ↦ rw e tt
              | inr ((ss', net'), e) ↦
                  rw e (subst (Cast wire net slots) e (broadcast-Cast slots buf net a))
            ])
          ])
        ]

    stale-WentWired : WentWired wire net slots (stale send d slots net)
    unfolding stale
    stale-WentWired = elim (Option-cases (trim (length d.queue_local + 1) d.queue_local)) [
      | inl e ↦ rw (e, WentWired, stale) tt
      | inr (ks, e) ↦ rw (e, WentWired, stale) (Wired-refl wire net slots)
    ]

    handle-WentWired : (text : List ℕ) → WentWired wire net slots (handle send d text slots net)
    unfolding handle
    handle-WentWired text =
        let key = d.hash_string ++ key_of (tokens text) in
        elim (Bool-cases (contains key d.queue_local)) [
          | inl held ↦ rw held stale-WentWired
          | inr new ↦ rw new (fresh-WentWired key text)
        ]

    act-WentWired :
        (n : ℤ) (text : Option (List ℕ)) → WentWired wire net slots (act send d slots net n text)
    unfolding act
    act-WentWired n none = tt
    act-WentWired (negsuc k) (some text) = tt
    act-WentWired (pos k) (some text) = elim (Bool-cases (k == 0)) [
      | inl nothing ↦ rw nothing (Wired-refl wire net slots)
      | inr some' ↦ rw some' (handle-WentWired text)
    ]

    pub round-WentWired : (r : Received) → WentWired wire net slots (round send d slots net r)
    unfolding round
    round-WentWired r =
        let (n, buf) = get_message r (replicate bufsize 0) in act-WentWired n (c_string buf)

  -- How several rounds end, if they end well.
  abbrev pub RanWired : {X : Type 0} → Net → List Slot → Option (X × List Slot × Net) → Type 0
  RanWired net ss none = Unit {0}
  RanWired net ss (some (x, ss', net')) = Wired wire net net' ss ss'

  RanWired-behind :
      {X : Type 0} (ss ss1 : List Slot) (net net1 : Net) (o : Option (X × List Slot × Net))
      → Wired wire net net1 ss ss1
      → RanWired net1 ss1 o
      → RanWired net ss o
  RanWired-behind ss ss1 net net1 none v r = tt
  RanWired-behind ss ss1 net net1 (some (x, ss', net')) v r =
      Wired-trans wire net net1 net' ss ss1 ss' v r

  -- A round, and what follows it.
  pub RanWired-round :
      {X : Type 0} (slots : List Slot) (net : Net) (o : Round Net)
      (rest : Dao → List Slot → Net → Option (X × List Slot × Net))
      → Apart slots
      → WentWired wire net slots o
      → ((d : Dao) (ss : List Slot) (net1 : Net) → Apart ss → RanWired net1 ss (rest d ss net1))
      → RanWired net slots (elim o [
        | went d ss net1 ↦ rest d ss net1
        | exits ↦ none
        | faults ↦ none
        | out_of_fuel ↦ none
      ])
  RanWired-round slots net (went d ss net1) rest a v r =
      RanWired-behind slots ss net net1 (rest d ss net1) v
        (r d ss net1 (AllGrown-Apart wire net net1 slots ss v.grown a))
  RanWired-round slots net exits rest a v r = tt
  RanWired-round slots net faults rest a v r = tt
  RanWired-round slots net out_of_fuel rest a v r = tt

  pub run-RanWired :
      (ms : List Received) (d : Dao) (slots : List Slot) (net : Net)
      → Apart slots
      → RanWired net slots (run send d slots net ms)
  unfolding run
  run-RanWired [] d slots net a = Wired-refl wire net slots
  run-RanWired (m ∷ ms) d slots net a =
      RanWired-round slots net (round send d slots net m) (λ d' ss' net'. run send d' ss' net' ms) a
        (round-WentWired d slots net a m) (λ d' ss' net' b. run-RanWired ms d' ss' net' b)
