-- ===== src/QueueDao/Wire.antt =====
-- What the loop over the clients in `ARSTQueueDAO::Run` of ARST_QUOTE/ARSTQueueNode.cpp leaves on the
-- wires of their sockets.
pub mod Rounds
use cta_alristrol_gallardo_v.Base.{
  ℕ, ◌≡◌, refl, sym, ap, subst, ◌∙◌, ◌≢◌, Option, none, some, List, [], ◌∷◌, ◌++◌, append-nil,
  append_assoc, All, ℤ,
}
use cta_alristrol_gallardo_v.Clients.{Slot}
use cta_alristrol_gallardo_v.QueueDao.{Round, went, exits, faults, out_of_fuel}

abbrev pub socket_of : Slot → ℤ
socket_of s = s.client.addr.socket

-- None of the clients has this socket.
abbrev pub Unused : ℤ → List Slot → Type 0
Unused fd ss = All (λ (s : Slot). socket_of s ≢ fd) ss

-- No two clients have one socket.
abbrev pub Apart : List Slot → Type 0
Apart [] = Unit {0}
Apart (s ∷ ss) = Unused (socket_of s) ss × Apart ss

module _ {Net : Type 0} (wire : Net → ℤ → List ℕ) where
  -- The wire of the client's socket has grown by exactly the bytes that count as taken for it.
  pub record Grown (net net' : Net) (s s' : Slot) : Type 0 where
    pub addr : s'.client.addr ≡ s.client.addr
    pub bytes : List ℕ
    pub taken : s'.taken ≡ s.taken ++ bytes
    pub put : wire net' (socket_of s) ≡ wire net (socket_of s) ++ bytes

  abbrev pub AllGrown : Net → Net → List Slot → List Slot → Type 0
  AllGrown net net' [] [] = Unit {0}
  AllGrown net net' [] (s' ∷ ss') = ⊥
  AllGrown net net' (s ∷ ss) [] = ⊥
  AllGrown net net' (s ∷ ss) (s' ∷ ss') = Grown net net' s s' × AllGrown net net' ss ss'

  -- The same clients are there, each wire has grown by what was taken for its client, and no other
  -- wire has changed.
  pub record Wired (net net' : Net) (ss ss' : List Slot) : Type 0 where
    pub grown : AllGrown net net' ss ss'
    pub others : (fd : ℤ) → Unused fd ss → wire net' fd ≡ wire net fd

  pub Grown-refl : (net : Net) (s : Slot) → Grown net net s s
  Grown-refl net s = record {
    addr = refl;
    bytes = [];
    taken = sym (append-nil s.taken);
    put = sym (append-nil (wire net (socket_of s)));
  }

  AllGrown-refl : (net : Net) (ss : List Slot) → AllGrown net net ss ss
  AllGrown-refl net [] = tt
  AllGrown-refl net (s ∷ ss) = (Grown-refl net s, AllGrown-refl net ss)

  pub Wired-refl : (net : Net) (ss : List Slot) → Wired net net ss ss
  Wired-refl net ss = record { grown = AllGrown-refl net ss; others = λ fd u. refl }

  Grown-trans :
      (net net1 net2 : Net) (s s1 s2 : Slot)
      → Grown net net1 s s1
      → Grown net1 net2 s1 s2
      → Grown net net2 s s2
  Grown-trans net net1 net2 s s1 s2 g h = record {
    addr = h.addr ∙ g.addr;
    bytes = g.bytes ++ h.bytes;
    taken = h.taken ∙ ap (λ b. b ++ h.bytes) g.taken ∙ append_assoc s.taken g.bytes h.bytes;
    put =
        ap (λ a. wire net2 a.socket) (sym g.addr)
        ∙ h.put
        ∙ ap (λ a. wire net1 a.socket ++ h.bytes) g.addr
        ∙ ap (λ b. b ++ h.bytes) g.put
        ∙ append_assoc (wire net (socket_of s)) g.bytes h.bytes;
  }

  AllGrown-trans :
      (net net1 net2 : Net) (ss ss1 ss2 : List Slot)
      → AllGrown net net1 ss ss1
      → AllGrown net1 net2 ss1 ss2
      → AllGrown net net2 ss ss2
  AllGrown-trans net net1 net2 [] [] [] g h = tt
  AllGrown-trans net net1 net2 [] [] (s2 ∷ ss2) g h = absurd h
  AllGrown-trans net net1 net2 [] (s1 ∷ ss1) ss2 g h = absurd g
  AllGrown-trans net net1 net2 (s ∷ ss) [] ss2 g h = absurd g
  AllGrown-trans net net1 net2 (s ∷ ss) (s1 ∷ ss1) [] g h = absurd h
  AllGrown-trans net net1 net2 (s ∷ ss) (s1 ∷ ss1) (s2 ∷ ss2) g h =
      (Grown-trans net net1 net2 s s1 s2 g.0 h.0, AllGrown-trans net net1 net2 ss ss1 ss2 g.1 h.1)

  AllGrown-Unused :
      (net net1 : Net) (fd : ℤ) (ss ss1 : List Slot)
      → AllGrown net net1 ss ss1
      → Unused fd ss
      → Unused fd ss1
  AllGrown-Unused net net1 fd [] [] g u = tt
  AllGrown-Unused net net1 fd [] (s1 ∷ ss1) g u = absurd g
  AllGrown-Unused net net1 fd (s ∷ ss) [] g u = absurd g
  AllGrown-Unused net net1 fd (s ∷ ss) (s1 ∷ ss1) g u =
      (λ e. u.0 (ap (λ a. a.socket) (sym g.0.addr) ∙ e), AllGrown-Unused net net1 fd ss ss1 g.1 u.1)

  pub AllGrown-Apart :
      (net net1 : Net) (ss ss1 : List Slot) → AllGrown net net1 ss ss1 → Apart ss → Apart ss1
  AllGrown-Apart net net1 [] [] g a = tt
  AllGrown-Apart net net1 [] (s1 ∷ ss1) g a = absurd g
  AllGrown-Apart net net1 (s ∷ ss) [] g a = absurd g
  AllGrown-Apart net net1 (s ∷ ss) (s1 ∷ ss1) g a = (
    subst (λ b. Unused b.socket ss1) (sym g.0.addr)
        (AllGrown-Unused net net1 (socket_of s) ss ss1 g.1 a.0),
    AllGrown-Apart net net1 ss ss1 g.1 a.1,
  )

  pub Wired-trans :
      (net net1 net2 : Net) (ss ss1 ss2 : List Slot)
      → Wired net net1 ss ss1
      → Wired net1 net2 ss1 ss2
      → Wired net net2 ss ss2
  Wired-trans net net1 net2 ss ss1 ss2 v w = record {
    grown = AllGrown-trans net net1 net2 ss ss1 ss2 v.grown w.grown;
    others = λ fd u. w.others fd (AllGrown-Unused net net1 fd ss ss1 v.grown u) ∙ v.others fd u;
  }

  -- What is true of a loop over the clients that ends, and of a round that goes well.
  abbrev pub Cast : Net → List Slot → Option (List Slot × Net) → Type 0
  Cast net ss none = Unit {0}
  Cast net ss (some (ss', net')) = Wired net net' ss ss'

  abbrev pub WentWired : Net → List Slot → Round Net → Type 0
  WentWired net ss (went d' ss' net') = Wired net net' ss ss'
  WentWired net ss exits = Unit {0}
  WentWired net ss faults = Unit {0}
  WentWired net ss out_of_fuel = Unit {0}

  -- The first client grows, and then the others; the wires of these are apart.
  pub AllGrown-behind :
      (net net1 net2 : Net) (ss ss2 : List Slot)
      → ((fd : ℤ) → ¬ Unused fd ss → wire net1 fd ≡ wire net fd)
      → AllGrown net1 net2 ss ss2
      → AllGrown net net2 ss ss2
  AllGrown-behind net net1 net2 [] [] k g = tt
  AllGrown-behind net net1 net2 [] (s2 ∷ ss2) k g = absurd g
  AllGrown-behind net net1 net2 (s ∷ ss) [] k g = absurd g
  AllGrown-behind net net1 net2 (s ∷ ss) (s2 ∷ ss2) k g = (
    record {
      addr = g.0.addr;
      bytes = g.0.bytes;
      taken = g.0.taken;
      put = g.0.put ∙ ap (λ b. b ++ g.0.bytes) (k (socket_of s) (λ u. u.0 refl));
    },
    AllGrown-behind net net1 net2 ss ss2 (λ fd n. k fd (λ u. n u.1)) g.1,
  )
