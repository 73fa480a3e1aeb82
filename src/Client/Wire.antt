-- ===== src/Client/Wire.antt =====
-- What `ARSTClient::SendAll` of ARST_QUOTE/ARSTServiceHandler.cpp leaves on the wires of the sockets,
-- of which each holds the bytes that the system has taken for it.
use mathlib.Core.Option
use cta_alristrol_gallardo_v.Base.{
  ℕ, zero, suc, ◌+◌, ◌-◌, ◌≤◌, ◌≡◌, refl, sym, ap, ◌∙◌, ◌≢◌, inl, inr, Option, none, some, List, [],
  ◌++◌, append-nil, append_assoc, arith, ltb, ◌==◌, Bool-cases, length, take, drop, length-take,
  take-le, ℤ, pos, negsuc, ltb_false→le, ==_iff,
}
use cta_alristrol_gallardo_v.Client.{Client, Sent, behind, judge, send_loop, send_all}
use cta_alristrol_gallardo_v.Client.Sending.{IsSend}

-- What a result of `send` says was taken of the bytes offered.
abbrev pub accepted : ℤ → List ℕ → List ℕ
accepted (pos k) offered = take k offered
accepted (negsuc k) offered = []

-- Documented of `send`: it takes at most the bytes offered, and what it says it has taken goes
-- behind what is on the wire of this socket, and of no other.
pub record IsWire {Net : Type 0} (send : ℤ → List ℕ → Net → ℤ × Net) (wire : Net → ℤ → List ℕ)
    : Type 0 where
  pub bound : IsSend send
  pub logs :
      (fd : ℤ) (offered : List ℕ) (net : Net)
      → wire (send fd offered net).1 fd ≡ wire net fd ++ accepted (send fd offered net).0 offered
  pub others :
      (fd other : ℤ) (offered : List ℕ) (net : Net)
      → fd ≢ other
      → wire (send fd offered net).1 other ≡ wire net other

module _ {Net : Type 0} (wire : Net → ℤ → List ℕ) (c : Client) where
  -- The wire of the client's socket has grown by what was taken, no other wire has changed, and the
  -- client has the same address.
  abbrev pub Put : Net → Sent Net → Type 0
  Put net s =
      (s.client.addr ≡ c.addr)
      × (wire s.net c.addr.socket ≡ wire net c.addr.socket ++ s.taken)
      × ((other : ℤ) → c.addr.socket ≢ other → wire s.net other ≡ wire net other)

  abbrev pub PutAll : Net → Option (Sent Net) → Type 0
  PutAll net none = Unit {0}
  PutAll net (some s) = Put net s

  -- A turn that took these bytes, and one behind it.
  abbrev Took : Net → Net → List ℕ → Type 0
  Took net net1 bytes =
      (wire net1 c.addr.socket ≡ wire net c.addr.socket ++ bytes)
      × ((other : ℤ) → c.addr.socket ≢ other → wire net1 other ≡ wire net other)

  Put-behind :
      (net net1 : Net) (bytes : List ℕ) (o : Option (Sent Net))
      → Took net net1 bytes
      → PutAll net1 o
      → PutAll net (Option.map (behind bytes) o)
  Put-behind net net1 bytes none t p = tt
  Put-behind net net1 bytes (some s) (w, u) (a, x, v) = (
    a,
    x ∙ ap (λ b. b ++ s.taken) w ∙ append_assoc (wire net c.addr.socket) bytes s.taken,
    λ other n. v other n ∙ u other n,
  )

  judge-Put :
      (offered : List ℕ) (left : ℕ) (r : ℤ) (net net1 : Net) (more : ℕ → Option (Sent Net))
      → length offered ≤ left
      → Took net net1 (accepted r offered)
      → ((k : ℕ) → PutAll net1 (more k))
      → PutAll net (judge c offered left r net1 more)
  unfolding judge
  judge-Put offered left (negsuc k) net net1 more l (w, u) m = (refl, w, u)
  judge-Put offered left (pos k) net net1 more l (w, u) m = elim (Bool-cases (k == 0)) [
    | inl nothing ↦
        let z : k ≡ 0 = (==_iff k 0).0 nothing in
        rw nothing (refl, w ∙ ap (λ n. wire net c.addr.socket ++ take n offered) z, u)
    | inr some' ↦ rw some' (elim (Bool-cases (k == left)) [
      | inl all ↦ rw all (refl, w, u)
      | inr other ↦ rw other (elim (Bool-cases (ltb k left)) [
        | inl short ↦ rw short (Put-behind net net1 (take k offered) (more k) (w, u) (m k))
        | inr over ↦ rw over (
          refl,
          w
              ∙ ap (λ b. wire net c.addr.socket ++ b)
                  (take-le k offered (omega (arith, ltb_false→le k left over))),
          u,
        )
      ])
    ])
  ]

  module _ (send : ℤ → List ℕ → Net → ℤ × Net) where
    loop-Put :
        (fuel : ℕ) (buf : List ℕ) (n_to_send n_send n_sended : ℕ) (net : Net)
        → IsWire send wire
        → PutAll net (send_loop send fuel c buf n_to_send n_send n_sended net)
    unfolding send_loop
    loop-Put zero buf t s n net w = tt
    loop-Put (suc fuel) buf t s n net w =
        let offered = take (t - s) (drop n buf) in
        judge-Put offered (t - s) (send c.addr.socket offered net).0 net
          (send c.addr.socket offered net).1 _ (omega (arith, length-take (t - s) (drop n buf)))
          (w.logs c.addr.socket offered net, λ other. w.others c.addr.socket other offered net)
          (λ k. loop-Put fuel buf (t - s) k (n + k) (send c.addr.socket offered net).1 w)

    pub send_all-Put :
        (buf : List ℕ) (n : ℕ) (net : Net)
        → IsWire send wire
        → PutAll net (send_all send c buf n net)
    unfolding send_all
    send_all-Put buf n net w = elim (Bool-cases (n == 0)) [
      | inl none_left ↦
          rw none_left (refl, sym (append-nil (wire net c.addr.socket)), λ other e. refl)
      | inr left ↦ rw left (loop-Put (n + 1) buf n 0 0 net w)
    ]
