-- ===== src/WebConn/Ending.antt =====
-- The loops of `ARSTServer` in ARST_QUOTE/ARSTWebConn.cpp end: `RecvAll`, and the reading of a line.
use mathlib.Core.Option
use cta_alristrol_gallardo_v.Base.{
  ℕ, zero, suc, ◌+◌, ◌-◌, ◌≤◌, ◌<◌, ◌≡◌, refl, sym, subst, ◌≢◌, ◌⊎◌, inl, inr, Option, none, some,
  List, arith, Option-cases, ℤ, pos, negsuc,
}
use cta_alristrol_gallardo_v.ClientSocket
use cta_alristrol_gallardo_v.ClientSocket.{ClientSocket}
use cta_alristrol_gallardo_v.WebConn.{
  Server, Got, ahead, judge, take_turn, recv_loop, recv_all, read_line, forward, round, out_of_fuel,
  buffersize, trigger_get_reply_event,
}

-- Documented of `recv`: it fails, or returns a count of at most the bytes wanted.
abbrev pub IsWithin : ℕ → ℤ → Type 0
IsWithin left (pos k) = k ≤ left
IsWithin left (negsuc k) = Unit {0}

map-ne-none :
    {Net : Type 0} (f : Got Net → Got Net) (o : Option (Got Net)) → o ≢ none → Option.map f o ≢ none
map-ne-none f none h e = h refl
map-ne-none f (some a) h e = cc

recv_result :
    (sock : ClientSocket) (r : ℤ)
    → ((ClientSocket.recv sock r).1 ≡ r) ⊎ ((ClientSocket.recv sock r).1 ≡ pos 0)
unfolding ClientSocket.recv
recv_result sock r = ground arith

recv-IsWithin :
    (sock : ClientSocket) (left : ℕ) (r : ℤ)
    → IsWithin left r
    → IsWithin left (ClientSocket.recv sock r).1
recv-IsWithin sock left r w = elim (recv_result sock r) [
  | inl e ↦ subst (IsWithin left) (sym e) w
  | inr e ↦ subst (IsWithin left) (sym e) (omega arith)
]

module _ {Net : Type 0} (recv : ℕ → Net → ℤ × List ℕ × Net) where
  abbrev pub IsRecv : Type 0
  IsRecv = (n : ℕ) (net : Net) → IsWithin n (recv n net).0

  judge-ne-none :
      (s : Server) (left : ℕ) (r : ℤ) (bytes : List ℕ) (net : Net) (more : ℕ → Option (Got Net))
      → IsWithin left r
      → ((k : ℕ) → 0 < k → k ≤ left → more k ≢ none)
      → judge recv s left r bytes net more ≢ none
  unfolding judge
  judge-ne-none s left (negsuc k) bytes net more w h = ground arith
  judge-ne-none s left (pos k) bytes net more w h =
      ground (arith, map-ne-none (ahead bytes) (more k), h k)

  take_turn-ne-none :
      (so : Option ClientSocket) (s : Server) (left n_recv : ℕ) (net : Net)
      (more : Server → Net → ℕ → Option (Got Net))
      → IsRecv
      → ((s' : Server) (net' : Net) (k : ℕ) → 0 < k → k ≤ left → more s' net' k ≢ none)
      → take_turn recv so s left n_recv net more ≢ none
  unfolding take_turn
  take_turn-ne-none none s left n_recv net more w h = ground arith
  take_turn-ne-none (some sock) s left n_recv net more w h =
      judge-ne-none _ left _ _ _ _ (recv-IsWithin sock left (recv left net).0 (w left net)) (h _ _)

  recv_loop-ne-none :
      (fuel : ℕ) (s : Server) (n_to_recv n_recv : ℕ) (net : Net)
      → IsRecv
      → n_to_recv - n_recv < fuel
      → recv_loop recv fuel s n_to_recv n_recv net ≢ none
  unfolding recv_loop
  recv_loop-ne-none zero s a b net w f = absurd (omega arith)
  recv_loop-ne-none (suc fuel) s a b net w f =
      take_turn-ne-none s.socket s (a - b) b net _ w
        (λ s' net' k p l. recv_loop-ne-none fuel s' (a - b) k net' w (omega arith))

  recv_all-ne-none : (s : Server) (n : ℕ) (net : Net) → IsRecv → recv_all recv s n net ≢ none
  unfolding recv_all
  recv_all-ne-none s n net w = recv_loop-ne-none (n + 1) s n 0 net w (omega arith)

  read_line-ne-none :
      (room : ℕ) (s : Server) (net : Net) → IsRecv → read_line recv room s net ≢ none
  unfolding read_line
  read_line-ne-none zero s net w = ground arith
  read_line-ne-none (suc room) s net w = elim (Option-cases (recv_all recv s 1 net)) [
    | inl out ↦ absurd (recv_all-ne-none s 1 net w out)
    | inr (g, e) ↦
        let rest = read_line-ne-none room (trigger_get_reply_event g.server) g.net w in
        rw (e, read_line)
          (ground (
            arith,
            map-ne-none (ahead g.bytes)
                (read_line recv room (trigger_get_reply_event g.server) g.net) rest,
          ))
  ]

  forward-ne-out_of_fuel : (o : Option (Got Net)) → o ≢ none → forward recv o ≢ out_of_fuel
  unfolding forward
  forward-ne-out_of_fuel none i = λ e. i refl
  forward-ne-out_of_fuel (some g) i = ground arith

  -- Whatever the server is, and whatever the network gives within the bytes wanted: a round of the
  -- thread ends, in one of the four ways of the program.
  pub round_ends : (s : Server) (net : Net) → IsRecv → round recv s net ≢ out_of_fuel
  unfolding round
  round_ends s net w = ground (
    arith,
    forward-ne-out_of_fuel (read_line recv buffersize s net),
    read_line-ne-none buffersize s net w,
  )
