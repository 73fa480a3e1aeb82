-- ===== src/WebConn/Feed.antt =====
-- What a network delivers byte by byte to a connection of ARST_QUOTE/ARSTWebConn.cpp.
use cta_alristrol_gallardo_v.Base.{
  ℕ, ◌≡◌, ap, ◌∙◌, ◌≢◌, ◌⊎◌, Option, some, List, [], ◌∷◌, ℤ, pos, negsuc, arith, true, false, suc,
  inl, sym, inr, refl,
}
use cta_alristrol_gallardo_v.ClientSocket
use cta_alristrol_gallardo_v.ClientSocket.{ClientSocket, css_connected}
use cta_alristrol_gallardo_v.WebConn.{Server, Got, recv_loop, recv_all, newline, judge, take_turn}

-- The server has a socket, and the socket is connected.
pub record IsOpen (s : Server) : Type 0 where
  pub sock : ClientSocket
  pub held : s.socket ≡ some sock
  pub connected : sock.status ≡ css_connected

-- A byte that neither ends a line nor a string.
abbrev pub IsText : ℕ → Type 0
IsText b = (b ≢ newline) × (b ≢ 0)

recv-connected :
    (sock : ClientSocket) (k : ℕ)
    → sock.status ≡ css_connected
    → ClientSocket.recv sock (pos (suc k)) ≡ (sock, pos (suc k))
unfolding ClientSocket.recv
recv-connected sock k c = ground arith

recv-zero : (sock : ClientSocket) → (ClientSocket.recv sock (pos 0)).1 ≡ pos 0
unfolding ClientSocket.recv
recv-zero sock = ground arith

recv-negative :
    (sock : ClientSocket) (k : ℕ)
    → sock.status ≡ css_connected
    → (ClientSocket.recv sock (negsuc k)).1 ≡ negsuc k
unfolding ClientSocket.recv
recv-negative sock k c = ground arith

module _ {Net : Type 0} (recv : ℕ → Net → ℤ × List ℕ × Net) where
  -- Asked for one byte after the other, the network gives these, and is then in the other state.
  pub data Feeds : Net → List ℕ → Net → Type 0 where
    done : {net : Net} → Feeds net [] net
    byte :
        {net net' net'' : Net} {bs : List ℕ} (b : ℕ)
        → recv 1 net ≡ (pos 1, b ∷ [], net')
        → Feeds net' bs net''
        → Feeds net (b ∷ bs) net''

  -- Asked for one byte, the network fails or has closed.
  abbrev pub Ends : Net → Type 0
  Ends net = ((recv 1 net).0 ≡ pos 0) ⊎ ((k : ℕ) × ((recv 1 net).0 ≡ negsuc k))

  -- The first turn of a read of one byte on an open socket.
  turn :
      (s : Server) (sock : ClientSocket) (net : Net) (r : ℤ) (bytes : List ℕ) (net' : Net)
      → s.socket ≡ some sock
      → recv 1 net ≡ (r, bytes, net')
      → (more : ℕ → Option (Got Net)) × (recv_all recv s 1 net
          ≡ judge recv
              (record s { socket = some (ClientSocket.recv sock r).0 })
              1
              (ClientSocket.recv sock r).1
              bytes
              net'
              more)
  unfolding recv_all
  turn s sock net r bytes net' o e = (
    _,
    ap (λ so. take_turn recv so s 1 0 net (λ s' n k. recv_loop recv 1 s' 1 k n)) o
        ∙ ap
            (λ t.
              judge recv (record s { socket = some (ClientSocket.recv sock t.0).0 }) 1
                (ClientSocket.recv sock t.0).1 t.1 t.2
                (λ k.
                  recv_loop recv 1 (record s { socket = some (ClientSocket.recv sock t.0).0 }) 1 k
                    t.2))
            e,
  )

  pub recv_all-byte :
      (s : Server) (net net' : Net) (b : ℕ)
      → IsOpen s
      → recv 1 net ≡ (pos 1, b ∷ [], net')
      → recv_all recv s 1 net
        ≡ some (record { server = s; net = net'; bytes = b ∷ []; result = true })
  unfolding judge
  recv_all-byte s net net' b o e =
      let (more, t) = turn s o.sock net (pos 1) (b ∷ []) net' o.held e in
      t
      ∙ ap (λ p. judge recv (record s { socket = some p.0 }) 1 p.1 (b ∷ []) net' more)
          (recv-connected o.sock 0 o.connected)
      ∙ ap
          (λ so. some (record {
            server = record s { socket = so };
            net = net';
            bytes = b ∷ [];
            result = true;
          }))
          (sym o.held)

  -- The server behind a read that found the connection closed or broken, but for its socket.
  pub recv_all-Ends :
      (s : Server) (net : Net)
      → IsOpen s
      → Ends net
      → (g : Got Net) × (recv_all recv s 1 net ≡ some g)
        × (g.result ≡ false)
        × (g.server ≡ record s { socket = g.server.socket })
  unfolding judge
  recv_all-Ends s net o (inl z) =
      let (more, t) =
        turn s o.sock net (pos 0) (recv 1 net).1 (recv 1 net).2 o.held
          (λ i. (z i, (recv 1 net).1, (recv 1 net).2)) in
      (
        _,
        t
            ∙ ap
                (λ r.
                  judge recv (record s { socket = some (ClientSocket.recv o.sock (pos 0)).0 }) 1 r
                    (recv 1 net).1 (recv 1 net).2 more)
                (recv-zero o.sock),
        refl,
        refl,
      )
  recv_all-Ends s net o (inr (k, z)) =
      let (more, t) =
        turn s o.sock net (negsuc k) (recv 1 net).1 (recv 1 net).2 o.held
          (λ i. (z i, (recv 1 net).1, (recv 1 net).2)) in
      (
        _,
        t
            ∙ ap
                (λ r.
                  judge recv (record s { socket = some (ClientSocket.recv o.sock (negsuc k)).0 }) 1
                    r (recv 1 net).1 (recv 1 net).2 more)
                (recv-negative o.sock k o.connected),
        refl,
        refl,
      )
