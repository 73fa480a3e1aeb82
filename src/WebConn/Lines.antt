-- ===== src/WebConn/Lines.antt =====
-- The framing of ARST_QUOTE/ARSTWebConn.cpp: which lines `ARSTServer::Run` hands to the queue.
use cta_alristrol_gallardo_v.Queue.Buffer.{c_string-full, c_string-overwrite}
use cta_alristrol_gallardo_v.Text.Digits.{NonZero}
use mathlib.Core.Option
use cta_alristrol_gallardo_v.Base.{
  ℕ, suc, ◌+◌, ◌≡◌, refl, ap, ◌∙◌, true, false, some, List, [], ◌∷◌, ◌++◌, arith, length, All, ℤ,
  pos, ◌<◌, ◌≤◌, length-append, All-append, ◌-◌,
}
use cta_alristrol_gallardo_v.WebConn.{
  Server, Got, ahead, read_line, newline, is_serving, round, forward, buffersize, faults, down,
  sends, ss_breakdown,
}
use cta_alristrol_gallardo_v.WebConn.Feed.{IsOpen, IsText, Feeds, Ends}
use cta_alristrol_gallardo_v.WebConn.Reading.{
  heard, heard-IsOpen, read_line-newline, read_line-text, read_line-Ends,
}

module _ {Net : Type 0} (recv : ℕ → Net → ℤ × List ℕ × Net) where
  All-NonZero : (bs : List ℕ) → All IsText bs → All NonZero bs
  All-NonZero [] t = tt
  All-NonZero (b ∷ bs) t = (t.0.1, All-NonZero bs t.1)

  round-forward :
      (s : Server) (net : Net)
      → is_serving s.status ≡ true
      → round recv s net ≡ forward recv (read_line recv buffersize s net)
  unfolding round
  round-forward s net v = rw v

  forward-sends :
      (s : Server) (net : Net) (line : List ℕ)
      → length line < 1024
      → All NonZero line
      → forward recv (some (record { server = s; net = net; bytes = line; result = true }))
        ≡ sends s net line
  unfolding forward
  forward-sends s net line l z = rw (c_string-overwrite line buffersize l z, forward)

  forward-faults :
      (s : Server) (net : Net) (line : List ℕ)
      → length line ≡ 1024
      → All NonZero line
      → forward recv (some (record { server = s; net = net; bytes = line; result = true })) ≡ faults
  unfolding forward
  forward-faults s net line l z = rw (c_string-full line buffersize l z, forward)

  -- A serving connection with an open socket and a heartbeat is fed a line of at most 1022 bytes
  -- and a newline, with no other newline and no NUL: the round hands exactly this line, newline
  -- included, to the queue, has reset the heartbeat once for each byte before the newline, and
  -- changes nothing else.
  pub round_line :
      (s : Server) (text : List ℕ) (net net1 net' : Net)
      → is_serving s.status ≡ true
      → IsOpen s
      → s.has_heartbeat ≡ true
      → All IsText text
      → length text ≤ 1022
      → Feeds recv net text net1
      → recv 1 net1 ≡ (pos 1, newline ∷ [], net')
      → round recv s net ≡ sends (heard (length text) s) net' (text ++ newline ∷ [])
  round_line s text net net1 net' v o h t l f e =
      round-forward s net v
      ∙ ap (forward recv) (
          read_line-text recv text 1024 (suc (1023 - length text)) s net net1 o h t (omega arith) f
          ∙ ap (Option.map (ahead text)) (
              read_line-newline recv (1023 - length text) (heard (length text) s) net1 net'
                (heard-IsOpen (length text) s o) e))
      ∙ forward-sends (heard (length text) s) net' (text ++ newline ∷ [])
          (omega (arith, length-append text (newline ∷ [])))
          (All-append NonZero text (newline ∷ []) (All-NonZero text t) ((λ z. omega arith), tt))

  -- A serving connection is fed 1024 bytes, none of them a newline or NUL: the buffer is full, no
  -- NUL stands in it, and taking its length runs off its end.
  pub round_overlong :
      (s : Server) (text : List ℕ) (net net' : Net)
      → is_serving s.status ≡ true
      → IsOpen s
      → s.has_heartbeat ≡ true
      → All IsText text
      → length text ≡ 1024
      → Feeds recv net text net'
      → round recv s net ≡ faults
  round_overlong s text net net' v o h t l f =
      round-forward s net v
      ∙ ap (forward recv) (read_line-text recv text 1024 0 s net net' o h t (omega arith) f ∙ full)
      ∙ forward-faults (heard (length text) s) net' (text ++ [])
          (omega (arith, length-append text []))
          (All-append NonZero text [] (All-NonZero text t) tt)
    where
      full :
          Option.map (ahead text) (read_line recv 0 (heard (length text) s) net')
          ≡ some (record {
            server = heard (length text) s;
            net = net';
            bytes = text ++ [];
            result = true;
          })
      full = unfold read_line in refl

  abbrev broken : Server → Server
  broken s = record s { status = ss_breakdown }

  forward-down :
      (g : Got Net)
      → g.result ≡ false
      → forward recv (some g) ≡ down (record g.server { status = ss_breakdown }) g.net
  unfolding forward
  forward-down g r = rw r

  -- A serving connection is fed fewer than 1024 bytes with no newline, and then the read fails or
  -- finds the connection closed: the round hands nothing to the queue, and leaves the server broken
  -- down, with the heartbeat reset once for each byte and nothing else changed but the socket.
  pub round_cut :
      (s : Server) (text : List ℕ) (net net1 : Net)
      → is_serving s.status ≡ true
      → IsOpen s
      → s.has_heartbeat ≡ true
      → All IsText text
      → length text < 1024
      → Feeds recv net text net1
      → Ends recv net1
      → (s' : Server) × (net' : Net) × (round recv s net ≡ down s' net')
        × (s' ≡ record s {
          status = ss_breakdown;
          socket = s'.socket;
          replies = s.replies + length text;
        })
  round_cut s text net net1 v o h t l f n =
      let (g, e, r, q) =
        read_line-Ends recv (1023 - length text) (heard (length text) s) net1
          (heard-IsOpen (length text) s o) n in
      (
        record g.server { status = ss_breakdown },
        g.net,
        round-forward s net v
            ∙ ap (forward recv) (
                read_line-text recv text 1024 (suc (1023 - length text)) s net net1 o h t
                  (omega arith) f
                ∙ ap (Option.map (ahead text)) e)
            ∙ forward-down (ahead text g) r,
        ap broken q,
      )
