-- ===== src/WebConn/Reading.antt =====
-- The loop over the bytes of a line in `ARSTServer::Run` of ARST_QUOTE/ARSTWebConn.cpp, as the
-- network feeds it.
use mathlib.Core.Option
use cta_alristrol_gallardo_v.Base.{
  ℕ, zero, suc, ◌+◌, ◌≡◌, refl, sym, ap, ap₂, ◌∙◌, ◌≢◌, true, false, Option, none, some, List, [],
  ◌∷◌, ◌++◌, append_assoc, arith, bytes_eq, bytes_eq_self, length, All, ℤ, pos, Bool,
}
use cta_alristrol_gallardo_v.WebConn.{
  Server, Got, ahead, read_line, trigger_get_reply_event, newline,
}
use cta_alristrol_gallardo_v.WebConn.Feed.{
  IsOpen, IsText, Feeds, done, byte, recv_all-byte, Ends, recv_all-Ends,
}

-- The server after `n` bytes have reset its heartbeat.
abbrev pub heard : ℕ → Server → Server
heard n s = record s { replies = s.replies + n }

pub heard-IsOpen : (n : ℕ) (s : Server) → IsOpen s → IsOpen (heard n s)
heard-IsOpen n s o = record { sock = o.sock; held = o.held; connected = o.connected }

heard-trigger :
    (n : ℕ) (s : Server)
    → s.has_heartbeat ≡ true
    → heard n (trigger_get_reply_event s) ≡ heard (suc n) s
unfolding trigger_get_reply_event
heard-trigger n s h = ground arith

trigger-IsOpen : (s : Server) → IsOpen s → IsOpen (trigger_get_reply_event s)
unfolding trigger_get_reply_event
trigger-IsOpen s o = record { sock = o.sock; held = ground arith; connected = o.connected }

trigger-has_heartbeat : (s : Server) → (trigger_get_reply_event s).has_heartbeat ≡ s.has_heartbeat
unfolding trigger_get_reply_event
trigger-has_heartbeat s = ground arith

heard-zero : (s : Server) → heard 0 s ≡ s
heard-zero s =
    let e : s.replies + 0 ≡ s.replies = omega arith in ap (λ n. record s { replies = n }) e

map-ahead :
    {Net : Type 0} (xs ys : List ℕ) (o : Option (Got Net))
    → Option.map (ahead xs) (Option.map (ahead ys) o) ≡ Option.map (ahead (xs ++ ys)) o
map-ahead xs ys none = refl
map-ahead xs ys (some g) =
    ap (λ bs. some (record g { bytes = bs })) (sym (append_assoc xs ys g.bytes))

map-ahead_nil : {Net : Type 0} (o : Option (Got Net)) → Option.map (ahead []) o ≡ o
map-ahead_nil none = refl
map-ahead_nil (some g) = refl

not-newline : (b : ℕ) → b ≢ newline → bytes_eq (b ∷ []) (newline ∷ []) ≡ false
unfolding bytes_eq
not-newline b h = ground arith

module _ {Net : Type 0} (recv : ℕ → Net → ℤ × List ℕ × Net) where
  -- A byte that ends no line is passed on, and resets the heartbeat.
  read_line-byte :
      (room : ℕ) (s : Server) (net net' : Net) (b : ℕ)
      → IsOpen s
      → b ≢ newline
      → recv 1 net ≡ (pos 1, b ∷ [], net')
      → read_line recv (suc room) s net
        ≡ Option.map (ahead (b ∷ [])) (read_line recv room (trigger_get_reply_event s) net')
  unfolding read_line
  read_line-byte room s net net' b o n e =
      rw (recv_all-byte recv s net net' b o e, read_line) (rw (not-newline b n, read_line))

  pub read_line-newline :
      (room : ℕ) (s : Server) (net net' : Net)
      → IsOpen s
      → recv 1 net ≡ (pos 1, newline ∷ [], net')
      → read_line recv (suc room) s net
        ≡ some (record { server = s; net = net'; bytes = newline ∷ []; result = true })
  unfolding read_line
  read_line-newline room s net net' o e =
      rw (recv_all-byte recv s net net' newline o e, read_line)
        (rw (bytes_eq_self (newline ∷ []), read_line))

  pub read_line-text :
      (bs : List ℕ) (room left : ℕ) (s : Server) (net net' : Net)
      → IsOpen s
      → s.has_heartbeat ≡ true
      → All IsText bs
      → length bs + left ≡ room
      → Feeds recv net bs net'
      → read_line recv room s net
        ≡ Option.map (ahead bs) (read_line recv left (heard (length bs) s) net')
  read_line-text bs room left s net net' o h t e done =
      ap₂ (λ r s'. read_line recv r s' net) (full room left e) (sym (heard-zero s))
      ∙ sym (map-ahead_nil (read_line recv left (heard 0 s) net))
    where
      full : (room left : ℕ) → 0 + left ≡ room → room ≡ left
      full room left e = omega arith
  read_line-text bs zero left s net net' o h t e (byte b r f) = absurd (omega arith)
  read_line-text bs (suc room) left s net net' o h t e (byte {net' = net1} {bs = cs} b r f) =
      read_line-byte room s net net1 b o t.0.0 r
      ∙ ap (Option.map (ahead (b ∷ []))) (
          read_line-text cs room left (trigger_get_reply_event s) net1 net' (trigger-IsOpen s o)
            (trigger-has_heartbeat s ∙ h) t.1 (omega arith) f)
      ∙ map-ahead (b ∷ []) cs _
      ∙ ap (λ s'. Option.map (ahead (b ∷ cs)) (read_line recv left s' net'))
          (heard-trigger (length cs) s h)

  pub read_line-Ends :
      (room : ℕ) (s : Server) (net : Net)
      → IsOpen s
      → Ends recv net
      → (g : Got Net) × (read_line recv (suc room) s net ≡ some g)
        × (g.result ≡ false)
        × (g.server ≡ record s { socket = g.server.socket })
  unfolding read_line
  read_line-Ends room s net o n =
      let (g, e, r, q) = recv_all-Ends recv s net o n in
      (
        record g { bytes = []; result = false },
        rw (e, read_line) (rw (r, read_line) (ap (stopped g) r)),
        refl,
        q,
      )
    where
      stopped : Got Net → Bool → Option (Got Net)
      stopped g b = some (record g { bytes = []; result = b })
