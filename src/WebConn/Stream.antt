-- ===== src/WebConn/Stream.antt =====
-- The loop of `ARSTServer::Run` of ARST_QUOTE/ARSTWebConn.cpp over several lines.
use mathlib.Core.Option
use cta_alristrol_gallardo_v.Base.{
  ℕ, zero, suc, ◌+◌, ◌≤◌, ◌≡◌, sym, ap, ◌∙◌, true, Option, none, some, List, [], ◌∷◌, ◌++◌, map,
  arith, length, All, ℤ, pos,
}
use cta_alristrol_gallardo_v.WebConn.{
  Server, newline, is_serving, round, sends, down, waits, faults, out_of_fuel,
}
use cta_alristrol_gallardo_v.WebConn.Feed.{IsOpen, IsText, Feeds}
use cta_alristrol_gallardo_v.WebConn.Reading.{heard, heard-IsOpen}
use cta_alristrol_gallardo_v.WebConn.Lines.{round_line}

-- A text with its newline.
abbrev pub line : List ℕ → List ℕ
line text = text ++ newline ∷ []

abbrev pub total : List (List ℕ) → ℕ
total [] = 0
total (t ∷ ts) = length t + total ts

module _ {Net : Type 0} (recv : ℕ → Net → ℤ × List ℕ × Net) where
  -- So many rounds of the loop, each of which hands a line to the queue; `none` is any other end.
  unfoldable pub run : ℕ → Server → Net → Option (Server × Net × List (List ℕ))
  run zero s net = some (s, net, [])
  run (suc n) s net = elim (round recv s net) [
    | sends s' net' text ↦ Option.map (λ (t, m, ls). (t, m, text ∷ ls)) (run n s' net')
    | down s' net' ↦ none
    | waits s' net' ↦ none
    | faults ↦ none
    | out_of_fuel ↦ none
  ]

  -- The network gives these texts, each with a newline, and is then in the other state.
  pub data FeedsLines : Net → List (List ℕ) → Net → Type 0 where
    nothing : {net : Net} → FeedsLines net [] net
    another :
        {net net1 net2 net' : Net} {ts : List (List ℕ)} (t : List ℕ)
        → Feeds recv net t net1
        → recv 1 net1 ≡ (pos 1, newline ∷ [], net2)
        → FeedsLines net2 ts net'
        → FeedsLines net (t ∷ ts) net'

  -- A text that fits the buffer with its newline.
  abbrev pub IsLine : List ℕ → Type 0
  IsLine t = All IsText t × (length t ≤ 1022)

  run-round :
      (n : ℕ) (s s' : Server) (net net' : Net) (text : List ℕ)
      → round recv s net ≡ sends s' net' text
      → run (suc n) s net ≡ Option.map (λ (t, m, ls). (t, m, text ∷ ls)) (run n s' net')
  unfolding run
  run-round n s s' net net' text e = rw (e, run)

  heard-heard : (m n : ℕ) (s : Server) → heard n (heard m s) ≡ heard (m + n) s
  heard-heard m n s =
      let e : s.replies + m + n ≡ s.replies + (m + n) = omega arith in
      ap (λ k. record s { replies = k }) e

  -- A serving connection with an open socket and a heartbeat is fed texts of at most 1022 bytes,
  -- with no newline and no NUL, each with a newline behind it: the loop hands exactly these lines to
  -- the queue, in their order, and has reset the heartbeat once for each byte of the texts.
  pub run-lines :
      (texts : List (List ℕ)) (s : Server) (net net' : Net)
      → is_serving s.status ≡ true
      → IsOpen s
      → s.has_heartbeat ≡ true
      → All IsLine texts
      → FeedsLines net texts net'
      → run (length texts) s net ≡ some (heard (total texts) s, net', map line texts)
  run-lines [] s net net' v o h l nothing =
      let e : s.replies + 0 ≡ s.replies = omega arith in
      unfold run in ap (λ k. some (record s { replies = k }, net, [])) (sym e)
  run-lines (t ∷ ts) s net net' v o h l (another {net1} {net2} _ f e fs) =
      run-round (length ts) s (heard (length t) s) net net2 (line t)
        (round_line recv s t net net1 net2 v o h l.0.0 l.0.1 f e)
      ∙ ap (Option.map (λ (a, m, ls). (a, m, line t ∷ ls)))
          (run-lines ts (heard (length t) s) net2 net' v (heard-IsOpen (length t) s o) h l.1 fs)
      ∙ ap (λ a. some (a, net', map line (t ∷ ts))) (heard-heard (length t) (total ts) s)
