-- ===== src/Examples/Cuts.antt =====
-- A connection that is cut behind three bytes, and the one that replaces it.
use cta_alristrol_gallardo_v.Base.{
  ℕ, ◌≡◌, ◌≢◌, pos, refl, inl, inr, some, List, [], ◌∷◌, ◌++◌, arith, length, ◌⊎◌,
}
use cta_alristrol_gallardo_v.WebConn.{Server, ss_breakdown, round, down, run_start, new_server}
use cta_alristrol_gallardo_v.WebConn.Reading.{heard}
use cta_alristrol_gallardo_v.WebConn.Stream
use cta_alristrol_gallardo_v.WebConn.Stream.{line}
use cta_alristrol_gallardo_v.Servers.{ok, check_client_vector, ServerInfo, rm_bitmex}
use cta_alristrol_gallardo_v.Servers.Revival.{IsEntry, Any}
use cta_alristrol_gallardo_v.Recovery.{cut-recovers}
use cta_alristrol_gallardo_v.Examples.Lines.{
  held_bytes, held_bytes-Feeds, line_server, line_server-IsOpen, tick_line, tick_line-IsText,
}
use cta_alristrol_gallardo_v.Examples.Connections.{
  counted_dial, counted_dial-Resolves, entry, config, broken_pool,
}
use cta_alristrol_gallardo_v.Examples.Posts.{fed, fed-FeedsLines, fed-IsLine}

entry-IsEntry : IsEntry entry (66 ∷ [])
entry-IsEntry = (refl, λ e. cc)

cut-recovers_example :
    (s1 s2 : Server) × (net' : List ℕ) × (front' back' : List Server) × (calls' : ℕ)
    × (j : ServerInfo) × (calls1 : ℕ) × (round held_bytes line_server (tick_line ++ [])
        ≡ down s1 net')
    × (check_client_vector counted_dial
          (record broken_pool { pool = [] ++ s1 ∷ line_server ∷ [] })
          5
        ≡ ok (record broken_pool { pool = front' ++ s2 ∷ back' }, calls'))
    × (length front' ≡ 0)
    × Any (λ k. k ≡ j) (entry ∷ [])
    × (j.name ≡ 66 ∷ [])
    × (new_server j.host j.para j.name rm_bitmex (counted_dial j calls1).0 ≡ some s2)
    × ((((counted_dial j calls1).0.result ≢ pos 0) × (s2.status ≡ ss_breakdown))
        ⊎ (((counted_dial j calls1).0.result ≡ pos 0)
            × (Stream.run held_bytes 2 (run_start s2) fed
                ≡ some (heard 6 (run_start s2), [], line tick_line ∷ line tick_line ∷ []))))
unfolding held_bytes
cut-recovers_example =
    cut-recovers held_bytes counted_dial line_server tick_line (tick_line ++ []) [] fed [] []
      (line_server ∷ []) broken_pool config [] entry 5 (tick_line ∷ tick_line ∷ []) refl
      line_server-IsOpen refl tick_line-IsText (omega arith) (held_bytes-Feeds tick_line [])
      (inr (0, refl)) refl (omega arith) counted_dial-Resolves (inl refl) entry-IsEntry fed-IsLine
      fed-FeedsLines
