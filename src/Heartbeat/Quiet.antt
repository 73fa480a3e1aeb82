-- ===== src/Heartbeat/Quiet.antt =====
-- The two events of ARST_QUOTE/ARSTHeartbeat.cpp beside its loop: a loss is reported only if nobody has
-- set one of them for long enough.
use cta_alristrol_gallardo_v.Base.{
  ℕ, ◌+◌, ◌*◌, ◌<◌, ◌≡◌, refl, sym, ap, ◌∙◌, ◌≢◌, Bool, true, List, [], ◌∷◌, ◌++◌, arith, length,
  replicate, All, pos,
}
use mathlib.Core.List.{Memᴰ}
use cta_alristrol_gallardo_v.Heartbeat.{Wait, on_heartbeat_lost, run, watch, wait_timeout}
use cta_alristrol_gallardo_v.Heartbeat.Blame.{IsTimeout, lost_needs_silence}
use cta_alristrol_gallardo_v.Events.{
  Events, IsAutoReset, Act, sets_first, sets_second, waits, waits_of, found,
}

-- `TriggerGetReplyEvent` and `TriggerTerminateEvent`.
abbrev pub trigger_get_reply_event : Act
trigger_get_reply_event = sets_first

abbrev pub trigger_terminate_event : Act
trigger_terminate_event = sets_second

zero-ne-timeout : pos 0 ≢ wait_timeout
zero-ne-timeout e = ground arith

module _ {E : Type 0} (ev : Events E) where
  -- What was done before some of the waits.
  waits_of-splits :
      (as' : List Act) (e : E) (before ws : List Wait)
      → waits_of ev as' e ≡ before ++ ws
      → (a b : List Act) × (e' : E) × (as' ≡ a ++ b) × (waits_of ev b e' ≡ ws)
  unfolding waits_of
  waits_of-splits as' e [] ws h = ([], as', e, refl, h)
  waits_of-splits [] e (w ∷ before) ws h = cc
  waits_of-splits (sets_first ∷ as') e (w ∷ before) ws h =
      let (a, b, e', s, h') = waits_of-splits as' (ev.set_event 0 e) (w ∷ before) ws h in
      (sets_first ∷ a, b, e', ap (λ t. sets_first ∷ t) s, h')
  waits_of-splits (sets_second ∷ as') e (w ∷ before) ws h =
      let (a, b, e', s, h') = waits_of-splits as' (ev.set_event 1 e) (w ∷ before) ws h in
      (sets_second ∷ a, b, e', ap (λ t. sets_second ∷ t) s, h')
  waits_of-splits (waits ∷ as') e (w ∷ before) ws h =
      let (a, b, e', s, h') = waits_of-splits as' (ev.wait_for_multiple_events e).1 before ws cc in
      (waits ∷ a, b, e', ap (λ t. waits ∷ t) s, h')

  module _ {set : ℕ → E → Bool} (r : IsAutoReset ev set) where
    -- While one of the two is set, the next wait does not time out.
    set-found :
        (i : ℕ) (as' : List Act) (e : E) (w : Wait) (ws : List Wait)
        → i < 2
        → set i e ≡ true
        → waits_of ev as' e ≡ w ∷ ws
        → ¬ IsTimeout w
    unfolding waits_of
    set-found i [] e w ws l p h t = cc
    set-found i (sets_first ∷ as') e w ws l p h t =
        set-found 0 as' (ev.set_event 0 e) w ws (omega arith) (r.sets 0 e) h t
    set-found i (sets_second ∷ as') e w ws l p h t =
        set-found 1 as' (ev.set_event 1 e) w ws (omega arith) (r.sets 1 e) h t
    set-found i (waits ∷ as') e w ws l p h t =
        let (j, _, _, f, _, _) = r.finds i e l p in
        let same : w ≡ found j = cc in zero-ne-timeout (sym (ap (λ (v : Wait). v.result) same) ∙ t)

    -- A row of timeouts is a row of waits with nothing between.
    waits_of-row :
        (as' : List Act) (e : E) (row behind : List Wait)
        → waits_of ev as' e ≡ row ++ behind
        → All IsTimeout row
        → (rest : List Act) × (as' ≡ replicate (length row) waits ++ rest)
    unfolding waits_of
    waits_of-row as' e [] behind h v = (as', refl)
    waits_of-row [] e (w ∷ row) behind h v = cc
    waits_of-row (sets_first ∷ as') e (w ∷ row) behind h v =
        absurd
          (set-found 0 as' (ev.set_event 0 e) w (row ++ behind) (omega arith) (r.sets 0 e) h v.0)
    waits_of-row (sets_second ∷ as') e (w ∷ row) behind h v =
        absurd
          (set-found 1 as' (ev.set_event 1 e) w (row ++ behind) (omega arith) (r.sets 1 e) h v.0)
    waits_of-row (waits ∷ as') e (w ∷ row) behind h v =
        let (rest, s) = waits_of-row as' (ev.wait_for_multiple_events e).1 row behind (cc) v.1 in
        (rest, ap (λ t. waits ∷ t) s)

    -- Events that reset themselves are set in any way while the timer waits for them. If it reports
    -- a loss, there was a row of waits, longer than `interval + 10` seconds, in which neither
    -- `TriggerGetReplyEvent` nor `TriggerTerminateEvent` was called.
    pub lost_needs_quiet :
        (interval : ℕ) (acts : List Act) (e : E)
        → Memᴰ on_heartbeat_lost (run (watch interval) (waits_of ev acts e)).calls
        → (before behind : List Act) × (n : ℕ) × (acts ≡ before ++ (replicate n waits ++ behind))
          × (interval + 10 < 5 * n)
    lost_needs_quiet interval acts e m =
        let s = lost_needs_silence interval (waits_of ev acts e) m in
        let (a, b, e', h, h') = waits_of-splits acts e s.before (s.row ++ s.behind) s.splits in
        let (rest, t) = waits_of-row b e' s.row s.behind h' s.timeouts in
        (a, rest, length s.row, h ∙ ap (λ x. a ++ x) t, s.long)
