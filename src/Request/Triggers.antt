-- ===== src/Request/Triggers.antt =====
-- The two events of ARST_QUOTE/ARSTRequest.cpp beside its loop: which wake-ups reach the callback.
use cta_alristrol_gallardo_v.Base.{
  ℕ, zero, suc, ◌<◌, ◌≡◌, refl, sym, ap, ◌∙◌, ◌≢◌, inl, inr, Bool, true, false, not, List, [], ◌∷◌,
  arith, ◌==◌, if◌then◌else◌, Bool-cases, set, All, ℤ, pos,
}
use cta_alristrol_gallardo_v.Heartbeat.{Wait}
use cta_alristrol_gallardo_v.Events.{
  Events, IsAutoReset, Act, sets_first, sets_second, waits, waits_of, found,
}
use cta_alristrol_gallardo_v.Request.{run}
use cta_alristrol_gallardo_v.Request.Wakes.{finds, wakes, before_end, ends, requests, run-wakes}

-- `TriggerWakeUpEvent` and `TriggerTerminateEvent`.
abbrev pub trigger_wake_up_event : Act
trigger_wake_up_event = sets_first

abbrev pub trigger_terminate_event : Act
trigger_terminate_event = sets_second

-- The waits before which the dispatcher was woken, since the wait before; `woken` tells whether it
-- was at the start.
unfoldable pub bursts : (woken : Bool) → List Act → ℕ
bursts woken [] = 0
bursts woken (sets_first ∷ as') = bursts true as'
bursts woken (sets_second ∷ as') = bursts woken as'
bursts woken (waits ∷ as') = let rest = bursts false as' in if woken then suc rest else rest

-- The dispatcher is not terminated.
abbrev pub IsKept : Act → Type 0
IsKept a = a ≢ sets_second

only-first :
    {E : Type 0} (set : ℕ → E → Bool) (e : E) (j : ℕ)
    → j < 2
    → set j e ≡ true
    → set 1 e ≡ false
    → j ≡ 0
only-first set e zero l p u = refl
only-first set e (suc zero) l p u = cc
only-first set e (suc (suc j)) l p u = absurd (omega arith)

-- A wait with another result than 0 has found none.
not-finds : (w : Wait) (i : ℤ) → w.result ≢ pos 0 → finds i w ≡ false
not-finds w i n = ground (arith, n)

module _ {E : Type 0} (ev : Events E) {set : ℕ → E → Bool} (r : IsAutoReset ev set) where
  -- The waits find a wake-up for each burst, and no end.
  waits_of-bursts :
      (as' : List Act) (e : E)
      → set 1 e ≡ false
      → All IsKept as'
      → (wakes (waits_of ev as' e) ≡ bursts (set 0 e) as')
        × (ends (waits_of ev as' e) ≡ false)
        × (before_end (waits_of ev as' e) ≡ waits_of ev as' e)
  unfolding waits_of wakes ends before_end bursts
  waits_of-bursts [] e u k = (refl, refl, refl)
  waits_of-bursts (sets_first ∷ as') e u k =
      let (a, b, c) = waits_of-bursts as' (ev.set_event 0 e) (r.keeps 0 1 e refl ∙ u) k.1 in
      (a ∙ ap (λ p. bursts p as') (r.sets 0 e), b, c)
  waits_of-bursts (sets_second ∷ as') e u k = absurd (k.0 refl)
  waits_of-bursts (waits ∷ as') e u k = elim (Bool-cases (set 0 e)) [
    | inl woken ↦
        let (j, l, p, f, q, o) = r.finds 0 e (omega arith) woken in
        let e' = (ev.wait_for_multiple_events e).1 in
        let first = only-first set e j l p u in
        let f0 : (ev.wait_for_multiple_events e).0 ≡ found 0 = f ∙ ap found first in
        let q0 : set 0 e' ≡ false = ap (λ m. set m e') (sym first) ∙ q in
        let u1 : set 1 e' ≡ false = o 1 (ap (λ m. 1 == m) first) ∙ u in
        let (a, b, c) = waits_of-bursts as' e' u1 k.1 in
        (
          rw f0 (rw woken (ap suc (a ∙ ap (λ p. bursts p as') q0))),
          rw f0 b,
          rw f0 (ap (λ ws. found 0 ∷ ws) c),
        )
    | inr idle ↦
        let (n, o) = r.idles e idle u in
        let e' = (ev.wait_for_multiple_events e).1 in
        let w = (ev.wait_for_multiple_events e).0 in
        let (a, b, c) = waits_of-bursts as' e' (o 1 ∙ u) k.1 in
        (
          rw (not-finds w (pos 0) n) (rw idle (a ∙ ap (λ p. bursts p as') (o 0 ∙ idle))),
          rw (not-finds w (pos 1) n) b,
          rw (not-finds w (pos 1) n) (ap (λ ws. w ∷ ws) c),
        )
  ]

  -- The events of a new dispatcher reset themselves, and are set in any way while it waits, but the
  -- second is not. It calls `OnRequest` exactly once for each wait that returns behind a
  -- `TriggerWakeUpEvent` made since the wait before: no wake-up is lost, and those between two
  -- waits count as one. The thread goes on.
  pub run-bursts :
      (acts : List Act)
      → All IsKept acts
      → (requests (run true (waits_of ev acts ev.create_events)).calls ≡ bursts false acts)
        × ((run true (waits_of ev acts ev.create_events)).running ≡ true)
  run-bursts acts k =
      let ws = waits_of ev acts ev.create_events in
      let (a, b, c) = waits_of-bursts acts ev.create_events (r.unset 1) k in
      let (calls, running) = run-wakes ws in
      (calls ∙ ap wakes c ∙ a ∙ ap (λ p. bursts p acts) (r.unset 0), running ∙ ap not b)
