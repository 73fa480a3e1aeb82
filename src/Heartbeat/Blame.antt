-- ===== src/Heartbeat/Blame.antt =====
-- Why ARST_QUOTE/ARSTHeartbeat.cpp reports a loss: only after a long enough row of timeouts.
use mathlib.Core.List.{Memᴰ}
use cta_alristrol_gallardo_v.Base.{
  ℕ, ◌+◌, ◌*◌, ◌<◌, ◌≡◌, sym, ap, ◌≢◌, ◌⊎◌, true, false, List, [], ◌∷◌, ◌++◌, arith, length, All,
  eq_ℤ, subst, inl, inr, Bool-cases, eq_ℤ_iff, ◌∙◌, refl,
}
use cta_alristrol_gallardo_v.Heartbeat.{
  Heartbeat, Wait, Callback, on_heartbeat_request, on_heartbeat_lost, round, wait_timeout, run,
  watch,
}

abbrev pub IsTimeout : Wait → Type 0
IsTimeout w = w.result ≡ wait_timeout

-- The outcomes hold a row of timeouts that is longer than `limit` seconds.
pub record LongSilence (limit : ℕ) (ws : List Wait) : Type 0 where
  pub before : List Wait
  pub row : List Wait
  pub behind : List Wait
  pub splits : ws ≡ before ++ (row ++ behind)
  pub timeouts : All IsTimeout row
  pub long : limit < 5 * length row

-- The same of a row that stands first and has gone on for `idle` seconds already.
record Begun (limit idle : ℕ) (ws : List Wait) : Type 0 where
  row : List Wait
  behind : List Wait
  splits : ws ≡ row ++ behind
  timeouts : All IsTimeout row
  long : limit < idle + 5 * length row

LongSilence-cons :
    {limit : ℕ} {ws : List Wait} (w : Wait) → LongSilence limit ws → LongSilence limit (w ∷ ws)
LongSilence-cons w s = record {
  before = w ∷ s.before;
  row = s.row;
  behind = s.behind;
  splits = ap (λ vs. w ∷ vs) s.splits;
  timeouts = s.timeouts;
  long = s.long;
}

Begun-cons :
    {limit idle : ℕ} {ws : List Wait} (w : Wait)
    → IsTimeout w
    → Begun limit (idle + 5) ws
    → Begun limit idle (w ∷ ws)
Begun-cons w t s = record {
  row = w ∷ s.row;
  behind = s.behind;
  splits = ap (λ vs. w ∷ vs) s.splits;
  timeouts = (t, s.timeouts);
  long = omega (arith, s.long);
}

LongSilence-of_Begun : {limit : ℕ} {ws : List Wait} → Begun limit 0 ws → LongSilence limit ws
LongSilence-of_Begun s = record {
  before = [];
  row = s.row;
  behind = s.behind;
  splits = s.splits;
  timeouts = s.timeouts;
  long = omega (arith, s.long);
}

round_timed :
    (h : Heartbeat) (w : Wait)
    → IsTimeout w
    → ((round h w).beat ≡ record h { idle_time = h.idle_time + 5 })
        × ((round h w).running ≡ true)
        × (((round h w).calls ≡ []) ⊎ ((round h w).calls ≡ on_heartbeat_request ∷ []))
      ⊎ (h.time_interval + 10 < h.idle_time + 5)
unfolding round
round_timed h w t = ground arith

round_untimed :
    (h : Heartbeat) (w : Wait)
    → eq_ℤ w.result wait_timeout ≡ false
    → ((round h w).beat ≡ record h { idle_time = 0 })
        × ((round h w).running ≡ true)
        × ((round h w).calls ≡ [])
      ⊎ ((round h w).running ≡ false)
        × ((c : Callback) × (c ≢ on_heartbeat_lost) × ((round h w).calls ≡ c ∷ []))
unfolding round
round_untimed h w t = ground arith

not-mem-one {ℓ} : {A : Type ℓ} {a c : A} → c ≢ a → ¬ Memᴰ a (c ∷ [])
not-mem-one d (Memᴰ.head e) = d (sym e)
not-mem-one d (Memᴰ.tail m) = elim m [ ]

abbrev Lost : Heartbeat → List Wait → Type 0
Lost h ws = Memᴰ on_heartbeat_lost (run h ws).calls

-- A loss that a running round leaves to the rounds behind it.
Lost-tail :
    (h : Heartbeat) (w : Wait) (ws : List Wait)
    → h.callback ≡ true
    → (round h w).running ≡ true
    → ((round h w).calls ≡ []) ⊎ ((round h w).calls ≡ on_heartbeat_request ∷ [])
    → Lost h (w ∷ ws)
    → Lost (round h w).beat ws
unfolding run
Lost-tail h w ws c r (inl e) m = simp (c, r, e) at m
Lost-tail h w ws c r (inr e) m = elim (simp (c, r, e) at m) [ Memᴰ.head d ↦ cc | Memᴰ.tail m' ↦ m' ]

-- The row of a loss is the timer's own, or stands further on.
abbrev Blamed : Heartbeat → List Wait → Type 0
Blamed h ws = Begun (h.time_interval + 10) h.idle_time ws ⊎ LongSilence (h.time_interval + 10) ws

Begun-one :
    (limit idle : ℕ) (w : Wait) (ws : List Wait)
    → IsTimeout w
    → limit < idle + 5
    → Begun limit idle (w ∷ ws)
Begun-one limit idle w ws t h = record {
  row = w ∷ [];
  behind = ws;
  splits = refl;
  timeouts = (t, tt);
  long = omega arith;
}

Blamed-after_timeout :
    (h : Heartbeat) (w : Wait) (ws : List Wait)
    → IsTimeout w
    → Blamed (record h { idle_time = h.idle_time + 5 }) ws
    → Blamed h (w ∷ ws)
Blamed-after_timeout h w ws t (inl b) = inl (Begun-cons w t b)
Blamed-after_timeout h w ws t (inr s) = inr (LongSilence-cons w s)

Blamed-after_reply :
    (h : Heartbeat) (w : Wait) (ws : List Wait)
    → Blamed (record h { idle_time = 0 }) ws
    → Blamed h (w ∷ ws)
Blamed-after_reply h w ws (inl b) = inr (LongSilence-cons w (LongSilence-of_Begun b))
Blamed-after_reply h w ws (inr s) = inr (LongSilence-cons w s)

Lost-stops :
    (h : Heartbeat) (w : Wait) (ws : List Wait) (c : Callback)
    → h.callback ≡ true
    → (round h w).running ≡ false
    → (round h w).calls ≡ c ∷ []
    → c ≢ on_heartbeat_lost
    → ¬ Lost h (w ∷ ws)
unfolding run
Lost-stops h w ws c e r k d m = not-mem-one d (simp (e, r, k) at m)

not-Lost-nil : (h : Heartbeat) → ¬ Lost h []
unfolding run
not-Lost-nil h m = elim m [ ]

Lost-Blamed : (h : Heartbeat) (ws : List Wait) → h.callback ≡ true → Lost h ws → Blamed h ws
Lost-Blamed h [] c m = absurd (not-Lost-nil h m)
Lost-Blamed h (w ∷ ws) c m = elim (Bool-cases (eq_ℤ w.result wait_timeout)) [
  | inl t ↦
      let t' : IsTimeout w = (eq_ℤ_iff _ _).0 t in
      elim (round_timed h w t') [
        | inl (b, r, k) ↦ Blamed-after_timeout h w ws t' (
            subst (λ g. Blamed g ws) b
              (Lost-Blamed (round h w).beat ws (ap (λ (g : Heartbeat). g.callback) b ∙ c)
                (Lost-tail h w ws c r k m)))
        | inr over ↦ inl (Begun-one _ _ w ws t' over)
      ]
  | inr u ↦ elim (round_untimed h w u) [
    | inl (b, r, k) ↦ Blamed-after_reply h w ws (
        subst (λ g. Blamed g ws) b
          (Lost-Blamed (round h w).beat ws (ap (λ (g : Heartbeat). g.callback) b ∙ c)
            (Lost-tail h w ws c r (inl k) m)))
    | inr (r, (a, d, k)) ↦ absurd (Lost-stops h w ws a c r k d m)
  ]
]

-- A timer reports a loss only if its waits hold a row of timeouts, one behind the other with no
-- event between, that lasts longer than `interval + 10` seconds.
pub lost_needs_silence :
    (interval : ℕ) (ws : List Wait)
    → Memᴰ on_heartbeat_lost (run (watch interval) ws).calls
    → LongSilence (interval + 10) ws
unfolding watch
lost_needs_silence interval ws m = elim (Lost-Blamed (watch interval) ws refl m) [
  | inl b ↦ LongSilence-of_Begun b
  | inr s ↦ s
]
