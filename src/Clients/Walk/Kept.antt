-- ===== src/Clients/Walk/Kept.antt =====
-- The loop of `ARSTQueueDAO::Run` over `m_vClient` (ARST_QUOTE/ARSTQueueNode.cpp), where each client
-- is held by somebody else too.
use cta_alristrol_gallardo_v.Base.{
  ℕ, zero, suc, ◌≡◌, refl, sym, ap, ◌∙◌, ◌≢◌, true, false, ◌||◌, some, List, [], ◌∷◌, arith, ◌==◌,
  get_elem?, set,
}
use mathlib.Core.Option.{some_inj}
use cta_alristrol_gallardo_v.Clients.{Slot, is_dead}
use cta_alristrol_gallardo_v.Clients.Walk.{
  Walk, Step, Reach, alone, replied, offline, lost, passes, sends, fails, advances, ends, sweeps,
  here, next,
}

is_dead-alone : (s : Slot) → is_dead s ≡ true → s.use_count ≡ 1
is_dead-alone s d = ground (arith, d)

alone-set :
    (ss : List Slot) (j : ℕ) (s t : Slot)
    → get_elem? ss j ≡ some s
    → t.use_count ≡ s.use_count
    → alone (set ss j t) ≡ alone ss
unfolding alone
alone-set [] j s t g u = refl
alone-set (x ∷ ss) zero s t g u =
    ap (λ c. (c == 1) || alone ss) (u ∙ ap (λ (r : Slot). r.use_count) (sym (some_inj.0 g)))
alone-set (x ∷ ss) (suc j) s t g u = ap (λ b. (x.use_count == 1) || b) (alone-set ss j s t g u)

alone-dead :
    (ss : List Slot) (i : ℕ) (s : Slot)
    → get_elem? ss i ≡ some s
    → is_dead s ≡ true
    → alone ss ≡ true
unfolding alone
alone-dead [] i s g d = cc
alone-dead (x ∷ ss) zero s g d =
    let one : x.use_count ≡ 1 = ap (λ (r : Slot). r.use_count) (some_inj.0 g) ∙ is_dead-alone s d in
    rw one refl
alone-dead (x ∷ ss) (suc i) s g d = ground (arith, alone-dead ss i s g d)

-- A walk that cannot lose its iterator.
pub record IsKept (w : Walk) : Type 0 where
  pub held : alone w.slots ≡ false
  pub kept : w.at ≢ lost

Step-IsKept : {w v : Walk} → Step w v → IsKept w → IsKept v
Step-IsKept (passes a g d) k = record { held = k.held; kept = λ e. cc }
Step-IsKept (sends {j} {s} a g d) k = record {
  held = alone-set _ j s (replied s) g refl ∙ k.held;
  kept = λ e. cc;
}
Step-IsKept (fails {j} {s} a g d) k = record {
  held = alone-set _ j s (offline s) g refl ∙ k.held;
  kept = λ e. cc;
}
Step-IsKept (advances a) k = record { held = k.held; kept = λ e. cc }
Step-IsKept (ends a) k = record { held = k.held; kept = λ e. cc }
Step-IsKept {w} (sweeps i {s} g d) k = let bad = alone-dead w.slots i s g d in let h = k.held in cc

pub Reach-IsKept : {w v : Walk} → Reach w v → IsKept w → IsKept v
Reach-IsKept here k = k
Reach-IsKept (next r s) k = Step-IsKept s (Reach-IsKept r k)
