-- ===== src/Examples/Alarms.antt =====
-- Two events that reset themselves, as flags; a timer and a dispatcher that wait for them.
use cta_alristrol_gallardo_v.Base.{
  ℕ, zero, suc, ◌*◌, ◌<◌, ◌≡◌, refl, sym, ap, ◌∙◌, ◌≢◌, inl, inr, Bool, true, false, List, [], ◌∷◌,
  ◌++◌, arith, ◌==◌, if◌then◌else◌, Bool-cases, replicate, pos,
}
use mathlib.Core.List.{Memᴰ}
use cta_alristrol_gallardo_v.Heartbeat.{Wait, silent, run, watch, round}
use cta_alristrol_gallardo_v.Heartbeat.Quiet.{lost_needs_quiet, trigger_get_reply_event}
use cta_alristrol_gallardo_v.Events.{Events, IsAutoReset, Act, waits, waits_of, found}
use cta_alristrol_gallardo_v.Request
use cta_alristrol_gallardo_v.Request.Wakes.{requests}
use cta_alristrol_gallardo_v.Request.Triggers.{bursts, run-bursts, trigger_wake_up_event}

abbrev Flags : Type 0
Flags = ℕ → Bool

abbrev flag : ℕ → Bool → Flags → Flags
flag i b e = λ j. if j == i then b else e j

abbrev find_flag : Flags → Wait × Flags
find_flag e =
    if e 0
    then (found 0, flag 0 false e)
    else if e 1
    then (found 1, flag 1 false e)
    else (silent, e)

abbrev flags : Events Flags
flags = record {
  create_events = λ i. false;
  set_event = λ i e. flag i true e;
  wait_for_multiple_events = find_flag;
}

find_flag-second : (e : Flags) → e 0 ≡ false → e 1 ≡ true → find_flag e ≡ (found 1, flag 1 false e)
find_flag-second e a b = rw a (rw b refl)

find_flag-first : (e : Flags) → e 0 ≡ true → find_flag e ≡ (found 0, flag 0 false e)
find_flag-first e a = rw a refl

find_flag-none : (e : Flags) → e 0 ≡ false → e 1 ≡ false → find_flag e ≡ (silent, e)
find_flag-none e a b = rw a (rw b refl)

other-set : (i : ℕ) (e : Flags) → i < 2 → e i ≡ true → e 0 ≡ false → e 1 ≡ true
other-set zero e l p a = cc
other-set (suc zero) e l p a = p
other-set (suc (suc i)) e l p a = absurd (omega arith)

silent-ne-found : silent.result ≢ pos 0
silent-ne-found e = ground arith

flags-finds :
    (i : ℕ) (e : Flags)
    → i < 2
    → e i ≡ true
    → (j : ℕ) × (j < 2)
      × (e j ≡ true)
      × ((find_flag e).0 ≡ found j)
      × ((find_flag e).1 j ≡ false)
      × ((m : ℕ) → (m == j) ≡ false → (find_flag e).1 m ≡ e m)
flags-finds i e l p = elim (Bool-cases (e 0)) [
  | inl a ↦
      let f = find_flag-first e a in
      (0, omega arith, a, ap (λ r. r.0) f, ap (λ r. r.1 0) f, λ m n. ap (λ r. r.1 m) f ∙ rw n refl)
  | inr a ↦
      let b = other-set i e l p a in
      let f = find_flag-second e a b in
      (1, omega arith, b, ap (λ r. r.0) f, ap (λ r. r.1 1) f, λ m n. ap (λ r. r.1 m) f ∙ rw n refl)
]

flags-IsAutoReset : IsAutoReset flags (λ i e. e i)
flags-IsAutoReset = record {
  unset = λ i. refl;
  sets = λ i e. ground arith;
  keeps = λ i j e n. ground (arith, n);
  finds = flags-finds;
  idles = λ e a b. (
    λ h. silent-ne-found (sym (ap (λ r. r.0.result) (find_flag-none e a b)) ∙ h),
    λ m. ap (λ r. r.1 m) (find_flag-none e a b),
  );
}

-- A reply, and then three waits.
abbrev then_quiet : List Act
then_quiet = trigger_get_reply_event ∷ waits ∷ waits ∷ waits ∷ waits ∷ []

lost_needs_quiet_example :
    (before behind : List Act) × (n : ℕ) × (then_quiet ≡ before ++ (replicate n waits ++ behind))
    × (12 < 5 * n)
unfolding run round watch waits_of
lost_needs_quiet_example =
    lost_needs_quiet flags flags-IsAutoReset 2 then_quiet flags.create_events
      (Memᴰ.tail (Memᴰ.tail (Memᴰ.head refl)))

-- Woken twice, and once more, with waits between and behind.
abbrev woken_thrice : List Act
woken_thrice =
    trigger_wake_up_event ∷ trigger_wake_up_event ∷ waits ∷ waits ∷ trigger_wake_up_event ∷ waits
    ∷ []

run-bursts_example :
    (requests (Request.run true (waits_of flags woken_thrice flags.create_events)).calls
      ≡ bursts false woken_thrice)
    × ((Request.run true (waits_of flags woken_thrice flags.create_events)).running ≡ true)
run-bursts_example =
    run-bursts flags flags-IsAutoReset woken_thrice
      ((λ e. cc), ((λ e. cc), ((λ e. cc), ((λ e. cc), ((λ e. cc), ((λ e. cc), tt))))))

bursts_thrice : bursts false woken_thrice ≡ 2
unfolding bursts
bursts_thrice = refl
