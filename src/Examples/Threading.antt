-- ===== src/Examples/Threading.antt =====
-- A thread that is started and joined, one that ends in the race with its start, and three objects.
use cta_alristrol_gallardo_v.Base.{ℕ, ◌≤◌, ◌≡◌, refl, true, false, List, [], ◌∷◌, arith, take, pos}
use cta_alristrol_gallardo_v.Thread.{Thread, new_thread, start, creates}
use cta_alristrol_gallardo_v.Thread.Race
use cta_alristrol_gallardo_v.Thread.Race.{
  Pair, first, before_set, behind, testing, over, Reach, here, next, finds_not_running, prepares,
  sets,
}
use cta_alristrol_gallardo_v.Thread.Peak.{
  Event, made, destroyed, IsHistory, count_all, alive, count_all-peak,
}

abbrev started : Thread
started = record { running = true; detached = false; calls = creates ∷ [] }

started_is : start new_thread (pos 0) ≡ (started, pos 0)
unfolding start new_thread
started_is = refl

-- The new thread tests before the flag is set.
abbrev early : Pair
early = record { caller = before_set; thread = testing; running = false }

early-Reach : Reach first early
early-Reach = next (next here (Race.creates refl)) (prepares refl)

-- Its loop then ends, though the flag is set a step later.
lost : Reach first (record { caller = behind; thread = over; running = true })
lost = next (next early-Reach (finds_not_running refl refl)) (sets refl)

abbrev three : List Event
three = made ∷ made ∷ destroyed ∷ made ∷ destroyed ∷ []

three-IsHistory : IsHistory 0 three
three-IsHistory = (omega arith, (omega arith, tt))

count_all-peak_example :
    let c = count_all (record { current = 0; most = 0 }) three in
    (c.current ≡ 1)
    × ((n : ℕ) → alive 0 (take n three) ≤ c.most)
    × ((n : ℕ) × (alive 0 (take n three) ≡ c.most))
count_all-peak_example = count_all-peak three three-IsHistory
