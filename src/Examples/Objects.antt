-- ===== src/Examples/Objects.antt =====
-- Two threads that ask for the one object.
use cta_alristrol_gallardo_v.Base.{ℕ, ◌≡◌, refl, ◌≢◌, Option, none, some}
use cta_alristrol_gallardo_v.Singleton.{
  Shared, Step, finds_null, locks, finds_set_again, finds_null_again, makes, unlocks, reads, Reach,
  here, next, start,
}
use cta_alristrol_gallardo_v.Singleton.Once.{returned-same, unfinished-moves}

-- Both find null; 0 makes the object, and 1 finds it behind the lock.
abbrev Reached : Type 0
Reached = (s : Shared) × Reach (start 2) s

abbrev both_null : Reached
both_null = (_, next 1 (next 0 here (finds_null refl refl)) (finds_null refl refl))

abbrev made_by_0 : Reached
made_by_0 = (
  _,
  next 0
      (next 0 (next 0 (next 0 both_null.1 (locks refl refl)) (finds_null_again refl refl))
        (makes refl))
      (unlocks refl),
)

abbrev found_by_1 : Reached
found_by_1 = (
  _,
  next 1 (next 1 (next 1 made_by_0.1 (locks refl refl)) (finds_set_again refl (λ e. cc)))
      (unlocks refl),
)

abbrev both_returned : Reached
both_returned = (_, next 1 (next 0 found_by_1.1 (reads refl)) (reads refl))

abbrev object : Option ℕ
object = some 0

returned-same_example : (object ≡ object) × (object ≢ none) × (both_returned.0.made ≡ 1)
returned-same_example = returned-same 2 both_returned.0 0 1 object object both_returned.1 refl refl

unfinished-moves_example : (j : ℕ) × (t : Shared) × Step j both_null.0 t
unfinished-moves_example = unfinished-moves 2 both_null.0 0 both_null.1 (λ e. cc) (λ o e. cc)
