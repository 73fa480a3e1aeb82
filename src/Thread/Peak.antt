-- ===== src/Thread/Peak.antt =====
-- The counts of threads that ARST_QUOTE/ARSTCommon/ARSTThread.cpp keeps.
use cta_alristrol_gallardo_v.Base.{
  ℕ, zero, suc, ◌+◌, ◌-◌, ◌≤◌, ◌<◌, ◌≡◌, refl, sym, ◌∙◌, ◌⊎◌, inl, inr, Bool, true, false, List, [],
  ◌∷◌, arith, ltb, if◌then◌else◌, take,
}
use cta_alristrol_gallardo_v.Thread.{Counts, count_new, count_destroyed}

-- An object is made or destroyed.
pub data Event : Type 0 where
  made destroyed : Event

counted : Counts → Event → Counts
unfolding count_new count_destroyed
counted c made = count_new c
counted c destroyed = count_destroyed c

-- The counts behind some events.
unfoldable pub count_all : Counts → List Event → Counts
unfolding counted
count_all c [] = c
count_all c (e ∷ es) = count_all (counted c e) es

-- How many objects live behind some events, of `n` before them.
abbrev pub alive : ℕ → List Event → ℕ
alive n [] = n
alive n (made ∷ es) = alive (n + 1) es
alive n (destroyed ∷ es) = alive (n - 1) es

-- No event destroys what was not made.
abbrev pub IsHistory : ℕ → List Event → Type 0
IsHistory n [] = Unit {0}
IsHistory n (made ∷ es) = IsHistory (n + 1) es
IsHistory n (destroyed ∷ es) = (0 < n) × IsHistory (n - 1) es

-- The first events at which the count is highest.
abbrev Peaks : Counts → List Event → Type 0
Peaks c es =
    (c.most ≤ (count_all c es).most)
    × ((count_all c es).current ≡ alive c.current es)
    × ((n : ℕ) → alive c.current (take n es) ≤ (count_all c es).most)
    × (((count_all c es).most ≡ c.most)
        ⊎ ((n : ℕ) × (alive c.current (take n es) ≡ (count_all c es).most)))

if-one : (b : Bool) {x y : ℕ} → ((if b then x else y) ≡ y) ⊎ ((if b then x else y) ≡ x)
if-one true = inr refl
if-one false = inl refl

Peaks-made : (c : Counts) (es : List Event) → Peaks (count_new c) es → Peaks c (made ∷ es)
unfolding count_all count_new
Peaks-made c es h = (ground (arith, h.0), h.1, bounds, reached h.3)
  where
    bounds : (n : ℕ) → alive c.current (take n (made ∷ es)) ≤ (count_all (count_new c) es).most
    bounds zero = ground (arith, h.0)
    bounds (suc n) = h.2 n

    later :
        (count_all (count_new c) es).most ≡ (count_new c).most
        → (count_new c).most ≡ c.most ⊎ (count_new c).most ≡ c.current + 1
        → ((count_all (count_new c) es).most ≡ c.most)
          ⊎ ((n : ℕ) × (alive c.current (take n (made ∷ es)) ≡ (count_all (count_new c) es).most))
    later e (inl k) = inl (e ∙ k)
    later e (inr k) = inr (1, sym (e ∙ k))

    reached :
        ((count_all (count_new c) es).most ≡ (count_new c).most)
          ⊎ ((n : ℕ) × (alive (c.current + 1) (take n es) ≡ (count_all (count_new c) es).most))
        → ((count_all (count_new c) es).most ≡ c.most)
          ⊎ ((n : ℕ) × (alive c.current (take n (made ∷ es)) ≡ (count_all (count_new c) es).most))
    reached (inl e) = later e (if-one (ltb c.most (c.current + 1)))
    reached (inr (n, e)) = inr (suc n, e)

Peaks-destroyed :
    (c : Counts) (es : List Event)
    → c.current ≤ c.most
    → Peaks (count_destroyed c) es
    → Peaks c (destroyed ∷ es)
unfolding count_all count_destroyed
Peaks-destroyed c es l h = (h.0, h.1, bounds, reached h.3)
  where
    bounds :
        (n : ℕ)
        → alive c.current (take n (destroyed ∷ es)) ≤ (count_all (count_destroyed c) es).most
    bounds zero = ground (arith, l, h.0)
    bounds (suc n) = h.2 n

    reached :
        ((count_all (count_destroyed c) es).most ≡ c.most)
          ⊎ ((n : ℕ) × (alive (c.current - 1) (take n es)
                ≡ (count_all (count_destroyed c) es).most))
        → ((count_all (count_destroyed c) es).most ≡ c.most)
          ⊎ ((n : ℕ) × (alive c.current (take n (destroyed ∷ es))
                ≡ (count_all (count_destroyed c) es).most))
    reached (inl e) = inl e
    reached (inr (n, e)) = inr (suc n, e)

Peaks-all : (c : Counts) (es : List Event) → c.current ≤ c.most → Peaks c es
unfolding count_all count_new count_destroyed
Peaks-all c [] l = (ground arith, refl, first, inl refl)
  where
    first : (n : ℕ) → alive c.current (take n []) ≤ c.most
    first zero = l
    first (suc n) = l
Peaks-all c (made ∷ es) l = Peaks-made c es (Peaks-all (count_new c) es (ground arith))
Peaks-all c (destroyed ∷ es) l =
    Peaks-destroyed c es l (Peaks-all (count_destroyed c) es (ground (arith, l)))

-- From no thread object, where no event destroys an object that was not made: the current count is
-- the number of the objects that live, and the highest count is the largest number of objects that
-- ever lived at once.
pub count_all-peak :
    (es : List Event)
    → IsHistory 0 es
    → let c = count_all (record { current = 0; most = 0 }) es in
      (c.current ≡ alive 0 es)
      × ((n : ℕ) → alive 0 (take n es) ≤ c.most)
      × ((n : ℕ) × (alive 0 (take n es) ≡ c.most))
count_all-peak es h =
    let p = Peaks-all (record { current = 0; most = 0 }) es (ground arith) in
    (p.1, p.2, reached p.3)
  where
    reached :
        ((count_all (record { current = 0; most = 0 }) es).most ≡ 0)
          ⊎ ((n : ℕ) × (alive 0 (take n es)
                ≡ (count_all (record { current = 0; most = 0 }) es).most))
        → (n : ℕ) × (alive 0 (take n es) ≡ (count_all (record { current = 0; most = 0 }) es).most)
    reached (inl e) = (0, sym e)
    reached (inr q) = q
