-- ===== src/Singleton/Once.antt =====
-- However the calls of `GetInstance` in ARST_QUOTE/ARSTServer.cpp and ARST_QUOTE/ARSTWebConns.cpp
-- interleave, one object is made.
use cta_alristrol_gallardo_v.Base.{
  ℕ, ◌≡◌, sym, subst, ◌≢◌, ◌⊎◌, inl, inr, Option, none, some, arith, ◌==◌, Bool-cases, ==_iff, ◌∙◌,
  ap, ◌+◌, Option-cases, refl, if◌then◌else◌, ltb,
}
use cta_alristrol_gallardo_v.Singleton.{
  At, outside, starting, waiting, testing, making, leaving, reading, returned, Shared, moved, Step,
  finds_set, finds_null, locks, finds_set_again, finds_null_again, makes, unlocks, reads, Reach,
  here, next, start,
}

-- What is true of thread `j` at its place.
abbrev Fits : Option ℕ → Option ℕ → ℕ → At → Type 0
Fits inst owner j outside = owner ≢ some j
Fits inst owner j starting = owner ≢ some j
Fits inst owner j waiting = owner ≢ some j
Fits inst owner j testing = owner ≡ some j
Fits inst owner j making = (owner ≡ some j) × (inst ≡ none)
Fits inst owner j leaving = (owner ≡ some j) × (inst ≡ some 0)
Fits inst owner j reading = (owner ≢ some j) × (inst ≡ some 0)
Fits inst owner j (returned o) = (owner ≢ some j) × (o ≡ some 0) × (inst ≡ some 0)

-- The object is set exactly if it was made, which happened once at most.
abbrev Made : Shared → Type 0
Made s = ((s.made ≡ 0) × (s.object ≡ none)) ⊎ ((s.made ≡ 1) × (s.object ≡ some 0))

record IsSound (s : Shared) : Type 0 where
  made : Made s
  fits : (j : ℕ) → Fits s.object s.owner j (s.at j)

-- The thread that moves fits at its new place, and every other at its own.
Fits-moved :
    (at : ℕ → At) (i : ℕ) (a : At) (inst owner : Option ℕ)
    → Fits inst owner i a
    → ((j : ℕ) → j ≢ i → Fits inst owner j (at j))
    → (j : ℕ) → Fits inst owner j (moved at i a j)
Fits-moved at i a inst owner f g j = elim (Bool-cases (j == i)) [
  | inl same ↦
      let e : j ≡ i = (==_iff j i).0 same in rw same (subst (λ k. Fits inst owner k a) (sym e) f)
  | inr other ↦ rw other (g j (λ e. ground (arith, e)))
]

-- Another thread fits where the mover takes or gives back the lock, or makes the object under it.
other-taken :
    (inst : Option ℕ) (i j : ℕ) (a : At) → j ≢ i → Fits inst none j a → Fits inst (some i) j a
other-taken inst i j a n f = ground arith

other-given :
    (inst : Option ℕ) (i j : ℕ) (a : At) → j ≢ i → Fits inst (some i) j a → Fits inst none j a
other-given inst i j a n f = ground arith

other-made : (i j : ℕ) (a : At) → j ≢ i → Fits none (some i) j a → Fits (some 0) (some i) j a
other-made i j a n f = ground arith

-- What the invariant says of the thread that moves.
here-Fits : {s : Shared} {i : ℕ} {a : At} → IsSound s → s.at i ≡ a → Fits s.object s.owner i a
here-Fits {s} {i} v e = subst (Fits s.object s.owner i) e (v.fits i)

set-some : (s : Shared) → Made s → s.object ≢ none → s.object ≡ some 0
set-some s (inl m) h = absurd (h m.1)
set-some s (inr m) h = m.1

unset-made : (s : Shared) → Made s → s.object ≡ none → s.made ≡ 0
unset-made s (inl m) e = m.0
unset-made s (inr m) e = cc

makes-Made : (s : Shared) → Made s → s.object ≡ none → (s.made + 1 ≡ 1) × (some s.made ≡ some 0)
makes-Made s m e = let z = unset-made s m e in (omega arith, ap some z)

Step-Made : {i : ℕ} {s t : Shared} → IsSound s → Step i s t → Made t
Step-Made v (finds_set a b) = v.made
Step-Made v (finds_null a b) = v.made
Step-Made v (locks a b) = v.made
Step-Made v (finds_set_again a b) = v.made
Step-Made v (finds_null_again a b) = v.made
Step-Made {s} v (makes a) = inr (makes-Made s v.made (here-Fits v a).1)
Step-Made v (unlocks a) = v.made
Step-Made v (reads a) = v.made

-- The other threads, where thread `i` makes the object.
others-made :
    {i : ℕ} {s : Shared}
    → IsSound s
    → s.at i ≡ making
    → (j : ℕ) → j ≢ i
    → Fits (some s.made) s.owner j (s.at j)
others-made {i} {s} v a j n =
    let (o, e) = here-Fits v a in
    let f : Fits none (some i) j (s.at j) =
      subst (λ b. Fits b (some i) j (s.at j)) e
        (subst (λ b. Fits s.object b j (s.at j)) o (v.fits j)) in
    subst (λ b. Fits b s.owner j (s.at j)) (sym (makes-Made s v.made e).1)
      (subst (λ b. Fits (some 0) b j (s.at j)) (sym o) (other-made i j (s.at j) n f))

-- The other threads, where thread `i` gives the lock back.
others-given :
    {i : ℕ} {s : Shared}
    → IsSound s
    → s.owner ≡ some i
    → (j : ℕ) → j ≢ i
    → Fits s.object none j (s.at j)
others-given {i} {s} v o j n =
    other-given s.object i j (s.at j) n (subst (λ b. Fits s.object b j (s.at j)) o (v.fits j))

Step-Fits :
    {i : ℕ} {s t : Shared} → IsSound s → Step i s t → (j : ℕ) → Fits t.object t.owner j (t.at j)
Step-Fits {i} {s} v (finds_set a b) =
    Fits-moved s.at i reading s.object s.owner (here-Fits v a, set-some s v.made b)
      (λ j n. v.fits j)
Step-Fits {i} {s} v (finds_null a b) =
    Fits-moved s.at i waiting s.object s.owner (here-Fits v a) (λ j n. v.fits j)
Step-Fits {i} {s} v (locks a b) = Fits-moved s.at i testing s.object (some i) refl (λ j n.
    other-taken s.object i j (s.at j) n (subst (λ o. Fits s.object o j (s.at j)) b (v.fits j)))
Step-Fits {i} {s} v (finds_set_again a b) =
    Fits-moved s.at i leaving s.object s.owner (here-Fits v a, set-some s v.made b)
      (λ j n. v.fits j)
Step-Fits {i} {s} v (finds_null_again a b) =
    Fits-moved s.at i making s.object s.owner (here-Fits v a, b) (λ j n. v.fits j)
Step-Fits {i} {s} v (makes a) =
    let (o, e) = here-Fits v a in
    Fits-moved s.at i leaving (some s.made) s.owner (o, (makes-Made s v.made e).1) (others-made v a)
Step-Fits {i} {s} v (unlocks a) =
    let (o, e) = here-Fits v a in
    Fits-moved s.at i reading s.object none ((λ n. cc), e) (others-given v o)
Step-Fits {i} {s} v (reads a) =
    let (o, e) = here-Fits v a in
    Fits-moved s.at i (returned s.object) s.object s.owner (o, e, e) (λ j n. v.fits j)

Step-IsSound : {i : ℕ} {s t : Shared} → IsSound s → Step i s t → IsSound t
Step-IsSound v st = record { made = Step-Made v st; fits = Step-Fits v st }

start-IsSound : (callers : ℕ) → IsSound (start callers)
start-IsSound callers = record { made = inl (refl, refl); fits = λ j. fits_at j }
  where
    unowned : (j : ℕ) → ◌≢◌ {A = Option ℕ} none (some j)
    unowned j e = cc

    fits_at : (j : ℕ) → Fits none none j (if ltb j callers then starting else outside)
    fits_at j = elim (Bool-cases (ltb j callers)) [
      | inl calls ↦ rw calls (unowned j)
      | inr idle ↦ rw idle (unowned j)
    ]

Reach-IsSound : (callers : ℕ) {s : Shared} → Reach (start callers) s → IsSound s
Reach-IsSound callers here = start-IsSound callers
Reach-IsSound callers (next i r st) = Step-IsSound (Reach-IsSound callers r) st

-- Any number of threads call `GetInstance` at any time. Whenever two of them have returned, both
-- have the object, and not null; it is the same for both, and the only one that was made.
pub returned-same :
    (callers : ℕ) (s : Shared) (i j : ℕ) (a b : Option ℕ)
    → Reach (start callers) s
    → s.at i ≡ returned a
    → s.at j ≡ returned b
    → (a ≡ b) × (a ≢ none) × (s.made ≡ 1)
returned-same callers s i j a b r p q =
    let v = Reach-IsSound callers r in
    let (_, e, o) = here-Fits v p in
    let (_, f, _) = here-Fits v q in (e ∙ sym f, (λ n. cc), made_one v.made o)
  where
    made_one : Made s → s.object ≡ some 0 → s.made ≡ 1
    made_one (inl m) o = cc
    made_one (inr m) o = m.0

abbrev Moves : Shared → Type 0
Moves s = (j : ℕ) × (t : Shared) × Step j s t

-- The holder of the lock can move.
holder-Moves : (s : Shared) (k : ℕ) → IsSound s → s.owner ≡ some k → (a : At) → s.at k ≡ a → Moves s
holder-Moves s k v o outside e = absurd (here-Fits v e o)
holder-Moves s k v o starting e = absurd (here-Fits v e o)
holder-Moves s k v o waiting e = absurd (here-Fits v e o)
holder-Moves s k v o testing e = elim (Option-cases s.object) [
  | inl null ↦ (k, _, finds_null_again e null)
  | inr (p, set') ↦ (k, _, finds_set_again e (λ n. cc))
]
holder-Moves s k v o making e = (k, _, makes e)
holder-Moves s k v o leaving e = (k, _, unlocks e)
holder-Moves s k v o reading e = absurd ((here-Fits v e).0 o)
holder-Moves s k v o (returned p) e = absurd ((here-Fits v e).0 o)

thread-Moves :
    (s : Shared) (i : ℕ)
    → IsSound s
    → (a : At) → s.at i ≡ a
    → a ≢ outside
    → ((o : Option ℕ) → a ≢ returned o)
    → Moves s
thread-Moves s i v outside e c n = absurd (c refl)
thread-Moves s i v starting e c n = elim (Option-cases s.object) [
  | inl null ↦ (i, _, finds_null e null)
  | inr (p, set') ↦ (i, _, finds_set e (λ m. cc))
]
thread-Moves s i v waiting e c n = elim (Option-cases s.owner) [
  | inl free ↦ (i, _, locks e free)
  | inr (k, o) ↦ holder-Moves s k v o (s.at k) refl
]
thread-Moves s i v testing e c n = holder-Moves s i v (here-Fits v e) testing e
thread-Moves s i v making e c n = holder-Moves s i v (here-Fits v e).0 making e
thread-Moves s i v leaving e c n = holder-Moves s i v (here-Fits v e).0 leaving e
thread-Moves s i v reading e c n = (i, _, reads e)
thread-Moves s i v (returned o) e c n = absurd (n o refl)

-- Any number of threads call `GetInstance`, and no others step. In every state that they can reach,
-- as long as one of them has not returned, one of them can make its next step: they cannot all wait
-- for the lock, as they would if it were not given back.
pub unfinished-moves :
    (callers : ℕ) (s : Shared) (i : ℕ)
    → Reach (start callers) s
    → s.at i ≢ outside
    → ((o : Option ℕ) → s.at i ≢ returned o)
    → (j : ℕ) × (t : Shared) × Step j s t
unfinished-moves callers s i r c n = thread-Moves s i (Reach-IsSound callers r) (s.at i) refl c n
