-- ===== src/QueueDao/Window.antt =====
-- The window of keys in `QueueLocal` of ARST_QUOTE/ARSTQueueNode.cpp: what `find` and the trimming
-- loop do to it.
use cta_alristrol_gallardo_v.Base.{
  ℕ, zero, suc, ◌+◌, ◌-◌, ◌*◌, ◌/◌, ◌<◌, ◌≡◌, refl, ap, subst, ◌∙◌, inl, inr, true, false, ◌||◌,
  some, List, [], ◌∷◌, ◌++◌, arith, ltb, Bool-cases, bytes_eq, bytes_eq_sound, bytes_eq_self,
  length, drop, length-drop, drop-drop, ltb→lt, ltb_false→le,
}
use cta_alristrol_gallardo_v.QueueDao.{contains, trim}

abbrev pub Keys : Type 0
Keys = List (List ℕ)

-- No key stands twice.
abbrev pub IsDistinct : Keys → Type 0
IsDistinct [] = Unit {0}
IsDistinct (k ∷ ks) = (contains k ks ≡ false) × IsDistinct ks

pub contains-append :
    (k : List ℕ) (ks js : Keys) → contains k (ks ++ js) ≡ (contains k ks || contains k js)
unfolding contains
contains-append k [] js = refl
contains-append k (i ∷ ks) js = ground (arith, contains-append k ks js)

bytes_eq_symm : (s t : List ℕ) → bytes_eq s t ≡ false → bytes_eq t s ≡ false
bytes_eq_symm s t h = elim (Bool-cases (bytes_eq t s)) [
  | inl e ↦
      let same : bytes_eq s t ≡ true =
        subst (λ u. bytes_eq u t ≡ true) (bytes_eq_sound t s e) (bytes_eq_self t) in
      cc
  | inr e ↦ e
]

-- A key that is new may be put behind the others.
pub IsDistinct-snoc :
    (ks : Keys) (k : List ℕ) → IsDistinct ks → contains k ks ≡ false → IsDistinct (ks ++ k ∷ [])
unfolding contains
IsDistinct-snoc [] k d h = (refl, tt)
IsDistinct-snoc (j ∷ ks) k d h = (
  ground (arith, contains-append j ks (k ∷ []), bytes_eq_symm j k),
  IsDistinct-snoc ks k d.1 (ground arith),
)

contains-drop :
    (n : ℕ) (k : List ℕ) (ks : Keys) → contains k ks ≡ false → contains k (drop n ks) ≡ false
unfolding contains
contains-drop zero k ks h = h
contains-drop (suc n) k [] h = refl
contains-drop (suc n) k (j ∷ ks) h = contains-drop n k ks (ground arith)

pub IsDistinct-drop : (n : ℕ) (ks : Keys) → IsDistinct ks → IsDistinct (drop n ks)
IsDistinct-drop zero ks d = d
IsDistinct-drop (suc n) [] d = tt
IsDistinct-drop (suc n) (k ∷ ks) d = IsDistinct-drop n ks d.1

-- How many times 250 keys the loop drops from `n`.
abbrev pub cuts : ℕ → ℕ
cuts n = (n - 750 + 249) / 250

drop_eq : (m n : ℕ) (ks : Keys) → m ≡ n → some (drop m ks) ≡ some (drop n ks)
drop_eq m n ks p = ap (λ k. some (drop k ks)) p

-- With fuel for its turns, the loop ends, and has dropped as many times 250 of the oldest keys as
-- bring the window down to 750.
pub trim-drops :
    (fuel : ℕ) (ks : Keys)
    → length ks < fuel
    → trim fuel ks ≡ some (drop (250 * cuts (length ks)) ks)
unfolding trim
trim-drops zero ks h = absurd (omega arith)
trim-drops (suc fuel) ks h = elim (Bool-cases (ltb 750 (length ks))) [
  | inl big ↦
      let n = 250 * cuts (length (drop 250 ks)) in
      rw big (
        trim-drops fuel (drop 250 ks) (omega (arith, length-drop 250 ks, ltb→lt _ _ big))
        ∙ ap some (drop-drop 250 n ks)
        ∙ drop_eq (250 + n) (250 * cuts (length ks)) ks
            (omega (arith, length-drop 250 ks, ltb→lt _ _ big)))
  | inr small ↦
      rw small (drop_eq 0 (250 * cuts (length ks)) ks (omega (arith, ltb_false→le _ _ small)))
]
