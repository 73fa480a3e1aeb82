-- ===== src/Text/Digits.antt =====
-- Laws of C strings in a buffer and of printed numbers.
use cta_alristrol_gallardo_v.Text.{decimal_onto, decimal, decimal2, digit, c_string}
use cta_alristrol_gallardo_v.Base.{
  ltb_false→le, ltb, inr, inl, Bool-cases, ℕ, ◌≡◌, refl, ◌≢◌, none, some, List, [], ◌∷◌, ◌++◌,
  arith, All, ◌<◌, ◌≤◌, suc, length, ◌+◌, ◌/◌, ◌∙◌, zero,
}

-- A byte of a C string.
abbrev pub NonZero : ℕ → Type 0
NonZero c = c ≢ 0

-- A text without NUL, in a buffer with a NUL behind it.
pub c_string-terminated : (s rest : List ℕ) → All NonZero s → c_string (s ++ 0 ∷ rest) ≡ some s
unfolding c_string
c_string-terminated [] rest h = refl
c_string-terminated (c ∷ s) rest h = ground (arith, c_string-terminated s rest h.1)

-- Nothing ends a string in a buffer without NUL.
pub c_string-open : (s : List ℕ) → All NonZero s → c_string s ≡ none
unfolding c_string
c_string-open [] h = refl
c_string-open (c ∷ s) h = ground (arith, c_string-open s h.1)

-- The number has `k` digits behind its first.
abbrev pub HasWidth : ℕ → ℕ → Type 0
HasWidth zero n = n < 10
HasWidth (suc k) n = (10 ≤ n) × HasWidth k (n / 10)

length-decimal_onto :
    (k fuel n : ℕ) (out : List ℕ)
    → HasWidth k n
    → k < fuel
    → length (decimal_onto fuel n out) ≡ suc k + length out
unfolding decimal_onto
length-decimal_onto k zero n out w f = absurd (omega arith)
length-decimal_onto zero (suc fuel) n out w f = ground arith
length-decimal_onto (suc k) (suc fuel) n out w f =
    ground (arith, length-decimal_onto k fuel (n / 10) (digit n ∷ out) w.1)

pub length-decimal : (k n : ℕ) → HasWidth k n → k ≤ n → length (decimal n) ≡ suc k
unfolding decimal
length-decimal k n w l = length-decimal_onto k (n + 1) n [] w (omega arith) ∙ omega arith

pub length-decimal2 : (n : ℕ) → n < 100 → length (decimal2 n) ≡ 2
unfolding decimal2
length-decimal2 n l = elim (Bool-cases (ltb n 10)) [
  | inl one ↦ rw one refl
  | inr two ↦ rw two (
      length-decimal 1 n (ltb_false→le n 10 two, omega arith)
        (omega (arith, ltb_false→le n 10 two)))
]

decimal_onto-All :
    (P : ℕ → Type 0) (fuel n : ℕ) (out : List ℕ)
    → ((m : ℕ) → P (digit m))
    → All P out
    → All P (decimal_onto fuel n out)
unfolding decimal_onto
decimal_onto-All P zero n out d h = h
decimal_onto-All P (suc fuel) n out d h = elim (Bool-cases (ltb n 10)) [
  | inl one ↦ rw one (d n, h)
  | inr more ↦ rw more (decimal_onto-All P fuel (n / 10) (digit n ∷ out) d (d n, h))
]

-- What is true of digits is true of a printed number.
pub decimal-All : (P : ℕ → Type 0) (n : ℕ) → ((m : ℕ) → P (digit m)) → All P (decimal n)
unfolding decimal
decimal-All P n d = decimal_onto-All P (n + 1) n [] d tt
