-- ===== src/Text/Fields.antt =====
-- Printed numbers with other text behind them.
use cta_alristrol_gallardo_v.Base.{
  ℕ, zero, suc, ◌+◌, ◌/◌, ◌≤◌, ◌≡◌, refl, ap, ◌∙◌, inl, inr, List, [], ◌∷◌, ◌++◌, arith, ltb,
  Bool-cases, ltb→lt, ltb_false→le,
}
use cta_alristrol_gallardo_v.Text.{decimal_onto, decimal, digit, digits_from}
use cta_alristrol_gallardo_v.Text.Digits.{HasWidth}
use cta_alristrol_gallardo_v.Text.Parsing.{digits_from-decimal_onto, decimal_onto-Begins, Begins}

-- Every number has a number of digits.
width : (fuel n : ℕ) → n ≤ fuel → (k : ℕ) × HasWidth k n × (k ≤ n)
width zero n l = (0, omega arith, omega arith)
width (suc fuel) n l = elim (Bool-cases (ltb n 10)) [
  | inl one ↦ (0, ltb→lt n 10 one, omega arith)
  | inr more ↦
      let ten = ltb_false→le n 10 more in
      let (k, w, m) = width fuel (n / 10) (omega arith) in (suc k, (ten, w), omega arith)
]

decimal_onto-append :
    (fuel n : ℕ) (out rest : List ℕ)
    → decimal_onto fuel n out ++ rest ≡ decimal_onto fuel n (out ++ rest)
unfolding decimal_onto
decimal_onto-append zero n out rest = refl
decimal_onto-append (suc fuel) n out rest =
    ground (arith, decimal_onto-append fuel (n / 10) (digit n ∷ out) rest)

decimal-append : (n : ℕ) (rest : List ℕ) → decimal n ++ rest ≡ decimal_onto (n + 1) n rest
unfolding decimal
decimal-append n rest = decimal_onto-append (n + 1) n [] rest

pub digits_from-decimal :
    (n : ℕ) (rest : List ℕ) → digits_from 0 (decimal n ++ rest) ≡ digits_from n rest
digits_from-decimal n rest =
    let (k, w, l) = width n n (omega arith) in
    ap (digits_from 0) (decimal-append n rest)
    ∙ digits_from-decimal_onto k (n + 1) n rest w (omega arith)

pub decimal-Begins : (n : ℕ) → Begins (decimal n)
unfolding decimal
decimal-Begins n =
    let (k, w, l) = width n n (omega arith) in decimal_onto-Begins k (n + 1) n [] w (omega arith)
