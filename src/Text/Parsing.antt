-- ===== src/Text/Parsing.antt =====
-- That `std::stol` reads what `%ld` prints.
use native.Mathlib.Nat.{pow-suc}
use cta_alristrol_gallardo_v.Base.{
  ℕ, zero, suc, ◌+◌, ◌/◌, ◌≤◌, ◌<◌, ◌≡◌, refl, sym, ap, subst, ◌∙◌, List, [], ◌∷◌, arith, pos, ◌^◌,
}
use cta_alristrol_gallardo_v.Text.{
  decimal_onto, decimal, digit, digits_from, digits, skip_spaces, parse_signed, stol, number,
}
use cta_alristrol_gallardo_v.Text.Digits.{HasWidth}

pow_positive : (k : ℕ) → 1 ≤ 10 ^ k
pow_positive zero = omega arith
pow_positive (suc k) = let e = pow_positive k in omega (arith, pow-suc 10 k)

pub HasWidth-pow : (k n : ℕ) → 10 ^ k ≤ n → n < 10 ^ suc k → HasWidth k n
HasWidth-pow zero n l m = m
HasWidth-pow (suc k) n l m =
    let p = pow_positive k in
    (
      omega (arith, pow-suc 10 k),
      HasWidth-pow k (n / 10) (omega (arith, pow-suc 10 k)) (omega (arith, pow-suc 10 (suc k))),
    )

pub digits_from-decimal_onto :
    (k fuel n : ℕ) (out : List ℕ)
    → HasWidth k n
    → k < fuel
    → digits_from 0 (decimal_onto fuel n out) ≡ digits_from n out
unfolding decimal_onto digits_from
digits_from-decimal_onto k zero n out w f = absurd (omega arith)
digits_from-decimal_onto zero (suc fuel) n out w f = ground arith
digits_from-decimal_onto (suc k) (suc fuel) n out w f =
    let e = digits_from-decimal_onto k fuel (n / 10) (digit n ∷ out) w.1 in
    ground (arith, e (omega arith))

-- The text begins with a digit.
abbrev pub Begins : List ℕ → Type 0
Begins s = (c : ℕ) × (cs : List ℕ) × (s ≡ c ∷ cs) × (48 ≤ c) × (c ≤ 57)

pub decimal_onto-Begins :
    (k fuel n : ℕ) (out : List ℕ) → HasWidth k n → k < fuel → Begins (decimal_onto fuel n out)
unfolding decimal_onto
decimal_onto-Begins k zero n out w f = absurd (omega arith)
decimal_onto-Begins zero (suc fuel) n out w f =
    (digit n, out, ground arith, omega arith, omega arith)
decimal_onto-Begins (suc k) (suc fuel) n out w f =
    let (c, cs, e, l, m) = decimal_onto-Begins k fuel (n / 10) (digit n ∷ out) w.1 (omega arith) in
    (c, cs, ground (arith, e), l, m)

stol-digits :
    (c : ℕ) (cs : List ℕ)
    → 48 ≤ c
    → c ≤ 57
    → (digits_from 0 (c ∷ cs) < 2 ^ 63)
    → stol (c ∷ cs) ≡ number (pos (digits_from 0 (c ∷ cs)))
unfolding stol parse_signed skip_spaces digits digits_from
stol-digits c cs l m b = ground (arith, b)

pub stol-decimal : (k n : ℕ) → HasWidth k n → k ≤ n → n < 2 ^ 63 → stol (decimal n) ≡ number (pos n)
unfolding decimal
stol-decimal k n w l m =
    let (c, cs, e, lo, hi) = decimal_onto-Begins k (n + 1) n [] w (omega arith) in
    let v : digits_from 0 (c ∷ cs) ≡ n =
      ap (digits_from 0) (sym e)
      ∙ digits_from-decimal_onto k (n + 1) n [] w (omega arith)
      ∙ (unfold digits_from in refl) in
    ap stol e
    ∙ stol-digits c cs lo hi (subst (λ a. a < 2 ^ 63) (sym v) m)
    ∙ ap (λ a. number (pos a)) v
