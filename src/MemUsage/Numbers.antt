-- ===== src/MemUsage/Numbers.antt =====
-- How `mem_usage` of ARST_QUOTE/ARSTMain.cpp skips words and reads printed numbers.
use cta_alristrol_gallardo_v.Text.Digits.{decimal-All}
use cta_alristrol_gallardo_v.Base.{
  ℕ, ◌*◌, ◌/◌, ◌≤◌, ◌<◌, ◌≡◌, refl, sym, ap, subst, ◌∙◌, true, false, some, List, [], ◌∷◌, ◌++◌,
  arith, length, All, pos, ◌^◌,
}
use cta_alristrol_gallardo_v.Text.{skip_spaces, is_space, is_digit, digits_from, decimal, digit}
use cta_alristrol_gallardo_v.Text.Fields.{digits_from-decimal, decimal-Begins}
use cta_alristrol_gallardo_v.MemUsage.{
  skip_word, word_at, get_word, get_words, skip_digits, unsigned_value, unsigned_at, get_unsigned,
  long_value, long_at, get_long, mem_usage, usage_of,
}

-- A text that is not empty and has no white space.
abbrev pub IsBlack : ℕ → Type 0
IsBlack c = is_space c ≡ false

abbrev pub IsWord : List ℕ → Type 0
IsWord w = (0 < length w) × All IsBlack w

-- Words, each with a blank behind it.
abbrev pub spaced : List (List ℕ) → List ℕ → List ℕ
spaced [] rest = rest
spaced (w ∷ ws) rest = w ++ 32 ∷ spaced ws rest

skip_word-word : (w rest : List ℕ) → All IsBlack w → skip_word (w ++ 32 ∷ rest) ≡ 32 ∷ rest
unfolding skip_word
skip_word-word [] rest v = refl
skip_word-word (c ∷ w) rest v = rw v.0 (skip_word-word w rest v.1)

get_word-word : (w rest : List ℕ) → IsWord w → get_word (some (w ++ 32 ∷ rest)) ≡ some (32 ∷ rest)
unfolding get_word word_at skip_spaces
get_word-word [] rest v = absurd (omega arith)
get_word-word (c ∷ w) rest v = rw v.1.0 (ap some (skip_word-word (c ∷ w) rest v.1))

get_word-blank : (s : List ℕ) → get_word (some (32 ∷ s)) ≡ get_word (some s)
unfolding get_word skip_spaces
get_word-blank s = refl

get_words-spaced :
    (ws : List (List ℕ)) (rest : List ℕ)
    → All IsWord ws
    → get_words (length ws) (some (32 ∷ spaced ws rest)) ≡ some (32 ∷ rest)
unfolding get_words
get_words-spaced [] rest v = refl
get_words-spaced (w ∷ ws) rest v =
    ap (get_words (length ws))
      (get_word-blank (w ++ 32 ∷ spaced ws rest) ∙ get_word-word w (spaced ws rest) v.0)
    ∙ get_words-spaced ws rest v.1

skip_digits-digits :
    (ds rest : List ℕ) → All (λ c. is_digit c ≡ true) ds → skip_digits (ds ++ 32 ∷ rest) ≡ 32 ∷ rest
unfolding skip_digits
skip_digits-digits [] rest v = refl
skip_digits-digits (c ∷ ds) rest v = rw v.0 (skip_digits-digits ds rest v.1)

digit-is_digit : (m : ℕ) → is_digit (digit m) ≡ true
digit-is_digit m = ground arith

-- The number of a printed one with a blank behind it.
value-decimal : (n : ℕ) (rest : List ℕ) → digits_from 0 (decimal n ++ 32 ∷ rest) ≡ n
unfolding digits_from
value-decimal n rest = digits_from-decimal n (32 ∷ rest)

get_unsigned-digits :
    (c n : ℕ) (cs rest : List ℕ)
    → 48 ≤ c
    → c ≤ 57
    → digits_from 0 (c ∷ cs ++ 32 ∷ rest) ≡ n
    → skip_digits (c ∷ cs ++ 32 ∷ rest) ≡ 32 ∷ rest
    → n < 2 ^ 64
    → get_unsigned (some (32 ∷ (c ∷ cs ++ 32 ∷ rest))) ≡ (some n, some (32 ∷ rest))
unfolding get_unsigned unsigned_at unsigned_value skip_spaces
get_unsigned-digits c n cs rest lo hi v s l = ground (arith, v, s)

get_long-digits :
    (c n : ℕ) (cs rest : List ℕ)
    → 48 ≤ c
    → c ≤ 57
    → digits_from 0 (c ∷ cs ++ 32 ∷ rest) ≡ n
    → n < 2 ^ 63
    → get_long (some (32 ∷ (c ∷ cs ++ 32 ∷ rest))) ≡ some (pos n)
unfolding get_long long_at long_value skip_spaces
get_long-digits c n cs rest lo hi v l = ground (arith, v)

module _ (page_size : ℕ) where
  -- The numbers that stand behind 22 words are read.
  pub mem_usage-words :
      (w : List ℕ) (ws : List (List ℕ)) (v r : ℕ) (rest : List ℕ)
      → length ws ≡ 21
      → IsWord w
      → All IsWord ws
      → v < 2 ^ 64
      → r < 2 ^ 63
      → mem_usage (some (spaced (w ∷ ws) (decimal v ++ 32 ∷ (decimal r ++ 32 ∷ rest)))) page_size
        ≡ some (record { vm_bytes = v; resident_kb = pos (page_size / 1024 * r) })
  unfolding mem_usage get_words usage_of
  mem_usage-words w ws v r rest n a b lv lr =
      let (c, cs, e, lo, hi) = decimal-Begins v in
      let (c', cs', e', lo', hi') = decimal-Begins r in
      let last = decimal r ++ 32 ∷ rest in
      let words : get_words 21 (get_word (some (w ++ 32 ∷ spaced ws (decimal v ++ 32 ∷ last))))
          ≡ some (32 ∷ (decimal v ++ 32 ∷ last)) =
        ap (get_words 21) (get_word-word w _ a)
        ∙ ap (λ m. get_words m (some (32 ∷ spaced ws (decimal v ++ 32 ∷ last)))) (sym n)
        ∙ get_words-spaced ws _ b in
      let unsigned : get_unsigned (some (32 ∷ (decimal v ++ 32 ∷ last)))
          ≡ (some v, some (32 ∷ last)) =
        subst (λ d. get_unsigned (some (32 ∷ (d ++ 32 ∷ last))) ≡ (some v, some (32 ∷ last)))
          (sym e)
          (get_unsigned-digits c v cs last lo hi
            (subst (λ d. digits_from 0 (d ++ 32 ∷ last) ≡ v) e (value-decimal v last))
            (subst (λ d. skip_digits (d ++ 32 ∷ last) ≡ 32 ∷ last) e
              (skip_digits-digits (decimal v) last (decimal-All _ v digit-is_digit)))
            lv) in
      let long : get_long (some (32 ∷ last)) ≡ some (pos r) =
        subst (λ d. get_long (some (32 ∷ (d ++ 32 ∷ rest))) ≡ some (pos r)) (sym e')
          (get_long-digits c' r cs' rest lo' hi'
            (subst (λ d. digits_from 0 (d ++ 32 ∷ rest) ≡ r) e' (value-decimal r rest)) lr) in
      ap (λ s. usage_of page_size (get_unsigned s).0 (get_long (get_unsigned s).1)) words
      ∙ ap (λ u. usage_of page_size u.0 (get_long u.1)) unsigned
      ∙ ap (usage_of page_size (some v)) long

digit-IsBlack : (m : ℕ) → IsBlack (digit m)
digit-IsBlack m = ground arith

pub decimal-IsWord : (n : ℕ) → IsWord (decimal n)
decimal-IsWord n =
    let (c, cs, e, _, _) = decimal-Begins n in
    (subst (λ d. 0 < length d) (sym e) (omega arith), decimal-All IsBlack n digit-IsBlack)
