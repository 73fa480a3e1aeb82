-- ===== src/Queue/Buffer.antt =====
-- What `memcpy` and `GetMessage` in ARST_QUOTE/ARSTCommon/ARSTQueue.cpp leave in a buffer of zeros.
use cta_alristrol_gallardo_v.Base.{
  ℕ, zero, suc, ◌+◌, ◌-◌, ◌<◌, ◌≡◌, ap, ◌∙◌, false, none, some, List, [], ◌∷◌, ◌++◌, append-nil,
  arith, ◌==◌, length, replicate, All, take-le, pos,
}
use cta_alristrol_gallardo_v.Text.{c_string}
use cta_alristrol_gallardo_v.Text.Digits.{NonZero, c_string-terminated, c_string-open}
use cta_alristrol_gallardo_v.Queue.{overwrite, Received, get_message}

pub overwrite-zeros :
    (s : List ℕ) (n m : ℕ) → length s + n ≡ m → overwrite s (replicate m 0) ≡ s ++ replicate n 0
unfolding overwrite
overwrite-zeros [] n m e = ap (λ k. replicate k 0) (omega arith)
overwrite-zeros (c ∷ s) n zero e = absurd (omega arith)
overwrite-zeros (c ∷ s) n (suc m) e = ap (λ t. c ∷ t) (overwrite-zeros s n m (omega arith))

-- A message whose text is all there is of it.
abbrev pub message : List ℕ → Received
message text = record { result = pos (length text); bytes = text }

get_message-text :
    (text : List ℕ) (size : ℕ)
    → 0 < length text
    → get_message (message text) (replicate size 0)
      ≡ (pos (length text), overwrite text (replicate size 0))
unfolding get_message
get_message-text text size h =
    let filled : (length text == 0) ≡ false = ground arith in
    rw filled (
      ap (λ t. (pos (length text), overwrite t (replicate size 0)))
        (take-le (length text) text (omega arith)))

pub c_string-overwrite :
    (text : List ℕ) (size : ℕ)
    → length text < size
    → All NonZero text
    → c_string (overwrite text (replicate size 0)) ≡ some text
c_string-overwrite text size h nz =
    ap c_string (overwrite-zeros text (suc (size - length text - 1)) size (omega arith))
    ∙ c_string-terminated text _ nz

pub c_string-full :
    (text : List ℕ) (size : ℕ)
    → length text ≡ size
    → All NonZero text
    → c_string (overwrite text (replicate size 0)) ≡ none
c_string-full text size h nz =
    ap c_string (overwrite-zeros text 0 size (omega arith) ∙ append-nil text)
    ∙ c_string-open text nz

-- A shorter message leaves its text as the buffer's string; one that fills the buffer leaves none.
pub message_read :
    (text : List ℕ) (size : ℕ)
    → 0 < length text
    → All NonZero text
    → ((get_message (message text) (replicate size 0)).0 ≡ pos (length text))
      × (length text < size
          → c_string (get_message (message text) (replicate size 0)).1 ≡ some text)
      × (length text ≡ size → c_string (get_message (message text) (replicate size 0)).1 ≡ none)
message_read text size h nz = (
  ap (λ p. p.0) got,
  λ l. ap (λ p. c_string p.1) got ∙ c_string-overwrite text size l nz,
  λ l. ap (λ p. c_string p.1) got ∙ c_string-full text size l nz,
)
  where
    got :
        get_message (message text) (replicate size 0)
        ≡ (pos (length text), overwrite text (replicate size 0))
    got = get_message-text text size h
