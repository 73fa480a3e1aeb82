-- ===== src/ErrorLog/Printable.antt =====
-- What ARST_QUOTE/ARSTDumpErrLog.cpp prints of bytes that it is given.
use cta_alristrol_gallardo_v.Base.{
  ℕ, zero, suc, ◌+◌, ◌-◌, ◌/◌, ◌%◌, ◌≤◌, ◌<◌, ◌≡◌, refl, inl, inr, Option, none, some, List, [],
  ◌∷◌, ◌++◌, arith, ltb, ◌==◌, if◌then◌else◌, Bool-cases, length, take, replicate, All, All-append,
  ℤ, pos, negsuc, ltb→lt, le→leb,
}
use cta_alristrol_gallardo_v.Text.{decimal, digit}
use cta_alristrol_gallardo_v.Text.Digits.{decimal-All}
use cta_alristrol_gallardo_v.ErrorLog.{
  TimeOfDay, Message, no_message, message_of, is_print, padded, signed_decimal, hex_byte, hex_digit,
  shown_byte, shown_bytes, shown, stamp, place, printed, log_line,
}

abbrev pub IsPrintable : ℕ → Type 0
IsPrintable c = (32 ≤ c) × (c ≤ 126)

digit-IsPrintable : (n : ℕ) → IsPrintable (digit n)
digit-IsPrintable n = (omega arith, omega arith)

number-All : (n : ℕ) → All IsPrintable (decimal n)
number-All n = decimal-All IsPrintable n digit-IsPrintable

replicate-All : (n c : ℕ) → IsPrintable c → All IsPrintable (replicate n c)
replicate-All zero c h = tt
replicate-All (suc n) c h = (h, replicate-All n c h)

padded-All : (width : ℕ) (s : List ℕ) → All IsPrintable s → All IsPrintable (padded width s)
padded-All width s h =
    All-append IsPrintable (replicate (width - length s) 48) s
      (replicate-All (width - length s) 48 (omega arith, omega arith)) h

-- Parts with a printable byte behind them.
then-All :
    (s : List ℕ) (c : ℕ) (t : List ℕ)
    → All IsPrintable s
    → IsPrintable c
    → All IsPrintable t
    → All IsPrintable (s ++ c ∷ t)
then-All s c t h i j = All-append IsPrintable s (c ∷ t) h (i, j)

hex_digit-IsPrintable : (n : ℕ) → n < 16 → IsPrintable (hex_digit n)
hex_digit-IsPrintable n l = elim (Bool-cases (ltb n 10)) [
  | inl small ↦ rw small (omega arith, omega (arith, ltb→lt n 10 small))
  | inr large ↦ rw large (omega arith, omega arith)
]

hex_byte-All : (c : ℕ) → c < 256 → All IsPrintable (hex_byte c)
hex_byte-All c l = elim (Bool-cases (c == 0)) [
  | inl none_ ↦ rw none_ ((omega arith, omega arith), tt)
  | inr some_ ↦ rw some_ ((omega arith, omega arith), ((omega arith, omega arith), rest))
]
  where
    rest :
        All IsPrintable
          (if ltb c 16 then hex_digit c ∷ [] else hex_digit (c / 16) ∷ hex_digit (c % 16) ∷ [])
    rest = elim (Bool-cases (ltb c 16)) [
      | inl small ↦ rw small (hex_digit-IsPrintable c (ltb→lt c 16 small), tt)
      | inr large ↦ rw large (
        hex_digit-IsPrintable (c / 16) (omega arith),
        (hex_digit-IsPrintable (c % 16) (omega arith), tt),
      )
    ]

shown_byte-All : (c : ℕ) → c < 256 → All IsPrintable (shown_byte c)
unfolding shown_byte
shown_byte-All c l = elim (Bool-cases (is_print c)) [
  | inl p ↦ rw p (ground (arith, p), tt)
  | inr q ↦ rw q (
    (omega arith, omega arith),
    then-All (hex_byte c) 93 [] (hex_byte-All c l) (omega arith, omega arith) tt,
  )
]

shown_bytes-All : (s : List ℕ) → All (λ c. c < 256) s → All IsPrintable (shown_bytes s)
unfolding shown_bytes
shown_bytes-All [] h = tt
shown_bytes-All (c ∷ s) h =
    All-append IsPrintable (shown_byte c) (shown_bytes s) (shown_byte-All c h.0)
      (shown_bytes-All s h.1)

take-All : (n : ℕ) (s : List ℕ) → All (λ c. c < 256) s → All (λ c. c < 256) (take n s)
take-All zero s h = tt
take-All (suc n) [] h = tt
take-All (suc n) (c ∷ s) h = (h.0, take-All n s h.1)

-- The bytes of a message, and that it has so many.
abbrev pub IsMessage : Message → Type 0
IsMessage no_message = Unit {0}
IsMessage (message_of bytes n) = (n ≤ length bytes) × All (λ c. c < 256) bytes

abbrev Shows : Option (List ℕ) → Type 0
Shows o = (s : List ℕ) × (o ≡ some s) × All IsPrintable s

shown-Shows : (m : Message) → IsMessage m → Shows (shown m)
unfolding shown
shown-Shows no_message h =
    (123 ∷ 125 ∷ [], refl, ((omega arith, omega arith), ((omega arith, omega arith), tt)))
shown-Shows (message_of bytes n) h = (
  123 ∷ (shown_bytes (take n bytes) ++ 125 ∷ []),
  rw (le→leb n (length bytes) h.0) refl,
  (
    (omega arith, omega arith),
    then-All (shown_bytes (take n bytes)) 125 []
        (shown_bytes-All (take n bytes) (take-All n bytes h.1)) (omega arith, omega arith) tt,
  ),
)

signed_decimal-All : (z : ℤ) → All IsPrintable (signed_decimal z)
signed_decimal-All (pos n) = number-All n
signed_decimal-All (negsuc n) = ((omega arith, omega arith), number-All (n + 1))

abbrev pub IsFile : Option (List ℕ) → Type 0
IsFile none = Unit {0}
IsFile (some f) = All IsPrintable f

place-All : (file : Option (List ℕ)) (line : ℕ) → IsFile file → All IsPrintable (place file line)
place-All none line h = tt
place-All (some f) line h =
    then-All f 58 (decimal line) h (omega arith, omega arith) (number-All line)

stamp-All : (t : TimeOfDay) → All IsPrintable (stamp t)
stamp-All t = (
  (omega arith, omega arith),
  then-All (padded 2 (decimal t.tm_hour)) 58 _ (number_padded 2 t.tm_hour)
      (omega arith, omega arith)
      (then-All (padded 2 (decimal t.tm_min)) 58 _ (number_padded 2 t.tm_min)
        (omega arith, omega arith)
        (then-All (padded 2 (decimal t.tm_sec)) 39 _ (number_padded 2 t.tm_sec)
          (omega arith, omega arith)
          (then-All (padded 6 (decimal t.tv_usec)) 93 [] (number_padded 6 t.tv_usec)
            (omega arith, omega arith) tt))),
)
  where
    number_padded : (w n : ℕ) → All IsPrintable (padded w (decimal n))
    number_padded w n = padded-All w (decimal n) (number-All n)

-- Messages of bytes, no longer than the bytes there, and a cause and a file name that can be printed:
-- the line holds printable characters of ASCII only, whatever the messages hold.
pub log_line-All :
    (t : TimeOfDay) (cause : List ℕ) (error extra : ℤ) (file : Option (List ℕ)) (line : ℕ)
    (message1 message2 : Message)
    → All IsPrintable cause
    → IsFile file
    → IsMessage message1
    → IsMessage message2
    → (s : List ℕ) × (log_line t cause error extra file line message1 message2 ≡ some s)
      × All IsPrintable s
unfolding log_line
log_line-All t cause error extra file line message1 message2 c f m1 m2 =
    let (s1, e1, h1) = shown-Shows message1 m1 in
    let (s2, e2, h2) = shown-Shows message2 m2 in
    (
      printed t cause error extra file line s1 s2,
      rw (e1, log_line) (rw e2 refl),
      All-append IsPrintable (stamp t) _ (stamp-All t) (
          All-append IsPrintable (91 ∷ _) _
            (
              (omega arith, omega arith),
              then-All cause 93 _ c (omega arith, omega arith)
                  (
                    (omega arith, omega arith),
                    then-All (signed_decimal error) 44 _ (signed_decimal-All error)
                        (omega arith, omega arith)
                        (then-All (signed_decimal extra) 93 [] (signed_decimal-All extra)
                          (omega arith, omega arith) tt),
                  ),
            )
            (All-append IsPrintable (place file line) _ (place-All file line f)
              (All-append IsPrintable s1 s2 h1 h2))),
    )
