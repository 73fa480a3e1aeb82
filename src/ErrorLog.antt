-- ===== src/ErrorLog.antt =====
-- ARST_QUOTE/ARSTDumpErrLog.cpp: the line that `FprintfStderrLog` prints to the standard error.
pub mod Printable
use mathlib.Core.Option
use cta_alristrol_gallardo_v.Base.{
  ℕ, ◌+◌, ◌-◌, ◌/◌, ◌%◌, Bool, ◌&&◌, Option, none, some, List, [], ◌∷◌, ◌++◌, map, ltb, leb, ◌==◌,
  if◌then◌else◌, length, take, replicate, ℤ, pos, negsuc,
}
use cta_alristrol_gallardo_v.Text.{decimal}

-- The time of day, as `gettimeofday` and `localtime` give it.
pub record TimeOfDay : Type 0 where
  pub tm_hour : ℕ
  pub tm_min : ℕ
  pub tm_sec : ℕ
  pub tv_usec : ℕ

-- `isprint` in the C locale.
abbrev pub is_print : ℕ → Bool
is_print c = leb 32 c && leb c 126

-- `setw` and `setfill('0')`.
abbrev pub padded : ℕ → List ℕ → List ℕ
padded width s = replicate (width - length s) 48 ++ s

-- A signed number.
abbrev pub signed_decimal : ℤ → List ℕ
signed_decimal (pos n) = decimal n
signed_decimal (negsuc n) = 45 ∷ decimal (n + 1)

abbrev pub hex_digit : ℕ → ℕ
hex_digit n = if ltb n 10 then 48 + n else 87 + n

-- A byte in `hex` with `showbase`, which puts no "0x" before 0.
abbrev pub hex_byte : ℕ → List ℕ
hex_byte c =
    if c == 0
    then 48 ∷ []
    else 48
      ∷ 120
      ∷ (if ltb c 16 then hex_digit c ∷ [] else hex_digit (c / 16) ∷ hex_digit (c % 16) ∷ [])

-- A byte of a message, in brackets if it cannot be printed.
unfoldable pub shown_byte : ℕ → List ℕ
shown_byte c = if is_print c then c ∷ [] else 91 ∷ (hex_byte c ++ 93 ∷ [])

unfoldable pub shown_bytes : List ℕ → List ℕ
unfolding shown_byte
shown_bytes [] = []
shown_bytes (c ∷ cs) = shown_byte c ++ shown_bytes cs

-- A message: no pointer, or the bytes there and how many of them are meant.
pub data Message : Type 0 where
  no_message : Message
  message_of : (bytes : List ℕ) (n : ℕ) → Message

-- What is printed of a message; `none` is a read behind its bytes.
unfoldable pub shown : Message → Option (List ℕ)
unfolding shown_bytes
shown no_message = some (123 ∷ 125 ∷ [])
shown (message_of bytes n) =
    if leb n (length bytes) then some (123 ∷ (shown_bytes (take n bytes) ++ 125 ∷ [])) else none

abbrev pub stamp : TimeOfDay → List ℕ
stamp t =
    91
    ∷ (padded 2 (decimal t.tm_hour)
        ++ 58
          ∷ (padded 2 (decimal t.tm_min)
              ++ 58
                ∷ (padded 2 (decimal t.tm_sec) ++ 39 ∷ (padded 6 (decimal t.tv_usec) ++ 93 ∷ []))))

abbrev pub place : Option (List ℕ) → ℕ → List ℕ
place none line = []
place (some file) line = file ++ 58 ∷ decimal line

-- The line, without its newline, of what is printed of the messages.
abbrev pub printed : TimeOfDay → List ℕ → ℤ → ℤ → Option (List ℕ) → ℕ → List ℕ → List ℕ → List ℕ
printed t cause error extra file line m1 m2 =
    stamp t
    ++ (91 ∷ (cause ++ 93 ∷ 91 ∷ (signed_decimal error ++ 44 ∷ (signed_decimal extra ++ 93 ∷ [])))
        ++ (place file line ++ (m1 ++ m2)))

unfoldable pub log_line :
    TimeOfDay → List ℕ → ℤ → ℤ → Option (List ℕ) → ℕ → Message → Message → Option (List ℕ)
unfolding shown
log_line t cause error extra file line message1 message2 = elim (shown message1) [
  | none ↦ none
  | some m1 ↦ Option.map (printed t cause error extra file line m1) (shown message2)
]
