-- ===== src/Text.antt =====
-- What the sources use of the C and C++ libraries on text: `%d` and `%02d`, `std::stoi` and
-- `std::stol`, and C strings in a buffer. A text is a list of bytes.
pub mod Digits
pub mod Fields
pub mod Clock
pub mod Parsing
use Prim.Native.Char.{code}
use Prim.Native.String.{String}
use mathlib.Core.Option
use cta_alristrol_gallardo_v.Base.{
  ℕ, zero, suc, ◌+◌, ◌-◌, ◌*◌, ◌/◌, ◌%◌, Bool, true, false, ◌&&◌, ◌||◌, Option, none, some, List,
  [], ◌∷◌, map, ltb, leb, ◌==◌, if◌then◌else◌, ℤ, pos, minus, ◌^◌,
}

-- The bytes of a literal, which is ASCII.
abbrev pub codes : String → List ℕ
codes String.[] = []
codes (String.◌∷◌ c s) = code c ∷ codes s

abbrev pub digit : ℕ → ℕ
digit n = 48 + n % 10

-- `%d` of a number that is not negative, the digits found from the last one on.
pub decimal_onto : ℕ → ℕ → List ℕ → List ℕ
decimal_onto zero n out = out
decimal_onto (suc fuel) n out =
    let more = decimal_onto fuel (n / 10) (digit n ∷ out) in
    if ltb n 10 then digit n ∷ out else more

unfoldable pub decimal : ℕ → List ℕ
unfolding decimal_onto
decimal n = decimal_onto (n + 1) n []

-- `%02d`.
unfoldable pub decimal2 : ℕ → List ℕ
unfolding decimal
decimal2 n = if ltb n 10 then 48 ∷ digit n ∷ [] else decimal n

-- `isspace` in the C locale.
abbrev pub is_space : ℕ → Bool
is_space c = c == 32 || leb 9 c && leb c 13

abbrev pub is_digit : ℕ → Bool
is_digit c = leb 48 c && leb c 57

-- The result of `std::stoi` and `std::stol`, or the exception that it throws.
pub data Parsed : Type 0 where
  number : ℤ → Parsed
  invalid_argument out_of_range : Parsed

unfoldable pub skip_spaces : List ℕ → List ℕ
skip_spaces [] = []
skip_spaces (c ∷ cs) = if is_space c then skip_spaces cs else c ∷ cs

-- The digits at the front of a text, as a number; `none` where there is none.
unfoldable pub digits_from : ℕ → List ℕ → ℕ
digits_from acc [] = acc
digits_from acc (c ∷ cs) =
    let more = digits_from (10 * acc + (c - 48)) cs in if is_digit c then more else acc

unfoldable pub digits : List ℕ → Option ℕ
unfolding digits_from
digits [] = none
digits (c ∷ cs) = if is_digit c then some (digits_from (c - 48) cs) else none

-- The value of an absolute value and a sign within a type whose least value is -`limit`.
abbrev signed : ℕ → Bool → Option ℕ → Parsed
signed limit negative none = invalid_argument
signed limit negative (some n) =
    if negative
    then if leb n limit then number (minus n) else out_of_range
    else if ltb n limit
    then number (pos n)
    else out_of_range

-- `strtol` on a text, at a type of the least value -`limit`. What follows the digits is ignored.
parse_signed : ℕ → List ℕ → Parsed
unfolding digits
parse_signed limit [] = invalid_argument
parse_signed limit (c ∷ cs) =
    if c == b'-'
    then signed limit true (digits cs)
    else if c == b'+'
    then signed limit false (digits cs)
    else signed limit false (digits (c ∷ cs))

unfoldable pub stoi : List ℕ → Parsed
unfolding parse_signed skip_spaces
stoi s = parse_signed (2 ^ 31) (skip_spaces s)

unfoldable pub stol : List ℕ → Parsed
unfolding parse_signed skip_spaces
stol s = parse_signed (2 ^ 63) (skip_spaces s)

-- The C string that a buffer holds; `none` if no NUL stands in it, where the library would read on
-- behind the buffer.
unfoldable pub c_string : List ℕ → Option (List ℕ)
c_string [] = none
c_string (c ∷ cs) = if c == 0 then some [] else Option.map (λ s. c ∷ s) (c_string cs)
