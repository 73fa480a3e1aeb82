-- ===== src/MemUsage.antt =====
-- `mem_usage` of ARST_QUOTE/ARSTMain.cpp, which reads the size of the process from /proc/self/stat.
-- The doubles that it gives are kept as the whole numbers that they are made of; they hold these
-- exactly up to 2^53.
pub mod Numbers
pub mod Stat
use cta_alristrol_gallardo_v.Base.{
  ℕ, zero, suc, ◌+◌, ◌-◌, ◌*◌, ◌/◌, ◌%◌, Bool, true, false, Option, none, some, List, [], ◌∷◌, ltb,
  ◌==◌, if◌then◌else◌, ℤ, pos, negsuc, minus, ◌^◌,
}
use Prim.Native.Nat.{min}
use cta_alristrol_gallardo_v.Text.{skip_spaces, is_space, is_digit, digits_from, decimal}

-- `operator>>` of a stream into a string that is not looked at: what is left of the stream, or
-- `none` once it has failed.
skip_word : List ℕ → List ℕ
skip_word [] = []
skip_word (c ∷ cs) = let rest = skip_word cs in if is_space c then c ∷ cs else rest

word_at : List ℕ → Option (List ℕ)
unfolding skip_word
word_at [] = none
word_at (c ∷ cs) = some (skip_word (c ∷ cs))

get_word : Option (List ℕ) → Option (List ℕ)
unfolding word_at
get_word none = none
get_word (some s) = word_at (skip_spaces s)

get_words : ℕ → Option (List ℕ) → Option (List ℕ)
get_words zero s = s
get_words (suc n) s = get_words n (get_word s)

-- `operator>>` into a number, by the digits at the front: the value, which is `none` if the variable
-- is left as it was, and the stream.
skip_digits : List ℕ → List ℕ
skip_digits [] = []
skip_digits (c ∷ cs) = let rest = skip_digits cs in if is_digit c then rest else c ∷ cs

abbrev starts_number : List ℕ → Bool
starts_number [] = false
starts_number (c ∷ cs) = is_digit c

-- An `unsigned long` behind its sign. A negative one is taken from 2^64, one that is too large is
-- the largest, and where no digit stands it is 0; the stream fails in the last two cases.
unsigned_value : Bool → List ℕ → Option ℕ × Option (List ℕ)
unfolding skip_digits
unsigned_value negative s =
    let n = digits_from 0 s in
    if starts_number s
    then if ltb n (2 ^ 64)
      then (some (if negative then (2 ^ 64 - n) % 2 ^ 64 else n), some (skip_digits s))
      else (some (2 ^ 64 - 1), none)
    else (some 0, none)

unsigned_at : List ℕ → Option ℕ × Option (List ℕ)
unfolding unsigned_value
unsigned_at [] = (none, none)
unsigned_at (c ∷ cs) =
    if c == b'-'
    then unsigned_value true cs
    else if c == b'+'
    then unsigned_value false cs
    else unsigned_value false (c ∷ cs)

get_unsigned : Option (List ℕ) → Option ℕ × Option (List ℕ)
unfolding unsigned_at
get_unsigned none = (none, none)
get_unsigned (some s) = unsigned_at (skip_spaces s)

-- A `long` behind its sign.
long_value : Bool → List ℕ → ℤ
long_value negative s =
    let n = digits_from 0 s in
    if starts_number s
    then if negative then minus (min n (2 ^ 63)) else pos (min n (2 ^ 63 - 1))
    else pos 0

long_at : List ℕ → Option ℤ
unfolding long_value
long_at [] = none
long_at (c ∷ cs) = some (
    if c == b'-'
    then long_value true cs
    else if c == b'+'
    then long_value false cs
    else long_value false (c ∷ cs))

get_long : Option (List ℕ) → Option ℤ
unfolding long_at
get_long none = none
get_long (some s) = long_at (skip_spaces s)

-- `vm_usage` in bytes, that is times 1024 * 1024, and `resident_set`.
pub record Usage : Type 0 where
  pub vm_bytes : ℕ
  pub resident_kb : ℤ

abbrev times : ℕ → ℤ → ℤ
times p (pos n) = pos (p * n)
times p (negsuc n) = minus (p * (n + 1))

-- The fields before the size, which are read into strings.
abbrev pub words_before : ℕ
words_before = 22

usage_of : ℕ → Option ℕ → Option ℤ → Option Usage
usage_of page_size (some v) (some r) =
    some (record { vm_bytes = v; resident_kb = times (page_size / 1024) r })
usage_of page_size (some v) none = none
usage_of page_size none r = none

-- `none` where a variable is used that was never set. The text is that of the file, or `none` if it
-- cannot be opened. The product of the pages is assumed to be within a `long`.
unfoldable pub mem_usage : Option (List ℕ) → ℕ → Option Usage
unfolding get_words get_word get_unsigned get_long usage_of
mem_usage stat page_size =
    let (vsize, rest) = get_unsigned (get_words words_before stat) in
    usage_of page_size vsize (get_long rest)

-- `%.0f` of `vm_usage`: the megabytes, rounded to the nearest number, and from the middle to the
-- even one.
unfoldable pub usage_text : Usage → List ℕ
usage_text u =
    let q = u.vm_bytes / 2 ^ 20 in
    let r = u.vm_bytes % 2 ^ 20 in
    if ltb r (2 ^ 19)
    then decimal q
    else if ltb (2 ^ 19) r
    then decimal (q + 1)
    else decimal (q + q % 2)
