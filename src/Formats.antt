-- ===== src/Formats.antt =====
-- The packed structs of ARST_QUOTE/Include: lists of `char` arrays, one behind the other with no byte
-- between. The names of the members are kept as texts.
pub mod Orders
pub mod Logon
use mathlib.Core.Option
use cta_alristrol_gallardo_v.Base.{ℕ, Option, List}

pub record Member : Type 0 where
  pub name : List ℕ
  pub width : ℕ

-- `char name[width];`
abbrev pub char_array : List ℕ → ℕ → Member
char_array name width = record { name = name; width = width }
