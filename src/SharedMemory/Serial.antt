-- ===== src/SharedMemory/Serial.antt =====
-- The tool ARST_SHRMEM/ARSTSetTickNumber.cpp on a printed number.
use cta_alristrol_gallardo_v.Base.{
  ℕ, ◌≤◌, ◌<◌, ◌≡◌, refl, Option, some, List, [], ◌∷◌, arith, ℤ, pos, ◌^◌,
}
use cta_alristrol_gallardo_v.Text.{decimal}
use cta_alristrol_gallardo_v.Text.Digits.{length-decimal}
use cta_alristrol_gallardo_v.Text.Parsing.{HasWidth-pow, stol-decimal}
use cta_alristrol_gallardo_v.SharedMemory.{SharedMemory, new_shared_memory, tool, store, returns}

-- A number of 13 digits that is printed and given to the tool, whose segment can be made and
-- attached: the tool ends with 0 and has stored this number.
pub tool-decimal :
    (name key : List ℕ) (n : ℕ) (id : ℤ) (m : SharedMemory) (answer : Option ℕ)
    → 10 ^ 12 ≤ n
    → n < 10 ^ 13
    → new_shared_memory id answer ≡ some m
    → tool (name ∷ key ∷ decimal n ∷ []) id answer ≡ returns 0 (some (pos n))
unfolding tool store
tool-decimal name key n id m answer l h e =
    let w = HasWidth-pow 12 n l h in
    let thirteen = length-decimal 12 n w (omega arith) in
    rw (e, tool) (rw (thirteen, store) (rw (stol-decimal 12 n w (omega arith) (omega arith)) refl))
