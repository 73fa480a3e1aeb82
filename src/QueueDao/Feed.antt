-- ===== src/QueueDao/Feed.antt =====
-- The loop of `ARSTQueueDAO::Run` of ARST_QUOTE/ARSTQueueNode.cpp over a whole feed: each tick is
-- sent once.
use cta_alristrol_gallardo_v.Base.{
  ℕ, ◌<◌, ◌≡◌, refl, List, [], ◌∷◌, ◌++◌, map, if◌then◌else◌, length, All, ℤ,
}
use cta_alristrol_gallardo_v.Clients.{Slot}
use cta_alristrol_gallardo_v.Queue.Buffer.{message}
use cta_alristrol_gallardo_v.Text.Digits.{NonZero}
use cta_alristrol_gallardo_v.QueueDao.{Dao, round, run, contains, went}
use cta_alristrol_gallardo_v.QueueDao.Ticks.{key}

-- A message that fits the buffer: 1 to 1499 bytes, none of them NUL.
abbrev pub IsTick : List ℕ → Type 0
IsTick text = (0 < length text) × (length text < 1500) × All NonZero text

-- The texts whose key is neither among the first ones nor that of an earlier text.
unfoldable pub firsts : List (List ℕ) → List (List ℕ) → List (List ℕ)
firsts ks [] = []
firsts ks (t ∷ ts) = if contains (key t) ks then firsts ks ts else t ∷ firsts (ks ++ key t ∷ []) ts

module _ {Net : Type 0} (send : ℤ → List ℕ → Net → ℤ × Net) where
  pub run-went :
      (d d' : Dao) (slots slots' : List Slot) (net net' : Net) (text : List ℕ)
      (texts : List (List ℕ))
      → round send d slots net (message text) ≡ went d' slots' net'
      → run send d slots net (map message (text ∷ texts))
        ≡ run send d' slots' net' (map message texts)
  unfolding run
  run-went d d' slots slots' net net' text texts e = rw (e, run) refl
