-- ===== src/Thread/Joined.antt =====
-- What the destructor of ARST_QUOTE/ARSTCommon/ARSTThread.cpp calls.
use cta_alristrol_gallardo_v.Base.{◌≡◌, true, [], ◌∷◌, ◌++◌, append_assoc, arith, pos}
use cta_alristrol_gallardo_v.Thread.{Thread, joins, detaches, cancels, join, destroy}

-- A thread object that was started, and that then joins its thread: `Join` leaves it as started and
-- not detached, also if it was detached before. So its destructor detaches and cancels a thread
-- that has been joined, and whose number is not valid any more.
pub destroy-join :
    (t : Thread)
    → t.running ≡ true
    → (destroy (join t (pos 0)).0).calls ≡ t.calls ++ joins ∷ detaches ∷ cancels ∷ []
unfolding destroy join
destroy-join t r = ground (
  arith,
  append_assoc t.calls (joins ∷ []) (detaches ∷ []),
  append_assoc t.calls (joins ∷ detaches ∷ []) (cancels ∷ []),
)
