-- ===== src/Clients/Walk.antt =====
-- The loop of `ARSTQueueDAO::Run` over `m_vClient` (ARST_QUOTE/ARSTQueueNode.cpp) beside the sweep of
-- `ARSTClients::CheckClientVector` (ARST_QUOTE/ARSTServer.cpp), as a step relation: the loop holds an
-- iterator and takes no lock. What the acceptor does to the vector is left out. A `SendAll`
-- succeeds, or fails and marks the client offline, as it does where `send` takes at most the bytes
-- offered.
pub mod Kept
pub mod Lost
use cta_alristrol_gallardo_v.Base.{
  ℕ, ◌+◌, ◌≡◌, Bool, true, false, ◌||◌, some, List, [], ◌∷◌, ltb, ◌==◌, if◌then◌else◌, length,
  get_elem?, set,
}
use cta_alristrol_gallardo_v.Client.{set_status, cs_offline, trigger_get_reply_event}
use cta_alristrol_gallardo_v.Clients.{Slot, is_dead, erase}

-- Where the loop stands: with its iterator at an index; there, behind a `SendAll` that has marked the
-- client offline; with an iterator that `erase` has made invalid; and at its end.
pub data Place : Type 0 where
  on failed : ℕ → Place
  lost done : Place

pub record Walk : Type 0 where
  pub slots : List Slot
  pub at : Place

-- `erase` at an index makes the iterators from there on invalid.
abbrev pub erased_at : ℕ → Place → Place
erased_at i (on j) = if ltb j i then on j else lost
erased_at i (failed j) = if ltb j i then failed j else lost
erased_at i lost = lost
erased_at i done = done

abbrev pub replied : Slot → Slot
replied s = record s { client = trigger_get_reply_event s.client }

abbrev pub offline : Slot → Slot
offline s = record s { client = set_status s.client cs_offline }

pub data Step (w : Walk) : Walk → Type 0 where
  passes :
      {j : ℕ} {s : Slot}
      → w.at ≡ on j
      → get_elem? w.slots j ≡ some s
      → is_dead s ≡ true
      → Step w (record w { at = on (j + 1) })
  sends :
      {j : ℕ} {s : Slot}
      → w.at ≡ on j
      → get_elem? w.slots j ≡ some s
      → is_dead s ≡ false
      → Step w (record { slots = set w.slots j (replied s); at = on (j + 1) })
  fails :
      {j : ℕ} {s : Slot}
      → w.at ≡ on j
      → get_elem? w.slots j ≡ some s
      → is_dead s ≡ false
      → Step w (record { slots = set w.slots j (offline s); at = failed j })
  advances : {j : ℕ} → w.at ≡ failed j → Step w (record w { at = on (j + 1) })
  ends : w.at ≡ on (length w.slots) → Step w (record w { at = done })
  sweeps :
      (i : ℕ) {s : Slot}
      → get_elem? w.slots i ≡ some s
      → is_dead s ≡ true
      → Step w (record { slots = erase w.slots i; at = erased_at i w.at })

pub data Reach (w : Walk) : Walk → Type 0 where
  here : Reach w w
  next : {v u : Walk} → Reach w v → Step v u → Reach w u

abbrev pub begun : List Slot → Walk
begun slots = record { slots = slots; at = on 0 }

-- Some client is held by nobody but the vector.
unfoldable pub alone : List Slot → Bool
alone [] = false
alone (s ∷ ss) = (s.use_count == 1) || alone ss
