-- ===== src/ServerMemory.antt =====
-- ARST_QUOTE/ARSTCommon/ARSTSharedMemory.cpp and .h: the server's class of shared memory, which is
-- another than the tool's. `DetachSharedMemory` and `RemoveSharedMemory` have no `return`: what is
-- here is the state that their statements leave, and no result.
use cta_alristrol_gallardo_v.Base.{
  ℕ, ◌+◌, Bool, true, false, Option, none, some, List, [], ◌∷◌, ◌++◌, if◌then◌else◌, ℤ, negsuc,
  eq_ℤ,
}

-- `m_pSharedMemory`: no address, the -1 of a `shmat` that failed, or an address.
pub data Pointer : Type 0 where
  null minus_one : Pointer
  address : ℕ → Pointer

-- `detached` records what `shmdt` was given, and `removals` counts the calls of `shmctl`.
pub record Segment : Type 0 where
  pub shmid : ℤ
  pub shared_memory : Pointer
  pub is_detached : Bool
  pub detached : List Pointer
  pub removals : ℕ

-- The constructor, on the answer of `shmget`, which is only logged where it is -1.
unfoldable pub new_segment : ℤ → Segment
new_segment id = record {
  shmid = id;
  shared_memory = null;
  is_detached = false;
  detached = [];
  removals = 0;
}

-- On the answer of `shmat`, of which `none` is -1.
unfoldable pub attach_shared_memory : Segment → Option ℕ → Segment
attach_shared_memory m none = record m { shared_memory = minus_one }
attach_shared_memory m (some p) = record m { shared_memory = address p; is_detached = false }

shmdt : Segment → Segment
shmdt m = record m { detached = m.detached ++ m.shared_memory ∷ [] }

-- On the result of `shmdt`.
unfoldable pub detach_shared_memory : Segment → ℤ → Segment
unfolding shmdt
detach_shared_memory m r =
    if eq_ℤ r (negsuc 0) then shmdt m else record (shmdt m) { is_detached = true }

unfoldable pub remove_shared_memory : Segment → Segment
remove_shared_memory m = record m { removals = m.removals + 1 }

unfoldable pub get_shared_memory : Segment → Pointer
get_shared_memory m = m.shared_memory

-- The destructor.
unfoldable pub destroy_segment : Segment → Segment
unfolding shmdt
destroy_segment m = if m.is_detached then m else shmdt m
