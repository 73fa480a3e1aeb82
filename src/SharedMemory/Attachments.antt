-- ===== src/SharedMemory/Attachments.antt =====
-- What a segment of ARST_SHRMEM/ARSTSharedMemory.cpp attaches it detaches.
use cta_alristrol_gallardo_v.Base.{
  ℕ, ◌≡◌, Option, none, some, List, [], ◌∷◌, ◌++◌, append-nil, arith, ℤ,
}
use cta_alristrol_gallardo_v.SharedMemory.{
  SharedMemory, attach, detach, remove, new_shared_memory, destroy,
}

-- One use of a segment.
pub data Use : Type 0 where
  attaches : Option ℕ → Use
  detaches removes : Use

use_once : SharedMemory → Use → SharedMemory
unfolding attach detach remove
use_once m (attaches answer) = (attach m answer).0
use_once m detaches = detach m
use_once m removes = remove m

pub use_all : SharedMemory → List Use → SharedMemory
unfolding use_once
use_all m [] = m
use_all m (u ∷ us) = use_all (use_once m u) us

abbrev held : Option ℕ → List ℕ
held none = []
held (some p) = p ∷ []

-- What was attached was detached since, but for what is held.
abbrev IsBalanced : SharedMemory → Type 0
IsBalanced m = m.attached ≡ m.detached ++ held m.ptr

attach-IsBalanced :
    (m : SharedMemory) (answer : Option ℕ) → IsBalanced m → IsBalanced (attach m answer).0
unfolding attach
attach-IsBalanced m answer b = ground (arith, append-nil m.detached)

detach-IsBalanced : (m : SharedMemory) → IsBalanced m → IsBalanced (detach m)
unfolding detach
detach-IsBalanced m b = ground (arith, append-nil m.detached, append-nil (m.detached ++ held m.ptr))

use_all-IsBalanced : (us : List Use) (m : SharedMemory) → IsBalanced m → IsBalanced (use_all m us)
unfolding use_all use_once remove
use_all-IsBalanced [] m b = b
use_all-IsBalanced (attaches a ∷ us) m b = use_all-IsBalanced us _ (attach-IsBalanced m a b)
use_all-IsBalanced (detaches ∷ us) m b = use_all-IsBalanced us _ (detach-IsBalanced m b)
use_all-IsBalanced (removes ∷ us) m b = use_all-IsBalanced us _ b

new_shared_memory-IsBalanced :
    (id : ℤ) (answer : Option ℕ) (m : SharedMemory)
    → new_shared_memory id answer ≡ some m
    → IsBalanced m
unfolding new_shared_memory attach
new_shared_memory-IsBalanced id answer m e = ground arith

destroyed : (m : SharedMemory) → IsBalanced m → (destroy m).attached ≡ (destroy m).detached
unfolding destroy detach
destroyed m b = ground (arith, append-nil m.detached)

-- A segment that was made, was attached, detached and removed in any way, whatever the system
-- answered, and was destroyed: each address at which it was attached was detached once, in the
-- same order, and no other.
pub destroy-detaches :
    (id : ℤ) (answer : Option ℕ) (m : SharedMemory) (us : List Use)
    → new_shared_memory id answer ≡ some m
    → (destroy (use_all m us)).attached ≡ (destroy (use_all m us)).detached
destroy-detaches id answer m us e =
    destroyed (use_all m us) (use_all-IsBalanced us m (new_shared_memory-IsBalanced id answer m e))
