-- ===== src/SharedMemory.antt =====
-- ARST_SHRMEM/: a segment of shared memory (`ARSTSharedMemory`), and the tool that stores a serial
-- number in one (ARSTSetTickNumber.cpp). The answers of `shmget` and `shmat` are arguments; the
-- failures of `shmdt` and `shmctl` are only logged.
pub mod Attachments
pub mod Serial
use cta_alristrol_gallardo_v.Base.{
  ℕ, ◌+◌, Bool, true, false, Option, none, some, List, [], ◌∷◌, ◌++◌, ◌==◌, if◌then◌else◌, length,
  ℤ, negsuc, eq_ℤ,
}
use cta_alristrol_gallardo_v.Text.{number, stol}

-- `ptr` is `m_ptr`. `attached` records the addresses that `shmat` gave, `detached` those that
-- `shmdt` was given, and `removals` counts the calls of `shmctl`.
pub record SharedMemory : Type 0 where
  pub shmid : ℤ
  pub ptr : Option ℕ
  pub attached : List ℕ
  pub detached : List ℕ
  pub removals : ℕ

-- `Attach`, on the answer of `shmat`, of which `none` is -1; with whether it throws.
unfoldable pub attach : SharedMemory → Option ℕ → SharedMemory × Bool
attach m answer = elim m.ptr [
  | some p ↦ (m, false)
  | none ↦ elim answer [
    | none ↦ (m, true)
    | some p ↦ (record m { ptr = some p; attached = m.attached ++ p ∷ [] }, false)
  ]
]

unfoldable pub detach : SharedMemory → SharedMemory
detach m = elim m.ptr [
  | none ↦ m
  | some p ↦ record m { ptr = none; detached = m.detached ++ p ∷ [] }
]

unfoldable pub remove : SharedMemory → SharedMemory
remove m = record m { removals = m.removals + 1 }

-- The constructor, on the answers of `shmget` and `shmat`; `none` is its exception.
unfoldable pub new_shared_memory : ℤ → Option ℕ → Option SharedMemory
unfolding attach
new_shared_memory id answer =
    if eq_ℤ id (negsuc 0)
    then none
    else let (m, throws) =
        attach (record { shmid = id; ptr = none; attached = []; detached = []; removals = 0 })
          answer in
      if throws then none else some m

-- The destructor.
unfoldable pub destroy : SharedMemory → SharedMemory
unfolding detach
destroy m = detach m

abbrev pub serial_num_key : ℕ
serial_num_key = 13

-- How the tool ends: with a status, and what it stored if it did; or by an exception.
pub data ToolEnd : Type 0 where
  returns : ℕ → (stored : Option ℤ) → ToolEnd
  terminates : ToolEnd

-- What the tool does with the serial number, once it is attached.
store : List ℕ → ToolEnd
unfolding stol
store serial =
    if length serial == serial_num_key
    then elim (stol serial) as (λ _. ToolEnd) [ number n ↦ returns 0 (some n) | _ ↦ returns 1 none ]
    else returns 1 none

-- `main`, on its arguments and the answers for the key that the first of them gives. Its second
-- `Attach` finds the pointer set.
unfoldable pub tool : (argv : List (List ℕ)) → ℤ → Option ℕ → ToolEnd
unfolding store
tool (name ∷ key ∷ serial ∷ []) id answer = elim (new_shared_memory id answer) [
  | none ↦ terminates
  | some m ↦ store serial
]
tool _ id answer = returns 1 none
