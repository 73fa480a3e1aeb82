-- ===== src/Queue.antt =====
-- ARST_QUOTE/ARSTCommon/ARSTQueue.cpp: a System V message queue (`ARSTQueue`). The calls of the
-- kernel are a record of functions over its state.
pub mod Buffer
pub mod Fifo
use cta_alristrol_gallardo_v.Base.{
  ℕ, Bool, Option, none, some, List, [], ◌∷◌, leb, ◌==◌, if◌then◌else◌, take, replicate, ℤ, pos,
  negsuc, eq_ℤ,
}

abbrev pub bufsize : ℕ
bufsize = 1500

-- `memcpy` to the front of a buffer.
unfoldable pub overwrite : List ℕ → List ℕ → List ℕ
overwrite [] buf = buf
overwrite (b ∷ bs) [] = []
overwrite (b ∷ bs) (x ∷ xs) = b ∷ overwrite bs xs

-- What `msgrcv` returned, and the bytes that it left in `uncaMessageBuf`.
pub record Received : Type 0 where
  pub result : ℤ
  pub bytes : List ℕ

-- `GetMessage`: a buffer takes the message if there is one.
unfoldable pub get_message : Received → List ℕ → ℤ × List ℕ
unfolding overwrite
get_message r buf = elim r.result [
  | pos n ↦ (pos n, if n == 0 then buf else overwrite (take n r.bytes) buf)
  | negsuc n ↦ (negsuc n, buf)
]

-- The kernel's calls: `msgget key`, `msgsnd id type bytes flag`, `msgrcv id size type flag` and the
-- removal by `msgctl id`.
pub record Ipc (K : Type 0) : Type 0 where
  pub msgget : ℤ → K → ℤ × K
  pub msgsnd : ℤ → ℕ → List ℕ → ℕ → K → ℤ × K
  pub msgrcv : ℤ → ℕ → ℕ → ℕ → K → Received × K
  pub msgctl_rmid : ℤ → K → ℤ × K

-- `m_nID` and the buffer of `m_QueueMessage`, with the type of the message.
pub record Queue : Type 0 where
  pub id : ℤ
  pub message_type : ℕ
  pub message_buf : List ℕ

unfoldable pub new_queue : Queue
new_queue = record { id = pos 0; message_type = 0; message_buf = replicate bufsize 0 }

abbrev is_minus_one : ℤ → Bool
is_minus_one r = eq_ℤ r (negsuc 0)

module _ {K : Type 0} (ipc : Ipc K) where
  unfoldable pub create : Queue → ℤ → K → ℤ × Queue × K
  create q key k =
      let (r, k') = ipc.msgget key k in
      (if is_minus_one r then negsuc 0 else pos 0, record q { id = r }, k')

  -- `SendMessage` of the first `size` bytes of a buffer; `none` if they do not fit into the
  -- message, where `memcpy` would write behind it.
  unfoldable pub send_message : Queue → List ℕ → ℕ → ℕ → ℕ → K → Option (ℤ × Queue × K)
  unfolding overwrite
  send_message q buf size type flag k =
      let q' = record q {
        message_type = type;
        message_buf = overwrite (take size buf) (replicate bufsize 0);
      } in
      let (r, k') = ipc.msgsnd q.id type (take size q'.message_buf) flag k in
      if leb size bufsize then some (r, q', k') else none

  unfoldable pub remove : Queue → K → ℤ × K
  remove q k =
      let (r, k') = ipc.msgctl_rmid q.id k in (if is_minus_one r then negsuc 0 else pos 0, k')
