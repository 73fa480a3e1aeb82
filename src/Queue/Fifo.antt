-- ===== src/Queue/Fifo.antt =====
-- What ARST_QUOTE/ARSTCommon/ARSTQueue.cpp relies on of the kernel's message queues, and that a queue
-- then gives what it was sent.
use cta_alristrol_gallardo_v.Base.{
  ℕ, zero, suc, ◌-◌, ◌≤◌, ◌≡◌, refl, ap, ap₂, ◌∙◌, List, [], ◌∷◌, ◌++◌, map, arith, length, take,
  replicate, All, take-le, ℤ, pos, take-append,
}
use cta_alristrol_gallardo_v.Queue.{Queue, Ipc, Received, overwrite, bufsize}
use cta_alristrol_gallardo_v.Queue.Buffer.{message, overwrite-zeros}

module _ {K : Type 0} (ipc : Ipc K) where
  -- Documented of System V queues: a message that was accepted stands behind those that a queue
  -- holds; a read of any type takes the first, whole if there is room for it.
  pub record IsFifo (held : ℤ → K → List (List ℕ)) : Type 0 where
    pub sends :
        (id : ℤ) (type : ℕ) (bytes : List ℕ) (flag : ℕ) (k : K)
        → (ipc.msgsnd id type bytes flag k).0 ≡ pos 0
        → held id (ipc.msgsnd id type bytes flag k).1 ≡ held id k ++ bytes ∷ []
    pub receives :
        (id : ℤ) (size flag : ℕ) (k : K) (bytes : List ℕ) (rest : List (List ℕ))
        → held id k ≡ bytes ∷ rest
        → length bytes ≤ size
        → ((ipc.msgrcv id size 0 flag k).0 ≡ message bytes)
          × (held id (ipc.msgrcv id size 0 flag k).1 ≡ rest)

  -- A kernel that accepts every message: a send with no flag waits for room.
  abbrev pub Accepts : Type 0
  Accepts = (id : ℤ) (type : ℕ) (bytes : List ℕ) (k : K) → (ipc.msgsnd id type bytes 0 k).0 ≡ pos 0

  -- What `GetMessage` is given in so many calls.
  pub drain : ℕ → Queue → K → List Received × K
  drain zero q k = ([], k)
  drain (suc n) q k =
      let (r, k') = ipc.msgrcv q.id bufsize 0 0 k in let (rs, k'') = drain n q k' in (r ∷ rs, k'')

  pub drain-message :
      {held : ℤ → K → List (List ℕ)} (q : Queue) (texts : List (List ℕ)) (k : K)
      → IsFifo held
      → held q.id k ≡ texts
      → All (λ t. length t ≤ bufsize) texts
      → (drain (length texts) q k).0 ≡ map message texts
  unfolding drain
  drain-message q [] k f h l = refl
  drain-message q (t ∷ ts) k f h l =
      let (r, h') = f.receives q.id bufsize 0 k t ts h l.0 in
      ap₂ (λ m ms. m ∷ ms) r (drain-message q ts (ipc.msgrcv q.id bufsize 0 0 k).1 f h' l.1)

  -- The whole of a text that fits is sent as it is.
  pub sent_bytes :
      (text : List ℕ)
      → length text ≤ bufsize
      → take (length text) (overwrite (take (length text) text) (replicate bufsize 0)) ≡ text
  sent_bytes text l =
      ap (λ t. take (length text) (overwrite t (replicate bufsize 0)))
        (take-le (length text) text (omega arith))
      ∙ ap (take (length text)) (overwrite-zeros text (bufsize - length text) bufsize (omega arith))
      ∙ take-append (length text) text (replicate (bufsize - length text) 0) refl
