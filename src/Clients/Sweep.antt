-- ===== src/Clients/Sweep.antt =====
-- `ARSTClients::CheckClientVector` of ARST_QUOTE/ARSTServer.cpp against a description that knows of
-- no index: what the sweep keeps, and which descriptors it closes.
use cta_alristrol_gallardo_v.Base.{
  ℕ, zero, suc, ◌+◌, ◌<◌, ◌≡◌, refl, sym, ap, ap₂, ◌∙◌, inl, inr, true, false, none, some, List, [],
  ◌∷◌, ◌++◌, append-nil, append_assoc, arith, if◌then◌else◌, Bool-cases, length, get_elem?,
  length-append, ℤ,
}
use cta_alristrol_gallardo_v.Clients.{
  Slot, Clients, is_dead, erase, check_loop, check_client_vector, erase_client_from_vector,
  shutdown_client,
}

-- The slots that stay, in order.
unfoldable pub survivors : List Slot → List Slot
survivors [] = []
survivors (s ∷ ss) = if is_dead s then survivors ss else s ∷ survivors ss

-- The descriptors of the dead clients, in order.
pub casualties : List Slot → List ℤ
casualties [] = []
casualties (s ∷ ss) = if is_dead s then s.client.addr.socket ∷ casualties ss else casualties ss

pub get_elem?-middle {ℓ} :
    {A : Type ℓ} (xs ys : List A) → get_elem? (xs ++ ys) (length xs) ≡ get_elem? ys 0
get_elem?-middle [] ys = refl
get_elem?-middle (x ∷ xs) ys = get_elem?-middle xs ys

pub erase-middle {ℓ} :
    {A : Type ℓ} (xs : List A) (y : A) (ys : List A) → erase (xs ++ y ∷ ys) (length xs) ≡ xs ++ ys
unfolding erase
erase-middle [] y ys = refl
erase-middle (x ∷ xs) y ys = ap (λ zs. x ∷ zs) (erase-middle xs y ys)

-- The sweep's result on a vector of which `done` has been seen.
swept : Clients → List Slot → List Slot → Clients
unfolding survivors casualties
swept cs done rest = record cs {
  slots = done ++ survivors rest;
  closed = if cs.has_server_socket then cs.closed ++ casualties rest else cs.closed;
}

module _ (fuel : ℕ) (cs : Clients) (i : ℕ) where
  loop_end : get_elem? cs.slots i ≡ none → check_loop (suc fuel) cs i ≡ some cs
  unfolding check_loop
  loop_end g = rw (g, check_loop)

  loop_dead :
      (s : Slot)
      → get_elem? cs.slots i ≡ some s
      → is_dead s ≡ true
      → check_loop (suc fuel) cs i
        ≡ check_loop fuel (erase_client_from_vector (shutdown_client cs s.client.addr.socket) i) i
  unfolding check_loop
  loop_dead s g d = rw (g, check_loop) (rw d)

  loop_live :
      (s : Slot)
      → get_elem? cs.slots i ≡ some s
      → is_dead s ≡ false
      → check_loop (suc fuel) cs i ≡ check_loop fuel cs (i + 1)
  unfolding check_loop
  loop_live s g d = rw (g, check_loop) (rw d)

at_cursor :
    (cs : Clients) (done rest : List Slot) (i : ℕ)
    → cs.slots ≡ done ++ rest
    → i ≡ length done
    → get_elem? cs.slots i ≡ get_elem? rest 0
at_cursor cs done rest i e p = ap₂ get_elem? e p ∙ get_elem?-middle done rest

erased_slots :
    (cs : Clients) (done : List Slot) (s : Slot) (rest : List Slot) (fd : ℤ) (i : ℕ)
    → cs.slots ≡ done ++ s ∷ rest
    → i ≡ length done
    → (erase_client_from_vector (shutdown_client cs fd) i).slots ≡ done ++ rest
unfolding erase_client_from_vector shutdown_client
erased_slots cs done s rest fd i e p =
    ap (λ zs. erase zs i) (same cs fd) ∙ ap₂ erase e p ∙ erase-middle done s rest
  where
    same : (cs : Clients) (fd : ℤ) → (shutdown_client cs fd).slots ≡ cs.slots
    same cs fd = ground arith

swept_eq :
    (cs : Clients) (xs ys : List Slot) (c d : List ℤ)
    → xs ≡ ys
    → c ≡ d
    → record cs { slots = xs; closed = c } ≡ record cs { slots = ys; closed = d }
swept_eq cs xs ys c d p q = cc

swept-dead :
    (cs : Clients) (done : List Slot) (s : Slot) (rest : List Slot) (i : ℕ)
    → is_dead s ≡ true
    → swept (erase_client_from_vector (shutdown_client cs s.client.addr.socket) i) done rest
      ≡ swept cs done (s ∷ rest)
unfolding swept erase_client_from_vector shutdown_client
swept-dead cs done s rest i d =
    ground (arith, append_assoc cs.closed (s.client.addr.socket ∷ []) (casualties rest))

swept-nil : (cs : Clients) (done : List Slot) → cs.slots ≡ done ++ [] → swept cs done [] ≡ cs
unfolding swept
swept-nil cs done e = ground (arith, append-nil cs.closed)

swept-live :
    (cs : Clients) (done : List Slot) (s : Slot) (rest : List Slot)
    → is_dead s ≡ false
    → swept cs (done ++ s ∷ []) rest ≡ swept cs done (s ∷ rest)
unfolding swept
swept-live cs done s rest d = rw d (swept_eq cs _ _ _ _ (append_assoc done (s ∷ []) _) refl)

loop-swept :
    (fuel : ℕ) (cs : Clients) (done rest : List Slot) (i : ℕ)
    → cs.slots ≡ done ++ rest
    → i ≡ length done
    → length rest < fuel
    → check_loop fuel cs i ≡ some (swept cs done rest)
loop-swept zero cs done rest i e p f = absurd (omega arith)
loop-swept (suc fuel) cs done [] i e p f =
    loop_end fuel cs i (at_cursor cs done [] i e p) ∙ ap some (sym (swept-nil cs done e))
loop-swept (suc fuel) cs done (s ∷ rest) i e p f = elim (Bool-cases (is_dead s)) [
  | inl dead ↦
      loop_dead fuel cs i s (at_cursor cs done (s ∷ rest) i e p) dead
      ∙ loop-swept fuel _ done rest i (erased_slots cs done s rest _ i e p) p (omega arith)
      ∙ ap some (swept-dead cs done s rest i dead)
  | inr live ↦
      loop_live fuel cs i s (at_cursor cs done (s ∷ rest) i e p) live
      ∙ loop-swept fuel cs (done ++ s ∷ []) rest (i + 1) (e ∙ sym (append_assoc done (s ∷ []) rest))
          (omega (arith, length-append done (s ∷ []))) (omega arith)
      ∙ ap some (swept-live cs done s rest live)
]

-- The sweep ends. It keeps the clients that are not both offline and solely owned, in their order;
-- with a server socket it closes the descriptors of the others, each once and in order, and
-- without one it closes none; and it changes nothing else.
pub check_client_vector-sweeps :
    (cs : Clients)
    → check_client_vector cs
      ≡ some (record cs {
        slots = survivors cs.slots;
        closed = if cs.has_server_socket then cs.closed ++ casualties cs.slots else cs.closed;
      })
unfolding check_client_vector swept
check_client_vector-sweeps cs =
    loop-swept (length cs.slots + 1) cs [] cs.slots 0 refl refl (omega arith)

-- A sweep leaves nothing for a second one.
pub survivors-survivors : (ss : List Slot) → survivors (survivors ss) ≡ survivors ss
unfolding survivors
survivors-survivors [] = refl
survivors-survivors (s ∷ ss) = ground (arith, survivors-survivors ss)
