-- ===== src/Client/Running.antt =====
-- The thread of a client in ARST_QUOTE/ARSTServiceHandler.cpp (`ARSTClient::Run`).
use cta_alristrol_gallardo_v.Base.{
  ℕ, ◌+◌, Bool, true, false, List, [], ◌∷◌, if◌then◌else◌, ◌≡◌, arith, refl,
}
use cta_alristrol_gallardo_v.Client.{Client, is_offline}

-- `RecvAll` receives nothing.
unfoldable pub recv_all : Client → Bool
recv_all c = false

-- What the other threads make of the status while the thread sleeps.
abbrev pub Changes : Type 0
Changes = List (Client → Client)

-- The loop of `Run` over the changes between its turns: the client, how many lines "Client received"
-- were printed, and whether the thread has ended. At the end of the changes it sleeps.
unfoldable pub run : Client → Changes → Client × ℕ × Bool
unfolding recv_all
run c [] = (c, 0, is_offline c.status)
run c (f ∷ fs) =
    let (c', n, ended) = run (f c) fs in
    if is_offline c.status then (c, 0, true) else (c', if recv_all c then n + 1 else n, ended)

-- The thread prints nothing.
pub run-silent : (c : Client) (fs : Changes) → (run c fs).1 ≡ 0
unfolding run recv_all
run-silent c [] = refl
run-silent c (f ∷ fs) = let rest = run-silent (f c) fs in ground (arith, rest)
