-- ===== src/Thread/Race.antt =====
-- `Start` of ARST_QUOTE/ARSTCommon/ARSTThread.cpp sets `m_nRunning` behind `pthread_create`, beside a
-- thread whose loop runs while `IsTerminated()` holds, as that of ARST_QUOTE/ARSTWebConn.cpp.
use cta_alristrol_gallardo_v.Base.{◌≡◌, refl, ◌≢◌, Bool, true, false, arith}

-- Where the caller of `Start` stands: before `pthread_create`, before the assignment, or behind it.
pub data CallerAt : Type 0 where
  before_create before_set behind : CallerAt

-- Where the new thread stands: not there, before its loop, at the test of the loop, in its body, or
-- at its end.
pub data ThreadAt : Type 0 where
  absent preparing testing looping over : ThreadAt

pub record Pair : Type 0 where
  pub caller : CallerAt
  pub thread : ThreadAt
  pub running : Bool

pub data Step (s : Pair) : Pair → Type 0 where
  creates : s.caller ≡ before_create → Step s (record s { caller = before_set; thread = preparing })
  sets : s.caller ≡ before_set → Step s (record s { caller = behind; running = true })
  prepares : s.thread ≡ preparing → Step s (record s { thread = testing })
  finds_running : s.thread ≡ testing → s.running ≡ true → Step s (record s { thread = looping })
  finds_not_running : s.thread ≡ testing → s.running ≡ false → Step s (record s { thread = over })
  loops : s.thread ≡ looping → Step s (record s { thread = testing })

pub data Reach (s : Pair) : Pair → Type 0 where
  here : Reach s s
  next : {t u : Pair} → Reach s t → Step t u → Reach s u

abbrev pub first : Pair
first = record { caller = before_create; thread = absent; running = false }

IsRunning : Pair → Type 0
IsRunning s = (s.running ≡ true) × (s.thread ≢ over)

Step-IsRunning : {s t : Pair} → IsRunning s → Step s t → IsRunning t
unfolding IsRunning
Step-IsRunning h (creates a) = (h.0, ground arith)
Step-IsRunning h (sets a) = (refl, h.1)
Step-IsRunning h (prepares a) = (h.0, ground arith)
Step-IsRunning h (finds_running a b) = (h.0, ground arith)
Step-IsRunning h (finds_not_running a b) = ground (arith, h.0, b)
Step-IsRunning h (loops a) = (h.0, ground arith)

Reach-IsRunning : {s t : Pair} → IsRunning s → Reach s t → IsRunning t
Reach-IsRunning h here = h
Reach-IsRunning h (next q st) = Step-IsRunning (Reach-IsRunning h q) st

-- When the thread is not over at the moment of the assignment, it is never over, since nothing
-- resets the flag.
pub running-stays : (s t : Pair) → s.running ≡ true → s.thread ≢ over → Reach s t → t.thread ≢ over
unfolding IsRunning
running-stays s t r n q = (Reach-IsRunning (r, n) q).1

-- Before the caller's call there is no thread, and behind its assignment the flag is set.
IsPlaced : Pair → Type 0
IsPlaced s = (s.caller ≡ before_create → s.thread ≡ absent) × (s.caller ≡ behind → s.running ≡ true)

Step-IsPlaced : {s t : Pair} → IsPlaced s → Step s t → IsPlaced t
unfolding IsPlaced
Step-IsPlaced h (creates a) = (λ e. ground arith, λ e. ground arith)
Step-IsPlaced h (sets a) = (λ e. ground arith, λ e. refl)
Step-IsPlaced h (prepares a) = (λ e. ground (arith, h.0 e), h.1)
Step-IsPlaced h (finds_running a b) = (λ e. ground (arith, h.0 e), h.1)
Step-IsPlaced h (finds_not_running a b) = (λ e. ground (arith, h.0 e), h.1)
Step-IsPlaced h (loops a) = (λ e. ground (arith, h.0 e), h.1)

Reach-IsPlaced : {s t : Pair} → IsPlaced s → Reach s t → IsPlaced t
Reach-IsPlaced h here = h
Reach-IsPlaced h (next q st) = Step-IsPlaced (Reach-IsPlaced h q) st

-- The test of the loop fails only between the creation of the thread and the assignment, which
-- `Start` leaves open.
pub finds_not_running-before_set :
    (s : Pair) → Reach first s → s.thread ≡ testing → s.running ≡ false → s.caller ≡ before_set
unfolding IsPlaced
finds_not_running-before_set s q e r =
    let h : IsPlaced s = Reach-IsPlaced (λ e. refl, λ e. ground arith) q in
    caller_of s.caller refl h
  where
    caller_of : (a : CallerAt) → s.caller ≡ a → IsPlaced s → s.caller ≡ before_set
    caller_of before_create c h = ground (arith, h.0 c)
    caller_of before_set c h = c
    caller_of behind c h = ground (arith, h.1 c)
