-- ===== src/Thread.antt =====
-- ARST_QUOTE/ARSTCommon/ARSTThread.cpp and .h: the thread that the other classes inherit from
-- (`ARSTThread`), and the counts of threads in `g_MNTRMSG`.
pub mod Peak
pub mod Race
pub mod Joined
use cta_alristrol_gallardo_v.Base.{
  ℕ, ◌+◌, ◌-◌, Bool, true, false, not, ◌&&◌, List, [], ◌∷◌, ◌++◌, ltb, if◌then◌else◌, ℤ, pos,
  negsuc, eq_ℤ,
}

-- The calls of pthreads that a thread object makes.
pub data Call : Type 0 where
  creates joins detaches cancels : Call

-- `m_nRunning` and `m_nDetached`, which are 0 or 1, and the calls so far.
pub record Thread : Type 0 where
  pub running : Bool
  pub detached : Bool
  pub calls : List Call

-- The thread counts of `MNTRMSGS`.
pub record Counts : Type 0 where
  pub current : ℕ
  pub most : ℕ

unfoldable pub new_thread : Thread
new_thread = record { running = false; detached = false; calls = [] }

-- The constructor's part of the counts.
unfoldable pub count_new : Counts → Counts
count_new c =
    let n = c.current + 1 in record { current = n; most = if ltb c.most n then n else c.most }

-- The destructor's: an object was counted when it was made, so the count is not 0.
unfoldable pub count_destroyed : Counts → Counts
count_destroyed c = record c { current = c.current - 1 }

called : Thread → Call → Thread
called t c = record t { calls = t.calls ++ c ∷ [] }

-- `Start`, `Join` and `Detach`, on the result of the call that they make.
unfoldable pub start : Thread → ℤ → Thread × ℤ
unfolding called
start t r =
    let t' = called t creates in (if eq_ℤ r (pos 0) then record t' { running = true } else t', r)

unfoldable pub join : Thread → ℤ → Thread × ℤ
unfolding called
join t r =
    let t' = called t joins in
    if t.running
    then (if eq_ℤ r (pos 0) then record t' { detached = false } else t', r)
    else (t, negsuc 0)

unfoldable pub detach : Thread → ℤ → Thread × ℤ
unfolding called
detach t r =
    let t' = called t detaches in
    if t.running && not t.detached
    then (if eq_ℤ r (pos 0) then record t' { detached = true } else t', r)
    else (t, negsuc 0)

-- The destructor's calls.
unfoldable pub destroy : Thread → Thread
unfolding called
destroy t =
    let t' = if t.running && not t.detached then called t detaches else t in
    if t.running then called t' cancels else t'

-- `IsTerminated`, which tells whether the thread was started.
unfoldable pub is_terminated : Thread → Bool
is_terminated t = t.running
