-- ===== src/Singleton.antt =====
-- `GetInstance` of `ARSTClients` (ARST_QUOTE/ARSTServer.cpp) and of `ARSTServers`
-- (ARST_QUOTE/ARSTWebConns.cpp), which are the same but for the class: the threads that call it, each
-- once, as a step relation. A thread is a number, and so is an object, by the order of the `new`s.
-- Each read or write of `instance` is one step, seen by all threads at once.
pub mod Once
use cta_alristrol_gallardo_v.Base.{ℕ, ◌+◌, ◌≡◌, ◌≢◌, Option, none, some, ◌==◌, ltb, if◌then◌else◌}

-- Where a thread stands: it never calls, or it is before the first test, before the lock, before the second test, before the
-- `new`, before the unlock, before the last read, and behind it with what it returned.
pub data At : Type 0 where
  outside starting waiting testing making leaving reading : At
  returned : Option ℕ → At

pub record Shared : Type 0 where
  pub object : Option ℕ
  pub owner : Option ℕ
  pub made : ℕ
  pub at : ℕ → At

abbrev pub moved : (ℕ → At) → ℕ → At → ℕ → At
moved at i a j = if j == i then a else at j

-- The steps of thread `i`.
pub data Step (i : ℕ) (s : Shared) : Shared → Type 0 where
  finds_set :
      s.at i ≡ starting → s.object ≢ none → Step i s (record s { at = moved s.at i reading })
  finds_null :
      s.at i ≡ starting → s.object ≡ none → Step i s (record s { at = moved s.at i waiting })
  locks :
      s.at i ≡ waiting
      → s.owner ≡ none
      → Step i s (record s { owner = some i; at = moved s.at i testing })
  finds_set_again :
      s.at i ≡ testing → s.object ≢ none → Step i s (record s { at = moved s.at i leaving })
  finds_null_again :
      s.at i ≡ testing → s.object ≡ none → Step i s (record s { at = moved s.at i making })
  makes :
      s.at i ≡ making
      → Step i s (record s { object = some s.made; made = s.made + 1; at = moved s.at i leaving })
  unlocks : s.at i ≡ leaving → Step i s (record s { owner = none; at = moved s.at i reading })
  reads : s.at i ≡ reading → Step i s (record s { at = moved s.at i (returned s.object) })

pub data Reach (s : Shared) : Shared → Type 0 where
  here : Reach s s
  next : {t u : Shared} (i : ℕ) → Reach s t → Step i t u → Reach s u

-- Nothing is made, and so many threads are about to call.
abbrev pub start : ℕ → Shared
start callers = record {
  object = none;
  owner = none;
  made = 0;
  at = λ i. if ltb i callers then starting else outside;
}
