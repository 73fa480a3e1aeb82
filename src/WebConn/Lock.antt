-- ===== src/WebConn/Lock.antt =====
-- The status lock of ARST_QUOTE/ARSTWebConn.cpp: the thread of `ARSTServer::Run`, which holds it
-- while it reads a line, beside the thread of the heartbeat, whose `OnHeartbeatLost` calls
-- `SetStatus` and needs it. One step is one section that the lock or a system call delimits.
use cta_alristrol_gallardo_v.Base.{◌≡◌, refl, ◌∙◌, true, arith}
use cta_alristrol_gallardo_v.WebConn.{ServerStatus, ss_breakdown, is_serving}

pub data Holder : Type 0 where
  nobody reader : Holder

-- Where the reading thread stands: before the lock, in `RecvAll` with the lock, behind a failed
-- read, or in its last sleep.
pub data ReaderAt : Type 0 where
  unlocked receiving failed asleep : ReaderAt

-- Where the heartbeat's thread stands: at its waits, in `OnHeartbeatLost` before the lock, or at
-- its end.
pub data BeatAt : Type 0 where
  watching reporting over : BeatAt

pub record Shared : Type 0 where
  pub status : ServerStatus
  pub holder : Holder
  pub reader_at : ReaderAt
  pub beat_at : BeatAt

-- The steps of the two threads by themselves. `SetStatus` takes the lock, writes, and gives it back.
pub data Own (s : Shared) : Shared → Type 0 where
  locks :
      s.reader_at ≡ unlocked
      → is_serving s.status ≡ true
      → s.holder ≡ nobody
      → Own s (record s { holder = reader; reader_at = receiving })
  breaks :
      s.reader_at ≡ failed
      → s.holder ≡ nobody
      → Own s (record s { status = ss_breakdown; reader_at = asleep })
  gives_up : s.beat_at ≡ watching → Own s (record s { beat_at = reporting })
  reports :
      s.beat_at ≡ reporting
      → s.holder ≡ nobody
      → Own s (record s { status = ss_breakdown; beat_at = over })

-- The steps that wait for the network: a byte inside the line, the line's end, and a failed read.
pub data FromNetwork (s : Shared) : Shared → Type 0 where
  byte : s.reader_at ≡ receiving → FromNetwork s s
  line :
      s.reader_at ≡ receiving → FromNetwork s (record s { holder = nobody; reader_at = unlocked })
  failure :
      s.reader_at ≡ receiving → FromNetwork s (record s { holder = nobody; reader_at = failed })

pub data Reach (s : Shared) : Shared → Type 0 where
  here : Reach s s
  own : {t u : Shared} → Reach s t → Own t u → Reach s u
  network : {t u : Shared} → Reach s t → FromNetwork t u → Reach s u

-- The steps of the threads alone, while the network is silent.
pub data Quiet (s : Shared) : Shared → Type 0 where
  still : Quiet s s
  move : {t u : Shared} → Quiet s t → Own t u → Quiet s u

-- The reading thread has the lock exactly while it receives, and in its sleep the server is broken
-- down.
pub record IsSound (s : Shared) : Type 0 where
  pub held : s.reader_at ≡ receiving → s.holder ≡ reader
  pub receives : s.holder ≡ reader → s.reader_at ≡ receiving
  pub sleeps : s.reader_at ≡ asleep → s.status ≡ ss_breakdown

abbrev pub start : ServerStatus → Shared
start st = record { status = st; holder = nobody; reader_at = unlocked; beat_at = watching }

Own-IsSound : {s t : Shared} → IsSound s → Own s t → IsSound t
Own-IsSound v (locks a b c) = ground arith
Own-IsSound v (breaks a b) = ground arith
Own-IsSound v (gives_up a) = ground arith
Own-IsSound v (reports a b) = ground arith

FromNetwork-IsSound : {s t : Shared} → IsSound s → FromNetwork s t → IsSound t
FromNetwork-IsSound v (byte a) = v
FromNetwork-IsSound v (line a) = ground arith
FromNetwork-IsSound v (failure a) = ground arith

pub Reach-IsSound : {s t : Shared} → IsSound s → Reach s t → IsSound t
Reach-IsSound v here = v
Reach-IsSound v (own r st) = Own-IsSound (Reach-IsSound v r) st
Reach-IsSound v (network r st) = FromNetwork-IsSound (Reach-IsSound v r) st

Own-receiving :
    {s t : Shared}
    → s.reader_at ≡ receiving
    → s.holder ≡ reader
    → Own s t
    → (t.reader_at ≡ receiving) × (t.holder ≡ reader) × (t.status ≡ s.status)
Own-receiving p q (locks a b c) = ground arith
Own-receiving p q (breaks a b) = ground arith
Own-receiving p q (gives_up a) = ground arith
Own-receiving p q (reports a b) = ground arith

Quiet-receiving :
    {s t : Shared}
    → s.reader_at ≡ receiving
    → s.holder ≡ reader
    → Quiet s t
    → (t.reader_at ≡ receiving) × (t.holder ≡ reader) × (t.status ≡ s.status)
Quiet-receiving p q still = (p, q, refl)
Quiet-receiving p q (move r st) =
    let (a, b, c) = Quiet-receiving p q r in
    let (a', b', c') = Own-receiving a b st in (a', b', c' ∙ c)

-- From the start of both threads, in every reachable state in which the reading thread waits for
-- the network: while the network stays silent, whatever the threads do, the status does not
-- change. In particular a heartbeat that gives up cannot mark the connection as broken down.
pub silent_status :
    (st : ServerStatus) (s t : Shared)
    → Reach (start st) s
    → s.reader_at ≡ receiving
    → Quiet s t
    → (t.status ≡ s.status) × (t.reader_at ≡ receiving)
silent_status st s t r p q =
    let v : IsSound s =
      Reach-IsSound (record { held = λ e. cc; receives = λ e. cc; sleeps = λ e. cc }) r in
    let (a, b, c) = Quiet-receiving p (v.held p) q in (c, a)
