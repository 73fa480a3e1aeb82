-- ===== src/Heartbeat/Silence.antt =====
-- What ARST_QUOTE/ARSTHeartbeat.cpp does when no event comes: how many requests, and when it gives up.
use cta_alristrol_gallardo_v.Base.{
  ℕ, zero, suc, ◌+◌, ◌-◌, ◌*◌, ◌/◌, ◌≤◌, ◌<◌, ◌≡◌, refl, ap, ◌∙◌, inl, inr, true, false, [], ◌∷◌,
  ◌++◌, arith, ltb, Bool-cases, replicate, ltb→lt, ltb_false→le,
}
use cta_alristrol_gallardo_v.Heartbeat.{
  Heartbeat, Run, on_heartbeat_request, on_heartbeat_lost, round, run, watch, silent,
}

-- A timer that has been silent for `m` rounds.
abbrev pub idle : ℕ → ℕ → Heartbeat
idle interval m = record { time_interval = interval; idle_time = 5 * m; callback = true }

-- Requests sent within `n` silent rounds of a timer: from the first round that reaches the
-- interval on, one a round.
abbrev pub requests : ℕ → ℕ → ℕ
requests interval n = n + 1 - (interval + 4) / 5

-- The round that gives up, less one.
abbrev pub patience : ℕ → ℕ
patience interval = (interval + 10) / 5

round_early :
    (i m : ℕ)
    → 5 * suc m < i
    → round (idle i m) silent ≡ record { beat = idle i (suc m); calls = []; running = true }
unfolding round
round_early i m h = ground arith

round_asks :
    (i m : ℕ)
    → i ≤ 5 * suc m
    → 5 * suc m ≤ i + 10
    → round (idle i m) silent
      ≡ record { beat = idle i (suc m); calls = on_heartbeat_request ∷ []; running = true }
unfolding round
round_asks i m h k = ground arith

round_gives_up :
    (i m : ℕ)
    → i + 10 < 5 * suc m
    → round (idle i m) silent
      ≡ record { beat = idle i (suc m); calls = on_heartbeat_lost ∷ []; running = false }
unfolding round
round_gives_up i m h = ground arith

-- While it has patience, a silent timer runs on and has sent its requests.
patient : ℕ → ℕ → ℕ → Run
patient i m k = record { beat = idle i m; calls = replicate k on_heartbeat_request; running = true }

patient_eq : (i m k m' k' : ℕ) → m ≡ m' → k ≡ k' → patient i m k ≡ patient i m' k'
patient_eq i m k m' k' p q = cc

-- A run behind a round that sent a request.
abbrev ask : Run → Run
ask r = record r { calls = on_heartbeat_request ∷ r.calls }

ask-patient : (i m k : ℕ) → ask (patient i m k) ≡ patient i m (suc k)
unfolding patient
ask-patient i m k = refl

run-patient :
    (i m n : ℕ)
    → 0 < i
    → 5 * (m + n) ≤ i + 10
    → run (idle i m) (replicate n silent) ≡ patient i (m + n) (requests i (m + n) - requests i m)
unfolding run
run-patient i m zero p h =
    unfold patient in refl ∙ patient_eq i m 0 (m + 0) _ (omega arith) (omega arith)
run-patient i m (suc n) p h = elim (Bool-cases (ltb (5 * suc m) i)) [
  | inl early ↦ rw (round_early i m (ltb→lt _ _ early)) (
      run-patient i (suc m) n p (omega arith)
      ∙ patient_eq i _ _ _ _ (omega arith) (omega (arith, ltb→lt _ _ early)))
  | inr late ↦ rw (round_asks i m (ltb_false→le _ _ late) (omega arith)) (
      ap ask (run-patient i (suc m) n p (omega arith))
      ∙ ask-patient i _ _
      ∙ patient_eq i _ _ _ _ (omega arith) (omega (arith, ltb_false→le _ _ late)))
]

-- A timer that has given up, after `k` requests.
gone : ℕ → ℕ → Run
gone i k = record {
  beat = idle i (suc (patience i));
  calls = replicate k on_heartbeat_request ++ on_heartbeat_lost ∷ [];
  running = false;
}

ask-gone : (i k : ℕ) → ask (gone i k) ≡ gone i (suc k)
unfolding gone
ask-gone i k = refl

gone_eq : (i k k' : ℕ) → k ≡ k' → gone i k ≡ gone i k'
gone_eq i k k' p = cc

lost_eq :
    (i m k : ℕ)
    → m ≡ suc (patience i)
    → k ≡ 0
    → record { beat = idle i m; calls = on_heartbeat_lost ∷ []; running = false } ≡ gone i k
unfolding gone
lost_eq i m k e e' = rw (e, e')

run-gone :
    (i m n : ℕ)
    → 0 < i
    → 5 * m ≤ i + 10
    → i + 10 < 5 * (m + n)
    → run (idle i m) (replicate n silent) ≡ gone i (requests i (patience i) - requests i m)
unfolding run
run-gone i m zero p q h = absurd (omega arith)
run-gone i m (suc n) p q h = elim (Bool-cases (ltb (i + 10) (5 * suc m))) [
  | inl late ↦
      rw (round_gives_up i m (ltb→lt _ _ late))
        (lost_eq i _ _ (omega (arith, ltb→lt _ _ late)) (omega (arith, ltb→lt _ _ late)))
  | inr more ↦ elim (Bool-cases (ltb (5 * suc m) i)) [
    | inl early ↦ rw (round_early i m (ltb→lt _ _ early)) (
        run-gone i (suc m) n p (ltb_false→le _ _ more) (omega arith)
        ∙ gone_eq i _ _ (omega (arith, ltb→lt _ _ early)))
    | inr asks ↦ rw (round_asks i m (ltb_false→le _ _ asks) (ltb_false→le _ _ more)) (
        ap ask (run-gone i (suc m) n p (ltb_false→le _ _ more) (omega arith))
        ∙ ask-gone i _
        ∙ gone_eq i _ _ (omega (arith, ltb_false→le _ _ asks, ltb_false→le _ _ more)))
  ]
]

-- A timer with a positive interval that is silent for `n` rounds, and for no more than
-- `interval + 10` seconds, still runs, has been idle for 5 n seconds, and has called back for
-- a request in each round from the first that reached the interval on, and for nothing else.
pub silent_requests :
    (interval n : ℕ)
    → 0 < interval
    → 5 * n ≤ interval + 10
    → run (watch interval) (replicate n silent) ≡ record {
      beat = record { time_interval = interval; idle_time = 5 * n; callback = true };
      calls = replicate (n + 1 - (interval + 4) / 5) on_heartbeat_request;
      running = true;
    }
unfolding watch patient
silent_requests i n p h =
    run-patient i 0 n p (omega arith) ∙ patient_eq i _ _ n _ (omega arith) (omega arith)

-- A timer with a positive interval that is silent for longer than `interval + 10` seconds has
-- stopped. It gave up in the first round that passed this time: it has sent the requests of the
-- rounds before, then reported the loss, and done nothing since.
pub silent_lost :
    (interval n : ℕ)
    → 0 < interval
    → interval + 10 < 5 * n
    → run (watch interval) (replicate n silent) ≡ record {
      beat = record {
        time_interval = interval;
        idle_time = 5 * suc ((interval + 10) / 5);
        callback = true;
      };
      calls =
          replicate ((interval + 10) / 5 + 1 - (interval + 4) / 5) on_heartbeat_request
          ++ on_heartbeat_lost ∷ [];
      running = false;
    }
unfolding watch gone
silent_lost i n p h = run-gone i 0 n p (omega arith) (omega arith) ∙ gone_eq i _ _ (omega arith)
