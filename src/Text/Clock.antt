-- ===== src/Text/Clock.antt =====
-- The date and the time that ARST_QUOTE/ARSTServiceHandler.cpp and ARST_QUOTE/ARSTWebConns.cpp print
-- into the texts of their heartbeats.
use cta_alristrol_gallardo_v.Base.{ℕ, ◌+◌, ◌<◌, ◌≡◌, List, ◌++◌, arith, length, length-append}
use cta_alristrol_gallardo_v.Text.{decimal, decimal2}
use cta_alristrol_gallardo_v.Text.Digits.{HasWidth, length-decimal, length-decimal2}

-- The fields of `struct tm` that are printed.
pub record Clock : Type 0 where
  pub tm_year : ℕ
  pub tm_mon : ℕ
  pub tm_mday : ℕ
  pub tm_hour : ℕ
  pub tm_min : ℕ
  pub tm_sec : ℕ

abbrev pub date_text : Clock → List ℕ
date_text t = decimal (t.tm_year + 1900) ++ (decimal2 (t.tm_mon + 1) ++ decimal2 t.tm_mday)

abbrev pub time_text : Clock → List ℕ
time_text t = decimal2 t.tm_hour ++ (decimal2 t.tm_min ++ decimal2 t.tm_sec)

-- A date and a time as `localtime` gives them, of a year of four digits.
pub record IsClock (t : Clock) : Type 0 where
  pub year : t.tm_year < 8100
  pub mon : t.tm_mon < 12
  pub mday : t.tm_mday < 32
  pub hour : t.tm_hour < 24
  pub min : t.tm_min < 60
  pub sec : t.tm_sec < 61

pub length-date_text : (t : Clock) → IsClock t → length (date_text t) ≡ 8
length-date_text t v = omega (
  arith,
  length-append (decimal (t.tm_year + 1900)) (decimal2 (t.tm_mon + 1) ++ decimal2 t.tm_mday),
  length-append (decimal2 (t.tm_mon + 1)) (decimal2 t.tm_mday),
  length-decimal 3 (t.tm_year + 1900) four (omega arith),
  length-decimal2 (t.tm_mon + 1) (omega (arith, v.mon)),
  length-decimal2 t.tm_mday (omega (arith, v.mday)),
)
  where
    four : HasWidth 3 (t.tm_year + 1900)
    four = (omega arith, (omega arith, (omega arith, omega (arith, v.year))))

pub length-time_text : (t : Clock) → IsClock t → length (time_text t) ≡ 6
length-time_text t v = omega (
  arith,
  length-append (decimal2 t.tm_hour) (decimal2 t.tm_min ++ decimal2 t.tm_sec),
  length-append (decimal2 t.tm_min) (decimal2 t.tm_sec),
  length-decimal2 t.tm_hour (omega (arith, v.hour)),
  length-decimal2 t.tm_min (omega (arith, v.min)),
  length-decimal2 t.tm_sec (omega (arith, v.sec)),
)
