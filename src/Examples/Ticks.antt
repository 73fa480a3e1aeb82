-- ===== src/Examples/Ticks.antt =====
-- A tick of the feed, first new, then known.
use cta_alristrol_gallardo_v.Examples.Wires.{
  Wires, byte_send, byte_send-IsWire, on_wire, silence, three, three-Apart,
}
use cta_alristrol_gallardo_v.QueueDao.Wire.{Wired}
use cta_alristrol_gallardo_v.QueueDao.Receivers.{AllReceive}
use cta_alristrol_gallardo_v.QueueDao.Ticks.{new_dao-IsClean, IsClean, key, round_full}
use cta_alristrol_gallardo_v.Text.Digits.{NonZero}
use cta_alristrol_gallardo_v.Base.{
  map, ◌++◌, ℕ, zero, suc, ◌≡◌, refl, some, List, [], ◌∷◌, arith, replicate, All, length-replicate,
  length,
}
use cta_alristrol_gallardo_v.Clients.{Slot}
use cta_alristrol_gallardo_v.Queue.Buffer.{message}
use cta_alristrol_gallardo_v.QueueDao.{Dao, faults, new_dao, run, round, contains, tokens, key_of}
use cta_alristrol_gallardo_v.Text.{codes}
use cta_alristrol_gallardo_v.QueueDao.Keys.{Fields, IsField, listed, tick_text, run-collides}
use cta_alristrol_gallardo_v.QueueDao.Delivery.{delivered, IsFresh, run-grows}
use cta_alristrol_gallardo_v.QueueDao.Feed.{IsTick}
use cta_alristrol_gallardo_v.Examples.Sending.{slow_send, slow_send-IsSend}
use cta_alristrol_gallardo_v.Examples.Sweep.{crowd}

-- "T,a,b,5,6,": price 5, volume 6.
abbrev pub tick : List ℕ
tick = 84 ∷ 44 ∷ 97 ∷ 44 ∷ 98 ∷ 44 ∷ 53 ∷ 44 ∷ 54 ∷ 44 ∷ []

tick-key : key tick ≡ 53 ∷ 54 ∷ []
unfolding tokens key_of
tick-key = refl

abbrev seen : Dao
seen = record { hash_string = []; queue_local = (53 ∷ 54 ∷ []) ∷ []; recv_buf = []; readcount = 0 }

seen-IsClean : IsClean seen
seen-IsClean = record {
  no_hash = refl;
  no_text = refl;
  no_count = refl;
  distinct = (unfold contains in refl, tt);
}

NonZero-replicate : (n : ℕ) → All NonZero (replicate n 65)
NonZero-replicate zero = tt
NonZero-replicate (suc n) = ((λ e. absurd (omega arith)), NonZero-replicate n)

round_full_example : round slow_send new_dao crowd.slots 9 (message (replicate 1500 65)) ≡ faults
round_full_example =
    round_full slow_send new_dao crowd.slots 9 (replicate 1500 65)
      (length-replicate {A = ℕ} 1500 65) (NonZero-replicate 1500)

-- "T,a,b,5,6,x,": another message with the same key.
abbrev pub again : List ℕ
again = tick ++ 120 ∷ 44 ∷ []

pub tick_feed : All IsTick (tick ∷ again ∷ [])
tick_feed = ((omega arith, omega arith, omega arith), ((omega arith, omega arith, omega arith), tt))

-- "T,a,b,7,8,": a tick with another key.
abbrev other : List ℕ
other = 84 ∷ 44 ∷ 97 ∷ 44 ∷ 98 ∷ 44 ∷ 55 ∷ 44 ∷ 56 ∷ 44 ∷ []

other-IsFresh : IsFresh [] (tick ∷ other ∷ [])
unfolding contains tokens key_of
other-IsFresh = (refl, (refl, tt))

run-grows_example :
    (d' : Dao) × (slots' : List Slot) × (net' : ℕ) × (run slow_send new_dao crowd.slots 9
        (map message (tick ∷ other ∷ []))
      ≡ some (d', slots', net'))
    × AllReceive (tick ∷ other ∷ []) crowd.slots slots'
    × (length d'.queue_local ≡ 2)
unfolding new_dao
run-grows_example =
    run-grows slow_send (tick ∷ other ∷ []) new_dao crowd.slots 9 slow_send-IsSend new_dao-IsClean
      ((omega arith, omega arith, omega arith), ((omega arith, omega arith, omega arith), tt))
      other-IsFresh

-- The second is dropped.
again_dropped : delivered [] (tick ∷ again ∷ []) ≡ tick ∷ []
unfolding delivered contains tokens key_of
again_dropped = refl

-- "T,a,b,51,2,e,f,g,9,x" and "T,a,b,5,12,e,f,g,9,x", each with a newline: different prices and volumes, and one key.
abbrev split : List ℕ → List ℕ → Fields
split price volume = record {
  f0 = codes "T";
  f1 = codes "a";
  f2 = codes "b";
  price = price;
  volume = volume;
  f5 = codes "e";
  f6 = codes "f";
  f7 = codes "g";
  epoch = codes "9";
  rest = (120 ∷ 10 ∷ []) ∷ [];
}

abbrev dear : Fields
dear = split (codes "51") (codes "2")

abbrev cheap : Fields
cheap = split (codes "5") (codes "12")

split-IsField :
    (price volume : List ℕ)
    → IsField price
    → IsField volume
    → All IsField (listed (split price volume))
split-IsField price volume p v = (
  (omega arith, omega arith),
  (
    (omega arith, omega arith),
    (
      (omega arith, omega arith),
      (
        p,
        (
          v,
          (
            (omega arith, omega arith),
            (
              (omega arith, omega arith),
              (
                (omega arith, omega arith),
                ((omega arith, omega arith), ((omega arith, omega arith), tt)),
              ),
            ),
          ),
        ),
      ),
    ),
  ),
)

run-collides_example :
    (d' : Dao) × (slots' : List Slot) × (net' : Wires) × (run byte_send new_dao three silence
        (map message (tick_text dear ∷ tick_text cheap ∷ []))
      ≡ some (d', slots', net'))
    × (d'.queue_local ≡ codes "5129" ∷ [])
    × AllReceive (tick_text dear ∷ []) three slots'
    × Wired on_wire silence net' three slots'
run-collides_example =
    run-collides byte_send on_wire dear cheap three silence byte_send-IsWire three-Apart
      (split-IsField (codes "51") (codes "2") (omega arith, omega arith) (omega arith, omega arith))
      (split-IsField (codes "5") (codes "12") (omega arith, omega arith) (omega arith, omega arith))
      (omega arith, omega arith, omega arith) (omega arith, omega arith, omega arith) refl
