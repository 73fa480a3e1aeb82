-- ===== src/QueueDao/Ending.antt =====
-- The loops of `ARSTQueueDAO::Run` of ARST_QUOTE/ARSTQueueNode.cpp end, in whatever state.
use cta_alristrol_gallardo_v.Base.{
  ℕ, ◌+◌, ◌≡◌, refl, ◌≢◌, Option, none, some, List, [], ◌++◌, arith, length, replicate, ℤ, pos,
  negsuc,
}
use cta_alristrol_gallardo_v.Queue.{get_message, Received, bufsize}
use cta_alristrol_gallardo_v.Queue.Buffer.{c_string-overwrite}
use cta_alristrol_gallardo_v.Client.Sending.{IsSend}
use cta_alristrol_gallardo_v.Clients.{Slot}
use cta_alristrol_gallardo_v.Text.{c_string}
use cta_alristrol_gallardo_v.QueueDao.{
  exits, Dao, round, act, handle, stale, fresh, out_of_fuel, key_of, tokens,
}
use cta_alristrol_gallardo_v.QueueDao.Window.{trim-drops}
use cta_alristrol_gallardo_v.QueueDao.Cast.{broadcast-AllServed}

module _ {Net : Type 0} (send : ℤ → List ℕ → Net → ℤ × Net) (d : Dao) (slots : List Slot)
    (net : Net) where
  stale-ne-out_of_fuel : stale send d slots net ≢ out_of_fuel
  unfolding stale
  stale-ne-out_of_fuel =
      rw (trim-drops (length d.queue_local + 1) d.queue_local (omega arith), stale) (λ e. cc)

  fresh-ne-out_of_fuel :
      (key text : List ℕ) → IsSend send → fresh send d key text slots net ≢ out_of_fuel
  unfolding fresh
  fresh-ne-out_of_fuel key text b =
      let (slots', net', e, _) = broadcast-AllServed send slots (d.recv_buf ++ text) net b in
      ground (arith, e)

  handle-ne-out_of_fuel : (text : List ℕ) → IsSend send → handle send d text slots net ≢ out_of_fuel
  unfolding handle
  handle-ne-out_of_fuel text b = ground (
    arith,
    stale-ne-out_of_fuel,
    fresh-ne-out_of_fuel (d.hash_string ++ key_of (tokens text)) text b,
  )

  act-ne-out_of_fuel :
      (n : ℤ) (text : Option (List ℕ)) → IsSend send → act send d slots net n text ≢ out_of_fuel
  unfolding act
  act-ne-out_of_fuel n none b = λ e. cc
  act-ne-out_of_fuel (negsuc k) (some text) b = λ e. cc
  act-ne-out_of_fuel (pos k) (some text) b = ground (arith, handle-ne-out_of_fuel text b)

  -- Whatever the state, the clients and the result of the queue: a round ends, in one of the ways of
  -- the program. It is assumed of `send` that it takes at most the bytes offered.
  pub round_returns : (r : Received) → IsSend send → round send d slots net r ≢ out_of_fuel
  unfolding round
  round_returns r b =
      let (n, buf) = get_message r (replicate bufsize 0) in act-ne-out_of_fuel n (c_string buf) b

  -- A failed `msgrcv` ends the program.
  pub round-failed : (r : Received) → r.result ≡ negsuc 0 → round send d slots net r ≡ exits
  unfolding round act get_message
  round-failed r e = rw (e, round) (rw (c_string-overwrite [] bufsize (omega arith) tt, act) refl)
