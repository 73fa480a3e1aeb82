-- ===== src/QueueDao/Ticks.antt =====
-- What `ARSTQueueDAO::Run` of ARST_QUOTE/ARSTQueueNode.cpp does with a tick that is new, one that
-- is known, and one that fills the buffer.
use cta_alristrol_gallardo_v.QueueDao.Cast.{AllServed, broadcast-AllServed}
use cta_alristrol_gallardo_v.Client.Sending.{IsSend}
use cta_alristrol_gallardo_v.Base.{
  ℕ, ◌<◌, ◌≡◌, ap₂, ◌∙◌, false, some, List, [], arith, ◌==◌, length, All, ℤ, pos, drop,
  if◌then◌else◌, leb, ◌++◌, ◌+◌, ◌*◌, ◌∷◌, ap, true, ◌≤◌, length-drop, refl,
}
use cta_alristrol_gallardo_v.Clients.{Slot}
use cta_alristrol_gallardo_v.Queue.{bufsize}
use cta_alristrol_gallardo_v.Queue.Buffer.{message, message_read}
use cta_alristrol_gallardo_v.Text.Digits.{NonZero}
use cta_alristrol_gallardo_v.QueueDao.{
  new_dao, Dao, faults, tokens, key_of, handle, act, round, fresh, stale, broadcast, went, contains,
}
use cta_alristrol_gallardo_v.QueueDao.Window.{
  IsDistinct, trim-drops, cuts, IsDistinct-drop, IsDistinct-snoc,
}

-- The state between rounds: no key, no text and no count left over, and no key held twice.
pub record IsClean (d : Dao) : Type 0 where
  pub no_hash : d.hash_string ≡ []
  pub no_text : d.recv_buf ≡ []
  pub no_count : d.readcount ≡ 0
  pub distinct : IsDistinct d.queue_local

pub new_dao-IsClean : IsClean new_dao
unfolding new_dao
new_dao-IsClean = record { no_hash = refl; no_text = refl; no_count = refl; distinct = tt }

abbrev pub key : List ℕ → List ℕ
key text = key_of (tokens text)

-- The state behind a new tick, and behind a known one.
abbrev pub kept : Dao → List ℕ → Dao
kept d text = record {
  hash_string = [];
  queue_local = d.queue_local ++ key text ∷ [];
  recv_buf = [];
  readcount = 0;
}

abbrev pub trimmed : Dao → Dao
trimmed d = record d {
  hash_string = [];
  queue_local = drop (250 * cuts (length d.queue_local)) d.queue_local;
}

module _ {Net : Type 0} (send : ℤ → List ℕ → Net → ℤ × Net) (d : Dao) (slots : List Slot)
    (net : Net) where
  act-handle :
      (text : List ℕ)
      → 0 < length text
      → act send d slots net (pos (length text)) (some text) ≡ handle send d text slots net
  unfolding act
  act-handle text p = let filled : (length text == 0) ≡ false = ground arith in rw filled

  round-handle :
      (text : List ℕ)
      → 0 < length text
      → length text < 1500
      → All NonZero text
      → round send d slots net (message text) ≡ handle send d text slots net
  unfolding round
  round-handle text p l nz =
      let (n, s, _) = message_read text bufsize p nz in
      ap₂ (act send d slots net) n (s l) ∙ act-handle text p

  -- A message of 1500 bytes with no NUL among them fills the buffer, and the copy of its string
  -- runs off the end: the round faults, whatever the state.
  pub round_full :
      (text : List ℕ)
      → length text ≡ 1500
      → All NonZero text
      → round send d slots net (message text) ≡ faults
  unfolding round act
  round_full text l nz =
      let (n, _, s) = message_read text bufsize (omega arith) nz in
      ap₂ (act send d slots net) n (s l)

  handle-key :
      (text : List ℕ)
      → IsClean d
      → handle send d text slots net ≡ (
          if contains (key text) d.queue_local
          then stale send d slots net
          else fresh send d (key text) text slots net)
  unfolding handle
  handle-key text c =
      ap
        (λ h.
          if contains (h ++ key text) d.queue_local
          then stale send d slots net
          else fresh send d (h ++ key text) text slots net)
        c.no_hash

  fresh-broadcast :
      (text : List ℕ) (slots' : List Slot) (net' : Net)
      → IsClean d
      → length text < 1500
      → broadcast send slots text net ≡ some (slots', net')
      → fresh send d (key text) text slots net ≡ went (kept d text) slots' net'
  unfolding fresh
  fresh-broadcast text slots' net' c l e =
      let fits : leb 1500 (length text) ≡ false = ground arith in
      simp (c.no_text, c.no_count, fits, e)

  stale-trimmed : stale send d slots net ≡ went (trimmed d) slots net
  unfolding stale
  stale-trimmed = rw (trim-drops (length d.queue_local + 1) d.queue_local (omega arith), stale)

  -- In a state as it is between rounds, a message of 1 to 1499 bytes, none of them NUL, whose key
  -- is not held: the round goes well, hands exactly this message to the clients, serves each of
  -- them, puts the key behind the others, and leaves the state clean again. It is assumed of `send`
  -- that it takes at most the bytes offered.
  pub round_new :
      (text : List ℕ)
      → IsSend send
      → IsClean d
      → 0 < length text
      → length text < 1500
      → All NonZero text
      → contains (key text) d.queue_local ≡ false
      → (slots' : List Slot) × (net' : Net) × (round send d slots net (message text)
          ≡ went (kept d text) slots' net')
        × AllServed send text slots slots'
        × IsClean (kept d text)
  round_new text b c p l nz n =
      let (slots', net', e, a) = broadcast-AllServed send slots text net b in
      (
        slots',
        net',
        round-handle text p l nz
            ∙ handle-key text c
            ∙ rw n (fresh-broadcast text slots' net' c l e),
        a,
        record {
          no_hash = refl;
          no_text = refl;
          no_count = refl;
          distinct = IsDistinct-snoc d.queue_local (key text) c.distinct n;
        },
      )

  -- In a clean state, a message of 1 to 1499 bytes, none of them NUL, whose key is held: the round
  -- sends nothing, touches no client and no socket, and only drops old keys, 250 at a time, until
  -- at most 750 are held. The state stays clean.
  pub round_known :
      (text : List ℕ)
      → IsClean d
      → 0 < length text
      → length text < 1500
      → All NonZero text
      → contains (key text) d.queue_local ≡ true
      → (round send d slots net (message text) ≡ went (trimmed d) slots net)
        × (length (trimmed d).queue_local ≤ 750)
        × (length d.queue_local
            ≤ length (trimmed d).queue_local + 250 * cuts (length d.queue_local))
        × IsClean (trimmed d)
  round_known text c p l nz k = (
    round-handle text p l nz ∙ handle-key text c ∙ rw k stale-trimmed,
    omega (arith, length-drop (250 * cuts (length d.queue_local)) d.queue_local),
    omega (arith, length-drop (250 * cuts (length d.queue_local)) d.queue_local),
    record {
      no_hash = refl;
      no_text = c.no_text;
      no_count = c.no_count;
      distinct = IsDistinct-drop _ d.queue_local c.distinct;
    },
  )
