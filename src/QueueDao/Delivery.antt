-- ===== src/QueueDao/Delivery.antt =====
-- The loop of `ARSTQueueDAO::Run` of ARST_QUOTE/ARSTQueueNode.cpp over a feed of any length, with the
-- window of keys that it holds.
use cta_alristrol_gallardo_v.Base.{
  subst, ℕ, ◌+◌, ◌*◌, ◌≡◌, refl, ap, ◌∙◌, inl, inr, false, some, List, [], ◌∷◌, ◌++◌, map, arith,
  if◌then◌else◌, Bool-cases, length, drop, All, length-append, ℤ, ◌≤◌,
}
use cta_alristrol_gallardo_v.Client.Sending.{IsSend}
use cta_alristrol_gallardo_v.Clients.{Slot}
use cta_alristrol_gallardo_v.Queue.Buffer.{message}
use cta_alristrol_gallardo_v.QueueDao.{Dao, contains, run}
use cta_alristrol_gallardo_v.QueueDao.Receivers.{AllReceive, AllReceive-none, AllServed-AllReceive}
use cta_alristrol_gallardo_v.QueueDao.Window.{cuts}
use cta_alristrol_gallardo_v.QueueDao.Ticks.{IsClean, key, kept, trimmed, round_new, round_known}
use cta_alristrol_gallardo_v.QueueDao.Feed.{IsTick, run-went, firsts}

-- The keys that are left when the oldest are dropped, 250 at a time, until at most 750 are held.
abbrev pub forgotten : List (List ℕ) → List (List ℕ)
forgotten ks = drop (250 * cuts (length ks)) ks

-- What a window of keys makes of a feed: the texts whose key it does not hold, in turn. It takes up
-- the key of each of those, and forgets old ones at each of the others.
unfoldable pub delivered : List (List ℕ) → List (List ℕ) → List (List ℕ)
delivered ks [] = []
delivered ks (t ∷ ts) =
    let old = delivered (forgotten ks) ts in
    let new = delivered (ks ++ key t ∷ []) ts in if contains (key t) ks then old else t ∷ new

-- The keys that it holds behind the feed.
unfoldable pub keys_behind : List (List ℕ) → List (List ℕ) → List (List ℕ)
keys_behind ks [] = ks
keys_behind ks (t ∷ ts) =
    let old = keys_behind (forgotten ks) ts in
    let new = keys_behind (ks ++ key t ∷ []) ts in if contains (key t) ks then old else new

-- No key of the feed is held or comes twice.
abbrev pub IsFresh : List (List ℕ) → List (List ℕ) → Type 0
IsFresh ks [] = Unit {0}
IsFresh ks (t ∷ ts) = (contains (key t) ks ≡ false) × IsFresh (ks ++ key t ∷ []) ts

length-keys_behind :
    (ks texts : List (List ℕ))
    → IsFresh ks texts
    → length (keys_behind ks texts) ≡ length ks + length texts
unfolding keys_behind
length-keys_behind ks [] f = omega arith
length-keys_behind ks (t ∷ ts) f =
    rw f.0
      (length-keys_behind (ks ++ key t ∷ []) ts f.1 ∙ omega (arith, length-append ks (key t ∷ [])))

delivered-IsFresh : (ks texts : List (List ℕ)) → IsFresh ks texts → delivered ks texts ≡ texts
unfolding delivered
delivered-IsFresh ks [] f = refl
delivered-IsFresh ks (t ∷ ts) f =
    rw f.0 (ap (λ us. t ∷ us) (delivered-IsFresh (ks ++ key t ∷ []) ts f.1))

-- A window that never fills up forgets nothing.
pub delivered-firsts :
    (ks texts : List (List ℕ))
    → length ks + length texts ≤ 750
    → delivered ks texts ≡ firsts ks texts
unfolding delivered firsts
delivered-firsts ks [] l = refl
delivered-firsts ks (t ∷ ts) l = elim (Bool-cases (contains (key t) ks)) [
  | inl held ↦
      rw held (ap (λ n. delivered (drop n ks) ts) none_cut ∙ delivered-firsts ks ts (omega arith))
  | inr new ↦ rw new (
      ap (λ us. t ∷ us)
        (delivered-firsts (ks ++ key t ∷ []) ts (omega (arith, length-append ks (key t ∷ [])))))
]
  where
    none_cut : 250 * cuts (length ks) ≡ 0
    none_cut = omega arith

module _ {Net : Type 0} (send : ℤ → List ℕ → Net → ℤ × Net) where
  -- In a clean state, a feed of any number of messages of 1 to 1499 bytes, none of them NUL: the loop
  -- holds behind it the keys that a window of keys holds, and its state is clean. The clients are the
  -- same, and each receives exactly what a window of keys makes of the feed: for one that is not
  -- offline in the end the system has taken exactly these messages, whole and in this order, and it
  -- counts a reply more for each; one that was offline stays so, and a dead one is not touched. It is
  -- assumed of `send` that it takes at most the bytes offered.
  pub run-delivered :
      (texts : List (List ℕ)) (d : Dao) (slots : List Slot) (net : Net)
      → IsSend send
      → IsClean d
      → All IsTick texts
      → (d' : Dao) × (slots' : List Slot) × (net' : Net) × (run send d slots net (map message texts)
          ≡ some (d', slots', net'))
        × (d'.queue_local ≡ keys_behind d.queue_local texts)
        × IsClean d'
        × AllReceive (delivered d.queue_local texts) slots slots'
  unfolding delivered keys_behind
  run-delivered [] d slots net b c v =
      (d, slots, net, unfold run in refl, refl, c, AllReceive-none slots)
  run-delivered (t ∷ ts) d slots net b c v = elim (Bool-cases (contains (key t) d.queue_local)) [
    | inl held ↦
        let (e, _, _, c') = round_known send d slots net t c v.0.0 v.0.1 v.0.2 held in
        let (d', ss, n, r, k, c2, w) = run-delivered ts (trimmed d) slots net b c' v.1 in
        (
          d',
          ss,
          n,
          run-went send d _ slots slots net net t ts e ∙ r,
          k ∙ rw held refl,
          c2,
          rw held w,
        )
    | inr new ↦
        let (ss1, n1, e, a, c') = round_new send d slots net t b c v.0.0 v.0.1 v.0.2 new in
        let (d', ss, n, r, k, c2, w) = run-delivered ts (kept d t) ss1 n1 b c' v.1 in
        (
          d',
          ss,
          n,
          run-went send d _ slots ss1 net n1 t ts e ∙ r,
          k ∙ rw new refl,
          c2,
          rw new (AllServed-AllReceive send t _ slots ss1 ss a w),
        )
  ]

  -- In a clean state, a feed of any number of messages of 1 to 1499 bytes, none of them NUL, of which
  -- none has a key that is held or that another one has: for each client that is not offline in the
  -- end the system has taken all of them, whole and in their order, and the loop holds as many keys
  -- more as there are messages, since it drops keys only at a message whose key is held. It is
  -- assumed of `send` that it takes at most the bytes offered.
  pub run-grows :
      (texts : List (List ℕ)) (d : Dao) (slots : List Slot) (net : Net)
      → IsSend send
      → IsClean d
      → All IsTick texts
      → IsFresh d.queue_local texts
      → (d' : Dao) × (slots' : List Slot) × (net' : Net) × (run send d slots net (map message texts)
          ≡ some (d', slots', net'))
        × AllReceive texts slots slots'
        × (length d'.queue_local ≡ length d.queue_local + length texts)
  run-grows texts d slots net b c v f =
      let (d', ss, n, r, k, _, w) = run-delivered texts d slots net b c v in
      (
        d',
        ss,
        n,
        r,
        subst (λ ts. AllReceive ts slots ss) (delivered-IsFresh d.queue_local texts f) w,
        ap length k ∙ length-keys_behind d.queue_local texts f,
      )
