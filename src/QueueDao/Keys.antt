-- ===== src/QueueDao/Keys.antt =====
-- The fields of a message, and the key that `ARSTQueueDAO::Run` of ARST_QUOTE/ARSTQueueNode.cpp makes
-- of them.
use cta_alristrol_gallardo_v.QueueDao.Receivers.{AllReceive}
use cta_alristrol_gallardo_v.QueueDao.Delivery.{delivered, keys_behind, run-delivered}
use cta_alristrol_gallardo_v.Base.{
  ℕ, ◌+◌, ◌≤◌, ◌<◌, ◌≡◌, refl, sym, ap, ap₂, subst, ◌∙◌, ◌≢◌, true, false, some, List, [], ◌∷◌,
  ◌++◌, map, append-nil, append_assoc, arith, ◌==◌, bytes_eq, bytes_eq_self, length, All, ℤ,
}
use cta_alristrol_gallardo_v.Client.Wire.{IsWire}
use cta_alristrol_gallardo_v.QueueDao.Wire.{Apart, Wired}
use cta_alristrol_gallardo_v.QueueDao.Wire.Rounds.{RanWired, run-RanWired}
use cta_alristrol_gallardo_v.Clients.{Slot}
use cta_alristrol_gallardo_v.Queue.Buffer.{message}
use cta_alristrol_gallardo_v.QueueDao.{
  Dao, tokens, tokens_from, flush, key_of, key_from, contains, run, new_dao,
}
use cta_alristrol_gallardo_v.QueueDao.Ticks.{key, new_dao-IsClean}
use cta_alristrol_gallardo_v.QueueDao.Feed.{IsTick}

-- A message of fields, with commas between them.
abbrev pub joined : List (List ℕ) → List ℕ
joined [] = []
joined (f ∷ []) = f
joined (f ∷ g ∷ fs) = f ++ b',' ∷ joined (g ∷ fs)

-- A field is not empty and holds no comma.
abbrev pub IsField : List ℕ → Type 0
IsField f = (0 < length f) × All (λ c. c ≢ b',') f

tokens_from-field :
    (token f rest : List ℕ)
    → All (λ c. c ≢ b',') f
    → tokens_from token (f ++ b',' ∷ rest) ≡ flush (token ++ f) ++ tokens_from [] rest
unfolding tokens_from
tokens_from-field token [] rest h =
    ap (λ t. flush t ++ tokens_from [] rest) (sym (append-nil token))
tokens_from-field token (c ∷ f) rest h =
    let other : (c == b',') ≡ false = ground (arith, h.0) in
    rw other (
      tokens_from-field (token ++ c ∷ []) f rest h.1
      ∙ ap (λ t. flush t ++ tokens_from [] rest) (append_assoc token (c ∷ []) f))

tokens_from-last :
    (token f : List ℕ) → All (λ c. c ≢ b',') f → tokens_from token f ≡ flush (token ++ f)
unfolding tokens_from
tokens_from-last token [] h = ap flush (sym (append-nil token))
tokens_from-last token (c ∷ f) h =
    let other : (c == b',') ≡ false = ground (arith, h.0) in
    rw other (tokens_from-last (token ++ c ∷ []) f h.1 ∙ ap flush (append_assoc token (c ∷ []) f))

flush-field : (f : List ℕ) → 0 < length f → flush f ≡ f ∷ []
flush-field [] l = absurd (omega arith)
flush-field (c ∷ f) l = refl

-- `strtok` finds the fields that a message was joined from.
pub tokens-joined : (fs : List (List ℕ)) → All IsField fs → tokens (joined fs) ≡ fs
unfolding tokens tokens_from
tokens-joined [] v = refl
tokens-joined (f ∷ []) v = tokens_from-last [] f v.0.1 ∙ flush-field f v.0.0
tokens-joined (f ∷ g ∷ fs) v =
    tokens_from-field [] f (joined (g ∷ fs)) v.0.1
    ∙ ap₂ (λ a b. a ++ b) (flush-field f v.0.0) (tokens-joined (g ∷ fs) v.1)

-- The fields of a tick, by their places; the price, the volume and the epoch are used.
pub record Fields : Type 0 where
  pub f0 : List ℕ
  pub f1 : List ℕ
  pub f2 : List ℕ
  pub price : List ℕ
  pub volume : List ℕ
  pub f5 : List ℕ
  pub f6 : List ℕ
  pub f7 : List ℕ
  pub epoch : List ℕ
  pub rest : List (List ℕ)

abbrev pub listed : Fields → List (List ℕ)
listed f = f.f0 ∷ f.f1 ∷ f.f2 ∷ f.price ∷ f.volume ∷ f.f5 ∷ f.f6 ∷ f.f7 ∷ f.epoch ∷ f.rest

-- The text of a tick.
abbrev pub tick_text : Fields → List ℕ
tick_text f = joined (listed f)

-- No place behind the epoch's counts.
key_from-behind : (i : ℕ) (ts : List (List ℕ)) → 8 ≤ i → key_from i ts ≡ []
unfolding key_from
key_from-behind i [] l = refl
key_from-behind i (t ∷ ts) l = ground (arith, key_from-behind (i + 1) ts)

-- The key of a tick is its price, its volume and its epoch, one behind the other.
pub key-fields :
    (f : Fields) → All IsField (listed f) → key (tick_text f) ≡ f.price ++ (f.volume ++ f.epoch)
unfolding key_of key_from
key-fields f v =
    ap key_of (tokens-joined (listed f) v)
    ∙ ap (λ r. f.price ++ (f.volume ++ r))
        (ap (λ r. f.epoch ++ r) (key_from-behind 8 f.rest (omega arith)) ∙ append-nil f.epoch)

contains-one : (k k' : List ℕ) → k ≡ k' → contains k' (k ∷ []) ≡ true
unfolding contains
contains-one k k' e = rw (subst (λ j. bytes_eq k j ≡ true) e (bytes_eq_self k), contains) refl

delivered-same : (t u : List ℕ) → key t ≡ key u → delivered [] (t ∷ u ∷ []) ≡ t ∷ []
unfolding delivered contains
delivered-same t u e = rw (contains-one (key t) (key u) e) refl

keys_behind-same : (t u : List ℕ) → key t ≡ key u → keys_behind [] (t ∷ u ∷ []) ≡ key t ∷ []
unfolding keys_behind contains
keys_behind-same t u e = rw (contains-one (key t) (key u) e) refl

-- Two ticks of fields with commas between them, each field not empty and with no comma and no NUL,
-- the last one possibly with a newline at its end, and both ticks of at most 1499 bytes, whose
-- prices, volumes and epochs make the same text when they are put together: a new thread that is
-- fed both holds one key, and the clients receive the first tick and nothing of the second, also
-- where the prices or the volumes of both differ. For a client that is not offline in the end the
-- system has taken exactly the first tick. The wire of each client's socket has grown by exactly
-- the bytes that were taken for it, and no other wire has changed. It is assumed that no two
-- clients have one socket, and of `send` that it takes at most the bytes offered and puts on the
-- wire of the socket what it says it has taken.
pub run-collides :
    {Net : Type 0} (send : ℤ → List ℕ → Net → ℤ × Net) (wire : Net → ℤ → List ℕ) (f g : Fields)
    (slots : List Slot) (net : Net)
    → IsWire send wire
    → Apart slots
    → All IsField (listed f)
    → All IsField (listed g)
    → IsTick (tick_text f)
    → IsTick (tick_text g)
    → f.price ++ (f.volume ++ f.epoch) ≡ g.price ++ (g.volume ++ g.epoch)
    → (d' : Dao) × (slots' : List Slot) × (net' : Net) × (run send new_dao slots net
          (map message (tick_text f ∷ tick_text g ∷ []))
        ≡ some (d', slots', net'))
      × (d'.queue_local ≡ (f.price ++ (f.volume ++ f.epoch)) ∷ [])
      × AllReceive (tick_text f ∷ []) slots slots'
      × Wired wire net net' slots slots'
unfolding new_dao
run-collides send wire f g slots net b z v w t u e =
    let (d', ss, n, r, k, _, a) =
      run-delivered send (tick_text f ∷ tick_text g ∷ []) new_dao slots net b.bound new_dao-IsClean
        (t, (u, tt)) in
    let same = key-fields f v ∙ e ∙ sym (key-fields g w) in
    (
      d',
      ss,
      n,
      r,
      k ∙ keys_behind-same (tick_text f) (tick_text g) same ∙ ap (λ x. x ∷ []) (key-fields f v),
      subst (λ ts. AllReceive ts slots ss) (delivered-same (tick_text f) (tick_text g) same) a,
      subst (RanWired send wire b net slots) r (
          run-RanWired send wire b (map message (tick_text f ∷ tick_text g ∷ [])) new_dao slots net
            z),
    )
