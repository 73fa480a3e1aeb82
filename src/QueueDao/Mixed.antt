-- ===== src/QueueDao/Mixed.antt =====
-- The threads of several `ARSTQueueDAO`s of ARST_QUOTE/ARSTQueueNode.cpp whose rounds overlap: a step
-- relation on `hash_string` and `QueueLocal`, which they share without a lock. One step is one of the
-- statements of `Run` on these, and a loop or a call on them that is not interrupted; that the
-- threads may be interrupted in between is enough for what is shown here.
use cta_alristrol_gallardo_v.Base.{
  ℕ, ◌+◌, ◌≡◌, refl, true, false, some, List, [], ◌∷◌, ◌++◌, arith, ◌==◌, if◌then◌else◌,
  bytes_eq_self, length,
}
use cta_alristrol_gallardo_v.QueueDao.{contains, trim}
use cta_alristrol_gallardo_v.QueueDao.Window.{trim-drops}
use cta_alristrol_gallardo_v.QueueDao.Ticks.{key}
use cta_alristrol_gallardo_v.QueueDao.Delivery.{forgotten}

-- Where a thread stands in its round: with the text that it has taken, behind the loop that adds its
-- key, behind a `find` that has found nothing, before the `clear`, and behind it.
pub data At : Type 0 where
  taken keyed unfound : List ℕ → At
  clearing finished : At

-- `sent` is what was handed to the clients by now.
pub record Shared : Type 0 where
  pub hash_string : List ℕ
  pub queue_local : List (List ℕ)
  pub sent : List (List ℕ)
  pub at : ℕ → At

abbrev pub moved : (ℕ → At) → ℕ → At → ℕ → At
moved at i a j = if j == i then a else at j

-- The steps of thread `i`.
pub data Step (i : ℕ) (s : Shared) : Shared → Type 0 where
  adds :
      {text : List ℕ}
      → s.at i ≡ taken text
      → Step i s
          (record s { hash_string = s.hash_string ++ key text; at = moved s.at i (keyed text) })
  finds_nothing :
      {text : List ℕ}
      → s.at i ≡ keyed text
      → contains s.hash_string s.queue_local ≡ false
      → Step i s (record s { at = moved s.at i (unfound text) })
  pushes_and_sends :
      {text : List ℕ}
      → s.at i ≡ unfound text
      → Step i s (record s {
        queue_local = s.queue_local ++ s.hash_string ∷ [];
        sent = s.sent ++ text ∷ [];
        at = moved s.at i clearing;
      })
  finds_and_trims :
      {text : List ℕ} {ks : List (List ℕ)}
      → s.at i ≡ keyed text
      → contains s.hash_string s.queue_local ≡ true
      → trim (length s.queue_local + 1) s.queue_local ≡ some ks
      → Step i s (record s { queue_local = ks; at = moved s.at i clearing })
  clears : s.at i ≡ clearing → Step i s (record s { hash_string = []; at = moved s.at i finished })

pub data Reach (s : Shared) : Shared → Type 0 where
  here : Reach s s
  next : {t u : Shared} (i : ℕ) → Reach s t → Step i t u → Reach s u

-- Two threads have taken a message each, and nothing is left over.
abbrev pub two_taken : List (List ℕ) → List ℕ → List ℕ → Shared
two_taken ks a b = record {
  hash_string = [];
  queue_local = ks;
  sent = [];
  at = λ i. if i == 0 then taken a else if i == 1 then taken b else finished;
}

contains-snoc : (ks : List (List ℕ)) (k : List ℕ) → contains k (ks ++ k ∷ []) ≡ true
unfolding contains
contains-snoc [] k = rw (bytes_eq_self k) refl
contains-snoc (j ∷ ks) k = ground (arith, contains-snoc ks k)

-- Two threads have each taken a message. Whatever the messages, if the window does not hold the text
-- of both keys one behind the other: both rounds can end such that the second message was handed to
-- nobody, whether its key was held or not, and of both only the text of the two keys is held.
pub second_lost :
    (ks : List (List ℕ)) (a b : List ℕ)
    → contains (key a ++ key b) ks ≡ false
    → (s : Shared) × Reach (two_taken ks a b) s
      × (s.at 0 ≡ finished)
      × (s.at 1 ≡ finished)
      × (s.sent ≡ a ∷ [])
      × (s.queue_local ≡ forgotten (ks ++ (key a ++ key b) ∷ []))
second_lost ks a b n =
    let ks' = ks ++ (key a ++ key b) ∷ [] in
    (
      _,
      next 1
          (next 0
            (next 1
              (next 0 (next 0 (next 1 (next 0 here (adds refl)) (adds refl)) (finds_nothing refl n))
                (pushes_and_sends refl))
              (finds_and_trims refl (contains-snoc ks (key a ++ key b))
                (trim-drops (length ks' + 1) ks' (omega arith))))
            (clears refl))
          (clears refl),
      refl,
      refl,
      refl,
      refl,
    )
