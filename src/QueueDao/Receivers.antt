-- ===== src/QueueDao/Receivers.antt =====
-- What the clients have got behind a feed of the thread of ARST_QUOTE/ARSTQueueNode.cpp.
use cta_alristrol_gallardo_v.Base.{
  ℕ, ◌+◌, ◌≡◌, refl, sym, ap, ◌∙◌, ◌≢◌, true, false, List, [], ◌∷◌, ◌++◌, append-nil, append_assoc,
  arith, length, ℤ,
}
use cta_alristrol_gallardo_v.Client.{cs_offline}
use cta_alristrol_gallardo_v.Clients.{Slot, is_dead}
use cta_alristrol_gallardo_v.QueueDao.Cast.{Served, passed, reached, dropped, AllServed}

-- Texts one behind the other.
abbrev pub together : List (List ℕ) → List ℕ
together [] = []
together (t ∷ ts) = t ++ together ts

-- What is left of a client behind these texts. A dead one is not touched; one that was offline stays
-- so. For one that is not offline in the end the system has taken exactly these texts, whole and in
-- their order; it counts a reply more for each, and nothing else of it has changed.
abbrev pub Receives : List (List ℕ) → Slot → Slot → Type 0
Receives texts s s' =
    (is_dead s ≡ true → s' ≡ s)
    × (s.client.status ≡ cs_offline → s'.client.status ≡ cs_offline)
    × (s'.client.status ≢ cs_offline
        → (s'.client ≡ record s.client { replies = s.client.replies + length texts })
          × (s'.taken ≡ s.taken ++ together texts))

-- The same clients are there, and each receives these texts.
abbrev pub AllReceive : List (List ℕ) → List Slot → List Slot → Type 0
AllReceive texts [] [] = Unit {0}
AllReceive texts [] (s' ∷ ss') = ⊥
AllReceive texts (s ∷ ss) [] = ⊥
AllReceive texts (s ∷ ss) (s' ∷ ss') = Receives texts s s' × AllReceive texts ss ss'

pub AllReceive-none : (ss : List Slot) → AllReceive [] ss ss
AllReceive-none [] = tt
AllReceive-none (s ∷ ss) =
    let e : s.client.replies ≡ s.client.replies + 0 = omega arith in
    (
      (
        λ d. refl,
        λ z. z,
        λ h. (ap (λ k. record s.client { replies = k }) e, sym (append-nil s.taken)),
      ),
      AllReceive-none ss,
    )

dead-offline : (s : Slot) → is_dead s ≡ true → s.client.status ≡ cs_offline
dead-offline s d = ground arith

true-ne-false : true ≢ false
true-ne-false e = cc

module _ {Net : Type 0} (send : ℤ → List ℕ → Net → ℤ × Net) where
  Served-Receives :
      (text : List ℕ) (texts : List (List ℕ)) (s s1 s2 : Slot)
      → Served send text s s1
      → Receives texts s1 s2
      → Receives (text ∷ texts) s s2
  Served-Receives text texts s s1 s2 (passed d e) (h, o, g) =
      let same : s2 ≡ s = h (ap is_dead e ∙ d) ∙ e in
      let gone : s2.client.status ≡ cs_offline =
        ap (λ x. x.client.status) same ∙ dead-offline s d in
      (λ _. same, λ _. gone, λ q. absurd (q gone))
  Served-Receives text texts s s1 s2 (reached d e) (h, o, g) =
      let sum : s.client.replies + 1 + length texts ≡ s.client.replies + length (text ∷ texts) =
        omega arith in
      (
        λ z. absurd (true-ne-false (sym z ∙ d)),
        λ z. o (ap (λ x. x.client.status) e ∙ z),
        λ q. (
          (g q).0
              ∙ ap (λ x. record x.client { replies = x.client.replies + length texts }) e
              ∙ ap (λ k. record s.client { replies = k }) sum,
          (g q).1
              ∙ ap (λ x. x.taken ++ together texts) e
              ∙ append_assoc s.taken text (together texts),
        ),
      )
  Served-Receives text texts s s1 s2 (dropped part missing d t e) (h, o, g) =
      let gone : s2.client.status ≡ cs_offline = o (ap (λ x. x.client.status) e) in
      (λ z. absurd (true-ne-false (sym z ∙ d)), λ _. gone, λ q. absurd (q gone))

  pub AllServed-AllReceive :
      (text : List ℕ) (texts : List (List ℕ)) (ss ss1 ss2 : List Slot)
      → AllServed send text ss ss1
      → AllReceive texts ss1 ss2
      → AllReceive (text ∷ texts) ss ss2
  AllServed-AllReceive text n [] [] [] a h = tt
  AllServed-AllReceive text n [] [] (s2 ∷ ss2) a h = absurd h
  AllServed-AllReceive text n [] (s1 ∷ ss1) ss2 a h = absurd a
  AllServed-AllReceive text n (s ∷ ss) [] ss2 a h = absurd a
  AllServed-AllReceive text n (s ∷ ss) (s1 ∷ ss1) [] a h = absurd h
  AllServed-AllReceive text n (s ∷ ss) (s1 ∷ ss1) (s2 ∷ ss2) a h =
      (Served-Receives text n s s1 s2 a.0 h.0, AllServed-AllReceive text n ss ss1 ss2 a.1 h.1)
