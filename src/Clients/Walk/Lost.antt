-- ===== src/Clients/Walk/Lost.antt =====
-- When the loop of `ARSTQueueDAO::Run` over `m_vClient` (ARST_QUOTE/ARSTQueueNode.cpp) can lose its
-- iterator to the sweep of `ARSTClients` (ARST_QUOTE/ARSTServer.cpp).
use cta_alristrol_gallardo_v.Base.{
  ℕ, ◌+◌, ◌≡◌, refl, sym, ap, ap₂, subst, ◌∙◌, ◌↔◌, inl, inr, true, List, [], ◌∷◌, ◌++◌, map,
  append-nil, append_assoc, arith, ltb, ◌==◌, if◌then◌else◌, Bool-cases, length, set, length-append,
  le→ltb_false, ==_iff, set-append,
}
use cta_alristrol_gallardo_v.Clients.Walk.Kept.{Reach-IsKept}
use cta_alristrol_gallardo_v.Client.{set_status}
use cta_alristrol_gallardo_v.Clients.{Slot, is_dead}
use cta_alristrol_gallardo_v.Clients.Sweep.{get_elem?-middle, erase-middle}
use cta_alristrol_gallardo_v.Clients.Walk.{
  Walk, Step, Reach, begun, alone, replied, offline, on, failed, lost, passes, sends, fails, sweeps,
  here, next,
}

-- What the loop makes of a client that it passes or sends to.
abbrev served : Slot → Slot
served s = if is_dead s then s else replied s

-- The loop behind some clients, before others.
abbrev between : List Slot → List Slot → Walk
between before rest = record { slots = before ++ rest; at = on (length before) }

-- With one client more behind it.
abbrev beyond : List Slot → Slot → List Slot → Walk
beyond before s rest = record { slots = before ++ s ∷ rest; at = on (length before + 1) }

beyond-between :
    (before : List Slot) (s : Slot) (rest : List Slot)
    → beyond before s rest ≡ between (before ++ s ∷ []) rest
beyond-between before s rest =
    ap₂ (λ ss a. record { slots = ss; at = a }) (sym (append_assoc before (s ∷ []) rest))
      (ap on (sym (length-append before (s ∷ []))))

serves-one :
    (before : List Slot) (s : Slot) (rest : List Slot)
    → Step (between before (s ∷ rest)) (between (before ++ served s ∷ []) rest)
serves-one before s rest = elim (Bool-cases (is_dead s)) [
  | inl dead ↦
      let same : s ≡ served s = sym (rw dead refl) in
      subst (λ x. Step (between before (s ∷ rest)) (between (before ++ x ∷ []) rest)) same
        (subst (Step (between before (s ∷ rest))) (beyond-between before s rest)
          (passes refl (get_elem?-middle before (s ∷ rest)) dead))
  | inr alive ↦
      let same : replied s ≡ served s = sym (rw alive refl) in
      let moved : record {
        slots = set (before ++ s ∷ rest) (length before) (replied s);
        at = on (length before + 1);
      }
          ≡ between (before ++ replied s ∷ []) rest =
        ap (λ ss. record { slots = ss; at = on (length before + 1) })
          (set-append before s (replied s) rest)
        ∙ beyond-between before (replied s) rest in
      subst (λ x. Step (between before (s ∷ rest)) (between (before ++ x ∷ []) rest)) same
        (subst (Step (between before (s ∷ rest))) moved
          (sends refl (get_elem?-middle before (s ∷ rest)) alive))
]

Reach-between :
    (before ss rest : List Slot) {w : Walk}
    → Reach w (between before (ss ++ rest))
    → Reach w (between (before ++ map served ss) rest)
Reach-between before [] rest {w} r =
    subst (λ b. Reach w (between b rest)) (sym (append-nil before)) r
Reach-between before (s ∷ ss) rest {w} r =
    subst (λ b. Reach w (between b rest)) (append_assoc before (served s ∷ []) (map served ss))
      (Reach-between (before ++ served s ∷ []) ss rest (next r (serves-one before s (ss ++ rest))))

-- A client that only the vector holds, with those before and behind it.
record Loner (ss : List Slot) : Type 0 where
  before : List Slot
  slot : Slot
  behind : List Slot
  splits : ss ≡ before ++ slot ∷ behind
  single : slot.use_count ≡ 1

alone-Loner : (ss : List Slot) → alone ss ≡ true → Loner ss
unfolding alone
alone-Loner [] e = cc
alone-Loner (s ∷ ss) e = elim (Bool-cases (s.use_count == 1)) [
  | inl one ↦ record {
    before = [];
    slot = s;
    behind = ss;
    splits = refl;
    single = (==_iff s.use_count 1).0 one;
  }
  | inr more ↦
      let left : alone ss ≡ true = sym (rw more refl) ∙ e in
      let l = alone-Loner ss left in
      record {
        before = s ∷ l.before;
        slot = l.slot;
        behind = l.behind;
        splits = ap (λ ts. s ∷ ts) l.splits;
        single = l.single;
      }
]

at-lost : (i : ℕ) → (if ltb i i then on i else lost) ≡ lost
at-lost i = rw (le→ltb_false i i (omega arith)) refl

at-lost_failed : (i : ℕ) → (if ltb i i then failed i else lost) ≡ lost
at-lost_failed i = rw (le→ltb_false i i (omega arith)) refl

offline-is_dead : (s : Slot) → s.use_count ≡ 1 → is_dead (offline s) ≡ true
unfolding set_status
offline-is_dead s one = (==_iff s.use_count 1).1 one

-- The client of which the loop's iterator is taken away: it is dead, or a send to it fails.
loses-one :
    (before : List Slot) (s : Slot) (rest : List Slot)
    → s.use_count ≡ 1
    → (w : Walk) × Reach (between before (s ∷ rest)) w × (w.at ≡ lost) × (w.slots ≡ before ++ rest)
loses-one before s rest one =
    let i = length before in
    elim (Bool-cases (is_dead s)) [
      | inl dead ↦ (
        _,
        next here (sweeps i (get_elem?-middle before (s ∷ rest)) dead),
        at-lost i,
        erase-middle before s rest,
      )
      | inr alive ↦
          let marked : Walk = record { slots = before ++ offline s ∷ rest; at = failed i } in
          let fail : Step (between before (s ∷ rest)) marked =
            subst (λ ss. Step (between before (s ∷ rest)) (record { slots = ss; at = failed i }))
              (set-append before s (offline s) rest)
              (fails refl (get_elem?-middle before (s ∷ rest)) alive) in
          (
            _,
            next (next here fail)
                (sweeps i (get_elem?-middle before (offline s ∷ rest)) (offline-is_dead s one)),
            at-lost_failed i,
            erase-middle before (offline s) rest,
          )
    ]

Reach-trans : {w v u : Walk} → Reach w v → Reach v u → Reach w u
Reach-trans r here = r
Reach-trans r (next q s) = next (Reach-trans r q) s

-- The loop over the clients, with the sweep at any time beside it, can find its iterator made
-- invalid exactly if some client is held by nobody but the vector: one that is offline when the loop
-- reaches it, or to which the loop's own send fails. While each is held by somebody else too, this
-- does not happen.
pub walk-lost_iff :
    (slots : List Slot)
    → ((w : Walk) × Reach (begun slots) w × (w.at ≡ lost)) ↔ (alone slots ≡ true)
walk-lost_iff slots = (
  λ (w, r, e). elim (Bool-cases (alone slots)) [
    | inl some_alone ↦ some_alone
    | inr none_alone ↦
        absurd ((Reach-IsKept r (record { held = none_alone; kept = λ d. cc })).kept e)
  ],
  λ a.
      let l = alone-Loner slots a in
      let r : Reach (begun slots) (between (map served l.before) (l.slot ∷ l.behind)) =
        Reach-between [] l.before (l.slot ∷ l.behind)
          (subst (λ ss. Reach (begun slots) (begun ss)) l.splits here) in
      let (w, q, e, _) = loses-one (map served l.before) l.slot l.behind l.single in
      (w, Reach-trans r q, e),
)
