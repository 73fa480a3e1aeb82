-- ===== src/Client/Sending.antt =====
-- What `ARSTClient::SendAll` of ARST_QUOTE/ARSTServiceHandler.cpp achieves, whatever the network does.
use mathlib.Core.Option
use cta_alristrol_gallardo_v.Base.{
  ℕ, zero, suc, ◌+◌, ◌-◌, ◌≤◌, ◌<◌, ◌≡◌, refl, sym, ap, ◌∙◌, ◌≢◌, ◌⊎◌, inl, inr, true, false,
  Option, some, List, [], ◌∷◌, ◌++◌, append_assoc, arith, ltb, ◌==◌, Bool-cases, length, take, drop,
  length-drop, take-append-drop, take-le, ℤ, pos, negsuc, ltb→lt, ltb_false→le, drop-drop,
}
use cta_alristrol_gallardo_v.Client.{Client, cs_offline, Sent, behind, judge, send_loop, send_all}

-- Documented of `send`: it returns -1, or the count of bytes taken, at most those offered.
abbrev pub AtMost : List ℕ → ℤ → Type 0
AtMost offered (pos k) = k ≤ length offered
AtMost offered (negsuc k) = Unit {0}

-- What `SendAll` promises of a buffer.
pub data Outcome {Net : Type 0} (c : Client) (buf : List ℕ) (s : Sent Net) : Type 0 where
  whole : s.result ≡ true → s.client ≡ c → s.taken ≡ buf → Outcome c buf s
  broken :
      (missing : List ℕ)
      → s.result ≡ false
      → s.client ≡ record c { status = cs_offline }
      → buf ≡ s.taken ++ missing
      → missing ≢ []
      → Outcome c buf s

abbrev pub Yields : {Net : Type 0} → Client → List ℕ → Option (Sent Net) → Type 0
Yields {Net} c buf o = (s : Sent Net) × (o ≡ some s) × Outcome c buf s

Outcome-behind :
    {Net : Type 0} (c : Client) (k : ℕ) (buf : List ℕ) (s : Sent Net)
    → Outcome c (drop k buf) s
    → Outcome c buf (behind (take k buf) s)
Outcome-behind c k buf s (whole r e t) =
    whole r e (ap (λ bs. take k buf ++ bs) t ∙ take-append-drop k buf)
Outcome-behind c k buf s (broken m r e t n) =
    broken m r e
      (sym (take-append-drop k buf)
        ∙ ap (λ bs. take k buf ++ bs) t
        ∙ sym (append_assoc (take k buf) s.taken m))
      n

module _ {Net : Type 0} (c : Client) (buf : List ℕ) (left : ℕ) where
  judge_none :
      (r : ℤ) (net : Net) (more : ℕ → Option (Sent Net))
      → (r ≡ pos 0) ⊎ ((k : ℕ) × (r ≡ negsuc k))
      → 0 < left
      → judge c buf left r net more
        ≡ some (record {
          client = record c { status = cs_offline };
          net = net;
          taken = [];
          result = false;
        })
  unfolding judge
  judge_none r net more (inl e) h = rw e (ground arith)
  judge_none r net more (inr (k, e)) h = rw e

  judge_all :
      (k : ℕ) (net : Net) (more : ℕ → Option (Sent Net))
      → 0 < k
      → k ≡ left
      → judge c buf left (pos k) net more
        ≡ some (record { client = c; net = net; taken = take k buf; result = true })
  unfolding judge
  judge_all k net more p e = ground arith

  judge_part :
      (k : ℕ) (net : Net) (more : ℕ → Option (Sent Net))
      → 0 < k
      → k < left
      → judge c buf left (pos k) net more ≡ Option.map (behind (take k buf)) (more k)
  unfolding judge
  judge_part k net more p q = ground arith

Yields-none :
    {Net : Type 0} (c : Client) (buf : List ℕ) (left : ℕ) (net : Net) (o : Option (Sent Net))
    → length buf ≡ left
    → 0 < left
    → o
      ≡ some (record {
        client = record c { status = cs_offline };
        net = net;
        taken = [];
        result = false;
      })
    → Yields c buf o
Yields-none c buf left net o e p h =
    (_, h, broken buf refl refl refl (λ d. absurd (omega (arith, ap length d))))

Yields-part :
    {Net : Type 0} (c : Client) (k : ℕ) (buf : List ℕ) (o : Option (Sent Net))
    → Yields c (drop k buf) o
    → Yields c buf (Option.map (behind (take k buf)) o)
Yields-part c k buf o (s, e, y) = (behind (take k buf) s, rw e, Outcome-behind c k buf s y)

-- Every result of `send` that its documentation allows leads to the outcome that is promised,
-- if the turns behind a short send do.
judge-Yields :
    {Net : Type 0} (c : Client) (buf : List ℕ) (left : ℕ) (r : ℤ) (net : Net)
    (more : ℕ → Option (Sent Net))
    → length buf ≡ left
    → 0 < left
    → AtMost buf r
    → ((k : ℕ) → 0 < k → k < left → Yields c (drop k buf) (more k))
    → Yields c buf (judge c buf left r net more)
judge-Yields c buf left (negsuc k) net more e p b m =
    Yields-none c buf left net _ e p (judge_none c buf left _ net more (inr (k, refl)) p)
judge-Yields c buf left (pos zero) net more e p b m =
    Yields-none c buf left net _ e p (judge_none c buf left _ net more (inl refl) p)
judge-Yields c buf left (pos (suc k)) net more e p b m = elim (Bool-cases (ltb (suc k) left)) [
  | inl short ↦
      rw (judge_part c buf left (suc k) net more (omega arith) (ltb→lt _ _ short))
        (Yields-part c (suc k) buf _ (m (suc k) (omega arith) (ltb→lt _ _ short)))
  | inr full ↦
      let same : suc k ≡ left = omega (arith, ltb_false→le _ _ full) in
      rw (judge_all c buf left (suc k) net more (omega arith) same)
        (_, refl, whole refl refl (take-le (suc k) buf (omega arith)))
]

module _ {Net : Type 0} (send : ℤ → List ℕ → Net → ℤ × Net) where
  -- Documented of `send`.
  abbrev pub IsSend : Type 0
  IsSend = (fd : ℤ) (offered : List ℕ) (net : Net) → AtMost offered (send fd offered net).0

  loop-Yields :
      (fuel : ℕ) (c : Client) (buf : List ℕ) (n_to_send n_send n_sended : ℕ) (net : Net)
      → IsSend
      → n_send < n_to_send
      → n_to_send - n_send < fuel
      → n_sended + (n_to_send - n_send) ≡ length buf
      → Yields c (drop n_sended buf) (send_loop send fuel c buf n_to_send n_send n_sended net)
  unfolding send_loop
  loop-Yields zero c buf t s d net b p f e = absurd (omega arith)
  loop-Yields (suc fuel) c buf t s d net b p f e = rw all (
      judge-Yields c (drop d buf) (t - s) (send fd (drop d buf) net).0 (send fd (drop d buf) net).1
        _ (omega (arith, length-drop d buf)) (omega arith) (b fd (drop d buf) net)
        λ k q r.
          rw (drop-drop d k buf)
            (loop-Yields fuel c buf (t - s) k (d + k) _ b r (omega arith) (omega arith)))
    where
      fd : ℤ
      fd = c.addr.socket

      all : take (t - s) (drop d buf) ≡ drop d buf
      all = take-le (t - s) (drop d buf) (omega (arith, length-drop d buf))

  -- `SendAll` of a whole buffer ends. Either the system has taken the whole buffer, in order,
  -- the client is as it was and the result is true; or it has taken a proper prefix, the client
  -- is marked offline and the result is false. It is assumed of `send` that it takes at most the
  -- bytes offered.
  pub send_all-Outcome :
      (c : Client) (buf : List ℕ) (net : Net)
      → IsSend
      → (s : Sent Net) × (send_all send c buf (length buf) net ≡ some s) × Outcome c buf s
  unfolding send_all
  send_all-Outcome c [] net b = (_, refl, whole refl refl refl)
  send_all-Outcome c (x ∷ xs) net b =
      let started : (suc (length xs) == 0) ≡ false = ground arith in
      rw started (
        loop-Yields (length (x ∷ xs) + 1) c (x ∷ xs) (length (x ∷ xs)) 0 0 net b (omega arith)
          (omega arith) (omega arith))
