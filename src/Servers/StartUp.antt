-- ===== src/Servers/StartUp.antt =====
-- The start of ARST_QUOTE/ARSTWebConns.cpp: the pool gets a connection for each entry, in order;
-- and the search of the pool by name.
use native.Mathlib.Numerals.{add-one}
use cta_alristrol_gallardo_v.Base.{
  ℕ, zero, suc, ◌+◌, ◌≤◌, ◌≡◌, refl, sym, ap, subst, ◌∙◌, ◌≢◌, inl, inr, Option, none, some, List,
  [], ◌∷◌, ◌++◌, append-nil, append_assoc, arith, Bool-cases, bytes_eq, bytes_eq_sound, length,
  get_elem?, take, drop, All, drop-get_elem?,
}
use cta_alristrol_gallardo_v.ClientSocket.{Dial}
use cta_alristrol_gallardo_v.WebConn.{Server}
use cta_alristrol_gallardo_v.Servers.{
  ServerInfo, Config, Servers, Outcome, ok, rm_bitmex, connect_new, add_free_server, start_market,
  start_up_servers, get_server_by_name, at, caught, ◌>>=◌,
}
use cta_alristrol_gallardo_v.Servers.Revival.{IsMade, Resolves, connect_new-IsMade, bytes_ne}

-- The first server of the name, with those before it, or none.
pub data Found (name : List ℕ) (pool : List Server) : Option Server → Type 0 where
  found :
      (before behind : List Server) (s : Server)
      → pool ≡ before ++ s ∷ behind
      → All (λ t. t.name ≢ name) before
      → s.name ≡ name
      → Found name pool (some s)
  missing : All (λ t. t.name ≢ name) pool → Found name pool none

Found-cons :
    (name : List ℕ) (pool : List Server) (t : Server) (o : Option Server)
    → t.name ≢ name
    → Found name pool o
    → Found name (t ∷ pool) o
Found-cons name pool t o n (found before behind s e a q) =
    found (t ∷ before) behind s (ap (λ ss. t ∷ ss) e) (n, a) q
Found-cons name pool t o n (missing a) = missing (n, a)

-- `GetServerByName` gives the first server of the pool that bears the name, and none exactly if no
-- server of the pool does.
pub get_server_by_name-Found :
    (pool : List Server) (name : List ℕ) → Found name pool (get_server_by_name pool name)
unfolding get_server_by_name
get_server_by_name-Found [] name = missing tt
get_server_by_name-Found (s ∷ ss) name = elim (Bool-cases (bytes_eq s.name name)) [
  | inl hit ↦ rw hit (found [] ss s refl tt (bytes_eq_sound _ _ hit))
  | inr miss ↦
      rw miss (Found-cons name ss s _ (bytes_ne _ _ miss) (get_server_by_name-Found ss name))
]

at-some : {A : Type 0} (xs : List A) (j : ℕ) (x : A) → get_elem? xs j ≡ some x → at xs j ≡ ok x
at-some xs j x e = rw (e, at)

module _ {Net : Type 0} (dial : ServerInfo → Net → Dial × Net) where
  -- One connection for each entry, made from it.
  abbrev pub MadeFrom : List ServerInfo → List Server → Type 0
  MadeFrom [] [] = Unit {0}
  MadeFrom [] (s ∷ ss) = ⊥
  MadeFrom (i ∷ is) [] = ⊥
  MadeFrom (i ∷ is) (s ∷ ss) = IsMade dial i s × MadeFrom is ss

  add_free_server-IsMade :
      (s : Servers) (c : Config) (cs : List Config) (j : ℕ) (i : ServerInfo) (net : Net)
      → Resolves dial
      → s.configs ≡ c ∷ cs
      → get_elem? c.server_info j ≡ some i
      → (t : Server) × (net' : Net) × (add_free_server dial s rm_bitmex j net
          ≡ ok (record s { pool = s.pool ++ t ∷ [] }, net'))
        × IsMade dial i t
  unfolding add_free_server
  add_free_server-IsMade s c cs j i net r q g =
      let (t, net', e, m) = connect_new-IsMade dial i net r in
      (
        t,
        net',
        ap (λ k. caught s net (at k rm_bitmex >>= λ d. at d.server_info j >>= create)) q
            ∙ ap (λ o. caught s net (o >>= create)) (at-some c.server_info j i g)
            ∙ ap (λ o. caught s net (o >>= add)) e,
        m,
      )
    where
      add : Server × Net → Outcome (Servers × Net)
      add p = ok (record s { pool = s.pool ++ p.0 ∷ [] }, p.1)

      create : ServerInfo → Outcome (Servers × Net)
      create k = connect_new dial k rm_bitmex net >>= add

  start_market-MadeFrom :
      (turns j : ℕ) (s : Servers) (c : Config) (cs : List Config) (net : Net)
      → Resolves dial
      → s.configs ≡ c ∷ cs
      → j + turns ≤ length c.server_info
      → (ss : List Server) × (net' : Net) × (start_market dial turns rm_bitmex j s net
          ≡ ok (record s { pool = s.pool ++ ss }, net'))
        × MadeFrom (take turns (drop j c.server_info)) ss
  unfolding start_market
  start_market-MadeFrom zero j s c cs net r q l =
      ([], net, ap (λ ss. ok (record s { pool = ss }, net)) (sym (append-nil s.pool)), tt)
  start_market-MadeFrom (suc turns) j s c cs net r q l =
      let (i, g, d) = drop-get_elem? j c.server_info (omega arith) in
      let (t, net1, e, m) = add_free_server-IsMade s c cs j i net r q g in
      let (ss, net', e', ms) =
        start_market-MadeFrom turns (j + 1) (record s { pool = s.pool ++ t ∷ [] }) c cs net1 r q
          (omega arith) in
      (
        t ∷ ss,
        net',
        rw (e, ◌>>=◌)
            (e' ∙ ap (λ p. ok (record s { pool = p }, net')) (append_assoc s.pool (t ∷ []) ss)),
        subst (λ is. MadeFrom (take (suc turns) is) (t ∷ ss)) (sym d)
            (m, subst (λ k. MadeFrom (take turns (drop k c.server_info)) ss) (add-one j) ms),
      )

  -- With a first configuration that has as many entries as it counts, all with addresses that
  -- resolve, the start ends well, logs no error, and puts behind the pool one connection for each
  -- entry counted, made from it, in the order of the entries.
  pub start_up_servers-MadeFrom :
      (s : Servers) (c : Config) (cs : List Config) (net : Net)
      → Resolves dial
      → s.configs ≡ c ∷ cs
      → c.server_count ≤ length c.server_info
      → (ss : List Server) × (net' : Net) × (start_up_servers dial s net
          ≡ ok (record s { pool = s.pool ++ ss }, net'))
        × MadeFrom (take c.server_count c.server_info) ss
  unfolding start_up_servers
  start_up_servers-MadeFrom s c cs net r q l =
      let (ss, net', e, m) = start_market-MadeFrom c.server_count 0 s c cs net r q (omega arith) in
      (
        ss,
        net',
        ap
              (λ k.
                caught s net
                  (at k rm_bitmex >>= λ d. start_market dial d.server_count rm_bitmex 0 s net))
              q
            ∙ ap (caught s net) e,
        m,
      )
