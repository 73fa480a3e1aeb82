-- ===== src/Servers/Revival.antt =====
-- What `ARSTServers::CheckClientVector` of ARST_QUOTE/ARSTWebConns.cpp does to the pool.
use cta_alristrol_gallardo_v.WebConn.Status.{new_server-some, new_server-name}
use cta_alristrol_gallardo_v.Base.{
  ℕ, zero, suc, ◌≤◌, ◌≡◌, refl, sym, subst, ◌∙◌, ◌≢◌, ◌⊎◌, inl, inr, true, false, some, List, [],
  ◌∷◌, arith, Bool-cases, bytes_eq, bytes_eq_sound, bytes_eq_self, length, take, All, ap,
}
use cta_alristrol_gallardo_v.ClientSocket.{Dial}
use cta_alristrol_gallardo_v.WebConn.{Server, ss_breakdown, new_server}
use cta_alristrol_gallardo_v.Servers.{
  ServerInfo, ok, fund_name, rm_bitmex, connect_new, revive, ◌>>=◌, Config, check_client_vector,
  Servers, ServerStatus, check_server, check_pool, is_breakdown, Outcome,
}

-- An entry of the configuration may replace a server: it has the server's name, and this is not
-- the fund's.
abbrev pub IsEntry : ServerInfo → List ℕ → Type 0
IsEntry i name = (i.name ≡ name) × (i.name ≢ fund_name)

abbrev pub Any : (ServerInfo → Type 0) → List ServerInfo → Type 0
Any P [] = ⊥
Any P (i ∷ is) = P i ⊎ Any P is

pub bytes_ne : (s t : List ℕ) → bytes_eq s t ≡ false → s ≢ t
bytes_ne s t h e =
    let same : bytes_eq s t ≡ true = subst (λ u. bytes_eq s u ≡ true) e (bytes_eq_self s) in cc

module _ {Net : Type 0} (dial : ServerInfo → Net → Dial × Net) where
  -- A server that was made from an entry, with what a dial of its address has answered.
  pub record IsMade (i : ServerInfo) (s : Server) : Type 0 where
    pub dialling : Net
    pub made : new_server i.host i.para i.name rm_bitmex (dial i dialling).0 ≡ some s

  -- What may become of a server. It is left alone if it is not broken down, or if no entry may
  -- replace it; otherwise it is one that was made from an entry that may.
  pub data Fate (is : List ServerInfo) (s s' : Server) : Type 0 where
    working : s.status ≢ ss_breakdown → s' ≡ s → Fate is s s'
    unknown : s.status ≡ ss_breakdown → All (λ i. ¬ IsEntry i s.name) is → s' ≡ s → Fate is s s'
    remade :
        (i : ServerInfo)
        → s.status ≡ ss_breakdown
        → Any (λ j. j ≡ i) is
        → IsEntry i s.name
        → IsMade i s'
        → Fate is s s'

  abbrev pub Fates : List ServerInfo → List Server → List Server → Type 0
  Fates is [] [] = Unit {0}
  Fates is [] (s' ∷ ss') = ⊥
  Fates is (s ∷ ss) [] = ⊥
  Fates is (s ∷ ss) (s' ∷ ss') = Fate is s s' × Fates is ss ss'

  -- The same of the loop over the entries, for a server of the name.
  abbrev Pass : List ServerInfo → List ℕ → Server → Server → Type 0
  Pass is name s s' =
      (All (λ i. ¬ IsEntry i name) is × (s' ≡ s))
      ⊎ ((i : ServerInfo) × Any (λ j. j ≡ i) is × IsEntry i name × IsMade i s')

  Pass-skip :
      (i : ServerInfo) (is : List ServerInfo) (name : List ℕ) (s s' : Server)
      → ¬ IsEntry i name
      → Pass is name s s'
      → Pass (i ∷ is) name s s'
  Pass-skip i is name s s' n (inl (a, e)) = inl ((n, a), e)
  Pass-skip i is name s s' n (inr (j, m, e, d)) = inr (j, inr m, e, d)

  Pass-made :
      (i : ServerInfo) (is : List ServerInfo) (name : List ℕ) (s s1 s' : Server)
      → IsEntry i name
      → IsMade i s1
      → Pass is name s1 s'
      → Pass (i ∷ is) name s s'
  Pass-made i is name s s1 s' e d (inl (a, q)) = inr (i, inl refl, e, rw q d)
  Pass-made i is name s s1 s' e d (inr (j, m, f, k)) = inr (j, inr m, f, k)

  -- The address of every entry resolves.
  abbrev pub Resolves : Type 0
  Resolves = (i : ServerInfo) (net : Net) → (dial i net).0.resolved ≡ true

  pub connect_new-IsMade :
      (i : ServerInfo) (net : Net)
      → Resolves
      → (s : Server) × (net' : Net) × (connect_new dial i rm_bitmex net ≡ ok (s, net')) × IsMade i s
  unfolding connect_new
  connect_new-IsMade i net r =
      let (s, e) = new_server-some i.host i.para i.name rm_bitmex (dial i net).0 (r i net) in
      (s, (dial i net).1, rw (e, connect_new), record { dialling = net; made = e })

  revive-Pass :
      (turns : ℕ) (is : List ServerInfo) (name : List ℕ) (s : Server) (net : Net)
      → Resolves
      → turns ≤ length is
      → s.name ≡ name
      → (s' : Server) × (net' : Net) × (revive dial turns is s net ≡ ok (s', net'))
        × Pass (take turns is) name s s'
  unfolding revive
  revive-Pass zero is name s net r l n = (s, net, refl, inl (tt, refl))
  revive-Pass (suc turns) [] name s net r l n = absurd (omega arith)
  revive-Pass (suc turns) (i ∷ is) name s net r l n =
      elim (Bool-cases (bytes_eq i.name fund_name)) [
        | inl fund ↦
            let (s', net', e, p) = revive-Pass turns is name s net r (omega arith) n in
            (
              s',
              net',
              rw fund e,
              Pass-skip i (take turns is) name s s' (λ en. en.1 (bytes_eq_sound _ _ fund)) p,
            )
        | inr other ↦ elim (Bool-cases (bytes_eq i.name s.name)) [
          | inl hit ↦
              let (s1, net1, e1, d) = connect_new-IsMade i net r in
              let (s', net', e, p) =
                revive-Pass turns is name s1 net1 r (omega arith)
                  (new_server-name _ _ _ _ _ _ d.made ∙ bytes_eq_sound _ _ hit ∙ n) in
              (
                s',
                net',
                rw other (rw hit (rw (e1, ◌>>=◌) e)),
                Pass-made i (take turns is) name s s1 s'
                    (bytes_eq_sound _ _ hit ∙ n, bytes_ne _ _ other) d p,
              )
          | inr miss ↦
              let (s', net', e, p) = revive-Pass turns is name s net r (omega arith) n in
              (
                s',
                net',
                rw other (rw miss e),
                Pass-skip i (take turns is) name s s' (λ en. bytes_ne _ _ miss (en.0 ∙ sym n)) p,
              )
        ]
      ]

  module _ (c : Config) (cs : List Config) where
    -- The entries that the loop looks at.
    abbrev pub entries : List ServerInfo
    entries = take c.server_count c.server_info

    Pass-Fate :
        (s s' : Server) → s.status ≡ ss_breakdown → Pass entries s.name s s' → Fate entries s s'
    Pass-Fate s s' b (inl (a, e)) = unknown b a e
    Pass-Fate s s' b (inr (i, m, e, d)) = remade i b m e d

    breakdown : (st : ServerStatus) → is_breakdown st ≡ true → st ≡ ss_breakdown
    breakdown st h = ground arith

    not-breakdown : (st : ServerStatus) → is_breakdown st ≡ false → st ≢ ss_breakdown
    not-breakdown st h = ground arith

    check_server-Fate :
        (s : Server) (net : Net)
        → Resolves
        → c.server_count ≤ length c.server_info
        → (s' : Server) × (net' : Net) × (check_server dial (c ∷ cs) s net ≡ ok (s', net'))
          × Fate entries s s'
    unfolding check_server
    check_server-Fate s net r l = elim (Bool-cases (is_breakdown s.status)) [
      | inl down' ↦
          let (s', net', e, p) = revive-Pass c.server_count c.server_info s.name s net r l refl in
          (s', net', rw down' e, Pass-Fate s s' (breakdown s.status down') p)
      | inr up ↦ (s, net, rw up, working (not-breakdown s.status up) refl)
    ]

    check_pool-Fates :
        (ss : List Server) (net : Net)
        → Resolves
        → c.server_count ≤ length c.server_info
        → (ss' : List Server) × (net' : Net) × (check_pool dial (c ∷ cs) ss net ≡ ok (ss', net'))
          × Fates entries ss ss'
    unfolding check_pool
    check_pool-Fates [] net r l = ([], net, refl, tt)
    check_pool-Fates (s ∷ ss) net r l =
        let (s', net1, e, f) = check_server-Fate s net r l in
        let (ss', net', e', fs) = check_pool-Fates ss net1 r l in
        (s' ∷ ss', net', rw (e, ◌>>=◌) (rw (e', ◌>>=◌)), (f, fs))

  -- With a first configuration that has as many entries as it counts, all with addresses that
  -- resolve, the check ends well, and changes nothing but the pool. Of each server, in its place:
  -- one that is not broken down is left alone; so is one for which no entry of its name, other
  -- than the fund's, stands among those counted; any other is replaced by a connection that was
  -- made from such an entry.
  pub check_client_vector-Fates :
      (s : Servers) (c : Config) (cs : List Config) (net : Net)
      → s.configs ≡ c ∷ cs
      → Resolves
      → c.server_count ≤ length c.server_info
      → (pool' : List Server) × (net' : Net) × (check_client_vector dial s net
          ≡ ok (record s { pool = pool' }, net'))
        × Fates (take c.server_count c.server_info) s.pool pool'
  unfolding check_client_vector
  check_client_vector-Fates s c cs net q r l =
      let (ss', net', e, f) = check_pool-Fates c cs s.pool net r l in
      (ss', net', ap finish (ap (λ k. check_pool dial k s.pool net) q ∙ e), f)
    where
      finish : Outcome (List Server × Net) → Outcome (Servers × Net)
      finish o = o >>= λ r. ok (record s { pool = r.0 }, r.1)
