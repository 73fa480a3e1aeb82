-- ===== src/Recovery.antt =====
-- How a connection to an exchange is replaced: the thread of ARST_QUOTE/ARSTWebConn.cpp finds that it
-- is cut, the pool of ARST_QUOTE/ARSTWebConns.cpp makes another in its place, and the thread of that
-- one reads on.
use cta_alristrol_gallardo_v.Base.{
  Option, none, ℕ, suc, ◌≤◌, ◌<◌, ◌≡◌, refl, sym, ap, subst, ◌∙◌, ◌≢◌, inl, inr, true, false,
  Option, none, some, List, [], ◌∷◌, ◌++◌, map, Bool-cases, length, take, All, ℤ, pos, ◌⊎◌, eq_ℤ,
  eq_ℤ_iff, arith,
}
use cta_alristrol_gallardo_v.ClientSocket.{Dial, css_connected}
use cta_alristrol_gallardo_v.WebConn.{
  Server, ss_breakdown, is_serving, run_start, set_status, round, down, ss_none, new_server,
}
use cta_alristrol_gallardo_v.WebConn.Feed.{IsOpen, IsText, Feeds, Ends}
use cta_alristrol_gallardo_v.WebConn.Reading.{heard}
use cta_alristrol_gallardo_v.WebConn.Lines.{round_cut}
use cta_alristrol_gallardo_v.WebConn.Status.{dialled, new_server_cases}
use cta_alristrol_gallardo_v.WebConn.Stream
use cta_alristrol_gallardo_v.WebConn.Stream.{line, total, FeedsLines, IsLine, run-lines}
use cta_alristrol_gallardo_v.Servers.{
  rm_bitmex, ServerInfo, Config, Servers, ok, check_client_vector,
}
use cta_alristrol_gallardo_v.Servers.Revival.{
  IsEntry, Any, IsMade, Fate, working, unknown, remade, Fates, Resolves, check_client_vector-Fates,
}

-- What becomes of the server in a place of the pool.
Fates-place :
    {Calls : Type 0} (dial : ServerInfo → Calls → Dial × Calls) (is : List ServerInfo)
    (front : List Server) (s : Server) (back pool' : List Server)
    → Fates dial is (front ++ s ∷ back) pool'
    → (front' : List Server) × (s' : Server) × (back' : List Server) × (pool'
        ≡ front' ++ s' ∷ back')
      × (length front' ≡ length front)
      × Fate dial is s s'
Fates-place dial is [] s back [] f = absurd f
Fates-place dial is [] s back (s' ∷ back') f = ([], s', back', refl, refl, f.0)
Fates-place dial is (x ∷ front) s back [] f = absurd f
Fates-place dial is (x ∷ front) s back (x' ∷ pool') f =
    let (front', s', back', e, l, g) = Fates-place dial is front s back pool' f.1 in
    (x' ∷ front', s', back', ap (λ p. x' ∷ p) e, ap suc l, g)

not-Any :
    (P : ServerInfo → Type 0) (is : List ServerInfo) (i : ServerInfo)
    → Any (λ j. j ≡ i) is
    → P i
    → ¬ All (λ j. ¬ P j) is
not-Any P [] i a p h = a
not-Any P (j ∷ is) i (inl e) p h = h.0 (subst P (sym e) p)
not-Any P (j ∷ is) i (inr a) p h = not-Any P is i a p h.1

-- A broken server that an entry may replace was made anew, from an entry of its name.
Fate-remade :
    {Calls : Type 0} (dial : ServerInfo → Calls → Dial × Calls) (is : List ServerInfo)
    (s s' : Server) (i : ServerInfo)
    → s.status ≡ ss_breakdown
    → Any (λ j. j ≡ i) is
    → IsEntry i s.name
    → Fate dial is s s'
    → (j : ServerInfo) × Any (λ k. k ≡ j) is × IsEntry j s.name × IsMade dial j s'
Fate-remade dial is s s' i b a e (working w _) = absurd (w b)
Fate-remade dial is s s' i b a e (unknown _ n _) =
    absurd (not-Any (λ j. IsEntry j s.name) is i a e n)
Fate-remade dial is s s' i b a e (remade j _ k n m) = (j, k, n, m)

-- A connection serves once its thread has started.
abbrev Serves : Server → Type 0
Serves s =
    (is_serving (run_start s).status ≡ true)
    × IsOpen (run_start s)
    × ((run_start s).has_heartbeat ≡ true)

-- What the constructor leaves where `connect` succeeds.
abbrev connected : ServerInfo → Dial → Server
connected i d = record {
  host = i.host;
  para = i.para;
  name = i.name;
  market = rm_bitmex;
  status = ss_none;
  socket = some (dialled d css_connected);
  started = true;
  has_heartbeat = false;
  replies = 0;
}

connected-Serves : (i : ServerInfo) (d : Dial) → Serves (connected i d)
unfolding run_start set_status
connected-Serves i d =
    (refl, record { sock = dialled d css_connected; held = refl; connected = refl }, refl)

some_inj : {s t : Server} → some s ≡ some t → s ≡ t
some_inj {s} e = ap (λ o. elim o [ none ↦ s | some x ↦ x ]) e

-- What was made is broken down if `connect` failed, and serves if not.
IsMade-cases :
    {Calls : Type 0} (dial : ServerInfo → Calls → Dial × Calls) (i : ServerInfo) (s : Server)
    (m : IsMade dial i s)
    → (((dial i m.dialling).0.result ≢ pos 0) × (s.status ≡ ss_breakdown))
      ⊎ (((dial i m.dialling).0.result ≡ pos 0) × Serves s)
IsMade-cases dial i s m =
    let (up, broken, lost) =
      new_server_cases i.host i.para i.name rm_bitmex (dial i m.dialling).0 in
    elim (Bool-cases (dial i m.dialling).0.resolved) [
      | inr r ↦ absurd (none-ne-some (sym (lost r) ∙ m.made))
      | inl r ↦ elim (Bool-cases (eq_ℤ (dial i m.dialling).0.result (pos 0))) [
        | inl same ↦
            let z = (eq_ℤ_iff (dial i m.dialling).0.result (pos 0)).0 same in
            inr (
              z,
              subst Serves (some_inj (sym (up r z) ∙ m.made))
                  (connected-Serves i (dial i m.dialling).0),
            )
        | inr other ↦
            let f : (dial i m.dialling).0.result ≢ pos 0 = λ q. ground (arith, q, other) in
            inl (f, ap (λ t. t.status) (some_inj (sym m.made ∙ broken r f)))
      ]
    ]
  where
    none-ne-some : ◌≢◌ {A = Option Server} none (some s)
    none-ne-some e = cc

-- A serving connection in some place of the pool is cut: it is fed fewer than 1024 bytes with no
-- newline and no NUL, and then the read fails or finds the connection closed. Its round leaves it
-- broken down. Let the first configuration have as many entries as it counts, all with addresses
-- that resolve, and one of the server's name, not the fund's. Then the check of the pool ends well,
-- and in the place of the broken connection stands one that the constructor has made anew, from an
-- entry of this name and with what a dial of the entry's address has answered. If that `connect` has
-- failed, the new
-- connection is broken down, for the next check to replace; if not, once its thread has started, it
-- hands on the lines that it is fed, all of them and in their order.
pub cut-recovers :
    {Net Calls : Type 0} (recv : ℕ → Net → ℤ × List ℕ × Net)
    (dial : ServerInfo → Calls → Dial × Calls) (s : Server) (text : List ℕ)
    (net net1 net2 net3 : Net) (front back : List Server) (sv : Servers) (c : Config)
    (cs : List Config) (i : ServerInfo) (calls : Calls) (texts : List (List ℕ))
    → is_serving s.status ≡ true
    → IsOpen s
    → s.has_heartbeat ≡ true
    → All IsText text
    → length text < 1024
    → Feeds recv net text net1
    → Ends recv net1
    → sv.configs ≡ c ∷ cs
    → c.server_count ≤ length c.server_info
    → Resolves dial
    → Any (λ j. j ≡ i) (take c.server_count c.server_info)
    → IsEntry i s.name
    → All (IsLine recv) texts
    → FeedsLines recv net2 texts net3
    → (s1 s2 : Server) × (net' : Net) × (front' back' : List Server) × (calls' : Calls)
      × (j : ServerInfo) × (calls1 : Calls) × (round recv s net ≡ down s1 net')
      × (check_client_vector dial (record sv { pool = front ++ s1 ∷ back }) calls
          ≡ ok (record sv { pool = front' ++ s2 ∷ back' }, calls'))
      × (length front' ≡ length front)
      × Any (λ k. k ≡ j) (take c.server_count c.server_info)
      × (j.name ≡ s.name)
      × (new_server j.host j.para j.name rm_bitmex (dial j calls1).0 ≡ some s2)
      × ((((dial j calls1).0.result ≢ pos 0) × (s2.status ≡ ss_breakdown))
          ⊎ (((dial j calls1).0.result ≡ pos 0)
              × (Stream.run recv (length texts) (run_start s2) net2
                  ≡ some (heard (total texts) (run_start s2), net3, map line texts))))
cut-recovers recv dial s text net net1 net2 net3 front back sv c cs i calls texts v o h t l f n q b
      r a e ls fs =
    let (s1, net', cut, shape) = round_cut recv s text net net1 v o h t l f n in
    let (pool', calls', ok', fates) =
      check_client_vector-Fates dial (record sv { pool = front ++ s1 ∷ back }) c cs calls q r b in
    let (front', s2, back', split, same, fate) =
      Fates-place dial (take c.server_count c.server_info) front s1 back pool' fates in
    let named : s1.name ≡ s.name = ap (λ x. x.name) shape in
    let (j, member, entry, made) =
      Fate-remade dial (take c.server_count c.server_info) s1 s2 i (ap (λ x. x.status) shape) a
        (subst (IsEntry i) (sym named) e) fate in
    (
      s1,
      s2,
      net',
      front',
      back',
      calls',
      j,
      made.dialling,
      cut,
      ok' ∙ ap (λ p. ok (record sv { pool = p }, calls')) split,
      same,
      member,
      entry.0 ∙ named,
      made.made,
      elim (IsMade-cases dial j s2 made) [
        | inl (f, d) ↦ inl (f, d)
        | inr (z, (g, p, w)) ↦ inr (z, run-lines recv texts (run_start s2) net2 net3 g p w ls fs)
      ],
    )
