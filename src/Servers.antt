-- ===== src/Servers.antt =====
-- ARST_QUOTE/ARSTWebConns.cpp and .h: the pool of connections to exchanges (`ARSTServers`).
-- `dial` answers the `Connect` of a new connection: it is the network's, with its state `Net`.
pub mod Monitor
pub mod StartUp
pub mod Revival
use mathlib.Core.Option
use cta_alristrol_gallardo_v.Base.{
  ℕ, zero, suc, ◌+◌, Bool, true, false, Option, none, some, List, [], ◌∷◌, ◌++◌, if◌then◌else◌,
  bytes_eq, get_elem?,
}
use cta_alristrol_gallardo_v.ClientSocket.{Dial}
use cta_alristrol_gallardo_v.Text.{codes}
use cta_alristrol_gallardo_v.WebConn.{Server, ServerStatus, ss_breakdown, new_server}

pub record ServerInfo : Type 0 where
  pub host : List ℕ
  pub para : List ℕ
  pub name : List ℕ

-- A negative `nServerCount` makes no turn of a loop, as 0 does.
pub record Config : Type 0 where
  pub server_count : ℕ
  pub server_set : ℕ
  pub server_info : List ServerInfo

-- `errors` counts the lines "OUT_OF_RANGE_ERROR" of the log.
pub record Servers : Type 0 where
  pub configs : List Config
  pub pool : List Server
  pub errors : ℕ

-- How a call ends: with a result, with an exception `out_of_range` that it does not catch, or with
-- a null pointer used.
pub data Outcome (A : Type 0) : Type 0 where
  ok : A → Outcome A
  out_of_range null_pointer : Outcome A

infixl 5 ◌>>=◌
abbrev pub ◌>>=◌ : {A B : Type 0} → Outcome A → (A → Outcome B) → Outcome B
ok a >>= f = f a
out_of_range >>= f = out_of_range
null_pointer >>= f = null_pointer

-- `vector::at`.
abbrev pub at : {A : Type 0} → List A → ℕ → Outcome A
at xs i = elim (get_elem? xs i) [ none ↦ out_of_range | some x ↦ ok x ]

abbrev pub present : {A : Type 0} → Option A → Outcome A
present none = null_pointer
present (some a) = ok a

abbrev pub rm_num : ℕ
rm_num = 1

abbrev pub rm_bitmex : ℕ
rm_bitmex = 0

abbrev pub fund_name : List ℕ
fund_name = codes "BITMEXFUND"

abbrev pub is_breakdown : ServerStatus → Bool
is_breakdown ss_breakdown = true
is_breakdown _ = false

unfoldable pub set_configuration : Servers → Config → Servers
set_configuration s c = record s { configs = s.configs ++ c ∷ [] }

unfoldable pub get_server_by_name : List Server → List ℕ → Option Server
get_server_by_name [] name = none
get_server_by_name (s ∷ ss) name =
    if bytes_eq s.name name then some s else get_server_by_name ss name

-- The handler of `out_of_range`: a line of the log.
abbrev caught : {Net : Type 0} → Servers → Net → Outcome (Servers × Net) → Outcome (Servers × Net)
caught s net (ok r) = ok r
caught s net out_of_range = ok (record s { errors = s.errors + 1 }, net)
caught s net null_pointer = null_pointer

module _ {Net : Type 0} (dial : ServerInfo → Net → Dial × Net) where
  -- A new connection of an entry.
  pub connect_new : ServerInfo → ℕ → Net → Outcome (Server × Net)
  connect_new i market net =
      let (d, net') = dial i net in
      elim (new_server i.host i.para i.name market d) [
        | none ↦ null_pointer
        | some s ↦ ok (s, net')
      ]

  unfoldable pub add_free_server : Servers → ℕ → ℕ → Net → Outcome (Servers × Net)
  unfolding connect_new
  add_free_server s market index net = caught s net (do
    c ← at s.configs market
    i ← at c.server_info index
    (server, net') ← connect_new i market net
    ok (record s { pool = s.pool ++ server ∷ [] }, net'))

  -- The loop over `j`, with `turns` left.
  start_market : ℕ → ℕ → ℕ → Servers → Net → Outcome (Servers × Net)
  unfolding add_free_server
  start_market zero market j s net = ok (s, net)
  start_market (suc turns) market j s net =
      add_free_server s market j net >>= λ r. start_market turns market (j + 1) r.0 r.1

  -- `StartUpServers`, whose loop over the markets has one turn.
  unfoldable pub start_up_servers : Servers → Net → Outcome (Servers × Net)
  unfolding start_market
  start_up_servers s net =
      caught s net (at s.configs rm_bitmex >>= λ c. start_market c.server_count rm_bitmex 0 s net)

  -- The loop over `j` of `CheckClientVector`, for the server in a place of the pool.
  revive : ℕ → List ServerInfo → Server → Net → Outcome (Server × Net)
  unfolding connect_new
  revive zero is s net = ok (s, net)
  revive (suc turns) [] s net = out_of_range
  revive (suc turns) (i ∷ is) s net =
      let rest = revive turns is in
      if bytes_eq i.name fund_name
      then rest s net
      else if bytes_eq i.name s.name
      then (connect_new i rm_bitmex net >>= λ r. rest r.0 r.1)
      else rest s net

  -- One place of the pool.
  check_server : List Config → Server → Net → Outcome (Server × Net)
  unfolding revive
  check_server configs s net =
      if is_breakdown s.status
      then (at configs 0 >>= λ c. revive c.server_count c.server_info s net)
      else ok (s, net)

  -- The loop over `i` of `CheckClientVector`.
  check_pool : List Config → List Server → Net → Outcome (List Server × Net)
  unfolding check_server
  check_pool configs [] net = ok ([], net)
  check_pool configs (s ∷ ss) net =
      check_server configs s net >>= λ r. check_pool configs ss r.1 >>= λ q. ok (r.0 ∷ q.0, q.1)

  unfoldable pub check_client_vector : Servers → Net → Outcome (Servers × Net)
  unfolding check_pool
  check_client_vector s net =
      check_pool s.configs s.pool net >>= λ r. ok (record s { pool = r.0 }, r.1)
