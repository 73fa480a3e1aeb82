-- ===== src/Examples/Wires.antt =====
-- Wires that take one byte at a time, and three clients on sockets of their own.
use cta_alristrol_gallardo_v.Base.{
  ℕ, ◌≡◌, refl, sym, ◌≢◌, inl, inr, List, [], ◌∷◌, ◌++◌, append-nil, arith, if◌then◌else◌,
  Bool-cases, ℤ, pos, eq_ℤ, eq_ℤ_iff,
}
use cta_alristrol_gallardo_v.Client.{Client, cs_offline}
use cta_alristrol_gallardo_v.Client.Sending.{IsSend}
use cta_alristrol_gallardo_v.Client.Wire.{IsWire, accepted}
use cta_alristrol_gallardo_v.Clients.{Slot}
use cta_alristrol_gallardo_v.QueueDao.Wire.{Apart}
use cta_alristrol_gallardo_v.Examples.Sending.{alice}

-- What is on the wire of each socket.
abbrev pub Wires : Type 0
Wires = ℤ → List ℕ

pub byte_send : ℤ → List ℕ → Wires → ℤ × Wires
byte_send fd [] net = (pos 0, net)
byte_send fd (b ∷ bs) net = (pos 1, λ j. if eq_ℤ j fd then net j ++ b ∷ [] else net j)

byte_send-IsSend : IsSend byte_send
unfolding byte_send
byte_send-IsSend fd [] net = omega arith
byte_send-IsSend fd (b ∷ bs) net = omega arith

abbrev pub on_wire : Wires → ℤ → List ℕ
on_wire net = net

byte_send-logs :
    (fd : ℤ) (offered : List ℕ) (net : Wires)
    → (byte_send fd offered net).1 fd ≡ net fd ++ accepted (byte_send fd offered net).0 offered
unfolding byte_send
byte_send-logs fd [] net = sym (append-nil (net fd))
byte_send-logs fd (b ∷ bs) net = rw ((eq_ℤ_iff fd fd).1 refl) refl

byte_send-others :
    (fd other : ℤ) (offered : List ℕ) (net : Wires)
    → fd ≢ other
    → (byte_send fd offered net).1 other ≡ net other
unfolding byte_send
byte_send-others fd other [] net n = refl
byte_send-others fd other (b ∷ bs) net n = elim (Bool-cases (eq_ℤ other fd)) [
  | inl same ↦ absurd (n (sym ((eq_ℤ_iff other fd).0 same)))
  | inr apart ↦ rw apart refl
]

pub byte_send-IsWire : IsWire byte_send on_wire
byte_send-IsWire = record {
  bound = byte_send-IsSend;
  logs = byte_send-logs;
  others = byte_send-others;
}

-- Nothing yet.
abbrev pub silence : Wires
silence fd = []

abbrev bob : Client
bob = record alice { addr = record { socket = pos 8; ip = [] } }

abbrev carol : Client
carol = record alice { addr = record { socket = pos 9; ip = [] }; status = cs_offline }

-- Two that are online, and a dead one.
abbrev pub three : List Slot
three =
    record { client = alice; use_count = 1; taken = [] }
    ∷ record { client = bob; use_count = 1; taken = [] }
    ∷ record { client = carol; use_count = 1; taken = [] }
    ∷ []

pub three-Apart : Apart three
three-Apart = (((λ e. cc), ((λ e. cc), tt)), (((λ e. cc), tt), (tt, tt)))
