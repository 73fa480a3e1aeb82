-- ===== src/Examples/Sending.antt =====
-- A network that takes two bytes at a time, and one that fails after a number of sends.
use cta_alristrol_gallardo_v.Base.{
  ℕ, zero, suc, ◌≡◌, refl, true, false, some, List, [], ◌∷◌, arith, ℤ, pos, negsuc,
}
use cta_alristrol_gallardo_v.Client.{Client, cs_online, cs_offline, Sent, send_all}
use cta_alristrol_gallardo_v.Client.Sending.{IsSend, Outcome, send_all-Outcome}

-- `net` sends succeed, of two bytes at most.
pub slow_send : ℤ → List ℕ → ℕ → ℤ × ℕ
slow_send fd [] net = (pos 0, net)
slow_send fd (b ∷ []) zero = (negsuc 0, zero)
slow_send fd (b ∷ []) (suc net) = (pos 1, net)
slow_send fd (b ∷ c ∷ bs) zero = (negsuc 0, zero)
slow_send fd (b ∷ c ∷ bs) (suc net) = (pos 2, net)

pub slow_send-IsSend : IsSend slow_send
unfolding slow_send
slow_send-IsSend fd [] net = omega arith
slow_send-IsSend fd (b ∷ []) zero = tt
slow_send-IsSend fd (b ∷ []) (suc net) = omega arith
slow_send-IsSend fd (b ∷ c ∷ bs) zero = tt
slow_send-IsSend fd (b ∷ c ∷ bs) (suc net) = omega arith

abbrev pub alice : Client
alice = record {
  addr = record { socket = pos 7; ip = 49 ∷ [] };
  status = cs_online;
  epid = [];
  beat_interval = pos 30;
  replies = 0;
}

abbrev hello : List ℕ
hello = 104 ∷ 101 ∷ 108 ∷ 108 ∷ 111 ∷ []

send_all-Outcome_example :
    (s : Sent ℕ) × (send_all slow_send alice hello 5 9 ≡ some s) × Outcome alice hello s
send_all-Outcome_example = send_all-Outcome slow_send alice hello 9 slow_send-IsSend

-- Three sends carry it; after one the client is offline.
hello_sent :
    send_all slow_send alice hello 5 9
    ≡ some (record { client = alice; net = 6; taken = hello; result = true })
unfolding send_all slow_send
hello_sent = refl

hello_cut :
    send_all slow_send alice hello 5 1
    ≡ some (record {
      client = record alice { status = cs_offline };
      net = 0;
      taken = 104 ∷ 101 ∷ [];
      result = false;
    })
unfolding send_all slow_send
hello_cut = refl
