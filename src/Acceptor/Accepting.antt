-- ===== src/Acceptor/Accepting.antt =====
-- Who becomes a client in ARST_QUOTE/ARSTServer.cpp.
use cta_alristrol_gallardo_v.Base.{
  ℕ, ◌≤◌, ◌<◌, ◌≡◌, refl, sym, ap, ◌∙◌, ◌≢◌, inl, inr, true, some, List, [], ◌∷◌, ◌++◌, map,
  append-nil, append_assoc, arith, ltb, Bool-cases, length, length-append, negsuc, pos, ℤ, ltb→lt,
  ltb_false→le,
}
use cta_alristrol_gallardo_v.Text.{decimal, stoi, Parsed, number, invalid_argument, out_of_range}
use cta_alristrol_gallardo_v.Client.{cs_none}
use cta_alristrol_gallardo_v.Text.Digits.{HasWidth, length-decimal}
use cta_alristrol_gallardo_v.Acceptor.{
  Ipv4, ip_text, Acceptor, Accepted, set_configuration, accept_one, run,
}
use cta_alristrol_gallardo_v.Clients.{
  Clients, Slot, new_client, beat_interval_of, accept_client, push_back_client_to_vector,
}
use cta_alristrol_gallardo_v.ServerSocket
use cta_alristrol_gallardo_v.ServerSocket.{ServerSocket, ListenAnswers, is_listening}
use cta_alristrol_gallardo_v.ServerSocket.Shutting.{listener, listen-listener}

-- A byte prints to three digits at most.
length-decimal_byte : (n : ℕ) → n < 256 → length (decimal n) ≤ 3
length-decimal_byte n l = elim (Bool-cases (ltb n 10)) [
  | inl one ↦ omega (arith, length-decimal 0 n (ltb→lt n 10 one) (omega arith))
  | inr more ↦ elim (Bool-cases (ltb n 100)) [
    | inl two ↦
        let w : HasWidth 1 n = (ltb_false→le n 10 more, omega (arith, ltb→lt n 100 two)) in
        omega (arith, length-decimal 1 n w (omega (arith, ltb_false→le n 10 more)))
    | inr three ↦
        let w : HasWidth 2 n =
          (ltb_false→le n 10 more, (omega (arith, ltb_false→le n 100 three), omega arith)) in
        omega (arith, length-decimal 2 n w (omega (arith, ltb_false→le n 100 three)))
  ]
]

-- The bytes of an address.
pub record IsIpv4 (i : Ipv4) : Type 0 where
  pub a : i.a < 256
  pub b : i.b < 256
  pub c : i.c < 256
  pub d : i.d < 256

-- The text of an address fits the 16 bytes of `caIP`, with the NUL behind it.
pub length-ip_text : (i : Ipv4) → IsIpv4 i → length (ip_text i) < 16
unfolding ip_text
length-ip_text i v = omega (
  arith,
  length-append (decimal i.a) (46 ∷ (decimal i.b ++ 46 ∷ (decimal i.c ++ 46 ∷ decimal i.d))),
  length-append (decimal i.b) (46 ∷ (decimal i.c ++ 46 ∷ decimal i.d)),
  length-append (decimal i.c) (46 ∷ decimal i.d),
  length-decimal_byte i.a v.a,
  length-decimal_byte i.b v.b,
  length-decimal_byte i.c v.c,
  length-decimal_byte i.d v.d,
)

-- A client with this EPID and this interval, as it stands behind the list when it was accepted.
abbrev pub accepted : List ℕ → ℤ → Accepted → Slot
accepted epid interval p = record {
  client = record {
    addr = record { socket = p.descriptor; ip = ip_text p.ip };
    status = cs_none;
    epid = epid;
    beat_interval = interval;
    replies = 0;
  };
  use_count = 1;
  taken = [];
}

run-append :
    (ps : List Accepted) (cs : Clients) (s : ServerSocket)
    → is_listening s.status ≡ true
    → run cs s ps ≡ record cs {
      slots =
          cs.slots ++ map (accepted cs.epid_num (beat_interval_of (stoi cs.heart_beat_time))) ps;
    }
unfolding run accept_client push_back_client_to_vector new_client ServerSocket.get_status
run-append [] cs s l = ap (λ ss. record cs { slots = ss }) (sym (append-nil cs.slots))
run-append (p ∷ ps) cs s l = rw l (
    run-append ps (accept_one cs p) s l
    ∙ ap (λ ss. record cs { slots = ss }) (append_assoc cs.slots (made p ∷ []) (map made ps)))
  where
    made : Accepted → Slot
    made = accepted cs.epid_num (beat_interval_of (stoi cs.heart_beat_time))

-- The interval that `stoi` reads from a text, or 0 where it throws.
pub data Reads (time : List ℕ) : ℤ → Type 0 where
  read : {n : ℤ} → stoi time ≡ number n → Reads time n
  thrown : ((n : ℤ) → stoi time ≢ number n) → Reads time (pos 0)

Reads-stoi : (time : List ℕ) (p : Parsed) → stoi time ≡ p → Reads time (beat_interval_of p)
unfolding beat_interval_of
Reads-stoi time (number n) e = read e
Reads-stoi time invalid_argument e = thrown (λ n f. cc)
Reads-stoi time out_of_range e = thrown (λ n f. cc)

-- The acceptor that a configuration leaves where it listens.
abbrev pub configured : Acceptor → List ℕ → List ℕ → List ℕ → ℕ → ListenAnswers → Acceptor
configured c port time epid service a = record {
  clients = record c.clients {
    listen_port = port;
    heart_beat_time = time;
    epid_num = epid;
    service = service;
    has_server_socket = true;
  };
  server_socket = some (listener a);
  started = true;
}

pub set_configuration-configured :
    (c : Acceptor) (port time epid : List ℕ) (service : ℕ) (a : ListenAnswers)
    → a.resolved ≡ true
    → a.listening ≢ negsuc 0
    → set_configuration c port time epid service a ≡ some (configured c port time epid service a)
unfolding set_configuration
set_configuration-configured c port time epid service a r l =
    rw (listen-listener a r l, set_configuration) refl

-- If the address resolves and `listen` does not fail, `SetConfiguration` makes a listening socket and
-- starts the thread, whatever `bind` has answered. The thread then puts behind the list a client for
-- each connection that it accepts, also one that the system refused with -1, in their order: each
-- has the descriptor and the printed address, the EPID of this configuration, the status none, and
-- the interval that `stoi` reads from this configuration's text, or 0 where it throws.
pub set_configuration-run :
    (c : Acceptor) (port time epid : List ℕ) (service : ℕ) (a : ListenAnswers) (ps : List Accepted)
    → a.resolved ≡ true
    → a.listening ≢ negsuc 0
    → (c' : Acceptor) × (set_configuration c port time epid service a ≡ some c')
      × (c'.started ≡ true)
      × (c'.server_socket ≡ some (listener a))
      × (c'.clients.heart_beat_time ≡ time)
      × (c'.clients.epid_num ≡ epid)
      × (interval : ℤ) × Reads time interval
      × (run c'.clients (listener a) ps
          ≡ record c'.clients { slots = c.clients.slots ++ map (accepted epid interval) ps })
set_configuration-run c port time epid service a ps r l = (
  configured c port time epid service a,
  set_configuration-configured c port time epid service a r l,
  refl,
  refl,
  refl,
  refl,
  beat_interval_of (stoi time),
  Reads-stoi time (stoi time) refl,
  run-append ps (configured c port time epid service a).clients (listener a) refl,
)
