-- ===== src/ClientSocket/Closing.antt =====
-- A socket of ARST_QUOTE/ARSTCommon/ARSTClientSocket.cpp is closed and freed once.
use cta_alristrol_gallardo_v.Base.{
  ◌≡◌, refl, ◌⊎◌, inl, inr, true, false, some, List, [], ◌∷◌, arith, ℤ, pos,
}
use cta_alristrol_gallardo_v.ClientSocket.{
  ClientSocket, css_connected, css_disconnect, new_client_socket, connect, close, disconnect, send,
  recv, connect_tcp, on_connect,
}

-- One use of a socket behind its connection.
pub data Use : Type 0 where
  sends recvs : ℤ → Use
  disconnects : Use

pub use_once : ClientSocket → Use → ClientSocket
unfolding send recv disconnect
use_once s (sends r) = (send s r).0
use_once s (recvs r) = (recv s r).0
use_once s disconnects = disconnect s

unfoldable pub use_all : ClientSocket → List Use → ClientSocket
unfolding use_once
use_all s [] = s
use_all s (u ∷ us) = use_all (use_once s u) us

-- Either the socket is open, with its address, or both are given back, each once.
pub data Ledger (fd : ℤ) (s : ClientSocket) : Type 0 where
  held :
      s.status ≡ css_connected
      → s.socket ≡ fd
      → s.addr_res ≡ true
      → s.closed ≡ []
      → s.frees ≡ 0
      → Ledger fd s
  returned :
      s.status ≡ css_disconnect
      → s.addr_res ≡ false
      → s.closed ≡ fd ∷ []
      → s.frees ≡ 1
      → Ledger fd s

close-Ledger : (fd : ℤ) (s : ClientSocket) → Ledger fd s → Ledger fd (close s)
unfolding close
close-Ledger fd s (held a b c d e) =
    returned (ground arith) (ground arith) (ground arith) (ground arith)
close-Ledger fd s (returned a b c d) =
    returned (ground arith) (ground arith) (ground arith) (ground arith)

use_once-cases : (s : ClientSocket) (u : Use) → (use_once s u ≡ s) ⊎ (use_once s u ≡ close s)
unfolding use_once
use_once-cases s (sends r) = ground arith
use_once-cases s (recvs r) = ground arith
use_once-cases s disconnects = inr refl

use_once-Ledger : (fd : ℤ) (s : ClientSocket) (u : Use) → Ledger fd s → Ledger fd (use_once s u)
use_once-Ledger fd s u l = elim (use_once-cases s u) [
  | inl e ↦ rw e l
  | inr e ↦ rw e (close-Ledger fd s l)
]

use_all-Ledger :
    (fd : ℤ) (s : ClientSocket) (us : List Use) → Ledger fd s → Ledger fd (use_all s us)
unfolding use_all
use_all-Ledger fd s [] l = l
use_all-Ledger fd s (u ∷ us) l = use_all-Ledger fd (use_once s u) us (use_once-Ledger fd s u l)

-- The socket that a successful `Connect` over TCP leaves.
dialled : ℤ → ClientSocket
dialled fd = record {
  has_callback = true;
  socket = fd;
  status = css_connected;
  addr_res = true;
  closed = [];
  frees = 0;
}

-- A new socket that connects over TCP calls `OnConnect`. Whatever is sent, received or
-- disconnected on it then, and whatever the system answers, it either still holds its descriptor
-- and its address, or it has closed this descriptor once, freed the address once, and closed and
-- freed nothing else.
pub connect-Ledger :
    (fd : ℤ) (us : List Use)
    → (s : ClientSocket) × (connect
          (new_client_socket true)
          connect_tcp
          (record { resolved = true; descriptor = fd; result = pos 0 })
        ≡ some (s, some on_connect))
      × Ledger fd (use_all s us)
unfolding connect new_client_socket dialled
connect-Ledger fd us =
    (dialled fd, refl, use_all-Ledger fd (dialled fd) us (held refl refl refl refl refl))
