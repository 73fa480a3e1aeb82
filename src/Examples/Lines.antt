-- ===== src/Examples/Lines.antt =====
-- Lines of an exchange: a network that holds the bytes to come, and fails behind them.
use cta_alristrol_gallardo_v.Base.{
  ℕ, zero, suc, ◌≤◌, ◌≡◌, refl, true, some, List, [], ◌∷◌, ◌++◌, arith, replicate, All,
  length-replicate, ℤ, pos, negsuc,
}
use cta_alristrol_gallardo_v.ClientSocket.{css_connected}
use cta_alristrol_gallardo_v.WebConn.{Server, ss_free, round, faults}
use cta_alristrol_gallardo_v.WebConn.Feed.{IsOpen, IsText, Feeds, done, byte}
use cta_alristrol_gallardo_v.WebConn.Status.{dialled}
use cta_alristrol_gallardo_v.WebConn.Lines.{round_overlong}

unfoldable pub held_bytes : ℕ → List ℕ → ℤ × List ℕ × List ℕ
held_bytes n [] = (negsuc 0, [], [])
held_bytes zero (b ∷ bs) = (pos 0, [], b ∷ bs)
held_bytes (suc n) (b ∷ bs) = (pos 1, b ∷ [], bs)

abbrev pub line_server : Server
line_server = record {
  host = [];
  para = [];
  name = 66 ∷ [];
  market = 0;
  status = ss_free;
  socket =
      some (dialled (record { resolved = true; descriptor = pos 4; result = pos 0 }) css_connected);
  started = true;
  has_heartbeat = true;
  replies = 0;
}

pub line_server-IsOpen : IsOpen line_server
line_server-IsOpen = record {
  sock = dialled (record { resolved = true; descriptor = pos 4; result = pos 0 }) css_connected;
  held = refl;
  connected = refl;
}

pub held_bytes-Feeds : (bs cs : List ℕ) → Feeds held_bytes (bs ++ cs) bs cs
unfolding held_bytes
held_bytes-Feeds [] cs = done
held_bytes-Feeds (b ∷ bs) cs = byte b refl (held_bytes-Feeds bs cs)

abbrev pub tick_line : List ℕ
tick_line = 84 ∷ 44 ∷ 53 ∷ []

pub tick_line-IsText : All IsText tick_line
tick_line-IsText = (letter (omega arith), (letter (omega arith), (letter (omega arith), tt)))
  where
    letter : {b : ℕ} → 13 ≤ b → IsText b
    letter p = ((λ e. absurd (omega arith)), (λ e. absurd (omega arith)))

replicate-IsText : (n : ℕ) → All IsText (replicate n 65)
replicate-IsText zero = tt
replicate-IsText (suc n) =
    (((λ e. absurd (omega arith)), (λ e. absurd (omega arith))), replicate-IsText n)

round_overlong_example : round held_bytes line_server (replicate 1024 65 ++ 66 ∷ []) ≡ faults
round_overlong_example =
    round_overlong held_bytes line_server (replicate 1024 65) (replicate 1024 65 ++ 66 ∷ [])
      (66 ∷ []) refl line_server-IsOpen refl (replicate-IsText 1024)
      (length-replicate {A = ℕ} 1024 65) (held_bytes-Feeds (replicate 1024 65) (66 ∷ []))
