-- ===== src/Examples/Walks.antt =====
-- Three clients, of which the vector alone holds the first and the second.
use cta_alristrol_gallardo_v.Base.{◌≡◌, refl, ◌↔◌, true}
use cta_alristrol_gallardo_v.Clients.Walk.{Walk, Reach, begun, alone, lost}
use cta_alristrol_gallardo_v.Clients.Walk.Lost.{walk-lost_iff}
use cta_alristrol_gallardo_v.Examples.Sweep.{crowd}

walk-lost_iff_example :
    ((w : Walk) × Reach (begun crowd.slots) w × (w.at ≡ lost)) ↔ (alone crowd.slots ≡ true)
walk-lost_iff_example = walk-lost_iff crowd.slots

-- The second is offline already, and a send to the first may fail.
crowd_alone : alone crowd.slots ≡ true
unfolding alone
crowd_alone = refl
