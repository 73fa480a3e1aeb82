-- ===== src/Examples/Memory.antt =====
-- A segment that is attached twice and removed, and the tool on serial numbers.
use cta_alristrol_gallardo_v.Base.{ℕ, ◌≡◌, refl, none, some, List, [], ◌∷◌, pos, negsuc, arith}
use cta_alristrol_gallardo_v.Text.{codes, stol, decimal}
use cta_alristrol_gallardo_v.SharedMemory.Serial.{tool-decimal}
use cta_alristrol_gallardo_v.SharedMemory.{
  SharedMemory, new_shared_memory, destroy, tool, returns, terminates,
}
use cta_alristrol_gallardo_v.SharedMemory.Attachments.{
  Use, attaches, detaches, removes, use_all, destroy-detaches,
}

abbrev segment : SharedMemory
segment = record {
  shmid = pos 3;
  ptr = some 4096;
  attached = 4096 ∷ [];
  detached = [];
  removals = 0;
}

segment_made : new_shared_memory (pos 3) (some 4096) ≡ some segment
unfolding new_shared_memory
segment_made = refl

abbrev uses : List Use
uses = attaches (some 8192) ∷ detaches ∷ attaches none ∷ attaches (some 8192) ∷ removes ∷ []

destroy-detaches_example :
    (destroy (use_all segment uses)).attached ≡ (destroy (use_all segment uses)).detached
destroy-detaches_example = destroy-detaches (pos 3) (some 4096) segment uses segment_made

tool-decimal_example :
    tool (codes "set" ∷ codes "77" ∷ decimal 1234567890123 ∷ []) (pos 3) (some 4096)
    ≡ returns 0 (some (pos 1234567890123))
tool-decimal_example =
    tool-decimal (codes "set") (codes "77") 1234567890123 (pos 3) segment (some 4096) (omega arith)
      (omega arith) segment_made

abbrev arguments : List ℕ → List (List ℕ)
arguments serial = codes "set" ∷ codes "77" ∷ serial ∷ []

serial_stored :
    tool (arguments (codes "1234567890123")) (pos 3) (some 4096)
    ≡ returns 0 (some (pos 1234567890123))
unfolding tool new_shared_memory stol
serial_stored = refl

-- Twelve digits are refused, but a sign and what follows the digits are not.
short_refused : tool (arguments (codes "123456789012")) (pos 3) (some 4096) ≡ returns 1 none
unfolding tool new_shared_memory stol
short_refused = refl

junk_stored :
    tool (arguments (codes "-12 is a text")) (pos 3) (some 4096) ≡ returns 0 (some (negsuc 11))
unfolding tool new_shared_memory stol
junk_stored = refl

-- Without a segment the exception of the constructor ends the tool.
no_segment : tool (arguments (codes "1234567890123")) (negsuc 0) none ≡ terminates
unfolding tool new_shared_memory
no_segment = refl
