-- ===== src/Examples/Segments.antt =====
-- The texts of the heartbeats, and segments of the server's shared memory.
use cta_alristrol_gallardo_v.Base.{◌≡◌, refl, some, [], ◌∷◌, replicate, pos}
use cta_alristrol_gallardo_v.Text.{codes}
use cta_alristrol_gallardo_v.Queue.{overwrite}
use cta_alristrol_gallardo_v.Globals.{new_globals, initial_global}
use cta_alristrol_gallardo_v.ServerMemory.{
  null, address, new_segment, attach_shared_memory, detach_shared_memory, destroy_segment,
}

-- The text that a client's errors show stays zero.
globals_filled : initial_global new_globals ≡ record {
  request_buf = 27 ∷ 48 ∷ codes "HTBT";
  reply_buf = 27 ∷ 48 ∷ codes "HTBR";
  unca_request_buf = replicate 6 0;
}
unfolding initial_global new_globals overwrite
globals_filled = refl

-- Attached and detached: once.
used_once :
    (destroy_segment (
      detach_shared_memory
        (attach_shared_memory (new_segment (pos 3)) (some 4096))
        (pos 0))).detached
    ≡ address 4096 ∷ []
unfolding destroy_segment detach_shared_memory attach_shared_memory new_segment
used_once = refl

-- Never attached: the destructor gives a null pointer to `shmdt`; attached twice: the first address
-- is lost.
never_attached : (destroy_segment (new_segment (pos 3))).detached ≡ null ∷ []
unfolding destroy_segment new_segment
never_attached = refl

attached_twice :
    (destroy_segment (
      attach_shared_memory
        (attach_shared_memory (new_segment (pos 3)) (some 4096))
        (some 8192))).detached
    ≡ address 8192 ∷ []
unfolding destroy_segment attach_shared_memory new_segment
attached_twice = refl
