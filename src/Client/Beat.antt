-- ===== src/Client/Beat.antt =====
-- The request that the heartbeat of ARST_QUOTE/ARSTServiceHandler.cpp makes of a client
-- (`ARSTClient::OnHeartbeatRequest`): a text of the date, the time and the EPID, printed into 128
-- bytes and sent.
use cta_alristrol_gallardo_v.Base.{
  ℕ, ◌+◌, ◌≤◌, ◌<◌, ◌≡◌, refl, true, false, none, some, List, [], ◌∷◌, ◌++◌, arith, ltb,
  if◌then◌else◌, length, length-append, ℤ, lt→ltb, le→ltb_false,
}
use cta_alristrol_gallardo_v.Text.{codes}
use cta_alristrol_gallardo_v.Text.Clock.{
  Clock, IsClock, date_text, time_text, length-date_text, length-time_text,
}
use cta_alristrol_gallardo_v.Client.{Client, Sent, send_all, trigger_get_reply_event}
use cta_alristrol_gallardo_v.Client.Sending.{IsSend, Outcome, send_all-Outcome}

abbrev epid_text : List ℕ → List ℕ
epid_text epid = codes "00,EPID=" ++ (epid ++ 44 ∷ 13 ∷ 10 ∷ [])

-- What `sprintf` prints.
unfoldable pub heartbeat_request_text : Clock → List ℕ → List ℕ
heartbeat_request_text t epid =
    codes "03_ServerDate="
    ++ (date_text t ++ (codes ",ServerTime=" ++ (time_text t ++ epid_text epid)))

-- How the callback ends: with what was sent, or with a write outside the buffer. `out_of_fuel` is
-- none of the program's.
pub data Beat (Net : Type 0) : Type 0 where
  beaten : Sent Net → Beat Net
  overflows out_of_fuel : Beat Net

abbrev beat_buffer_size : ℕ
beat_buffer_size = 128

-- The callback. The EPID holds no NUL. The text and the NUL behind it need room.
unfoldable pub on_heartbeat_request :
    {Net : Type 0} → (ℤ → List ℕ → Net → ℤ × Net) → Client → Clock → Net → Beat Net
unfolding heartbeat_request_text
on_heartbeat_request send c t net =
    let text = heartbeat_request_text t c.epid in
    if ltb (length text) beat_buffer_size
    then elim (send_all send c text (length text) net) [
      | none ↦ out_of_fuel
      | some s ↦ beaten (record s { client = trigger_get_reply_event s.client })
    ]
    else overflows

length-heartbeat_request_text :
    (t : Clock) (epid : List ℕ)
    → IsClock t
    → length (heartbeat_request_text t epid) ≡ 51 + length epid
unfolding heartbeat_request_text
length-heartbeat_request_text t epid v = omega (
  arith,
  length-append (date_text t) (codes ",ServerTime=" ++ (time_text t ++ epid_text epid)),
  length-append (time_text t) (epid_text epid),
  length-append epid (44 ∷ 13 ∷ 10 ∷ []),
  length-date_text t v,
  length-time_text t v,
)

-- At a date and a time as `localtime` gives them, of a year of four digits: if the EPID has at most
-- 76 bytes, the text is given to `SendAll` as a whole, with its outcome, and the heartbeat is reset
-- once; if it has more, the text is written past the buffer. It is assumed of `send` that it takes
-- at most the bytes offered, and of the EPID that it holds no NUL.
pub on_heartbeat_request_cases :
    {Net : Type 0} (send : ℤ → List ℕ → Net → ℤ × Net) (c : Client) (t : Clock) (net : Net)
    → IsSend send
    → IsClock t
    → (length c.epid ≤ 76
        → (s : Sent Net) × (on_heartbeat_request send c t net
            ≡ beaten (record s { client = record s.client { replies = s.client.replies + 1 } }))
          × Outcome c (heartbeat_request_text t c.epid) s)
      × (76 < length c.epid → on_heartbeat_request send c t net ≡ overflows)
unfolding on_heartbeat_request trigger_get_reply_event
on_heartbeat_request_cases send c t net b v =
    let text = heartbeat_request_text t c.epid in
    let size = length-heartbeat_request_text t c.epid v in
    (
      λ l.
          let (s, e, o) = send_all-Outcome send c text net b in
          let fits : ltb (length text) 128 ≡ true = lt→ltb (length text) 128 (omega arith) in
          (s, rw fits (rw e refl), o),
      λ l.
          let full : ltb (length text) 128 ≡ false = le→ltb_false (length text) 128 (omega arith) in
          rw full refl,
    )
