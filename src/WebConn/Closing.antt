-- ===== src/WebConn/Closing.antt =====
-- The end of a connection object in ARST_QUOTE/ARSTWebConn.cpp (`ARSTServer::~ARSTServer`).
use cta_alristrol_gallardo_v.Base.{false, Option, none, some}
use cta_alristrol_gallardo_v.ClientSocket.{ClientSocket}
use cta_alristrol_gallardo_v.WebConn.{Server, set_status, ss_breakdown}

-- The destructor, with the socket that it deletes. The destructor of a socket does nothing, so that
-- its descriptor stays as it was.
unfoldable pub destroy : Server → Server × Option ClientSocket
unfolding set_status
destroy s = elim s.socket [
  | none ↦ (record s { has_heartbeat = false }, none)
  | some sock ↦
      (record (set_status s ss_breakdown) { socket = none; has_heartbeat = false }, some sock)
]
