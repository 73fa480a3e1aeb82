-- ===== src/Globals.antt =====
-- ARST_QUOTE/ARSTGlobal.cpp: the texts of the heartbeats and `InitialGlobal`, which fills them.
use cta_alristrol_gallardo_v.Base.{ℕ, List, [], ◌∷◌, ◌++◌, take, drop, replicate}
use cta_alristrol_gallardo_v.Text.{codes}
use cta_alristrol_gallardo_v.Queue.{overwrite}

abbrev pub escape_byte : ℕ
escape_byte = 27

abbrev pub heartbeat_byte : ℕ
heartbeat_byte = 48

abbrev pub heartbeat_request_msg : List ℕ
heartbeat_request_msg = codes "HTBT"

abbrev pub heartbeat_reply_msg : List ℕ
heartbeat_reply_msg = codes "HTBR"

-- `g_heartbeatRequestBuf`, `g_heartbeatReplyBuf` and `g_uncaHeartbeatRequestBuf`.
pub record Globals : Type 0 where
  pub request_buf : List ℕ
  pub reply_buf : List ℕ
  pub unca_request_buf : List ℕ

unfoldable pub new_globals : Globals
new_globals = record {
  request_buf = replicate 6 0;
  reply_buf = replicate 6 0;
  unca_request_buf = replicate 6 0;
}

-- A buffer of six bytes: zeros, then the two bytes, then the `memcpy` of the text behind them.
abbrev filled : List ℕ → List ℕ
filled msg =
    let marked = overwrite (escape_byte ∷ heartbeat_byte ∷ []) (replicate 6 0) in
    take 2 marked ++ overwrite msg (drop 2 marked)

unfoldable pub initial_global : Globals → Globals
initial_global g = record g {
  request_buf = filled heartbeat_request_msg;
  reply_buf = filled heartbeat_reply_msg;
}
