-- ===== src/Formats/Logon.antt =====
-- ARST_QUOTE/Include/ARSTLogonFormat.h: a logon and its reply.
use cta_alristrol_gallardo_v.Base.{List, [], ◌∷◌}
use cta_alristrol_gallardo_v.Text.{codes}
use cta_alristrol_gallardo_v.Formats.{Member, char_array}

abbrev pub tcv_logon : List Member
tcv_logon =
    char_array (codes "logon_id") 10
    ∷ char_array (codes "password") 50
    ∷ char_array (codes "agent") 2
    ∷ char_array (codes "version") 10
    ∷ []

abbrev pub tcv_logon_reply : List Member
tcv_logon_reply =
    char_array (codes "status_code") 4
    ∷ char_array (codes "error_code") 4
    ∷ char_array (codes "error_message") 512
    ∷ char_array (codes "backup_ip") 20
    ∷ []
