-- ===== src/Formats/Orders.antt =====
-- ARST_QUOTE/Include/ARSTTSFormat.h: an order and its reply. `ipvh` tells whether the program is built
-- with `IPVH_331`.
use cta_alristrol_gallardo_v.Base.{ℕ, Bool, List, [], ◌∷◌, ◌++◌, if◌then◌else◌}
use cta_alristrol_gallardo_v.Text.{codes}
use cta_alristrol_gallardo_v.Formats.{Member, char_array}

abbrev pub broker_len : ℕ
broker_len = 4

abbrev pub agent_len : ℕ
agent_len = 2

abbrev pub key_len : ℕ
key_len = 13

abbrev pub trade_type_len : ℕ
trade_type_len = 2

abbrev pub step_mark_len : ℕ
step_mark_len = 1

abbrev pub order_type_len : ℕ
order_type_len = 1

abbrev pub tx_date_len : ℕ
tx_date_len = 8

abbrev pub order_time_len : ℕ
order_time_len = 9

abbrev pub acno_len : ℕ
acno_len = 7

abbrev pub sub_acno_len : ℕ
sub_acno_len = 7

abbrev pub com_id_len : ℕ
com_id_len = 6

abbrev pub qty_len_ipvh : ℕ
qty_len_ipvh = 9

abbrev pub order_price_len_ipvh : ℕ
order_price_len_ipvh = 9

abbrev pub qty_len_default : ℕ
qty_len_default = 8

abbrev pub order_price_len_default : ℕ
order_price_len_default = 8

abbrev pub buyssell_len : ℕ
buyssell_len = 1

abbrev pub sale_no_len : ℕ
sale_no_len = 4

abbrev pub order_no_len : ℕ
order_no_len = 5

abbrev pub switch_data_len : ℕ
switch_data_len = 40

abbrev pub user_def_len : ℕ
user_def_len = 128

abbrev pub order_id_len : ℕ
order_id_len = 10

abbrev pub price_mark_len : ℕ
price_mark_len = 1

abbrev pub ota_mark_len : ℕ
ota_mark_len = 1

abbrev pub ota_order_id_len : ℕ
ota_order_id_len = 10

abbrev pub keyin_id_len : ℕ
keyin_id_len = 6

abbrev pub price_type_len : ℕ
price_type_len = 1

abbrev pub order_cond_len : ℕ
order_cond_len = 1

abbrev pub reserved_len : ℕ
reserved_len = 32

-- `CV_TS_ORDER` with `IPVH_331`.
abbrev pub order_ipvh : List Member
order_ipvh =
    char_array (codes "broker") broker_len
    ∷ char_array (codes "agent") agent_len
    ∷ char_array (codes "key") key_len
    ∷ char_array (codes "trade_type") trade_type_len
    ∷ char_array (codes "step_mark") step_mark_len
    ∷ char_array (codes "order_type") order_type_len
    ∷ char_array (codes "tx_date") tx_date_len
    ∷ char_array (codes "order_time") order_time_len
    ∷ char_array (codes "acno") acno_len
    ∷ char_array (codes "sub_acno") sub_acno_len
    ∷ char_array (codes "com_id") com_id_len
    ∷ char_array (codes "qty") qty_len_ipvh
    ∷ char_array (codes "order_price") order_price_len_ipvh
    ∷ char_array (codes "buysell") buyssell_len
    ∷ char_array (codes "sale_no") sale_no_len
    ∷ char_array (codes "order_no") order_no_len
    ∷ char_array (codes "switch_data") switch_data_len
    ∷ char_array (codes "user_def") user_def_len
    ∷ char_array (codes "order_id") order_id_len
    ∷ char_array (codes "price_mark") price_mark_len
    ∷ char_array (codes "ota_mark") ota_mark_len
    ∷ char_array (codes "ota_order_id") ota_order_id_len
    ∷ char_array (codes "keyin_id") keyin_id_len
    ∷ char_array (codes "price_type") price_type_len
    ∷ char_array (codes "order_cond") order_cond_len
    ∷ char_array (codes "reserved") reserved_len
    ∷ []

-- `CV_TS_ORDER` without it.
abbrev pub order_default : List Member
order_default =
    char_array (codes "broker") broker_len
    ∷ char_array (codes "agent") agent_len
    ∷ char_array (codes "key") key_len
    ∷ char_array (codes "trade_type") 1
    ∷ char_array (codes "step_mark") step_mark_len
    ∷ char_array (codes "order_type") order_type_len
    ∷ char_array (codes "tx_date") tx_date_len
    ∷ char_array (codes "order_time") order_time_len
    ∷ char_array (codes "acno") acno_len
    ∷ char_array (codes "sub_acno") sub_acno_len
    ∷ char_array (codes "com_id") com_id_len
    ∷ char_array (codes "qty") qty_len_default
    ∷ char_array (codes "order_price") order_price_len_default
    ∷ char_array (codes "buysell") buyssell_len
    ∷ char_array (codes "sale_no") sale_no_len
    ∷ char_array (codes "order_no") order_no_len
    ∷ char_array (codes "switch_data") switch_data_len
    ∷ char_array (codes "user_def") user_def_len
    ∷ char_array (codes "order_id") order_id_len
    ∷ char_array (codes "price_mark") price_mark_len
    ∷ char_array (codes "ota_mark") ota_mark_len
    ∷ char_array (codes "ota_order_id") ota_order_id_len
    ∷ []

abbrev pub cv_ts_order : (ipvh : Bool) → List Member
cv_ts_order ipvh = if ipvh then order_ipvh else order_default

-- `CV_TS_REPLY`, the members of the order in place of `original`.
abbrev pub cv_ts_reply : (ipvh : Bool) → List Member
cv_ts_reply ipvh =
    cv_ts_order ipvh ++ (char_array (codes "reply_msg") 78 ∷ char_array (codes "error_code") 2 ∷ [])
