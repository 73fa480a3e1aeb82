-- ===== src/Examples/Sweep.antt =====
-- Three clients, two of them offline, one of these still held by another thread.
use cta_alristrol_gallardo_v.Base.{◌≡◌, refl, true, some, [], ◌∷◌, pos}
use cta_alristrol_gallardo_v.Client.{Client, cs_offline}
use cta_alristrol_gallardo_v.Clients.{Clients, check_client_vector}
use cta_alristrol_gallardo_v.Clients.Sweep.{survivors, casualties, check_client_vector-sweeps}
use cta_alristrol_gallardo_v.Examples.Sending.{alice}

abbrev gone_client : Client
gone_client = record alice { addr = record { socket = pos 9; ip = [] }; status = cs_offline }

abbrev pub crowd : Clients
crowd = record {
  slots =
      record { client = alice; use_count = 1; taken = [] }
      ∷ record { client = gone_client; use_count = 1; taken = [] }
      ∷ record { client = gone_client; use_count = 2; taken = [] }
      ∷ [];
  has_server_socket = true;
  listen_port = [];
  heart_beat_time = [];
  epid_num = [];
  service = 0;
  closed = [];
}

crowd_swept :
    check_client_vector crowd
    ≡ some (record crowd {
      slots =
          record { client = alice; use_count = 1; taken = [] }
          ∷ record { client = gone_client; use_count = 2; taken = [] }
          ∷ [];
      closed = pos 9 ∷ [];
    })
unfolding check_client_vector
crowd_swept = refl

check_client_vector-sweeps_example :
    check_client_vector crowd
    ≡ some (record crowd { slots = survivors crowd.slots; closed = casualties crowd.slots })
check_client_vector-sweeps_example = check_client_vector-sweeps crowd
