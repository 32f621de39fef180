-- ===== src/Split/Link/Tests.antt =====
-- Runs of an exchange.
use ipcf.Common.{ℕ, ◌≡◌, refl, arith, none, some, List, [], ◌∷◌, length, take, replicate}
use ipcf.Common.Bits.{bit}
use ipcf.Split.Types.{Node, Env, link_data_max, csum8, csum16, csum32}
use ipcf.Crc.{crc8, crc16, crc32c}
use ipcf.Split.Frame.{en_frame, stuff}
use ipcf.Split.Frame.Encode.{stuffed}
use ipcf.Split.Slice.{fill_slices}
use ipcf.Split.Slice.Layout.{all_bytes}
use ipcf.Split.Queue.{put_lower_send_list}
use ipcf.Split.Send.{get_sse, try_lower_send}
use ipcf.Split.UpperSend.{build_loop, send_built, upper_send}
use ipcf.Split.Node.{split_init}
use ipcf.Split.Link.{exchange}
use ipcf.Split.Link.Missing.{zeros}
use ipcf.Split.Link.Sent.{Idle}
use ipcf.Split.Link.Step.{InStep}
use ipcf.Split.Link.Lost.{headers, ask, slices, ack, Times, IsLate}
use ipcf.Split.Link.Lossy.{Parcel, lossy, Settled, lossy_lem}
use ipcf.Split.Link.Exchange.{Exchanged, message_lem}

-- Slices 1 and 3 of 4 are missing.
zeros_5 : zeros 5 0 4 ≡ 1 ∷ 3 ∷ []
unfolding zeros bit
zeros_5 = refl

abbrev env : Env
env = record { now = 5; stale = replicate 1000 0; info_level = 1 }

abbrev later : Env
later = record { now = 7; stale = replicate 1000 3; info_level = 1 }

abbrev msg : List ℕ
msg = 0xc0 ∷ 7 ∷ 0xdb ∷ 9 ∷ []

abbrev sender : Node
sender = (upper_send env 1 2 msg split_init).1

sender-sent : upper_send env 1 2 msg split_init ≡ (some 4, sender)
unfolding upper_send build_loop send_built try_lower_send fill_slices en_frame put_lower_send_list
    csum8 csum16 csum32 crc8 crc16 crc32c
sender-sent = refl

split_init-Idle : Idle 2 split_init
split_init-Idle = record { packets = λ se e. cc; waiting = λ se e. cc }

slices-fit : length (stuffed (all_bytes (fill_slices link_data_max (take 4 msg)).slices)) ≡ 38
unfolding stuffed stuff fill_slices csum16 crc16
slices-fit = refl

message_lem_example :
    (a' b' : Node) × (exchange later env later env sender split_init ≡ some (a', b'))
    × Exchanged 1 2 msg split_init a' b'
message_lem_example =
    message_lem env later env later env 1 2 msg split_init sender split_init 4 split_init-Idle refl
      refl (λ se e. absurd (ground (arith, e))) sender-sent (omega (arith, slices-fit))

abbrev late : Env
late = record { now = 4000; stale = replicate 1000 9; info_level = 1 }

abbrev times : Times
times = record {
  asks = (late, env) ∷ (late, later) ∷ (late, env) ∷ (late, later) ∷ (late, env) ∷ [];
  et = late;
  e1 = env;
  e2 = later;
  e3 = env;
  e4 = late;
  e5 = late;
  e6 = late;
  e7 = late;
}

times-IsLate : IsLate headers env times
times-IsLate = (
  refl,
  (omega arith, (omega arith, (omega arith, (omega arith, (omega arith, tt))))),
  omega arith,
)

abbrev parcels : List Parcel
parcels =
    record { msg = msg; lost = some headers; e0 = env; times = times }
    ∷ record { msg = 7 ∷ []; lost = some ask; e0 = env; times = times }
    ∷ record { msg = 8 ∷ []; lost = some slices; e0 = env; times = times }
    ∷ record { msg = 9 ∷ []; lost = some ack; e0 = env; times = times }
    ∷ record { msg = msg; lost = none; e0 = env; times = times }
    ∷ []

split_init-InStep : InStep 1 2 split_init split_init
unfolding get_sse
split_init-InStep = record {
  byte = λ e. omega arith;
  unknown = λ e. record { other = λ se h. cc };
  room = λ se h. cc;
  unasked = record { ack_retry = λ se h. cc; data_retry = λ se h. cc };
}

lossy_lem_example :
    (a' b' : Node) × (lossy 1 2 parcels split_init split_init ≡ some (a', b'))
    × (b'.upper_recv_list ≡ msg ∷ (7 ∷ []) ∷ (8 ∷ []) ∷ (9 ∷ []) ∷ msg ∷ [])
    × Settled 1 2 a' b'
lossy_lem_example =
    lossy_lem 1 2 parcels split_init split_init
      (
        record { some_bytes = omega arith; few = omega arith },
        (
          record { some_bytes = omega arith; few = omega arith },
          (
            record { some_bytes = omega arith; few = omega arith },
            (
              record { some_bytes = omega arith; few = omega arith },
              (record { some_bytes = omega arith; few = omega arith }, tt),
            ),
          ),
        ),
      )
      (times-IsLate, (omega arith, (omega arith, (omega arith, (tt, tt)))))
      (record {
        idle = split_init-Idle;
        sent_all = refl;
        answered = refl;
        step = split_init-InStep;
      })
