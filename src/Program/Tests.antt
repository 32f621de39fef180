-- ===== src/Program/Tests.antt =====
-- Runs of the program, with a table of rows.
mod Segments
use ipcf.Common.{
  ◌%◌, ◌^◌, ℕ, ◌+◌, ◌≤◌, ◌≡◌, refl, arith, false, Option, none, some, List, [], ◌∷◌, length,
  replicate,
}
use ipcf.Csum.{csum, csum_add16, csum_continue, csum_finish}
use ipcf.Split.Types.{array, link_data_max, csum8, csum16, csum32}
use ipcf.Crc.{crc8, crc16, crc32c}
use ipcf.Split.Frame.{en_frame, stuff}
use ipcf.Split.Frame.Encode.{stuffed}
use ipcf.Split.Slice.{fill_slices}
use ipcf.Split.Slice.Layout.{all_bytes}
use ipcf.Split.Queue.{put_lower_send_list, lower_fetch}
use ipcf.Split.Send.{try_lower_send}
use ipcf.Split.UpperSend.{build_loop, send_built, upper_send}
use ipcf.Split.Node.{split_init, proc_timer, sse_loop, rse_loop, sse_tick, rse_tick}
use ipcf.Split.Recv.Size.{AllRoom}
use ipcf.Split.Link.Sent.{Idle}
use ipcf.Compact.Table.Rows.{rows, rows-Laws}
use ipcf.Compact.Types.{copy, fill_pkt}
use ipcf.Compact.Encode.{whole_pkt}
use ipcf.Compact.Flows.{timer_event, sflow_timers, rflow_timers}
use ipcf.Compact.Xmit.{can_compact, xmit_compress}
use ipcf.Program.{
  Around, Output, Program, start, recv_tun, recv_split, send_pkts, Step, tun, split, second, tick,
  step, run,
}
use ipcf.Program.Safety.{InOrder, run-InOrder}
use ipcf.Program.Untouched.{IsIntact}
use ipcf.Program.Through.{deliver, Joined, IsTaken}
use ipcf.Program.Packet.{deliver_lem}
use ipcf.Program.Counters.{bytes_sent, bytes_written, bytes_got, bytes_read, run_counts}

abbrev pub sum : List ℕ → ℕ
sum [] = 0
sum (x ∷ xs) = x + sum xs

abbrev pub env : Around
env = record {
  compact = record { now = 1000; stale = replicate 20 0 };
  link = record { now = 5; stale = replicate 1000 0; info_level = 1 };
  stale = replicate 60 0;
}

-- A SYN with an option: the header compression leaves it as it is.
abbrev pub syn : List ℕ
syn =
    69 ∷ 0 ∷ 0 ∷ 44 ∷ 0 ∷ 1 ∷ 64 ∷ 0 ∷ 64 ∷ 6 ∷ 38 ∷ 201 ∷ 10 ∷ 0 ∷ 0 ∷ 1 ∷ 10 ∷ 0 ∷ 0 ∷ 2 ∷ 48 ∷ 57
    ∷ 0 ∷ 80 ∷ 0 ∷ 0 ∷ 0 ∷ 1 ∷ 0 ∷ 0 ∷ 0 ∷ 0 ∷ 96 ∷ 2 ∷ 4 ∷ 0 ∷ 0 ∷ 0 ∷ 0 ∷ 0 ∷ 2 ∷ 4 ∷ 5 ∷ 180 ∷ []

abbrev pub begin : Program rows
begin = start rows

pub syn-can_compact : can_compact (array env.stale syn) ≡ false
unfolding can_compact
syn-can_compact = refl

pub syn-IsIntact : IsIntact syn
unfolding csum csum_continue csum_add16 csum_finish
syn-IsIntact = record { at_least = omega arith; at_most = omega arith; tot_len = refl; ipv4 = refl }

begin-Idle : Idle 1 split_init
begin-Idle = record { packets = λ se e. cc; waiting = λ se e. cc }

syn-sent : (upper_send env.link 2 1 syn split_init).0 ≡ some 44
unfolding upper_send build_loop send_built try_lower_send fill_slices en_frame put_lower_send_list
    csum8 csum16 csum32 crc8 crc16 crc32c
syn-sent = refl

slices_len : length (stuffed (all_bytes (fill_slices link_data_max syn).slices)) ≤ 962
unfolding stuffed stuff fill_slices csum16 crc16
slices_len = omega arith

begin-AllRoom : AllRoom split_init
begin-AllRoom = record { each = λ mac se e. cc }

pub begin-Joined : Joined rows sum begin begin
begin-Joined = record {
  quiet = record {
    idle = begin-Idle;
    sent_all = refl;
    answered = refl;
    room = (begin-AllRoom, begin-AllRoom);
  };
  none_up = refl;
}

syn-IsTaken : IsTaken rows sum env syn begin
syn-IsTaken = record {
  at_least = omega arith;
  at_most = omega arith;
  taken = syn-sent;
  fits = slices_len;
}

deliver_lem_example :
    (p' : Program rows) × (q' : Program rows) × (deliver rows sum env env env env env env syn begin
        begin
      ≡ some (record { sent = none; written = some syn }, p', q'))
    × Joined rows sum p' q'
    × (p'.flows ≡ begin.flows)
    × (q'.flows ≡ begin.flows)
deliver_lem_example =
    deliver_lem rows sum env env env env env env syn begin begin syn-IsIntact syn-can_compact
      begin-Joined syn-IsTaken

-- A second, a packet from the device, and its headers to the socket.
abbrev rounds : List (Step rows sum)
rounds = second env ∷ tun env syn ∷ split ∷ []

abbrev outputs : Option (List Output × Program rows) → List Output
outputs none = []
outputs (some (os, p)) = os

abbrev or_begin : Option (List Output × Program rows) → Program rows
or_begin none = begin
or_begin (some (os, p)) = p

abbrev ran : Option (List Output × Program rows)
ran = run rows sum rounds begin

ran-some : ran ≡ some (outputs ran, or_begin ran)
unfolding run step tick recv_tun recv_split send_pkts timer_event sflow_timers rflow_timers
    proc_timer sse_loop rse_loop sse_tick rse_tick xmit_compress can_compact whole_pkt copy fill_pkt
    upper_send build_loop send_built try_lower_send fill_slices en_frame put_lower_send_list
    lower_fetch csum8 csum16 csum32 crc8 crc16 crc32c
ran-some = refl

run-InOrder_example :
    InOrder rows rows-Laws sum (or_begin ran)
    × ((p' : Program rows) × (tick rows env (or_begin ran) ≡ some p')
        × InOrder rows rows-Laws sum p')
run-InOrder_example =
    run-InOrder rows rows-Laws sum rounds (outputs ran) (or_begin ran) env ran-some

run_counts_example :
    ((or_begin ran).tot_s ≡ (1 + bytes_sent (outputs ran)) % 2 ^ 32)
    × ((or_begin ran).tot_r ≡ (1 + bytes_got rows sum rounds) % 2 ^ 32)
    × ((or_begin ran).full_ip_s ≡ (1 + bytes_read rows sum rounds) % 2 ^ 32)
    × ((or_begin ran).full_ip_r ≡ (1 + bytes_written (outputs ran)) % 2 ^ 32)
run_counts_example = run_counts rows sum rounds (outputs ran) (or_begin ran) ran-some
