-- ===== src/Program.antt =====
-- test.c: the program, whose four threads and main loop move packets between the tun device, the
-- header compression, the split layer and the socket. One round of a loop is one step. What
-- `tun_read` and `udp_recv` bring is an argument of the step, what `tun_write` and `udp_send` get is
-- its output; both are in tun.c and udp.c.
pub mod Behaves
pub mod Steps
pub mod Safety
pub mod Untouched
pub mod Deliver
pub mod Through
pub mod Packet
pub mod Segment
pub mod Stream
pub mod Connection
pub mod Counts
pub mod Counters
mod Tests
use ipcf.Common.{
  ℕ, ◌+◌, ◌≤◌, Option, none, some, List, [], ◌∷◌, ◌++◌, length, is_empty, if◌then◌else◌,
}
use ipcf.Common.Fault.{◌>>=◌}
use ipcf.Common.Word.{u32}
use ipcf.Split.Types.{array}
use ipcf.Split.Types as S
use ipcf.Split.Queue.{upper_recv, lower_fetch}
use ipcf.Split.UpperSend.{upper_send}
use ipcf.Split.Link.{max_buf_size}
use ipcf.Split.Node.{split_init, lower_put, proc_timer}
use ipcf.Compact.Types as C
use ipcf.Compact.Table.{Table}
use ipcf.Compact.Flows.{Flows, compact_init, timer_event}
use ipcf.Compact.Xmit.{xmit_compress, recv_compress}

-- What a step finds around it: what the two layers find, and what the thread's `buf` holds.
pub record Around : Type 0 where
  pub compact : C.Env
  pub link : S.Env
  pub stale : List ℕ

-- The bytes that a step gives to `udp_send`, and the packet that it gives to `tun_write`, if any.
pub record Output : Type 0 where
  pub sent : Option (List ℕ)
  pub written : Option (List ℕ)

abbrev pub quiet : Output
quiet = record { sent = none; written = none }

module _ (T : Table) where
  -- The state of both layers, and the counters.
  pub record Program : Type 0 where
    pub flows : Flows T
    pub node : S.Node
    pub tot_s : ℕ
    pub tot_r : ℕ
    pub full_ip_s : ℕ
    pub compact_ip_s : ℕ
    pub full_ip_r : ℕ
    pub compact_ip_r : ℕ

  -- What `main` starts with.
  abbrev pub start : Program
  start = record {
    flows = compact_init T;
    node = split_init;
    tot_s = 1;
    tot_r = 1;
    full_ip_s = 1;
    compact_ip_s = 0;
    full_ip_r = 1;
    compact_ip_r = 0;
  }

  -- The loop of `recv_tun` over the packets of `xmit_compress`. `upper_send` takes the first address
  -- for the sender's.
  unfoldable pub send_pkts : S.Env → List (List ℕ) → Program → Program
  send_pkts env [] p = p
  send_pkts env (pkt ∷ pkts) p = send_pkts env pkts (record p {
    compact_ip_s = u32 (p.compact_ip_s + length pkt);
    node = (upper_send env 2 1 pkt p.node).1;
  })

  -- `lower_fetch` leaves 0 in `n` if the queue is empty or the frame does not fit.
  unfoldable pub recv_split : Program → Output × Program
  recv_split p =
      let (f, node) = lower_fetch p.node max_buf_size in
      let p' : Program = record p { node = node } in
      if is_empty f.buf then (quiet, p') else (
        record { sent = some f.buf; written = none },
        record p' { tot_s = u32 (p.tot_s + length f.buf) },
      )

  -- The list is what `udp_recv` has stored; it is empty where that returns 0 or less.
  unfoldable pub recv_udp : Around → List ℕ → Program → Option Program
  recv_udp env bytes p =
      let taken = (do
        (r, node) ← lower_put env.link bytes p.node
        some (record p { tot_r = u32 (p.tot_r + length bytes); node = node })) in
      if is_empty bytes then some p else taken

  -- What `recv_unsplit` does with `*ippkt`.
  unfoldable pub write_pkt : Option (List ℕ) → Program → Program
  write_pkt none p = p
  write_pkt (some pkt) p = record p { full_ip_r = u32 (p.full_ip_r + length pkt) }

  -- What it does with `*send_back_pkt`.
  unfoldable pub send_back : S.Env → Option (List ℕ) → Program → Program
  send_back env none p = p
  send_back env (some pkt) p = record p {
    compact_ip_r = u32 (p.compact_ip_r + length pkt);
    node = (upper_send env 2 1 pkt p.node).1;
  }

  -- One round of the loop of `main`, after its `sleep`.
  unfoldable pub tick : Around → Program → Option Program
  tick env p = do
    flows ← timer_event T env.compact p.flows
    node ← proc_timer env.link p.node
    some (record p { flows = flows; node = node })

  module _ (hash_bytes : List ℕ → ℕ) where
    -- The list is what `tun_read` has stored; it is empty where that returns 0 or less.
    unfoldable pub recv_tun : Around → List ℕ → Program → Option Program
    recv_tun env bytes p =
        let sent = (do
          (pkts, flows) ← xmit_compress T hash_bytes env.compact (array env.stale bytes) p.flows
          some (
              send_pkts env.link pkts
                (record p { full_ip_s = u32 (p.full_ip_s + length bytes); flows = flows }))) in
        if is_empty bytes then some p else sent

    unfoldable pub recv_unsplit : Around → Program → Option (Output × Program)
    recv_unsplit env p =
        let (f, node) = upper_recv p.node max_buf_size in
        let n = length f.buf in
        let p' : Program = record p { node = node } in
        let taken = (do
          (ippkt, back, flows) ←
              recv_compress T hash_bytes env.compact (array env.stale f.buf) n p.flows
          let counted : Program = record p' {
            compact_ip_r = u32 (p.compact_ip_r + n);
            flows = flows;
          }
          some (
            record { sent = none; written = ippkt },
            send_back env.link back (write_pkt ippkt counted),
          )) in
        if is_empty f.buf then some (quiet, p') else taken

    -- One round of one loop, with its input.
    pub data Step : Type 0 where
      tun : Around → List ℕ → Step
      split : Step
      udp : Around → List ℕ → Step
      unsplit : Around → Step
      second : Around → Step

    unfoldable pub step : Step → Program → Option (Output × Program)
    step (tun env bytes) p = recv_tun env bytes p >>= λ p'. some (quiet, p')
    step split p = some (recv_split p)
    step (udp env bytes) p = recv_udp env bytes p >>= λ p'. some (quiet, p')
    step (unsplit env) p = recv_unsplit env p
    step (second env) p = tick env p >>= λ p'. some (quiet, p')

    -- Any interleaving of the rounds, with the outputs in order.
    unfoldable pub run : List Step → Program → Option (List Output × Program)
    run [] p = some ([], p)
    run (s ∷ ss) p = do (o, p') ← step s p; (os, p'') ← run ss p'; some (o ∷ os, p'')
