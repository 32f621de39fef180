-- ===== src/Split/Node.antt =====
-- The entry points of split.c that work on both sides: `split_init`, `proc_timer` and `lower_put`.
pub mod Inv
pub mod Same
pub mod Room
pub mod Timer
mod Tests
use ipcf.Common.{
  ℕ, zero, suc, ◌+◌, Bool, true, false, ◌&&◌, not, Option, none, some, List, [], length, take, ltb,
  leb, ◌==◌, if◌then◌else◌,
}
use ipcf.Common.Fault.{◌>>=◌}
use ipcf.Common.Word.{u8, u16}
use ipcf.Split.Types.{
  num_of_se, link_mtu, frm_hdr_len, frame_type_data, frame_type_acka, frame_type_ackr,
  frame_type_ackp, frame_type_patch, read_frm, frm_csum, Sse, Rse, Node, Env, update,
}
use ipcf.Split.Frame.{de_frame}
use ipcf.Split.Recv.{proc_data, proc_ack_req, proc_patch}
use ipcf.Split.Send.{proc_ack_all, proc_ack_part, proc_sse_ack_timeout, put_sse}

abbrev pub split_init : Node
split_init = record { sse = λ i. none; rse = λ i. none; upper_recv_list = []; lower_send_list = [] }

-- `se->ack_timeout > 0 && now >= se->ack_timeout`, where -1 is `none`.
abbrev pub ack_due : ℕ → Sse → Bool
ack_due now se = elim se.ack_timeout [ none ↦ false | some t ↦ ltb 0 t && leb t now ]

-- One round of the first loop: the acknowledgement timer, then the idle timer, of one session.
unfoldable pub sse_tick : Env → ℕ → Node → Option Node
sse_tick env i n = elim (n.sse i) [
  | none ↦ some n
  | some se ↦ do
    (se', n') ← (if ack_due env.now se then proc_sse_ack_timeout env se n else some (se, n))
    let kept = put_sse i se' n'
    some (if leb se'.idle_timeout env.now then record n' { sse = update n'.sse i none } else kept)
]

unfoldable pub rse_tick : Env → ℕ → Node → Node
rse_tick env i n = elim (n.rse i) [
  | none ↦ n
  | some se ↦ if leb se.idle_timeout env.now then record n { rse = update n.rse i none } else n
]

-- The loops, from session `i` on, with `rounds` sessions left.
unfoldable pub sse_loop : Env → ℕ → ℕ → Node → Option Node
sse_loop env i zero n = some n
sse_loop env i (suc rounds) n = do n' ← sse_tick env i n; sse_loop env (i + 1) rounds n'

unfoldable pub rse_loop : Env → ℕ → ℕ → Node → Node
rse_loop env i zero n = n
rse_loop env i (suc rounds) n = rse_loop env (i + 1) rounds (rse_tick env i n)

unfoldable pub proc_timer : Env → Node → Option Node
unfolding sse_loop rse_loop
proc_timer env n = do n' ← sse_loop env 0 num_of_se n; some (rse_loop env 0 num_of_se n')

-- The list is what the link layer brings. The result is the return value, `none` for -1, and the
-- node.
unfoldable pub lower_put : Env → List ℕ → Node → Option (Option ℕ × Node)
lower_put env raw n =
    let buf = (de_frame (take (u16 (length raw)) raw) link_mtu).buf in
    let fh = read_frm buf in
    let done : Option Node → Option (Option ℕ × Node) =
      λ m. m >>= λ n'. some (some (length raw), n') in
    if ltb (length buf) frm_hdr_len
    then some (none, n)
    else if not (u8 fh.csum == frm_csum fh)
    then some (none, n)
    else if fh.type == frame_type_data
    then done (proc_data env buf n)
    else if fh.type == frame_type_ackr
    then done (proc_ack_req env buf n)
    else if fh.type == frame_type_patch
    then done (proc_patch env buf n)
    else if fh.type == frame_type_acka
    then done (some (proc_ack_all env buf n))
    else if fh.type == frame_type_ackp
    then done (some (proc_ack_part env buf n))
    else some (none, n)
