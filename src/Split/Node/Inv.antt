-- ===== src/Split/Node/Inv.antt =====
-- The histories of a node: the calls of its upper layer, of its link and of its timer, in any
-- order.
use ipcf.Common.{
  ℕ, ◌≡◌, Bool, true, false, Option, none, some, List, [], ◌∷◌, refl, arith, if◌then◌else◌, ltb,
  ◌==◌, length, take, not,
}
use ipcf.Common.Fault.{◌>>=◌, >>=-eq-some}
use ipcf.Common.Word.{u8, u16}
use ipcf.Split.Types.{
  Node, Env, read_frm, link_mtu, frm_hdr_len, frm_csum, frame_type_data, frame_type_ackr,
  frame_type_patch, frame_type_acka, frame_type_ackp,
}
use ipcf.Split.Frame.{de_frame}
use ipcf.Split.Queue.{upper_recv, lower_fetch}
use ipcf.Split.Recv.Inv.{Leaves, proc_data-Leaves, proc_ack_req-Leaves, proc_patch-Leaves}
use ipcf.Split.UpperSend.{upper_send}
use ipcf.Split.Send.Inv.{AllInStep, AllInStep-sse, proc_ack_all-AllInStep, proc_ack_part-AllInStep}
use ipcf.Split.UpperSend.Inv.{upper_send-AllInStep}
use ipcf.Split.Node.{split_init, proc_timer, lower_put}
use ipcf.Split.Node.Timer.{Survives, proc_timer-AllInStep}

-- What a call of `lower_put` may return, if it is no fault.
record Keeps (o : Option (Option ℕ × Node)) : Type 0 where
  each : (r : Option ℕ) (n : Node) → o ≡ some (r, n) → AllInStep n

Keeps-some : (r : Option ℕ) (n : Node) → AllInStep n → Keeps (some (r, n))
Keeps-some r n inv = record { each = λ r' n' e. ground (arith, e, inv) }

Keeps-if :
    (b : Bool) {x y : Option (Option ℕ × Node)} → Keeps x → Keeps y → Keeps (if b then x else y)
Keeps-if true hx hy = hx
Keeps-if false hx hy = hy

Keeps-Leaves :
    (r : Option ℕ) (n : Node) (m : Option Node)
    → AllInStep n
    → Leaves n m
    → Keeps (m >>= λ n'. some (r, n'))
Keeps-Leaves r n none inv l = record { each = λ r' n' e. cc }
Keeps-Leaves r n (some n') inv l = Keeps-some r n' (AllInStep-sse n' n (l.each n' refl) inv)

lower_put-Keeps : (env : Env) (raw : List ℕ) (n : Node) → AllInStep n → Keeps (lower_put env raw n)
unfolding lower_put
lower_put-Keeps env raw n inv =
    let buf = (de_frame (take (u16 (length raw)) raw) link_mtu).buf in
    let r : Option ℕ = some (length raw) in
    let fh = read_frm buf in
    Keeps-if (ltb (length buf) frm_hdr_len) (Keeps-some none n inv) (
      Keeps-if (not (u8 fh.csum == frm_csum fh)) (Keeps-some none n inv) (
        Keeps-if (fh.type == frame_type_data) (Keeps-Leaves r n _ inv (proc_data-Leaves env buf n))
          (Keeps-if (fh.type == frame_type_ackr)
            (Keeps-Leaves r n _ inv (proc_ack_req-Leaves env buf n))
            (Keeps-if (fh.type == frame_type_patch)
              (Keeps-Leaves r n _ inv (proc_patch-Leaves env buf n))
              (Keeps-if (fh.type == frame_type_acka)
                (Keeps-some r _ (proc_ack_all-AllInStep env buf n inv))
                (Keeps-if (fh.type == frame_type_ackp)
                  (Keeps-some r _ (proc_ack_part-AllInStep env buf n inv))
                  (Keeps-some none n inv)))))))

-- `lower_put` keeps the invariant, whatever bytes the link brings, unless it is a fault.
pub lower_put-AllInStep :
    (env : Env) (raw : List ℕ) (n : Node) (r : Option ℕ) (n' : Node)
    → AllInStep n
    → lower_put env raw n ≡ some (r, n')
    → AllInStep n'
lower_put-AllInStep env raw n r n' inv e = (lower_put-Keeps env raw n inv).each r n' e

-- A call of an entry point, with what it finds around it.
pub data Call : Type 0 where
  sends : Env → ℕ → ℕ → List ℕ → Call
  receives : ℕ → Call
  puts : Env → List ℕ → Call
  fetches : ℕ → Call
  ticks : Env → Call

-- The node after a call; `none` is a fault.
unfoldable pub call : Call → Node → Option Node
call (sends env smac dmac msg) n = some (upper_send env smac dmac msg n).1
call (receives cap) n = some (upper_recv n cap).1
call (puts env raw) n = lower_put env raw n >>= λ (r, n'). some n'
call (fetches cap) n = some (lower_fetch n cap).1
call (ticks env) n = proc_timer env n

unfoldable pub calls : List Call → Node → Option Node
calls [] n = some n
calls (c ∷ cs) n = call c n >>= λ n'. calls cs n'

call-AllInStep : (c : Call) (n n' : Node) → AllInStep n → call c n ≡ some n' → AllInStep n'
unfolding call upper_recv lower_fetch
call-AllInStep (sends env smac dmac msg) n n' inv e =
    ground (arith, upper_send-AllInStep env smac dmac msg n inv, e)
call-AllInStep (receives cap) n n' inv e = AllInStep-sse n' n (ground (arith, e)) inv
call-AllInStep (puts env raw) n n' inv e =
    let ((r, m), ran, same) = >>=-eq-some (lower_put env raw n) (λ (r, n'). some n') e in
    lower_put-AllInStep env raw n r n' inv (ground (arith, ran, same))
call-AllInStep (fetches cap) n n' inv e = AllInStep-sse n' n (ground (arith, e)) inv
call-AllInStep (ticks env) n n' inv e =
    let (m, ran, inv') = proc_timer-AllInStep env n inv in ground (arith, ran, e, inv')

calls-AllInStep : (cs : List Call) (n n' : Node) → AllInStep n → calls cs n ≡ some n' → AllInStep n'
unfolding calls
calls-AllInStep [] n n' inv e = ground (arith, e, inv)
calls-AllInStep (c ∷ cs) n n' inv e =
    let (m, ran, rest) = >>=-eq-some (call c n) (calls cs) e in
    calls-AllInStep cs m n' (call-AllInStep c n m inv ran) rest

split_init-AllInStep : AllInStep split_init
split_init-AllInStep = record { each = λ i se e. cc }

-- After any calls of the entry points of a fresh node, in any order and with any bytes from the
-- link, that were no fault: each send session waits for an acknowledgement exactly if it has a
-- packet and exactly if its timer runs, no retry counter is above MAX_RETRY_TIMES, and a run of the
-- timer at any time is no fault and leaves it so.
pub calls-safe :
    (cs : List Call) (n : Node) (env : Env)
    → calls cs split_init ≡ some n
    → AllInStep n × Survives (proc_timer env n)
calls-safe cs n env e =
    let inv = calls-AllInStep cs split_init n split_init-AllInStep e in
    (inv, proc_timer-AllInStep env n inv)
