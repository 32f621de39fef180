-- ===== src/Split/UpperSend/Inv.antt =====
-- `upper_send` keeps the invariant of the send sessions.
use ipcf.Common.{
  ℕ, ◌≡◌, refl, Bool, true, false, Option, none, some, List, [], ◌∷◌, ◌++◌, arith, length, leb,
  if◌then◌else◌,
}
use ipcf.Split.Types.{SendNode, Sse, Node, Env}
use ipcf.Split.Send.{get_sse, create_sse, try_lower_send}
use ipcf.Split.UpperSend.{upper_send, send_built, Built}
use ipcf.Split.Send.Inv.{
  InStep, AllInStep, AllInStep-sse, put_sse-AllInStep, sse-try_lower_send, get_sse-InStep,
}

-- A packet more: it waits, or, if it is alone, it is sent.
try_longer-InStep :
    (env : Env) (se : Sse) (n : Node) (pkt : SendNode)
    → InStep se
    → InStep (try_lower_send env (record se { pkt_list = se.pkt_list ++ (pkt ∷ []) }) n).0
unfolding try_lower_send
try_longer-InStep env se n pkt s = ground arith

send_built-AllInStep :
    (env : Env) (mac : ℕ) (se : Sse) (n : Node) (b : Option Built)
    → InStep se
    → AllInStep n
    → AllInStep (send_built env mac se n b).1
unfolding send_built
send_built-AllInStep env mac se n none s inv = put_sse-AllInStep mac se n s inv
send_built-AllInStep env mac se n (some b) s inv =
    let longer : Sse = record se { pkt_list = se.pkt_list ++ (b.snode ∷ []) } in
    let sent = try_lower_send env longer n in
    put_sse-AllInStep mac sent.0 sent.1 (try_longer-InStep env se n b.snode s)
      (AllInStep-sse sent.1 n (sse-try_lower_send env longer n) inv)

-- The session that `upper_send` finds or creates.
found-InStep :
    (env : Env) (o : Option Sse)
    → ((se : Sse) → o ≡ some se → InStep se)
    → InStep (elim o [ none ↦ create_sse env | some se ↦ se ])
unfolding create_sse
found-InStep env none k = record {
  waiting = refl;
  timer = refl;
  data_retries = omega arith;
  ack_retries = omega arith;
}
found-InStep env (some se) k = k se refl

numbered-InStep : (se : Sse) (q : ℕ) → InStep se → InStep (record se { seq = q })
numbered-InStep se q s = record {
  waiting = s.waiting;
  timer = s.timer;
  data_retries = s.data_retries;
  ack_retries = s.ack_retries;
}

if_snd-AllInStep :
    (b : Bool) (x y : Option ℕ × Node)
    → AllInStep x.1
    → AllInStep y.1
    → AllInStep (if b then x else y).1
if_snd-AllInStep true x y hx hy = hx
if_snd-AllInStep false x y hx hy = hy

-- `upper_send` keeps the invariant.
pub upper_send-AllInStep :
    (env : Env) (smac dmac : ℕ) (msg : List ℕ) (n : Node)
    → AllInStep n
    → AllInStep (upper_send env smac dmac msg n).1
unfolding upper_send
upper_send-AllInStep env smac dmac msg n inv =
    if_snd-AllInStep (leb (length msg) 0) (none, n) _ inv
      (send_built-AllInStep env dmac _ n _
        (numbered-InStep _ _
          (found-InStep env (get_sse env n dmac) (λ se e. get_sse-InStep env n dmac se e inv)))
        inv)
