-- ===== src/Split/Node/Timer.antt =====
-- `proc_timer`: the acknowledgement timers and the idle timers.
use ipcf.Common.{
  ℕ, zero, suc, ◌+◌, ◌≤◌, ◌≡◌, refl, Bool, true, false, Option, none, some, List, [], ◌∷◌, arith,
  ltb, leb, ◌==◌, if◌then◌else◌, Bool-cases, inl, inr, Option-cases, sym, ◌∙◌,
}
use ipcf.Split.Types.{idle_timeout_ms, max_retry_times, SendNode, Sse, num_of_se, Node, Env, update}
use ipcf.Split.Send.Inv.{
  InStep, AllInStep, try_lower_send-InStep, sse-try_lower_send, sse-send_ack_req, put_sse-AllInStep,
  AllInStep-sse, if-AllInStep,
}
use ipcf.Common.Fault.{◌>>=◌}
use ipcf.Split.Node.{ack_due, sse_tick, sse_loop, rse_tick, rse_loop, proc_timer}
use ipcf.Split.Send.{put_sse, try_lower_send, proc_sse_ack_timeout, timeout_session}

-- A step on a session that is no fault, that leaves the session in step and the others alone.
abbrev pub Steps : Node → Option (Sse × Node) → Type 0
Steps n o = (se' : Sse) × (n' : Node) × (o ≡ some (se', n')) × InStep se' × (n'.sse ≡ n.sse)

Steps-if :
    (n : Node) (b : Bool) (x y : Option (Sse × Node))
    → (b ≡ true → Steps n x)
    → (b ≡ false → Steps n y)
    → Steps n (if b then x else y)
Steps-if n true x y f g = f refl
Steps-if n false x y f g = g refl

Steps-try_lower_send :
    (env : Env) (se : Sse) (n : Node)
    → InStep (try_lower_send env se n).0
    → Steps n (some (try_lower_send env se n))
Steps-try_lower_send env se n s =
    ((try_lower_send env se n).0, (try_lower_send env se n).1, refl, s, sse-try_lower_send env se n)

-- `try_lower_send` on a session that has a packet.
try_full-InStep :
    (env : Env) (se : Sse) (n : Node) (pkt : SendNode) (rest : List SendNode)
    → se.pkt_list ≡ pkt ∷ rest
    → se.is_waiting ≡ false
    → se.data_retry ≤ max_retry_times
    → se.ack_retry ≤ max_retry_times
    → InStep (try_lower_send env se n).0
unfolding try_lower_send
try_full-InStep env se n pkt rest e w d a = ground (arith, e)

-- A timeout of a session in step is no fault, and leaves it in step.
timeout_session-Steps :
    (env : Env) (se : Sse) (n : Node) (l : List SendNode)
    → l ≡ se.pkt_list
    → InStep se
    → se.is_waiting ≡ true
    → Steps n (timeout_session env se n l)
unfolding timeout_session
timeout_session-Steps env se n [] e s w = absurd (ground (arith, e, s))
timeout_session-Steps env se n (pkt ∷ rest) e s w =
    let asked : Sse = record se {
      idle_timeout = env.now + idle_timeout_ms;
      ack_retry = se.ack_retry + 1;
    } in
    let again : Sse = record asked {
      ack_retry = 0;
      data_retry = se.data_retry + 1;
      is_waiting = false;
    } in
    let dropped : Sse = record again { pkt_list = rest; ack_timeout = none; data_retry = 0 } in
    Steps-if n (leb (se.ack_retry + 1) max_retry_times) _ _
      (λ h. (asked, _, refl, ground (arith, s, h), sse-send_ack_req env _ _ asked n))
      (λ h.
        Steps-if n (ltb max_retry_times (se.data_retry + 1)) _ _
          (λ h'.
            Steps-try_lower_send env dropped n
              (try_lower_send-InStep env dropped n refl refl (omega arith) (omega arith)))
          (λ h'.
            Steps-try_lower_send env again n (
              try_full-InStep env again n pkt rest (sym e) refl (ground (arith, h'))
                (omega arith))))

ack_due-is_waiting : (now : ℕ) (se : Sse) → InStep se → ack_due now se ≡ true → se.is_waiting ≡ true
ack_due-is_waiting now se s h = elim (Option-cases se.ack_timeout) [
  | inl q ↦ ground (arith, q, h)
  | inr (t, q) ↦ ground (arith, q, h, s)
]

-- A step on a node that is no fault and leaves every session in step.
abbrev pub Survives : Option Node → Type 0
Survives o = (n : Node) × (o ≡ some n) × AllInStep n

Survives->>= {ℓ} :
    {A : Type ℓ} (o : Option A) (x : A) (f : A → Option Node)
    → o ≡ some x
    → Survives (f x)
    → Survives (o >>= f)
Survives->>= none x f e h = absurd (ground (arith, e))
Survives->>= (some y) x f e h = (h.0, ground (arith, e, h), h.2)

drop_sse-AllInStep :
    (i : ℕ) (n : Node) → AllInStep n → AllInStep (record n { sse = update n.sse i none })
drop_sse-AllInStep i n inv = record {
  each = λ j se e. elim (Bool-cases (j == i)) [
    | inl q ↦ absurd (ground (arith, q, e))
    | inr q ↦ ground (arith, q, e, inv.each j se)
  ];
}

Survives-session :
    (o : Option Sse) (f : Sse → Option Node) (n : Node)
    → AllInStep n
    → ((se : Sse) → o ≡ some se → Survives (f se))
    → Survives (elim o [ none ↦ some n | some se ↦ f se ])
Survives-session none f n h k = (n, refl, h)
Survives-session (some se) f n h k = k se refl

sse_tick-Survives : (env : Env) (i : ℕ) (n : Node) → AllInStep n → Survives (sse_tick env i n)
unfolding sse_tick proc_sse_ack_timeout
sse_tick-Survives env i n inv = Survives-session (n.sse i) _ n inv (λ se e.
    let s = inv.each i se e in
    let (se', n', ran, s', same) =
      Steps-if n (ack_due env.now se) (proc_sse_ack_timeout env se n) (some (se, n))
        (λ due.
          timeout_session-Steps env se n se.pkt_list refl s (ack_due-is_waiting env.now se s due))
        (λ idle. (se, n, refl, s, refl)) in
    let inv' = AllInStep-sse n' n same inv in
    Survives->>= _ (se', n') _ ran
      (
        _,
        refl,
        if-AllInStep (leb se'.idle_timeout env.now) (record n' { sse = update n'.sse i none })
            (put_sse i se' n') (drop_sse-AllInStep i n' inv') (put_sse-AllInStep i se' n' s' inv'),
      ))

sse_loop-Survives :
    (env : Env) (i rounds : ℕ) (n : Node) → AllInStep n → Survives (sse_loop env i rounds n)
unfolding sse_loop
sse_loop-Survives env i zero n inv = (n, refl, inv)
sse_loop-Survives env i (suc rounds) n inv =
    let (n', e, inv') = sse_tick-Survives env i n inv in
    Survives->>= (sse_tick env i n) n' (λ m. sse_loop env (i + 1) rounds m) e
      (sse_loop-Survives env (i + 1) rounds n' inv')

rse_tick-sse : (env : Env) (i : ℕ) (n : Node) → (rse_tick env i n).sse ≡ n.sse
unfolding rse_tick
rse_tick-sse env i n = ground arith

rse_loop-sse : (env : Env) (i rounds : ℕ) (n : Node) → (rse_loop env i rounds n).sse ≡ n.sse
unfolding rse_loop
rse_loop-sse env i zero n = refl
rse_loop-sse env i (suc rounds) n =
    rse_loop-sse env (i + 1) rounds (rse_tick env i n) ∙ rse_tick-sse env i n

-- `proc_timer` is no fault and keeps the invariant.
pub proc_timer-AllInStep : (env : Env) (n : Node) → AllInStep n → Survives (proc_timer env n)
unfolding proc_timer
proc_timer-AllInStep env n inv =
    let (n', e, inv') = sse_loop-Survives env 0 num_of_se n inv in
    Survives->>= (sse_loop env 0 num_of_se n) n' (λ m. some (rse_loop env 0 num_of_se m)) e
      (
        rse_loop env 0 num_of_se n',
        refl,
        AllInStep-sse (rse_loop env 0 num_of_se n') n' (rse_loop-sse env 0 num_of_se n') inv',
      )
