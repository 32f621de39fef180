-- ===== src/Program/Steps.antt =====
-- Each round of a loop of test.c is a history of calls of the two layers.
use ipcf.Common.{ℕ, ◌+◌, ◌≡◌, refl, sym, ap, ◌∙◌, some, List, [], ◌∷◌, length, is_empty}
use mathlib.Core.Option.{some-injective}
use ipcf.Common.Fault.{>>=-eq-some}
use ipcf.Common.Word.{u32}
use ipcf.Split.Types.{array}
use ipcf.Split.Queue.{upper_recv, lower_fetch}
use ipcf.Split.Node.{lower_put, proc_timer}
use ipcf.Split.Node.Inv.{receives, puts, fetches, ticks, call}
use ipcf.Compact.Table.{Table}
use ipcf.Compact.Flows.{timer_event}
use ipcf.Compact.Xmit.{xmit_compress, recv_compress}
use ipcf.Compact.Inv.Events.{Event, event, events}
use ipcf.Compact.Inv.Events as E
use ipcf.Split.Link.{max_buf_size}
use ipcf.Program.{
  Around, Output, Program, recv_split, recv_udp, recv_tun, recv_unsplit, tick, Step, tun, split,
  udp, unsplit, second, step, run,
}
use ipcf.Program.Behaves.{
  Behaves, Behaves-trans, Behaves-call, Behaves-event, Behaves-same, send_pkts-Behaves,
  write_pkt-Behaves, send_back-Behaves, Then, Then-some, Then-if, Then->>=, Then-quiet, Then-either,
}

module _ (T : Table) (hash_bytes : List ℕ → ℕ) where
  abbrev after : Output × Program T → Program T
  after r = r.1

  abbrev itself : Program T → Program T
  itself p = p

  recv_tun-Behaves :
      (env : Around) (bytes : List ℕ) (p : Program T)
      → Then T hash_bytes itself p (recv_tun T hash_bytes env bytes p)
  unfolding recv_tun event
  recv_tun-Behaves env bytes p =
      Then-if T hash_bytes itself p (is_empty bytes) _ _
        (Then-some T hash_bytes itself p p (Behaves-same T hash_bytes p p refl refl))
        (Then->>= T hash_bytes itself p
          (xmit_compress T hash_bytes env.compact (array env.stale bytes) p.flows) _
          (λ (pkts, flows) e.
            let p' : Program T = record p {
              full_ip_s = u32 (p.full_ip_s + length bytes);
              flows = flows;
            } in
            Then-some T hash_bytes itself p _ (
              Behaves-trans T hash_bytes p p' _
                (Behaves-event T hash_bytes (E.sends env.compact (array env.stale bytes)) p p'
                  (rw e refl) refl)
                (send_pkts-Behaves T hash_bytes env.link pkts p'))))

  recv_split-Behaves : (p : Program T) → Then T hash_bytes after p (some (recv_split T p))
  unfolding recv_split call
  recv_split-Behaves p =
      let f = (lower_fetch p.node max_buf_size).0 in
      Then-either T hash_bytes p (is_empty f.buf) _ _
        (Behaves-call T hash_bytes (fetches max_buf_size) p _ refl refl)
        (Behaves-call T hash_bytes (fetches max_buf_size) p _ refl refl)

  recv_udp-Behaves :
      (env : Around) (bytes : List ℕ) (p : Program T)
      → Then T hash_bytes itself p (recv_udp T env bytes p)
  unfolding recv_udp call
  recv_udp-Behaves env bytes p =
      Then-if T hash_bytes itself p (is_empty bytes) _ _
        (Then-some T hash_bytes itself p p (Behaves-same T hash_bytes p p refl refl))
        (Then->>= T hash_bytes itself p (lower_put env.link bytes p.node) _ (λ (r, node) e.
          Then-some T hash_bytes itself p _
            (Behaves-call T hash_bytes (puts env.link bytes) p _ (rw e refl) refl)))

  pub tick-Behaves : (env : Around) (p : Program T) → Then T hash_bytes itself p (tick T env p)
  unfolding tick call event
  tick-Behaves env p =
      Then->>= T hash_bytes itself p (timer_event T env.compact p.flows) _ (λ flows e.
        Then->>= T hash_bytes itself p (proc_timer env.link p.node) _ (λ node e'.
          let p' : Program T = record p { flows = flows } in
          Then-some T hash_bytes itself p _ (
            Behaves-trans T hash_bytes p p' _
              (Behaves-event T hash_bytes (E.ticks env.compact) p p' e refl)
              (Behaves-call T hash_bytes (ticks env.link) p' _ e' refl))))

  recv_unsplit-Behaves :
      (env : Around) (p : Program T) → Then T hash_bytes after p (recv_unsplit T hash_bytes env p)
  unfolding recv_unsplit call event
  recv_unsplit-Behaves env p =
      let (f, node) = upper_recv p.node max_buf_size in
      let p' : Program T = record p { node = node } in
      let taken = Behaves-call T hash_bytes (receives max_buf_size) p p' refl refl in
      Then-if T hash_bytes after p (is_empty f.buf) _ _ (Then-some T hash_bytes after p _ taken) (
        Then->>= T hash_bytes after p
          (recv_compress T hash_bytes env.compact (array env.stale f.buf) (length f.buf) p.flows) _
          (λ (ippkt, back, flows) e.
            let counted : Program T = record p' {
              compact_ip_r = u32 (p.compact_ip_r + length f.buf);
              flows = flows;
            } in
            let received =
              Behaves-event T hash_bytes
                (E.receives env.compact (array env.stale f.buf) (length f.buf)) p' counted
                (rw e refl) refl in
            Then-some T hash_bytes after p _ (
              Behaves-trans T hash_bytes p p' _ taken (
                Behaves-trans T hash_bytes p' counted _ received (
                  Behaves-trans T hash_bytes counted _ _
                    (write_pkt-Behaves T hash_bytes ippkt counted)
                    (send_back-Behaves T hash_bytes env.link back _))))))

  step-Behaves :
      (s : Step T hash_bytes) (p : Program T) → Then T hash_bytes after p (step T hash_bytes s p)
  unfolding step
  step-Behaves (tun env bytes) p = Then-quiet T hash_bytes p _ (recv_tun-Behaves env bytes p)
  step-Behaves split p = recv_split-Behaves p
  step-Behaves (udp env bytes) p = Then-quiet T hash_bytes p _ (recv_udp-Behaves env bytes p)
  step-Behaves (unsplit env) p = recv_unsplit-Behaves env p
  step-Behaves (second env) p = Then-quiet T hash_bytes p _ (tick-Behaves env p)

  -- Rounds of the program's loops in any order, without a fault, are histories of calls of the entry
  -- points of the split layer and of the header compression.
  pub run-Behaves :
      (ss : List (Step T hash_bytes)) (p p' : Program T) (os : List Output)
      → run T hash_bytes ss p ≡ some (os, p')
      → Behaves T hash_bytes p p'
  unfolding run
  run-Behaves [] p p' os h =
      let same = ap (λ (r : List Output × Program T). r.1) (some-injective ([], p) (os, p') h) in
      Behaves-same T hash_bytes p p' (ap (λ (q : Program T). q.node) (sym same))
        (ap (λ (q : Program T). q.flows) (sym same))
  run-Behaves (s ∷ ss) p p' os h =
      let ((o, q), one, rest) = >>=-eq-some (step T hash_bytes s p) _ h in
      let ((os', r), ran, last) = >>=-eq-some (run T hash_bytes ss q) _ rest in
      let same =
        ap (λ (r : List Output × Program T). r.1) (some-injective (o ∷ os', r) (os, p') last) in
      Behaves-trans T hash_bytes p q p' ((step-Behaves s p).each (o, q) one)
        (run-Behaves ss q p' os' (ran ∙ ap (λ (x : Program T). some (os', x)) same))
