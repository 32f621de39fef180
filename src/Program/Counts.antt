-- ===== src/Program/Counts.antt =====
-- How a round of a loop of test.c moves its counters.
use ipcf.Common.{
  Bool, if◌then◌else◌, ◌⊎◌, ℕ, ◌+◌, ◌≡◌, refl, sym, Option, none, some, List, [], ◌∷◌, arith,
  length, is_empty, Bool-cases, inl, inr, true, false,
}
use mathlib.Core.Option.{some-injective}
use ipcf.Common.Fault.{>>=-eq-some}
use ipcf.Common.Word.{u32}
use ipcf.Split.Types as S
use ipcf.Split.Types.{array}
use ipcf.Split.Queue.{upper_recv, lower_fetch}
use ipcf.Split.Node.{lower_put, proc_timer}
use ipcf.Split.Link.{max_buf_size}
use ipcf.Compact.Table.{Table}
use ipcf.Compact.Flows.{timer_event}
use ipcf.Compact.Xmit.{xmit_compress, recv_compress}
use ipcf.Program.{
  Around, Output, Program, send_pkts, recv_split, recv_udp, recv_tun, write_pkt, send_back,
  recv_unsplit, tick,
}

-- A counter of 32 bits that goes on by `n`.
abbrev pub Adds : ℕ → ℕ → ℕ → Type 0
Adds x y n = (a : ℕ) → x ≡ u32 a → y ≡ u32 (a + n)

Adds-same : (x y : ℕ) → y ≡ x → Adds x y 0
Adds-same x y e a h = omega (arith, e, h)

Adds-u32 : (x n : ℕ) → Adds x (u32 (x + n)) n
Adds-u32 x n a h = omega (arith, h)

Adds-then : (x y z n : ℕ) → Adds x y n → Adds y z 0 → Adds x z n
Adds-then x y z n f g a h = omega (arith, g (a + n) (f a h))

if-eq-some {ℓ} :
    {A : Type ℓ}
    → (b : Bool) (x : A) (m : Option A) (y : A) → (if b then some x else m) ≡ some y
    → (x ≡ y) ⊎ (m ≡ some y)
if-eq-some true x m y h = inl (some-injective x y h)
if-eq-some false x m y h = inr h

abbrev pub size : Option (List ℕ) → ℕ
size none = 0
size (some pkt) = length pkt

module _ (T : Table) where
  -- The four counters go on by the bytes to and from the link, and from and to the device.
  pub record Counts (to from read written : ℕ) (p q : Program T) : Type 0 where
    pub tot_s : Adds p.tot_s q.tot_s to
    pub tot_r : Adds p.tot_r q.tot_r from
    pub full_ip_s : Adds p.full_ip_s q.full_ip_s read
    pub full_ip_r : Adds p.full_ip_r q.full_ip_r written

  Counts-same :
      (p q : Program T)
      → q.tot_s ≡ p.tot_s
      → q.tot_r ≡ p.tot_r
      → q.full_ip_s ≡ p.full_ip_s
      → q.full_ip_r ≡ p.full_ip_r
      → Counts 0 0 0 0 p q
  Counts-same p q a b c d = record {
    tot_s = Adds-same p.tot_s q.tot_s a;
    tot_r = Adds-same p.tot_r q.tot_r b;
    full_ip_s = Adds-same p.full_ip_s q.full_ip_s c;
    full_ip_r = Adds-same p.full_ip_r q.full_ip_r d;
  }

  Counts-then :
      (to from read written : ℕ) (p q r : Program T)
      → Counts to from read written p q
      → Counts 0 0 0 0 q r
      → Counts to from read written p r
  Counts-then to from read written p q r f g = record {
    tot_s = Adds-then p.tot_s q.tot_s r.tot_s to f.tot_s g.tot_s;
    tot_r = Adds-then p.tot_r q.tot_r r.tot_r from f.tot_r g.tot_r;
    full_ip_s = Adds-then p.full_ip_s q.full_ip_s r.full_ip_s read f.full_ip_s g.full_ip_s;
    full_ip_r = Adds-then p.full_ip_r q.full_ip_r r.full_ip_r written f.full_ip_r g.full_ip_r;
  }

  send_pkts-Counts :
      (env : S.Env) (pkts : List (List ℕ)) (p : Program T)
      → Counts 0 0 0 0 p (send_pkts T env pkts p)
  unfolding send_pkts
  send_pkts-Counts env [] p = Counts-same p p refl refl refl refl
  send_pkts-Counts env (pkt ∷ pkts) p =
      let q = send_pkts T env (pkt ∷ []) p in
      Counts-then 0 0 0 0 p q _ (Counts-same p q refl refl refl refl) (send_pkts-Counts env pkts q)

  send_back-Counts :
      (env : S.Env) (back : Option (List ℕ)) (p : Program T)
      → Counts 0 0 0 0 p (send_back T env back p)
  unfolding send_back
  send_back-Counts env none p = Counts-same p p refl refl refl refl
  send_back-Counts env (some pkt) p = Counts-same p _ refl refl refl refl

  write_pkt-Counts :
      (pkt : Option (List ℕ)) (p : Program T) → Counts 0 0 0 (size pkt) p (write_pkt T pkt p)
  unfolding write_pkt
  write_pkt-Counts none p = Counts-same p p refl refl refl refl
  write_pkt-Counts (some pkt) p = record {
    tot_s = Adds-same p.tot_s p.tot_s refl;
    tot_r = Adds-same p.tot_r p.tot_r refl;
    full_ip_s = Adds-same p.full_ip_s p.full_ip_s refl;
    full_ip_r = Adds-u32 p.full_ip_r (length pkt);
  }

  pub recv_split-Counts :
      (p : Program T)
      → Counts
          (size (recv_split T p).0.sent)
          0
          0
          (size (recv_split T p).0.written)
          p
          (recv_split T p).1
  unfolding recv_split
  recv_split-Counts p =
      let f = (lower_fetch p.node max_buf_size).0 in
      elim (Bool-cases (is_empty f.buf)) [
        | inl e ↦ rw e (Counts-same p _ refl refl refl refl)
        | inr e ↦ rw e (record {
          tot_s = Adds-u32 p.tot_s (length f.buf);
          tot_r = Adds-same p.tot_r p.tot_r refl;
          full_ip_s = Adds-same p.full_ip_s p.full_ip_s refl;
          full_ip_r = Adds-same p.full_ip_r p.full_ip_r refl;
        })
      ]

  pub recv_udp-Counts :
      (env : Around) (bytes : List ℕ) (p q : Program T)
      → recv_udp T env bytes p ≡ some q
      → Counts 0 (length bytes) 0 0 p q
  unfolding recv_udp
  recv_udp-Counts env [] p q h =
      rw (sym (some-injective p q h)) (Counts-same p p refl refl refl refl)
  recv_udp-Counts env (x ∷ xs) p q h =
      let (r, ran, at) = >>=-eq-some (lower_put env.link (x ∷ xs) p.node) _ h in
      rw (sym (some-injective _ q at)) (record {
        tot_s = Adds-same p.tot_s p.tot_s refl;
        tot_r = Adds-u32 p.tot_r (length (x ∷ xs));
        full_ip_s = Adds-same p.full_ip_s p.full_ip_s refl;
        full_ip_r = Adds-same p.full_ip_r p.full_ip_r refl;
      })

  pub tick-Counts : (env : Around) (p q : Program T) → tick T env p ≡ some q → Counts 0 0 0 0 p q
  unfolding tick
  tick-Counts env p q h =
      let (flows, ran, at) = >>=-eq-some (timer_event T env.compact p.flows) _ h in
      let (node, ran', at') = >>=-eq-some (proc_timer env.link p.node) _ at in
      rw (sym (some-injective _ q at')) (Counts-same p _ refl refl refl refl)

  module _ (hash_bytes : List ℕ → ℕ) where
    pub recv_tun-Counts :
        (env : Around) (bytes : List ℕ) (p q : Program T)
        → recv_tun T hash_bytes env bytes p ≡ some q
        → Counts 0 0 (length bytes) 0 p q
    unfolding recv_tun
    recv_tun-Counts env [] p q h =
        rw (sym (some-injective p q h)) (Counts-same p p refl refl refl refl)
    recv_tun-Counts env (x ∷ xs) p q h =
        let bytes = x ∷ xs in
        let ((pkts, flows), ran, at) =
          >>=-eq-some (xmit_compress T hash_bytes env.compact (array env.stale bytes) p.flows) _
            h in
        let p' : Program T = record p {
          full_ip_s = u32 (p.full_ip_s + length bytes);
          flows = flows;
        } in
        rw (sym (some-injective _ q at)) (
          Counts-then 0 0 (length bytes) 0 p p' _
            (record {
              tot_s = Adds-same p.tot_s p.tot_s refl;
              tot_r = Adds-same p.tot_r p.tot_r refl;
              full_ip_s = Adds-u32 p.full_ip_s (length bytes);
              full_ip_r = Adds-same p.full_ip_r p.full_ip_r refl;
            })
            (send_pkts-Counts env.link pkts p'))

    pub recv_unsplit-Counts :
        (env : Around) (p : Program T) (r : Output × Program T)
        → recv_unsplit T hash_bytes env p ≡ some r
        → (r.0.sent ≡ none) × Counts 0 0 0 (size r.0.written) p r.1
    unfolding recv_unsplit
    recv_unsplit-Counts env p r h =
        let f = (upper_recv p.node max_buf_size).0 in
        elim (if-eq-some (is_empty f.buf) _ _ r h) [
          | inl e ↦ rw (sym e) (refl, Counts-same p _ refl refl refl refl)
          | inr e ↦
              let ((pkt, back, flows), ran, at) =
                >>=-eq-some
                  (recv_compress T hash_bytes env.compact (array env.stale f.buf) (length f.buf)
                    p.flows)
                  _ e in
              let counted : Program T = record p {
                node = (upper_recv p.node max_buf_size).1;
                compact_ip_r = u32 (p.compact_ip_r + length f.buf);
                flows = flows;
              } in
              let p' = write_pkt T pkt counted in
              let w = write_pkt-Counts pkt counted in
              let from_p : Counts 0 0 0 (size pkt) p p' = record {
                tot_s = w.tot_s;
                tot_r = w.tot_r;
                full_ip_s = w.full_ip_s;
                full_ip_r = w.full_ip_r;
              } in
              let all =
                Counts-then 0 0 0 (size pkt) p p' _ from_p (send_back-Counts env.link back p') in
              rw (sym (some-injective _ r at)) (refl, all)
        ]
