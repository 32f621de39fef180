-- ===== src/Program/Counters.antt =====
-- What the counters of test.c count.
use ipcf.Common.{ℕ, ◌+◌, ◌%◌, ◌^◌, ◌≡◌, refl, sym, some, List, [], ◌∷◌, arith, length}
use mathlib.Core.Option.{some-injective}
use ipcf.Common.Fault.{>>=-eq-some}
use ipcf.Common.Word.{u32}
use ipcf.Compact.Table.{Table}
use ipcf.Program.{
  Output, Program, start, recv_udp, recv_tun, tick, Step, tun, split, udp, unsplit, second, step,
  run,
}
use ipcf.Program.Counts.{
  size, Counts, recv_split-Counts, recv_udp-Counts, tick-Counts, recv_tun-Counts,
  recv_unsplit-Counts,
}

abbrev pub bytes_sent : List Output → ℕ
bytes_sent [] = 0
bytes_sent (o ∷ os) = size o.sent + bytes_sent os

abbrev pub bytes_written : List Output → ℕ
bytes_written [] = 0
bytes_written (o ∷ os) = size o.written + bytes_written os

module _ (T : Table) where
  record Counted (a b c d : ℕ) (p : Program T) : Type 0 where
    pub tot_s : p.tot_s ≡ u32 a
    pub tot_r : p.tot_r ≡ u32 b
    pub full_ip_s : p.full_ip_s ≡ u32 c
    pub full_ip_r : p.full_ip_r ≡ u32 d

  module _ (hash_bytes : List ℕ → ℕ) where
    -- What a round takes from the link and from the device.
    abbrev pub got : Step T hash_bytes → ℕ
    got (udp env bytes) = length bytes
    got (tun env bytes) = 0
    got split = 0
    got (unsplit env) = 0
    got (second env) = 0

    abbrev pub read : Step T hash_bytes → ℕ
    read (tun env bytes) = length bytes
    read (udp env bytes) = 0
    read split = 0
    read (unsplit env) = 0
    read (second env) = 0

    abbrev pub bytes_got : List (Step T hash_bytes) → ℕ
    bytes_got [] = 0
    bytes_got (s ∷ ss) = got s + bytes_got ss

    abbrev pub bytes_read : List (Step T hash_bytes) → ℕ
    bytes_read [] = 0
    bytes_read (s ∷ ss) = read s + bytes_read ss

    step-Counts :
        (s : Step T hash_bytes) (p : Program T) (r : Output × Program T)
        → step T hash_bytes s p ≡ some r
        → Counts T (size r.0.sent) (got s) (read s) (size r.0.written) p r.1
    unfolding step
    step-Counts (tun env bytes) p r h =
        let (q, ran, at) = >>=-eq-some (recv_tun T hash_bytes env bytes p) _ h in
        rw (sym (some-injective _ r at)) (recv_tun-Counts T hash_bytes env bytes p q ran)
    step-Counts split p r h = rw (sym (some-injective _ r h)) (recv_split-Counts T p)
    step-Counts (udp env bytes) p r h =
        let (q, ran, at) = >>=-eq-some (recv_udp T env bytes p) _ h in
        rw (sym (some-injective _ r at)) (recv_udp-Counts T env bytes p q ran)
    step-Counts (unsplit env) p r h =
        let (none_sent, counts) = recv_unsplit-Counts T hash_bytes env p r h in rw none_sent counts
    step-Counts (second env) p r h =
        let (q, ran, at) = >>=-eq-some (tick T env p) _ h in
        rw (sym (some-injective _ r at)) (tick-Counts T env p q ran)

    run-Counts :
        (ss : List (Step T hash_bytes)) (p : Program T) (r : List Output × Program T)
        → run T hash_bytes ss p ≡ some r
        → (a b c d : ℕ) → Counted a b c d p
        → Counted
            (a + bytes_sent r.0)
            (b + bytes_got ss)
            (c + bytes_read ss)
            (d + bytes_written r.0)
            r.1
    unfolding run
    run-Counts [] p r h a b c d counted = rw (sym (some-injective _ r h)) (record {
      tot_s = omega (arith, counted.tot_s);
      tot_r = omega (arith, counted.tot_r);
      full_ip_s = omega (arith, counted.full_ip_s);
      full_ip_r = omega (arith, counted.full_ip_r);
    })
    run-Counts (s ∷ ss) p r h a b c d counted =
        let ((o, q), ran, at) = >>=-eq-some (step T hash_bytes s p) _ h in
        let ((os, p'), ran', at') = >>=-eq-some (run T hash_bytes ss q) _ at in
        let one = step-Counts s p (o, q) ran in
        let more =
          run-Counts ss q (os, p') ran' (a + size o.sent) (b + got s) (c + read s)
            (d + size o.written)
            (record {
              tot_s = one.tot_s a counted.tot_s;
              tot_r = one.tot_r b counted.tot_r;
              full_ip_s = one.full_ip_s c counted.full_ip_s;
              full_ip_r = one.full_ip_r d counted.full_ip_r;
            }) in
        rw (sym (some-injective _ r at')) (record {
          tot_s = omega (arith, more.tot_s);
          tot_r = omega (arith, more.tot_r);
          full_ip_s = omega (arith, more.full_ip_s);
          full_ip_r = omega (arith, more.full_ip_r);
        })

    -- After any rounds of the five loops in any order that were no fault, `tot_s` is one more than
    -- the bytes that were given to `udp_send`, `tot_r` than those that `udp_recv` has brought,
    -- `full_ip_s` than those that `tun_read` has brought, and `full_ip_r` than those that were given
    -- to `tun_write`, each modulo 2 ^ 32.
    pub run_counts :
        (ss : List (Step T hash_bytes)) (os : List Output) (p : Program T)
        → run T hash_bytes ss (start T) ≡ some (os, p)
        → (p.tot_s ≡ (1 + bytes_sent os) % 2 ^ 32)
          × (p.tot_r ≡ (1 + bytes_got ss) % 2 ^ 32)
          × (p.full_ip_s ≡ (1 + bytes_read ss) % 2 ^ 32)
          × (p.full_ip_r ≡ (1 + bytes_written os) % 2 ^ 32)
    run_counts ss os p h =
        let all =
          run-Counts ss (start T) (os, p) h 1 1 1 1
            (record { tot_s = refl; tot_r = refl; full_ip_s = refl; full_ip_r = refl }) in
        (all.tot_s, all.tot_r, all.full_ip_s, all.full_ip_r)
