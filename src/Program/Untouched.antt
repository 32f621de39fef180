-- ===== src/Program/Untouched.antt =====
-- A packet that the header compression sends as it is.
use ipcf.Common.{
  ℕ, ◌*◌, ◌≤◌, ◌≡◌, refl, ap, ◌∙◌, true, false, ◌&&◌, none, some, List, [], ◌∷◌, ◌++◌, arith,
  length, take, drop, take-append, take-append_left, length-append, ltb, leb, ◌==◌, get_or,
  get_or-append_left,
}
use ipcf.Csum.{csum}
use ipcf.Split.Types.{array}
use ipcf.Compact.Ipv4.{swap16, IpHdr, read_ip, ip_len}
use ipcf.Compact.Types.{max_data_length, copy, fill_pkt}
use ipcf.Compact.Encode.{whole_pkt}
use ipcf.Compact.Decode.{recv_untouched_ip}
use ipcf.Compact.RoundTrip.Memory.{copy-some, fill_pkt-some}
use ipcf.Compact.Types as C
use ipcf.Compact.Table.{Table}
use ipcf.Compact.Flows.{Flows}
use ipcf.Compact.Xmit.{can_compact, xmit_compress, recv_compress}

-- What follows a header does not change it.
read_ip-append : (pkt rest : List ℕ) → 20 ≤ length pkt → read_ip (pkt ++ rest) 0 ≡ read_ip pkt 0
read_ip-append pkt rest h =
    let at : (i : ℕ) → ltb i 20 ≡ true → get_or (pkt ++ rest) i 0 ≡ get_or pkt i 0 =
      λ i l. get_or-append_left 0 pkt rest i (ground arith) in
    rw
      (
        at 0 refl,
        at 1 refl,
        at 2 refl,
        at 3 refl,
        at 4 refl,
        at 5 refl,
        at 6 refl,
        at 7 refl,
        at 8 refl,
        at 9 refl,
        at 10 refl,
        at 11 refl,
        at 12 refl,
        at 13 refl,
        at 14 refl,
        at 15 refl,
        at 16 refl,
        at 17 refl,
        at 18 refl,
        at 19 refl,
      )
      refl

-- A packet of 20 to 864 bytes, its length in its header, that a receiver takes for an IPv4 packet
-- with a good checksum.
pub record IsIntact (pkt : List ℕ) : Type 0 where
  pub at_least : 20 ≤ length pkt
  pub at_most : length pkt ≤ 27 * 32
  pub tot_len : swap16 (read_ip pkt 0).tot_len ≡ length pkt
  pub ipv4 :
      ((read_ip pkt 0).version == 4 && (leb 5 (read_ip pkt 0).ihl && csum (take ip_len pkt) == 0))
      ≡ true

module _ (pkt stale : List ℕ) (h : IsIntact pkt) where
  buffered : (read_ip (array stale pkt) 0) ≡ read_ip pkt 0
  buffered = read_ip-append pkt (drop (length pkt) stale) h.at_least

  -- It is copied whole out of its buffer.
  whole_pkt-some : whole_pkt (array stale pkt) (length pkt) ≡ some pkt
  unfolding whole_pkt
  whole_pkt-some =
      let rest = drop (length pkt) stale in
      rw (copy-some (pkt ++ rest) 0 (length pkt) (omega (arith, length-append pkt rest))) (
        ap fill_pkt (take-append (length pkt) pkt rest refl)
        ∙ fill_pkt-some pkt (omega (arith, h.at_most)))

  -- It is taken as it is by the receiver.
  recv_untouched : recv_untouched_ip (array stale pkt) ≡ some pkt
  unfolding recv_untouched_ip
  recv_untouched =
      let rest = drop (length pkt) stale in
      let len = ap (λ (ip : IpHdr). swap16 ip.tot_len) buffered ∙ h.tot_len in
      let small : leb (length pkt) max_data_length ≡ true = ground (arith, h.at_most) in
      rw
        (len, small, copy-some (pkt ++ rest) 0 (length pkt) (omega (arith, length-append pkt rest)))
        (ap fill_pkt (take-append (length pkt) pkt rest refl)
          ∙ fill_pkt-some pkt (omega (arith, h.at_most)))

  test_buffered :
      (let ip = read_ip (array stale pkt) 0 in
        ip.version == 4 && (leb 5 ip.ihl && csum (take ip_len (array stale pkt)) == 0))
      ≡ true
  test_buffered =
      ap
        (λ (ip : IpHdr).
          ip.version == 4 && (leb 5 ip.ihl && csum (take ip_len (array stale pkt)) == 0))
        buffered
      ∙ ap (λ l. (read_ip pkt 0).version == 4 && (leb 5 (read_ip pkt 0).ihl && csum l == 0))
          (take-append_left ip_len pkt (drop (length pkt) stale) h.at_least)
      ∙ h.ipv4

  module _ (T : Table) (hash_bytes : List ℕ → ℕ) where
    pub xmit_untouched :
        (env : C.Env) (c : Flows T)
        → can_compact (array stale pkt) ≡ false
        → xmit_compress T hash_bytes env (array stale pkt) c ≡ some (pkt ∷ [], c)
    unfolding xmit_compress
    xmit_untouched env c e =
        let len = ap (λ (ip : IpHdr). swap16 ip.tot_len) buffered ∙ h.tot_len in
        rw (e, len, whole_pkt-some) refl

    pub recv_compress-untouched :
        (env : C.Env) (len : ℕ) (c : Flows T)
        → recv_compress T hash_bytes env (array stale pkt) len c ≡ some (some pkt, none, c)
    unfolding recv_compress
    recv_compress-untouched env len c = rw (test_buffered, recv_untouched) refl
