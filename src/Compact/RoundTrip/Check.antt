-- ===== src/Compact/RoundTrip/Check.antt =====
-- The checksum of the IP headers that compact.c rebuilds.
use ipcf.Common.{ℕ, ◌+◌, ◌*◌, ◌/◌, ◌%◌, ◌^◌, ◌<◌, ◌≡◌, refl, [], ◌∷◌, ◌++◌}
use ipcf.Common.Word.{le16, le32}
use ipcf.Csum.{csum}
use ipcf.Csum.Check.{word_sum, csum-verifies}
use ipcf.Compact.Ipv4.{swap16, IpHdr, ip_bytes}
use ipcf.Compact.Decode.{finish_ip}

-- A header with a length, and no checksum yet.
abbrev pub sized : IpHdr → ℕ → IpHdr
sized ip len = record ip { tot_len = swap16 len; check = 0 }

-- The header that is rebuilt passes the test of `csum`, if adding the carries of the sum of its
-- words to its low 16 bits has no carry again.
pub csum-finish_ip :
    (ip : IpHdr) (len : ℕ)
    → word_sum (ip_bytes (sized ip len)) % 2 ^ 16 + word_sum (ip_bytes (sized ip len)) / 2 ^ 16
      < 2 ^ 16
    → csum (ip_bytes (finish_ip ip len)) ≡ 0
unfolding finish_ip
csum-finish_ip ip len carry =
    csum-verifies 5
      ((ip.ihl + 16 * ip.version) ∷ ip.tos ∷ le16 (swap16 len)
        ++ (le16 ip.id ++ (le16 ip.frag_off ++ (ip.ttl ∷ ip.protocol ∷ []))))
      (le32 ip.saddr ++ le32 ip.daddr) refl carry
