-- ===== src/Compact/RoundTrip/Plain.antt =====
-- TCP segments without SYN, FIN, PSH, RST and URG: what their frames say.
use ipcf.Common.{
  ℕ, ◌+◌, ◌≡◌, ◌∙◌, refl, inl, inr, Bool-cases, true, false, List, ◌∷◌, ◌++◌, length, if◌then◌else◌,
}
use ipcf.Compact.Ipv4.{TcpHdr}
use ipcf.Compact.Encode.{tcp_kind, tcp_info, tcp_fields}
use ipcf.Compact.Decode.{recv_tcp_hdr}

-- A segment such as a plain acknowledgement.
pub record IsPlain (tcp : TcpHdr) : Type 0 where
  pub urg : tcp.urg ≡ false
  pub syn : tcp.syn ≡ false
  pub fin : tcp.fin ≡ false
  pub psh : tcp.psh ≡ false
  pub rst : tcp.rst ≡ false

tcp_info-plain : (tcp : TcpHdr) → IsPlain tcp → tcp_info tcp ≡ (if tcp.ack then 0x38 else 0x28)
unfolding tcp_info tcp_kind
tcp_info-plain tcp h = elim (Bool-cases tcp.ack) [
  | inl e ↦ rw (h.urg, h.syn, h.fin, h.psh, h.rst, e) refl
  | inr e ↦ rw (h.urg, h.syn, h.fin, h.psh, h.rst, e) refl
]

-- A segment without SYN, FIN, PSH, RST and URG is read as one with URG, and the bytes behind its
-- fields, those of the payload, are taken two late.
pub recv_tcp_hdr-plain :
    (tcp flow : TcpHdr) (smac fid : ℕ) (rest : List ℕ)
    → IsPlain tcp
    → ((recv_tcp_hdr ((tcp_info tcp + 64) ∷ smac ∷ fid ∷ tcp_fields tcp ++ rest) flow).0.urg ≡ true)
      × ((recv_tcp_hdr ((tcp_info tcp + 64) ∷ smac ∷ fid ∷ tcp_fields tcp ++ rest) flow).1
          ≡ 3 + length (tcp_fields tcp) + 2)
unfolding recv_tcp_hdr tcp_fields
recv_tcp_hdr-plain tcp flow smac fid rest h = elim (Bool-cases tcp.ack) [
  | inl e ↦
      let info : tcp_info tcp ≡ 0x38 = tcp_info-plain tcp h ∙ rw e refl in
      rw (info, e, h.urg) (refl, refl)
  | inr e ↦
      let info : tcp_info tcp ≡ 0x28 = tcp_info-plain tcp h ∙ rw e refl in
      rw (info, e, h.urg) (refl, refl)
]
