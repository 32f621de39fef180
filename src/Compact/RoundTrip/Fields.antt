-- ===== src/Compact/RoundTrip/Fields.antt =====
-- The fields of a TCP frame, read back by `recv_tcp`.
use ipcf.Common.{
  ℕ, ◌+◌, ◌%◌, ◌^◌, ◌<◌, ◌≡◌, refl, ap, ◌∙◌, Bool, true, false, List, [], ◌∷◌, ◌++◌, arith, length,
  get_or, if◌then◌else◌,
}
use ipcf.Common.Word.{get16, get32}
use ipcf.Compact.Ipv4.{TcpHdr}
use ipcf.Compact.Ipv4.Bytes.{word16, word32}
use ipcf.Compact.Types.{read_chdr}
use ipcf.Compact.Encode.{tcp_info, tcp_fields}
use ipcf.Compact.Decode.{recv_tcp_hdr}
use ipcf.Compact.RoundTrip.Flags.{is_encodable, read_info, read_info-tcp_info}

-- Fields of the widths that they have.
pub record InWidth (tcp : TcpHdr) : Type 0 where
  pub seq : tcp.seq < 2 ^ 32
  pub ack_seq : tcp.ack_seq < 2 ^ 32
  pub window : tcp.window < 2 ^ 16
  pub check : tcp.check < 2 ^ 16
  pub urg_ptr : tcp.urg_ptr < 2 ^ 16

-- `recv_tcp_hdr` by what the bits of `i` say.
hdr_at : List Bool → List ℕ → TcpHdr → TcpHdr × ℕ
hdr_at info cpkt flow =
    let has_seq = get_or info 0 false in
    let has_ack = get_or info 1 false in
    let has_window = get_or info 2 false in
    let has_urg = get_or info 3 false in
    let at_ack = if has_seq then 3 + 4 else 3 in
    let at_window = if has_ack then at_ack + 4 else at_ack in
    let at_urg = if has_window then at_window + 2 else at_window in
    let at_check = if has_urg then at_urg + 2 else at_urg in
    (
      record flow {
        seq = if has_seq then get32 cpkt 3 else flow.seq;
        ack = has_ack;
        ack_seq = if has_ack then get32 cpkt at_ack else flow.ack_seq;
        window = if has_window then get16 cpkt at_window else flow.window;
        urg = has_urg;
        urg_ptr = if has_urg then get16 cpkt at_urg else flow.urg_ptr;
        check = get16 cpkt at_check;
        syn = get_or info 4 false;
        fin = get_or info 5 false;
        psh = get_or info 6 false;
        rst = get_or info 7 false;
      },
      at_check + 2,
    )

recv_tcp_hdr-hdr_at :
    (cpkt : List ℕ) (flow : TcpHdr)
    → recv_tcp_hdr cpkt flow ≡ hdr_at (read_info (read_chdr cpkt).i) cpkt flow
unfolding recv_tcp_hdr hdr_at
recv_tcp_hdr-hdr_at cpkt flow = refl

-- What is read: the fields of the segment, and those of the flow where it has none.
abbrev pub merged : Bool → Bool → TcpHdr → TcpHdr → TcpHdr
merged ack urg tcp flow = record flow {
  seq = tcp.seq;
  ack = ack;
  ack_seq = if ack then tcp.ack_seq else flow.ack_seq;
  window = tcp.window;
  urg = urg;
  urg_ptr = if urg then tcp.urg_ptr else flow.urg_ptr;
  check = tcp.check;
  syn = tcp.syn;
  fin = tcp.fin;
  psh = tcp.psh;
  rst = tcp.rst;
}

abbrev fields : Bool → Bool → TcpHdr → List ℕ
fields ack urg tcp = tcp_fields (record tcp { ack = ack; urg = urg })

hdr_at-fields :
    (ack urg : Bool) (tcp flow : TcpHdr) (x y z : ℕ) (rest : List ℕ)
    → InWidth tcp
    → hdr_at
        (true ∷ ack ∷ true ∷ urg ∷ tcp.syn ∷ tcp.fin ∷ tcp.psh ∷ tcp.rst ∷ [])
        (x ∷ y ∷ z ∷ fields ack urg tcp ++ rest)
        flow
      ≡ (merged ack urg tcp flow, 3 + length (fields ack urg tcp))
unfolding hdr_at tcp_fields
hdr_at-fields true true tcp flow x y z rest w =
    rw
      (
        word32 tcp.seq w.seq,
        word32 tcp.ack_seq w.ack_seq,
        word16 tcp.window w.window,
        word16 tcp.urg_ptr w.urg_ptr,
        word16 tcp.check w.check,
      )
      refl
hdr_at-fields true false tcp flow x y z rest w =
    rw
      (
        word32 tcp.seq w.seq,
        word32 tcp.ack_seq w.ack_seq,
        word16 tcp.window w.window,
        word16 tcp.check w.check,
      )
      refl
hdr_at-fields false true tcp flow x y z rest w =
    rw
      (
        word32 tcp.seq w.seq,
        word16 tcp.window w.window,
        word16 tcp.urg_ptr w.urg_ptr,
        word16 tcp.check w.check,
      )
      refl
hdr_at-fields false false tcp flow x y z rest w =
    rw (word32 tcp.seq w.seq, word16 tcp.window w.window, word16 tcp.check w.check) refl

pub length-tcp_fields : (tcp : TcpHdr) → length (tcp_fields tcp) < 17
unfolding tcp_fields
length-tcp_fields tcp = ground arith

-- `recv_tcp_hdr` on a frame of an encodable segment.
pub recv_tcp_hdr_lem :
    (tcp flow : TcpHdr) (smac fid : ℕ) (rest : List ℕ)
    → is_encodable tcp ≡ true
    → InWidth tcp
    → recv_tcp_hdr ((tcp_info tcp + 64) ∷ smac ∷ fid ∷ tcp_fields tcp ++ rest) flow
      ≡ (merged tcp.ack tcp.urg tcp flow, 3 + length (tcp_fields tcp))
recv_tcp_hdr_lem tcp flow smac fid rest h w =
    let (small, info) = read_info-tcp_info tcp h in
    let cpkt = (tcp_info tcp + 64) ∷ smac ∷ fid ∷ tcp_fields tcp ++ rest in
    let i : (tcp_info tcp + 64) % 64 ≡ tcp_info tcp = omega arith in
    recv_tcp_hdr-hdr_at cpkt flow
    ∙ ap (λ (l : List Bool). hdr_at l cpkt flow) (ap read_info i ∙ info)
    ∙ hdr_at-fields tcp.ack tcp.urg tcp flow (tcp_info tcp + 64) smac fid rest w
