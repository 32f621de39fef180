-- ===== src/Split/Link/Short.antt =====
-- Messages that `upper_send` takes whole, whatever their bytes: 13 slices fit in a frame even if
-- every byte is stuffed.
use ipcf.Common.{
  ℕ, zero, suc, ◌+◌, ◌-◌, ◌*◌, ◌≤◌, ◌<◌, ◌≡◌, refl, ap, ◌∙◌, Option, some, List, arith, length,
  take, length-append, length-take,
}
use ipcf.Common.Word.{u8}
use ipcf.Split.Types.{
  link_mtu, frm_msg_hdr_len, slice_len, slice_data_len, link_data_max, slice_bytes, ret_len, array,
  Sse, Node, Env,
}
use ipcf.Split.Frame.{en_frame}
use ipcf.Split.Frame.Encode.{length-framed, length-stuffed, framed, stuffed, en_frame-framed}
use ipcf.Split.Slice.{fill_slices}
use ipcf.Split.Slice.Fill.{genuine_from, fill_slices_lem, n_blocks}
use ipcf.Split.Slice.Layout.{all_bytes, length-slice_bytes}
use ipcf.Split.UpperSend.{Built, data_frame, build_loop, send_built, upper_send}
use ipcf.Split.Link.Patch.{genuine_slice, genuine_slice-IsSlice}
use ipcf.Split.Link.Sent.{found, upper_send-send_built}

-- 1 to 416 bytes.
pub record IsShort (msg : List ℕ) : Type 0 where
  pub some_bytes : 1 ≤ length msg
  pub few : length msg ≤ 13 * 32

build_loop_short :
    (env : Env) (smac dmac seq : ℕ) (msg slices : List ℕ) (fuel n m : ℕ)
    → n < fuel
    → n ≤ 13
    → (b : Built) × (build_loop env smac dmac seq msg slices fuel n m ≡ some b) × (b.msglen ≡ m)
unfolding build_loop
build_loop_short env smac dmac seq msg slices zero n m enough few = absurd (omega arith)
build_loop_short env smac dmac seq msg slices (suc fuel) n m enough few =
    let frm = data_frame smac dmac seq (take m msg) n slices in
    let whole = take (slice_len * n + frm_msg_hdr_len) frm in
    let fits = en_frame-framed whole link_mtu (
      omega (
        arith,
        length-framed whole,
        length-stuffed whole,
        length-take (slice_len * n + frm_msg_hdr_len) frm,
      )) in
    let head = en_frame (take frm_msg_hdr_len frm) link_mtu in
    (
      record {
        snode = record {
          n_slices = n;
          frm = frm;
          esc_len = ret_len head;
          escaped = array (array env.stale (framed whole)) head.bytes;
        };
        msglen = m;
      },
      rw fits refl,
      refl,
    )

send_built-some :
    (env : Env) (dmac : ℕ) (se : Sse) (n : Node) (b : Built)
    → (send_built env dmac se n (some b)).0 ≡ some b.msglen
unfolding send_built
send_built-some env dmac se n b = refl

module _ (msg : List ℕ) (h : IsShort msg) where
  pub upper_send-some :
      (env : Env) (smac dmac : ℕ) (n : Node)
      → (upper_send env smac dmac msg n).0 ≡ some (length msg)
  upper_send-some env smac dmac n =
      let se = found env dmac n in
      let total = n_blocks (length msg) in
      let slices = all_bytes (genuine_from msg 0 total) in
      let (b, built, len) =
        build_loop_short env smac dmac se.seq msg slices (total + 1) total
          (length msg - (length msg - slice_data_len * total)) (omega arith)
          (omega (arith, h.few)) in
      let filled = fill_slices link_data_max msg in
      let same : build_loop env smac dmac se.seq msg (all_bytes filled.slices) (filled.n_slices + 1)
            filled.n_slices (length msg - filled.remain)
          ≡ some b =
        rw (fill_slices_lem msg) built in
      let se' : Sse = record se { seq = u8 (se.seq + 1) } in
      ap (λ (r : Option ℕ × Node). r.0)
        (upper_send-send_built env smac dmac msg n (omega (arith, h.some_bytes)))
      ∙ ap (λ (o : Option Built). (send_built env dmac se' n o).0) same
      ∙ send_built-some env dmac se' n b
      ∙ ap some (len ∙ omega (arith, h.few))

  length-genuine : (k n : ℕ) → length (all_bytes (genuine_from msg k n)) ≡ slice_len * n
  unfolding genuine_from
  length-genuine k zero = refl
  length-genuine k (suc n) =
      let one = genuine_slice msg k in
      omega (
        arith,
        length-append (slice_bytes one) (all_bytes (genuine_from msg (k + 1) n)),
        length-slice_bytes one (genuine_slice-IsSlice msg k),
        length-genuine (k + 1) n,
      )

  pub stuffed_slices_short :
      length (stuffed (all_bytes (fill_slices link_data_max msg).slices)) ≤ 962
  stuffed_slices_short =
      let total = n_blocks (length msg) in
      rw (fill_slices_lem msg) (
        omega (
          arith,
          length-stuffed (all_bytes (genuine_from msg 0 total)),
          length-genuine 0 total,
          h.few,
        ))
