-- ===== src/Split/Node/Room.antt =====
-- A frame that a node takes in does not change the size of the arrays of its receive sessions.
use ipcf.Common.{ℕ, ◌≡◌, ◌∙◌, sym, ap, not, Option, none, some, List, length, take, ltb, ◌==◌}
use ipcf.Common.Fault.{◌>>=◌}
use ipcf.Common.Word.{u8, u16}
use ipcf.Split.Types.{
  link_mtu, frm_hdr_len, frame_type_data, frame_type_ackr, frame_type_patch, frame_type_acka,
  frame_type_ackp, read_frm, frm_csum, Node, Env,
}
use ipcf.Split.Frame.{de_frame}
use ipcf.Split.Recv.Size.{AllRoom, Yields, Yields-some, Yields->>=, Yields-if, Roomy}
use ipcf.Split.Recv.Room.{proc_data-Roomy, proc_ack_req-Roomy, proc_patch-Roomy}
use ipcf.Split.Send.{proc_ack_all, proc_ack_part}
use ipcf.Split.Node.{lower_put}
use ipcf.Split.Node.Same.{proc_ack_all-Same, proc_ack_part-Same}

pub AllRoom-rse : (n m : Node) → m.rse ≡ n.rse → AllRoom n → AllRoom m
AllRoom-rse n m e h = record { each = λ mac se f. h.each mac se (sym (ap (λ r. r mac) e) ∙ f) }

-- What `lower_put` leaves.
abbrev pub Put : Option ℕ × Node → Type 0
Put r = AllRoom r.1

done-Put : (r : Option ℕ) (m : Option Node) → Roomy m → Yields Put (m >>= λ n'. some (r, n'))
done-Put r m h = Yields->>= Put m _ (λ n e. Yields-some Put (r, n) (h.each n e))

pub lower_put-Put :
    (env : Env) (raw : List ℕ) (n : Node) → AllRoom n → Yields Put (lower_put env raw n)
unfolding lower_put
lower_put-Put env raw n h =
    let buf = (de_frame (take (u16 (length raw)) raw) link_mtu).buf in
    let r : Option ℕ = some (length raw) in
    let fh = read_frm buf in
    let bad = Yields-some Put (none, n) h in
    Yields-if Put (ltb (length buf) frm_hdr_len) bad (
      Yields-if Put (not (u8 fh.csum == frm_csum fh)) bad (
        Yields-if Put (fh.type == frame_type_data) (done-Put r _ (proc_data-Roomy env buf n h)) (
          Yields-if Put (fh.type == frame_type_ackr) (done-Put r _ (proc_ack_req-Roomy env buf n h))
            (Yields-if Put (fh.type == frame_type_patch)
              (done-Put r _ (proc_patch-Roomy env buf n h))
              (Yields-if Put (fh.type == frame_type_acka)
                (Yields-some Put (r, proc_ack_all env buf n)
                  (AllRoom-rse n _ (proc_ack_all-Same env buf n).rse h))
                (Yields-if Put (fh.type == frame_type_ackp)
                  (Yields-some Put (r, proc_ack_part env buf n)
                    (AllRoom-rse n _ (proc_ack_part-Same env buf n).rse h))
                  bad))))))
