-- ===== src/Split/Link/Legs.antt =====
-- The frames of one message, each taken from one node's queue and given to the other node.
use ipcf.Common.{
  ℕ, zero, suc, ◌+◌, ◌*◌, ◌/◌, ◌≤◌, ◌<◌, ◌≡◌, inl, refl, sym, ap, ◌∙◌, true, false, is_empty,
  Option, some, List, [], ◌∷◌, ◌++◌, map, arith, length, length-append, All,
}
use mathlib.Core.Path.{subst}
use mathlib.Core.List.{append_assoc}
use ipcf.Common.Bits.{bit, bit-zero}
use ipcf.Compact.Table.{has}
use ipcf.Split.Types.{
  link_mtu, link_data_max, Sse, Node, Env, Rse, frame_bytes, frame_type_acka, frame_type_ackp,
}
use ipcf.Split.Frame.{stuff}
use ipcf.Split.Frame.Encode.{framed, stuffed, length-framed, length-stuffed}
use ipcf.Split.Slice.{fill_slices}
use ipcf.Split.Slice.Fill.{genuine_from, fill_slices_lem, n_blocks}
use ipcf.Split.Slice.Layout.{all_bytes}
use ipcf.Split.Recv.{ack_frame}
use ipcf.Split.Send.{try_lower_send, put_sse}
use ipcf.Split.Node.{lower_put}
use ipcf.Split.Link.{max_buf_size, carry}
use ipcf.Split.Link.Missing.{zeros, missing_loop_lem}
use ipcf.Split.Link.Wire.{queued, lower_fetch-head}
use ipcf.Split.Link.Patch.{genuine_slice}
use ipcf.Split.Link.Ask.{Awaits, ack_frame_fits}
use ipcf.Split.Link.Answer.{Packet, patch_hdr, patch_msg_hdr, patch_frame}
use ipcf.Split.Link.Acked.{asked, popped, lower_put-asked, lower_put-acked}
use ipcf.Split.Link.Complete.{Completed, lower_put-completes}
use ipcf.Split.Link.Sent.{Idle, InFlight}

pub carry-head :
    (env : Env) (x y y' : Node) (r : Option ℕ) (raw : List ℕ)
    → x.lower_send_list ≡ raw ∷ []
    → is_empty raw ≡ false
    → length raw ≤ link_mtu
    → lower_put env raw y ≡ some (r, y')
    → carry env x y ≡ some (record x { lower_send_list = [] }, y')
unfolding carry
carry-head env x y y' r raw e full h run =
    let (buf, rest) = lower_fetch-head raw [] x max_buf_size e (omega arith) in
    rw (buf, rest, full, run) refl

pub is_empty-framed : (frame : List ℕ) → is_empty (framed frame) ≡ false
unfolding framed
is_empty-framed frame = refl

-- The missing slices of a message of which nothing has come are all of them.
slices_missing :
    (msg : List ℕ) (k n : ℕ) → map (genuine_slice msg) (zeros 0 k n) ≡ genuine_from msg k n
unfolding zeros genuine_from
slices_missing msg k zero = refl
slices_missing msg k (suc n) =
    rw (bit-zero k) (ap (λ l. genuine_slice msg k ∷ l) (slices_missing msg (k + 1) n))

pub length-zeros_all : (k n : ℕ) → length (zeros 0 k n) ≡ n
unfolding zeros
length-zeros_all k zero = refl
length-zeros_all k (suc n) = rw (bit-zero k) (ap suc (length-zeros_all (k + 1) n))

stuffed-append : (xs ys : List ℕ) → stuffed (xs ++ ys) ≡ stuffed xs ++ stuffed ys
unfolding stuffed
stuffed-append [] ys = refl
stuffed-append (x ∷ xs) ys =
    ap (λ l. stuff x ++ l) (stuffed-append xs ys)
    ∙ sym (append_assoc (stuff x) (stuffed xs) (stuffed ys))

-- The frame of all slices fits if the stuffed slices take at most 962 bytes.
pub all_slices_fit :
    (smac dmac seq : ℕ) (msg : List ℕ)
    → length msg ≤ 27 * 32
    → length (stuffed (all_bytes (fill_slices link_data_max msg).slices)) ≤ 962
    → length (framed (patch_frame smac dmac seq msg (zeros 0 0 ((length msg + 31) / 32))))
      ≤ link_mtu
all_slices_fit smac dmac seq msg small h =
    let ms = zeros 0 0 ((length msg + 31) / 32) in
    let header =
      frame_bytes (patch_hdr smac dmac (length ms)) (patch_msg_hdr seq (length ms)) [] [] in
    let body = all_bytes (map (genuine_slice msg) ms) in
    let blocks : n_blocks (length msg) ≡ (length msg + 31) / 32 = omega arith in
    let same : body ≡ all_bytes (fill_slices link_data_max msg).slices =
      rw (fill_slices_lem msg, blocks) (ap all_bytes (slices_missing msg 0 _)) in
    let len : length (stuffed (header ++ body)) ≡ length (stuffed header) + length (stuffed body) =
      ap length (stuffed-append header body) ∙ length-append (stuffed header) (stuffed body) in
    let short : length (stuffed body) ≤ 962 = rw same h in
    omega (arith, length-framed (header ++ body), len, length-stuffed header, short)

below_only : (w n : ℕ) (xs : List ℕ) → All (λ j. (j < n) × (bit w j ≡ 0)) xs → All (λ j. j < n) xs
below_only w n [] h = tt
below_only w n (x ∷ xs) h = (h.0.0, below_only w n xs h.1)

abbrev pub sent_off : Node → Node
sent_off n = record n { lower_send_list = [] }

module _ (e2 e3 e4 : Env) (smac dmac seq : ℕ) (msg : List ℕ) (a : Node)
    (flight : InFlight smac dmac seq msg a)
    (fits : length (stuffed (all_bytes (fill_slices link_data_max msg).slices)) ≤ 962) where
  abbrev p : Packet smac dmac seq msg flight.pkt
  p = flight.packet

  abbrev n_slices : ℕ
  n_slices = (length msg + 31) / 32

  abbrev pub ms : List ℕ
  ms = zeros 0 0 n_slices

  below : All (λ d. d < n_slices) ms
  below =
      let (k, ran, more, listed, each, len) =
        missing_loop_lem 0 n_slices (omega (arith, p.small)) in
      below_only 0 n_slices ms listed

  listed : (j : ℕ) → j < n_slices → has j ms ≡ true
  listed j l =
      let (k, ran, more, below, each, len) = missing_loop_lem 0 n_slices (omega (arith, p.small)) in
      each j l (bit-zero j)

  patch_fits : length (framed (patch_frame smac dmac seq msg ms)) ≤ link_mtu
  patch_fits = all_slices_fit smac dmac seq msg p.small fits

  -- The node after it has sent the slices.
  abbrev pub answered : Node
  answered = queued (framed (patch_frame smac dmac seq msg ms)) (
      put_sse dmac
        (asked e2 smac dmac seq msg flight.pkt [] p flight.se a flight.session flight.front) a)

  pub carry_answer :
      (b : Node)
      → b.lower_send_list ≡ framed (ack_frame smac dmac frame_type_ackp seq ms) ∷ []
      → carry e2 b a ≡ some (sent_off b, answered)
  carry_answer b queue =
      let len = length-zeros_all 0 n_slices in
      carry-head e2 b a answered _ _ queue (is_empty-framed _)
        (ack_frame_fits smac dmac frame_type_ackp seq ms (omega (arith, len, p.small)))
        (lower_put-asked e2 smac dmac seq msg flight.pkt [] p flight.se a flight.session
          flight.front ms (subst (λ (t : ℕ). All (λ d. d < t) ms) (sym p.n_slices) below)
          (omega (arith, len, p.some_bytes)) (omega (arith, len, p.small)) patch_fits)

  pub carry_slices :
      (x b : Node) (se : Rse)
      → x.lower_send_list ≡ framed (patch_frame smac dmac seq msg ms) ∷ []
      → b.rse smac ≡ some se
      → Awaits msg seq 0 se
      → (b' : Node) × (carry e3 x b ≡ some (sent_off x, b')) × Completed smac dmac seq msg b b'
  carry_slices x b se queue known awaits =
      let len = length-zeros_all 0 n_slices in
      let (b', run, completed) =
        lower_put-completes e3 smac dmac seq msg 0 ms se b known awaits p.some_bytes p.small below
          (λ j l. bit-zero j) (λ k l. inl (listed k l)) (omega (arith, len, p.some_bytes))
          (omega (arith, len, p.small)) patch_fits in
      (b', carry-head e3 x b b' _ _ queue (is_empty-framed _) patch_fits run, completed)

  pub carry_ack :
      (b : Node)
      → b.lower_send_list ≡ framed (ack_frame smac dmac frame_type_acka seq []) ∷ []
      → (a' : Node) × (carry e4 b a ≡ some (sent_off b, a'))
        × Idle dmac a'
        × ((s : Sse) × (a'.sse dmac ≡ some s)
            × (s.seq ≡ flight.se.seq)
            × (s.ack_retry ≡ 0)
            × (s.data_retry ≡ 0))
        × (a'.lower_send_list ≡ a.lower_send_list)
  unfolding try_lower_send
  carry_ack b queue =
      let done =
        popped e4 smac dmac seq msg flight.pkt [] p flight.se a flight.session flight.front in
      (
        put_sse dmac done a,
        carry-head e4 b a (put_sse dmac done a) _ _ queue (is_empty-framed _)
            (ack_frame_fits smac dmac frame_type_acka seq [] (omega arith))
            (lower_put-acked e4 smac dmac seq msg flight.pkt [] p flight.se a flight.session
              flight.front),
        record { packets = λ se e. ground (arith, e); waiting = λ se e. ground (arith, e) },
        (done, ground arith, refl, refl, refl),
        refl,
      )
