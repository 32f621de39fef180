-- ===== src/Split/Link/Stream.antt =====
-- A message between two nodes that are ready for the next one.
use ipcf.Common.{
  ℕ, ◌≤◌, ◌≡◌, refl, sym, ap, ◌∙◌, Option, some, List, [], ◌∷◌, ◌++◌, arith, length, take, take_all,
  is_empty,
}
use mathlib.Core.Path.{subst}
use ipcf.Split.Types.{link_data_max, Node, Env}
use ipcf.Split.Frame.Encode.{stuffed}
use ipcf.Split.Slice.{fill_slices}
use ipcf.Split.Slice.Layout.{all_bytes}
use ipcf.Split.Queue.{lower_fetch}
use ipcf.Split.Recv.Size.{AllRoom, Yields, Yields-some, Yields->>=, Yields-if}
use ipcf.Split.UpperSend.{upper_send}
use ipcf.Split.Node.{lower_put}
use ipcf.Split.Node.Same.{upper_send-Same}
use ipcf.Split.Node.Room.{lower_put-Put, AllRoom-rse}
use ipcf.Split.Link.{max_buf_size, carry, exchange}
use ipcf.Split.Link.Sent.{Idle}
use ipcf.Split.Link.Exchange.{message_lem}

-- A message, and what the five calls that bring it over find around them.
pub record Round : Type 0 where
  pub msg : List ℕ
  pub e0 : Env
  pub e1 : Env
  pub e2 : Env
  pub e3 : Env
  pub e4 : Env

-- A carried frame keeps the arrays of the nodes.
abbrev pub BothRoom : Node × Node → Type 0
BothRoom r = AllRoom r.0 × AllRoom r.1

carry-BothRoom :
    (env : Env) (from to : Node) → AllRoom from → AllRoom to → Yields BothRoom (carry env from to)
unfolding carry lower_fetch
carry-BothRoom env from to hf ht =
    let (f, from') = lower_fetch from max_buf_size in
    let hf' : AllRoom from' = AllRoom-rse from from' refl hf in
    Yields-if BothRoom (is_empty f.buf) (Yields-some BothRoom (from', to) (hf', ht)) (
      Yields->>= BothRoom (lower_put env f.buf to) _ (λ (r, to') e.
        Yields-some BothRoom (from', to') (hf', (lower_put-Put env f.buf to ht).each (r, to') e)))

exchange-BothRoom :
    (e1 e2 e3 e4 : Env) (a b : Node)
    → AllRoom a
    → AllRoom b
    → Yields BothRoom (exchange e1 e2 e3 e4 a b)
unfolding exchange
exchange-BothRoom e1 e2 e3 e4 a b ha hb = Yields->>= BothRoom (carry e1 a b) _ (λ (a1, b1) r1.
    let (ha1, hb1) = (carry-BothRoom e1 a b ha hb).each (a1, b1) r1 in
    Yields->>= BothRoom (carry e2 b1 a1) _ (λ (b2, a2) r2.
      let (hb2, ha2) = (carry-BothRoom e2 b1 a1 hb1 ha1).each (b2, a2) r2 in
      Yields->>= BothRoom (carry e3 a2 b2) _ (λ (a3, b3) r3.
        let (ha3, hb3) = (carry-BothRoom e3 a2 b2 ha2 hb2).each (a3, b3) r3 in
        Yields->>= BothRoom (carry e4 b3 a3) _ (λ (b4, a4) r4.
          let (hb4, ha4) = (carry-BothRoom e4 b3 a3 hb3 ha3).each (b4, a4) r4 in
          Yields-some BothRoom (a4, b4) (ha4, hb4)))))

-- Two nodes of which the first has nothing to send to `dmac`, and neither has a frame in its queue.
pub record Quiet (dmac : ℕ) (a b : Node) : Type 0 where
  pub idle : Idle dmac a
  pub sent_all : a.lower_send_list ≡ []
  pub answered : b.lower_send_list ≡ []
  pub room : BothRoom (a, b)

-- A message that `upper_send` takes whole.
pub whole_message :
    (smac dmac : ℕ) (r : Round) (a b : Node)
    → (upper_send r.e0 smac dmac r.msg a).0 ≡ some (length r.msg)
    → length (stuffed (all_bytes (fill_slices link_data_max r.msg).slices)) ≤ 962
    → Quiet dmac a b
    → (a' b' : Node) × (exchange r.e1 r.e2 r.e3 r.e4 (upper_send r.e0 smac dmac r.msg a).1 b
        ≡ some (a', b'))
      × (b'.upper_recv_list ≡ b.upper_recv_list ++ (r.msg ∷ []))
      × Quiet dmac a' b'
whole_message smac dmac r a b taken fits q =
    let sent = (upper_send r.e0 smac dmac r.msg a).1 in
    let whole : take (length r.msg) r.msg ≡ r.msg = take_all (length r.msg) r.msg (omega arith) in
    let (a', b', ran, done) =
      message_lem r.e0 r.e1 r.e2 r.e3 r.e4 smac dmac r.msg a sent b (length r.msg) q.idle q.sent_all
        q.answered (q.room.1.each smac) (ap (λ (o : Option ℕ). (o, sent)) taken)
        (subst (λ l. length (stuffed (all_bytes (fill_slices link_data_max l).slices)) ≤ 962)
          (sym whole) fits) in
    let room_sent = AllRoom-rse a sent (upper_send-Same r.e0 smac dmac r.msg a).rse q.room.0 in
    (
      a',
      b',
      ran,
      done.upper ∙ ap (λ l. b.upper_recv_list ++ (l ∷ [])) whole,
      record {
        idle = done.idle;
        sent_all = done.sent_all;
        answered = done.answered;
        room = (exchange-BothRoom r.e1 r.e2 r.e3 r.e4 sent b room_sent q.room.1).each (a', b') ran;
      },
    )
