-- ===== src/Split/Link/Lossy.antt =====
-- Messages one after another over a link that may lose one frame of each.
use ipcf.Common.{
  ℕ, ◌≤◌, ◌≡◌, refl, sym, ap, ◌∙◌, Option, none, some, List, [], ◌∷◌, ◌++◌, map, arith, length,
  take, take_all, All,
}
use mathlib.Core.Path.{subst}
use mathlib.Core.List.{append_assoc, append-nil}
use ipcf.Common.Fault.{◌>>=◌}
use ipcf.Split.Types.{link_data_max, Node, Env}
use ipcf.Split.Frame.Encode.{stuffed}
use ipcf.Split.Slice.{fill_slices}
use ipcf.Split.Slice.Layout.{all_bytes}
use ipcf.Split.UpperSend.{upper_send}
use ipcf.Split.Link.{exchange}
use ipcf.Split.Link.Sent.{Idle}
use ipcf.Split.Link.Step.{InStep}
use ipcf.Split.Link.Short.{IsShort, upper_send-some, stuffed_slices_short}
use ipcf.Split.Link.Exchange.{Exchanged, message_lem}
use ipcf.Split.Link.Lost.{Lost, Times, IsLate, exchange_lost}
use ipcf.Split.Link.Recover.{exchange_lost_lem}

-- A message, the frame of it that is lost, if one is, and what the calls find around them.
pub record Parcel : Type 0 where
  pub msg : List ℕ
  pub lost : Option Lost
  pub e0 : Env
  pub times : Times

-- The frames of a message, with or without a loss.
unfoldable pub pass : Option Lost → Times → ℕ → Node → Node → Option (Node × Node)
pass none t dmac a b = exchange t.e1 t.e2 t.e3 t.e4 a b
pass (some lost) t dmac a b = exchange_lost lost t dmac a b

-- Each message is sent after the last frame of the one before has arrived.
unfoldable pub lossy : ℕ → ℕ → List Parcel → Node → Node → Option (Node × Node)
lossy smac dmac [] a b = some (a, b)
lossy smac dmac (p ∷ ps) a b = do
  (a', b') ← pass p.lost p.times dmac (upper_send p.e0 smac dmac p.msg a).1 b
  lossy smac dmac ps a' b'

-- The sender's timer is due, if a frame is lost.
abbrev pub IsDue : Option Lost → Env → Times → Type 0
IsDue none e0 t = Unit
IsDue (some lost) e0 t = IsLate lost e0 t

-- Two nodes of which the first has nothing to send to `dmac`, neither has a frame in its queue, and
-- the number of the next message is new to the second.
pub record Settled (smac dmac : ℕ) (a b : Node) : Type 0 where
  pub idle : Idle dmac a
  pub sent_all : a.lower_send_list ≡ []
  pub answered : b.lower_send_list ≡ []
  pub step : InStep smac dmac a b

Exchanged-Settled :
    (smac dmac : ℕ) (msg : List ℕ) (b a' b' : Node)
    → Exchanged smac dmac msg b a' b'
    → Settled smac dmac a' b'
Exchanged-Settled smac dmac msg b a' b' x = record {
  idle = x.idle;
  sent_all = x.sent_all;
  answered = x.answered;
  step = x.step;
}

module _ (smac dmac m : ℕ) (msg : List ℕ) (e0 : Env) (t : Times) (a0 a b : Node)
    (q : Settled smac dmac a0 b) (sent : upper_send e0 smac dmac msg a0 ≡ (some m, a))
    (fits : length (stuffed (all_bytes (fill_slices link_data_max (take m msg)).slices))
      ≤ 962) where
  pass-Exchanged :
      (lost : Option Lost)
      → IsDue lost e0 t
      → (a' b' : Node) × (pass lost t dmac a b ≡ some (a', b'))
        × Exchanged smac dmac (take m msg) b a' b'
  unfolding pass
  pass-Exchanged none due =
      message_lem e0 t.e1 t.e2 t.e3 t.e4 smac dmac msg a0 a b m q.idle q.sent_all q.answered
        q.step.room sent fits
  pass-Exchanged (some lost) due =
      exchange_lost_lem lost e0 t smac dmac msg a0 a b m q.idle q.sent_all q.answered q.step.unasked
        q.step.room (q.step.byte e0) (q.step.unknown e0) due sent fits

-- A message that `upper_send` takes whole.
parcel_lem :
    (smac dmac : ℕ) (p : Parcel) (a b : Node)
    → IsShort p.msg
    → IsDue p.lost p.e0 p.times
    → Settled smac dmac a b
    → (a' b' : Node) × (pass p.lost p.times dmac (upper_send p.e0 smac dmac p.msg a).1 b
        ≡ some (a', b'))
      × (b'.upper_recv_list ≡ b.upper_recv_list ++ (p.msg ∷ []))
      × Settled smac dmac a' b'
parcel_lem smac dmac p a b short due q =
    let sent = (upper_send p.e0 smac dmac p.msg a).1 in
    let m = length p.msg in
    let whole : take m p.msg ≡ p.msg = take_all m p.msg (omega arith) in
    let (a', b', ran, done) =
      pass-Exchanged smac dmac m p.msg p.e0 p.times a sent b q
        (ap (λ (o : Option ℕ). (o, sent)) (upper_send-some p.msg short p.e0 smac dmac a))
        (subst (λ l. length (stuffed (all_bytes (fill_slices link_data_max l).slices)) ≤ 962)
          (sym whole) (stuffed_slices_short p.msg short))
        p.lost due in
    (
      a',
      b',
      ran,
      done.upper ∙ ap (λ l. b.upper_recv_list ++ (l ∷ [])) whole,
      Exchanged-Settled smac dmac (take m p.msg) b a' b' done,
    )

-- Any number of messages of 1 to 416 bytes are sent one after another between two nodes, and the
-- link loses none or any one of the four frames of each: the headers, the request for the slices,
-- the slices or the acknowledgement. At the start the sender has nothing to send to the receiver,
-- the retry counters of its session, if there is one, are 0, no frame is queued on either side, the
-- array of the receiver's session has LINK_MTU bytes, the number of the next message is a byte, and
-- the receiver's session, if there is one, is not of that number. The sender looks at the timer of
-- its session, by `sse_tick`, only after a loss: once, or six times if the headers are lost, and at
-- least 3000 ms after it has sent the message, or, if the slices or the acknowledgement are lost,
-- the slices. Then no call is a fault, the receiver hands up exactly these messages, each once and
-- in order, behind what it had already, and all that holds at the start holds again.
pub lossy_lem :
    (smac dmac : ℕ) (ps : List Parcel) (a b : Node)
    → All (λ (p : Parcel). IsShort p.msg) ps
    → All (λ (p : Parcel). IsDue p.lost p.e0 p.times) ps
    → Settled smac dmac a b
    → (a' b' : Node) × (lossy smac dmac ps a b ≡ some (a', b'))
      × (b'.upper_recv_list ≡ b.upper_recv_list ++ map (λ (p : Parcel). p.msg) ps)
      × Settled smac dmac a' b'
unfolding lossy
lossy_lem smac dmac [] a b short due q = (a, b, refl, sym (append-nil b.upper_recv_list), q)
lossy_lem smac dmac (p ∷ ps) a b (one, short) (now, late) q =
    let (a1, b1, ran, up, q1) = parcel_lem smac dmac p a b one now q in
    let (a', b', rest, ups, q') = lossy_lem smac dmac ps a1 b1 short late q1 in
    (
      a',
      b',
      rw ran rest,
      ups
          ∙ ap (λ l. l ++ map (λ (p : Parcel). p.msg) ps) up
          ∙ append_assoc b.upper_recv_list (p.msg ∷ []) (map (λ (p : Parcel). p.msg) ps),
      q',
    )
