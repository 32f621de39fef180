-- ===== src/Split/Link/Lost.antt =====
-- A link that loses one of the frames of a message: the frames that come, with the looks of the
-- sender at the timer of its session, `sse_tick`, which is what `proc_timer` does with that session.
use ipcf.Common.{ℕ, ◌+◌, ◌≤◌, ◌≡◌, some, Option, List, [], ◌∷◌, arith, length, All}
use ipcf.Common.Fault.{◌>>=◌}
use ipcf.Split.Types.{link_mtu, ack_timeout_ms, max_retry_times, Node, Env}
use ipcf.Split.Queue.{lower_fetch}
use ipcf.Split.Node.{sse_tick}
use ipcf.Split.Link.{max_buf_size, carry, exchange}
use ipcf.Split.Link.Wire.{lower_fetch-head}
use ipcf.Split.Link.Legs.{sent_off}

-- Some looks of the sender at its timer, each with the time and the peer's time when the frame that
-- asks comes to it.
unfoldable pub ask_rounds : List (Env × Env) → ℕ → Node → Node → Option (Node × Node)
ask_rounds [] dmac a b = some (a, b)
ask_rounds ((et, e) ∷ rounds) dmac a b = do
  a1 ← sse_tick et dmac a
  (a2, b2) ← carry e a1 b
  ask_rounds rounds dmac a2 b2

-- The sender's timer, and the frames after it: the request for an acknowledgement, the answer, the
-- slices and the acknowledgement.
unfoldable pub resend_slices : Env → Env → Env → Env → Env → ℕ → Node → Node → Option (Node × Node)
resend_slices et e3 e4 e5 e6 dmac a b = do
  a1 ← sse_tick et dmac a
  (a2, b2) ← carry e3 a1 b
  (b3, a3) ← carry e4 b2 a2
  (a4, b4) ← carry e5 a3 b3
  (b5, a5) ← carry e6 b4 a4
  some (a5, b5)

-- The sender's timer, the request for an acknowledgement, and the acknowledgement.
unfoldable pub resend_ack : Env → Env → Env → ℕ → Node → Node → Option (Node × Node)
resend_ack et e3 e4 dmac a b = do
  a1 ← sse_tick et dmac a
  (a2, b2) ← carry e3 a1 b
  (b3, a3) ← carry e4 b2 a2
  some (a3, b3)

-- The frame that is taken from the queue of a node is lost.
unfoldable pub lose : Node → Node
lose n = (lower_fetch n max_buf_size).1

-- The frame that the link loses.
pub data Lost : Type 0 where
  headers : Lost
  ask : Lost
  slices : Lost
  ack : Lost

-- The times and arrays of the calls: `asks` for the requests after lost headers, `et` when the
-- sender's timer makes it send again, the others when the frames come.
pub record Times : Type 0 where
  pub asks : List (Env × Env)
  pub et : Env
  pub e1 : Env
  pub e2 : Env
  pub e3 : Env
  pub e4 : Env
  pub e5 : Env
  pub e6 : Env
  pub e7 : Env

-- The frames of one message, if the link loses one of the four.
unfoldable pub exchange_lost : Lost → Times → ℕ → Node → Node → Option (Node × Node)
exchange_lost headers t dmac a b = do
  (a1, b1) ← ask_rounds t.asks dmac (lose a) b
  a2 ← sse_tick t.et dmac a1
  exchange t.e4 t.e5 t.e6 t.e7 a2 b1
exchange_lost ask t dmac a b = do
  (a1, b1) ← carry t.e1 a b
  resend_slices t.et t.e4 t.e5 t.e6 t.e7 dmac a1 (lose b1)
exchange_lost slices t dmac a b = do
  (a1, b1) ← carry t.e1 a b
  (b2, a2) ← carry t.e2 b1 a1
  resend_slices t.et t.e4 t.e5 t.e6 t.e7 dmac (lose a2) b2
exchange_lost ack t dmac a b = do
  (a1, b1) ← carry t.e1 a b
  (b2, a2) ← carry t.e2 b1 a1
  (a3, b3) ← carry t.e3 a2 b2
  resend_ack t.et t.e4 t.e5 dmac a3 (lose b3)

pub lose-sent_off :
    (raw : List ℕ) (n : Node)
    → n.lower_send_list ≡ raw ∷ []
    → length raw ≤ link_mtu
    → lose n ≡ sent_off n
unfolding lose
lose-sent_off raw n e h = (lower_fetch-head raw [] n max_buf_size e (omega arith)).1

-- The sender's timer is due after the loss: 3000 ms after it has sent the message, or the slices. If
-- the headers are lost, the timer makes it ask MAX_RETRY_TIMES times before it sends them again.
abbrev pub IsLate : Lost → Env → Times → Type 0
IsLate headers e0 t =
    (length t.asks ≡ max_retry_times)
    × All (λ (r : Env × Env). e0.now + ack_timeout_ms ≤ r.0.now) t.asks
    × (e0.now + ack_timeout_ms ≤ t.et.now)
IsLate ask e0 t = e0.now + ack_timeout_ms ≤ t.et.now
IsLate slices e0 t = t.e2.now + ack_timeout_ms ≤ t.et.now
IsLate ack e0 t = t.e2.now + ack_timeout_ms ≤ t.et.now
