-- ===== src/Split/Link/Step.antt =====
-- The numbers of two nodes: the one that the sender gives to its next message, and the one that the
-- receiver's session expects.
use ipcf.Common.{ℕ, ◌+◌, ◌<◌, ◌≡◌, false, some, arith, length, ◌==◌}
use ipcf.Common.Word.{u8}
use ipcf.Split.Types.{link_mtu, Sse, Rse, Node, Env}
use ipcf.Split.Send.{get_sse}
use ipcf.Split.Link.Ask.{HasRoom}
use ipcf.Split.Link.Sent.{Unasked, next_seq}

-- The session for a peer, if there is one, is not of the message of this number.
pub record Unknown (mac seq : ℕ) (n : Node) : Type 0 where
  pub other : (se : Rse) → n.rse mac ≡ some se → (se.seq_exp == seq) ≡ false

-- The next message of the sender is new to the receiver, whose session has room for it, and the
-- retry counters of the sender's session are 0.
pub record InStep (smac dmac : ℕ) (a b : Node) : Type 0 where
  pub byte : (env : Env) → next_seq env dmac a < 256
  pub unknown : (env : Env) → Unknown smac (next_seq env dmac a) b
  pub room : HasRoom smac b
  pub unasked : Unasked dmac a

-- The nodes after the message of number `seq`.
pub InStep-after :
    (smac dmac seq : ℕ) (a b : Node) (s : Sse) (r : Rse)
    → a.sse dmac ≡ some s
    → s.seq < 256
    → s.ack_retry ≡ 0
    → s.data_retry ≡ 0
    → u8 (s.seq + 255) ≡ u8 seq
    → b.rse smac ≡ some r
    → r.seq_exp ≡ seq
    → length r.buf ≡ link_mtu
    → InStep smac dmac a b
unfolding get_sse
InStep-after smac dmac seq a b s r sends byte asked resent number receives of room = record {
  byte = λ env. rw (next_seq, sends) byte;
  unknown = λ env. record {
    other = λ m e.
        let same : m.seq_exp ≡ seq = ground (arith, e, receives, of) in
        rw (next_seq, sends) (ground (arith, same, byte, number));
  };
  room = λ m e. ground (arith, e, receives, room);
  unasked = record {
    ack_retry = λ m e. ground (arith, e, sends, asked);
    data_retry = λ m e. ground (arith, e, sends, resent);
  };
}
