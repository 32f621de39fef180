-- ===== src/Split/Link.antt =====
-- Two nodes joined by a link: from `upper_send` on one to the upper layer of the
-- other.
pub mod Wire
pub mod Missing
pub mod Patch
pub mod Ask
pub mod Header
pub mod Answer
pub mod Acked
pub mod Complete
pub mod Start
pub mod Sent
pub mod Step
pub mod Legs
pub mod Exchange
pub mod Short
pub mod Stream
pub mod Retry
pub mod Lost
pub mod Resend
pub mod Silent
pub mod Rounds
pub mod After
pub mod Recover
pub mod Lossy
mod Tests
use ipcf.Common.{ℕ, Option, none, some, List, [], is_empty, if◌then◌else◌}
use ipcf.Common.Fault.{◌>>=◌}
use ipcf.Split.Types.{Node, Env}
use ipcf.Split.Queue.{lower_fetch}
use ipcf.Split.Node.{lower_put}

-- MAX_BUF_SIZE of test.c.
abbrev pub max_buf_size : ℕ
max_buf_size = 2000

-- A frame, if there is one, is taken from the queue of one node and given to the other: `recv_split`
-- on the one side, `recv_udp` on the other.
unfoldable pub carry : Env → Node → Node → Option (Node × Node)
carry env from to =
    let (f, from') = lower_fetch from max_buf_size in
    let given = (do (r, to') ← lower_put env f.buf to; some (from', to')) in
    if is_empty f.buf then some (from', to) else given

-- The frames of one message: its headers, the answer, the slices, the acknowledgement.
unfoldable pub exchange : Env → Env → Env → Env → Node → Node → Option (Node × Node)
exchange e1 e2 e3 e4 a b = do
  (a1, b1) ← carry e1 a b
  (b2, a2) ← carry e2 b1 a1
  (a3, b3) ← carry e3 a2 b2
  (b4, a4) ← carry e4 b3 a3
  some (a4, b4)
