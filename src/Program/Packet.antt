-- ===== src/Program/Packet.antt =====
-- The packets that the header compression does not take, from device to device.
use ipcf.Common.{ℕ, ◌≡◌, false, some, none, List, length, arith}
use ipcf.Split.Types.{array}
use ipcf.Compact.Table.{Table}
use ipcf.Compact.Xmit.{can_compact}
use ipcf.Program.{Around, Program}
use ipcf.Program.Untouched.{IsIntact, xmit_untouched, recv_compress-untouched}
use ipcf.Program.Through.{deliver, Joined, IsTaken, not_empty, deliver_through}

module _ (T : Table) (hash_bytes : List ℕ → ℕ) where
  -- Two programs, joined by a link that loses nothing, of which the one has nothing else to send
  -- and the other has no frame and no data in its queues, and the arrays of whose receive sessions
  -- have LINK_MTU bytes. A packet of 20 to 864 bytes, with its length in its header, that the
  -- receiver takes for IPv4 with a good checksum, and that the sender's header compression does
  -- not take, is read from the sender's device. If `upper_send` takes all of it, and its stuffed
  -- slices take at most 962 bytes, then no round of the loops is a fault, and after four frames
  -- the receiver writes that packet to its device; the two are joined and have their flows as
  -- before.
  pub deliver_lem :
      (e0 e1 e2 e3 e4 e5 : Around) (pkt : List ℕ) (p q : Program T)
      → IsIntact pkt
      → can_compact (array e0.stale pkt) ≡ false
      → Joined T hash_bytes p q
      → IsTaken T hash_bytes e0 pkt p
      → (p' : Program T) × (q' : Program T) × (deliver T hash_bytes e0 e1 e2 e3 e4 e5 pkt p q
          ≡ some (record { sent = none; written = some pkt }, p', q'))
        × Joined T hash_bytes p' q'
        × (p'.flows ≡ p.flows)
        × (q'.flows ≡ q.flows)
  deliver_lem e0 e1 e2 e3 e4 e5 pkt p q intact plain joined taken =
      deliver_through T hash_bytes e0 e1 e2 e3 e4 e5 pkt pkt pkt p q p.flows q.flows
        (not_empty pkt (omega (arith, intact.at_least)))
        (xmit_untouched pkt e0.stale intact T hash_bytes e0.compact p.flows plain)
        (recv_compress-untouched pkt e5.stale intact T hash_bytes e5.compact (length pkt) q.flows)
        joined taken
