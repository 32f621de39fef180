-- ===== src/Program/Stream.antt =====
-- Packets one after another, from device to device: what the packets are, and the rounds of the
-- loops that bring them over.
use ipcf.Common.{ℕ, ◌*◌, ◌≤◌, ◌≡◌, false, Option, none, some, List, [], ◌∷◌, arith, length}
use ipcf.Common.Fault.{◌>>=◌}
use ipcf.Split.Types.{array}
use ipcf.Split.Link.Short.{IsShort, upper_send-some, stuffed_slices_short}
use ipcf.Compact.Table.{Table}
use ipcf.Compact.Xmit.{can_compact}
use ipcf.Program.{Around, Output, Program}
use ipcf.Program.Untouched.{IsIntact}
use ipcf.Program.Through.{deliver, IsTaken}

-- A packet, and what the six rounds that bring it over find around them.
pub record Trip : Type 0 where
  pub pkt : List ℕ
  pub e0 : Around
  pub e1 : Around
  pub e2 : Around
  pub e3 : Around
  pub e4 : Around
  pub e5 : Around

-- An intact packet of at most 416 bytes that the header compression does not take.
pub record IsPlain (t : Trip) : Type 0 where
  pub intact : IsIntact t.pkt
  pub few : length t.pkt ≤ 13 * 32
  pub plain : can_compact (array t.e0.stale t.pkt) ≡ false

pub IsPlain-IsShort : (t : Trip) → IsPlain t → IsShort t.pkt
IsPlain-IsShort t h = record { some_bytes = omega (arith, h.intact.at_least); few = h.few }

-- What the device gets.
abbrev pub written : Trip → Output
written t = record { sent = none; written = some t.pkt }

module _ (T : Table) (hash_bytes : List ℕ → ℕ) where
  pub IsShort-IsTaken :
      (env : Around) (cpkt : List ℕ) (p : Program T)
      → IsShort cpkt
      → IsTaken T hash_bytes env cpkt p
  IsShort-IsTaken env cpkt p h = record {
    at_least = h.some_bytes;
    at_most = omega (arith, h.few);
    taken = upper_send-some cpkt h env.link 2 1 p.node;
    fits = stuffed_slices_short cpkt h;
  }

  -- Each packet is read after the one before was written.
  unfoldable pub deliver_all :
      List Trip → Program T → Program T → Option (List Output × Program T × Program T)
  deliver_all [] p q = some ([], p, q)
  deliver_all (t ∷ ts) p q = do
    (o, p', q') ← deliver T hash_bytes t.e0 t.e1 t.e2 t.e3 t.e4 t.e5 t.pkt p q
    (os, p'', q'') ← deliver_all ts p' q'
    some (o ∷ os, p'', q'')
