-- ===== src/Split/Frame.antt =====
-- `en_frame` and `de_frame` of split.c: the byte stuffing of the link. A frame stands between two
-- BREAK_CHARs; a BREAK_CHAR or ESCAPE_CHAR of the data is sent as ESCAPE_CHAR and a second byte.
pub mod Encode
pub mod Decode
pub mod RoundTrip
mod Tests
use ipcf.Common.{
  ℕ, zero, suc, ◌+◌, Bool, true, false, List, [], ◌∷◌, ◌++◌, length, ltb, ◌==◌, if◌then◌else◌,
}

abbrev pub break_char : ℕ
break_char = 0xc0

abbrev pub escape_char : ℕ
escape_char = 0xdb

abbrev pub escape_break : ℕ
escape_break = 0xdc

abbrev pub escape_escape : ℕ
escape_escape = 0xdb

-- The bytes that the `switch` of `en_frame` stores for one byte of data.
unfoldable pub stuff : ℕ → List ℕ
stuff c =
    if c == break_char
    then escape_char ∷ escape_break ∷ []
    else if c == escape_char
    then escape_char ∷ escape_escape ∷ []
    else c ∷ []

-- What `en_frame` leaves behind: `fits` if it returns a length (that of `bytes`) and not -1, the
-- new `*data_len`, and the bytes stored from `frm` on.
pub record EnFrame : Type 0 where
  pub fits : Bool
  pub used : ℕ
  pub bytes : List ℕ

-- The loop over the data, then the closing break. `n` is `p - frm`.
unfoldable pub en_loop : List ℕ → ℕ → ℕ → EnFrame
unfolding stuff
en_loop [] size n =
    if ltb size (n + 1)
    then record { fits = false; used = 0; bytes = [] }
    else record { fits = true; used = 0; bytes = break_char ∷ [] }
en_loop (c ∷ cs) size n =
    let rest = en_loop cs size (n + length (stuff c)) in
    if ltb size (n + length (stuff c))
    then record { fits = false; used = 0; bytes = [] }
    else record { fits = rest.fits; used = suc rest.used; bytes = stuff c ++ rest.bytes }

unfoldable pub en_frame : List ℕ → ℕ → EnFrame
unfolding en_loop
en_frame msg size =
    let rest = en_loop msg size 1 in
    if ltb size 1
    then record { fits = false; used = 0; bytes = [] }
    else record rest { bytes = break_char ∷ rest.bytes }

-- The return values of `de_frame`: 0; -1, which stands for a full buffer and for a missing break;
-- -2, an escape followed by nothing; -3, an unknown escaped byte.
pub data DeStatus : Type 0 where
  done short cut unknown : DeStatus

-- The status, and the bytes stored in `buf`, whose number is the new `*len`.
pub record DeFrame : Type 0 where
  pub ret : DeStatus
  pub buf : List ℕ

-- Where the loop stands: before the first break, between two bytes, behind an ESCAPE_CHAR.
pub data Mode : Type 0 where
  seek plain escaped : Mode

pub data Action : Type 0 where
  stop : DeStatus → Action
  store : ℕ → Action
  go : Mode → Action

-- What the loop does with one byte.
unfoldable pub de_action : Mode → ℕ → Action
de_action seek c = if c == break_char then go plain else go seek
de_action plain c =
    if c == break_char then stop done else if c == escape_char then go escaped else store c
de_action escaped c =
    if c == escape_break
    then store break_char
    else if c == escape_escape
    then store escape_char
    else stop unknown

-- What it returns where the input ends.
unfoldable pub de_end : Mode → DeStatus
de_end seek = short
de_end plain = short
de_end escaped = cut

-- The loop of `de_frame`; `cap` is the first `*len` and `n` is `p - buf`.
unfoldable pub de_loop : Mode → List ℕ → ℕ → ℕ → DeFrame
unfolding de_action de_end
de_loop m [] cap n = record { ret = de_end m; buf = [] }
de_loop m (c ∷ cs) cap n = elim (de_action m c) [
  | stop r ↦ record { ret = r; buf = [] }
  | store b ↦
      let rest = de_loop plain cs cap (n + 1) in
      if ltb cap (n + 1)
      then record { ret = short; buf = [] }
      else record rest { buf = b ∷ rest.buf }
  | go m' ↦ de_loop m' cs cap n
]

unfoldable pub de_frame : List ℕ → ℕ → DeFrame
unfolding de_loop
de_frame frm cap = de_loop seek frm cap 0
