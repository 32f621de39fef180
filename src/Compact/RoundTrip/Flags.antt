-- ===== src/Compact/RoundTrip/Flags.antt =====
-- The six bits of a TCP frame's header: what they say of a segment.
use mathlib.Core.Path.{subst}
use ipcf.Common.{
  ℕ, ◌<◌, ◌≡◌, refl, ap, Bool, true, false, ◌&&◌, ◌||◌, not, List, [], ◌∷◌, arith, bit_and, leb,
  ltb, ltb→lt, ◌==◌, if◌then◌else◌,
}
use ipcf.Compact.Ipv4.{TcpHdr}
use ipcf.Compact.Encode.{tcp_kind, tcp_info}
use ipcf.Compact.Decode.{has_bit}

-- One of SYN, FIN, PSH and RST; with URG, at most one of SYN, FIN and PSH. The frame has no room
-- for other combinations.
abbrev pub is_encodable : TcpHdr → Bool
is_encodable tcp =
    if tcp.urg
    then not tcp.rst
      && (not (tcp.syn && tcp.fin) && (not (tcp.syn && tcp.psh) && not (tcp.fin && tcp.psh)))
    else if tcp.syn
    then not tcp.fin && (not tcp.psh && not tcp.rst)
    else if tcp.fin
    then not tcp.psh && not tcp.rst
    else if tcp.psh
    then not tcp.rst
    else tcp.rst

-- What `recv_tcp` reads off `i`: which fields are there, URG, SYN, FIN, PSH, RST.
abbrev pub read_info : ℕ → List Bool
read_info i =
    let kind = bit_and i 7 in
    has_bit i 0x20
    ∷ has_bit i 0x10
    ∷ has_bit i 0x08
    ∷ (kind == 0 || leb 5 kind)
    ∷ (kind == 1 || kind == 5)
    ∷ (kind == 2 || kind == 6)
    ∷ (kind == 4 || kind == 7)
    ∷ (kind == 3)
    ∷ []

abbrev same_bool : Bool → Bool → Bool
same_bool true b = b
same_bool false b = not b

abbrev same_bools : List Bool → List Bool → Bool
same_bools [] [] = true
same_bools [] (y ∷ ys) = false
same_bools (x ∷ xs) [] = false
same_bools (x ∷ xs) (y ∷ ys) = same_bool x y && same_bools xs ys

same_bools-eq : (xs ys : List Bool) → same_bools xs ys ≡ true → xs ≡ ys
same_bools-eq [] [] h = refl
same_bools-eq [] (y ∷ ys) h = cc
same_bools-eq (x ∷ xs) [] h = cc
same_bools-eq (true ∷ xs) (true ∷ ys) h = ap (λ l. true ∷ l) (same_bools-eq xs ys h)
same_bools-eq (true ∷ xs) (false ∷ ys) h = cc
same_bools-eq (false ∷ xs) (true ∷ ys) h = cc
same_bools-eq (false ∷ xs) (false ∷ ys) h = ap (λ l. false ∷ l) (same_bools-eq xs ys h)

-- A test of every combination of flags, by evaluation.
abbrev both : (Bool → Bool) → Bool
both f = f true && f false

both-true : (f : Bool → Bool) → both f ≡ true → (b : Bool) → f b ≡ true
both-true f h true = ground (arith, h)
both-true f h false = ground (arith, h)

-- A header with these flags.
abbrev with_flags : TcpHdr → Bool → Bool → Bool → Bool → Bool → Bool → TcpHdr
with_flags tcp ack urg syn fin psh rst = record tcp {
  ack = ack;
  urg = urg;
  syn = syn;
  fin = fin;
  psh = psh;
  rst = rst;
}

abbrev blank : TcpHdr
blank = record {
  source = 0;
  dest = 0;
  seq = 0;
  ack_seq = 0;
  res1 = 0;
  doff = 0;
  fin = false;
  syn = false;
  rst = false;
  psh = false;
  ack = false;
  urg = false;
  ece = false;
  cwr = false;
  window = 0;
  check = 0;
  urg_ptr = 0;
}

test_info : Bool → Bool → Bool → Bool → Bool → Bool → Bool
unfolding tcp_info
test_info ack urg syn fin psh rst =
    let tcp = with_flags blank ack urg syn fin psh rst in
    not (is_encodable tcp)
    || (ltb (tcp_info tcp) 64
        && same_bools (read_info (tcp_info tcp))
            (true ∷ ack ∷ true ∷ urg ∷ syn ∷ fin ∷ psh ∷ rst ∷ []))

info_table :
    both (λ a. both (λ u. both (λ s. both (λ f. both (λ p. both (λ r. test_info a u s f p r))))))
    ≡ true
unfolding test_info
info_table = refl

info_blank :
    (tcp : TcpHdr)
    → tcp_info (with_flags blank tcp.ack tcp.urg tcp.syn tcp.fin tcp.psh tcp.rst) ≡ tcp_info tcp
unfolding tcp_info tcp_kind
info_blank tcp = refl

modus : (a b : Bool) → a ≡ true → (not a || b) ≡ true → b ≡ true
modus true b h k = k
modus false b h k = cc

and-true : (a b : Bool) → (a && b) ≡ true → (a ≡ true) × (b ≡ true)
and-true true b h = (refl, h)
and-true false b h = cc

-- The bits of an encodable segment fit in `i` and are read back.
pub read_info-tcp_info :
    (tcp : TcpHdr)
    → is_encodable tcp ≡ true
    → (tcp_info tcp < 64)
      × (read_info (tcp_info tcp)
          ≡ true ∷ tcp.ack ∷ true ∷ tcp.urg ∷ tcp.syn ∷ tcp.fin ∷ tcp.psh ∷ tcp.rst ∷ [])
unfolding test_info
read_info-tcp_info tcp h =
    let row =
      both-true (λ r. test_info tcp.ack tcp.urg tcp.syn tcp.fin tcp.psh r)
        (both-true (λ p. both (λ r. test_info tcp.ack tcp.urg tcp.syn tcp.fin p r))
          (both-true (λ f. both (λ p. both (λ r. test_info tcp.ack tcp.urg tcp.syn f p r)))
            (both-true (λ s. both (λ f. both (λ p. both (λ r. test_info tcp.ack tcp.urg s f p r))))
              (both-true
                (λ u. both (λ s. both (λ f. both (λ p. both (λ r. test_info tcp.ack u s f p r)))))
                (both-true
                  (λ a.
                    both
                      (λ u. both (λ s. both (λ f. both (λ p. both (λ r. test_info a u s f p r))))))
                  info_table tcp.ack)
                tcp.urg)
              tcp.syn)
            tcp.fin)
          tcp.psh)
        tcp.rst in
    let flags = true ∷ tcp.ack ∷ true ∷ tcp.urg ∷ tcp.syn ∷ tcp.fin ∷ tcp.psh ∷ tcp.rst ∷ [] in
    let checked =
      subst (λ (i : ℕ). (ltb i 64 && same_bools (read_info i) flags) ≡ true) (info_blank tcp)
        (modus (is_encodable tcp) _ h row) in
    let (small, same) = and-true (ltb (tcp_info tcp) 64) _ checked in
    (ltb→lt (tcp_info tcp) 64 small, same_bools-eq (read_info (tcp_info tcp)) flags same)
