-- ===== src/Compact/Types.antt =====
-- include/compact.h, and the two kinds of flows of compact.c.
use ipcf.Common.{
  ℕ, ◌+◌, ◌*◌, ◌/◌, ◌%◌, ◌^◌, Bool, ◌&&◌, Option, none, some, List, [], ◌∷◌, ◌++◌, get_or, take,
  drop, length, ltb, ◌==◌, if◌then◌else◌,
}
use ipcf.Common.Word.{le16, le32}
use ipcf.Compact.Ipv4.{IpHdr}

abbrev pub my_mac : ℕ
my_mac = 1

abbrev pub max_data_length : ℕ
max_data_length = 2000

abbrev pub soft_timeout_interval : ℕ
soft_timeout_interval = 10 * 1000

abbrev pub n_id_bits : ℕ
n_id_bits = 8

abbrev pub ctype_frm_ctl : ℕ
ctype_frm_ctl = 0

abbrev pub ctype_frm_tcp : ℕ
ctype_frm_tcp = 1

abbrev pub ctype_frm_udp : ℕ
ctype_frm_udp = 2

abbrev pub ctype_frm_raw : ℕ
ctype_frm_raw = 3

abbrev pub ctype_ctl_req : ℕ
ctype_ctl_req = 1

abbrev pub ctype_ctl_ack : ℕ
ctype_ctl_ack = 2

abbrev pub ctype_ctl_flt : ℕ
ctype_ctl_flt = 3

abbrev pub ctype_tcp_sbit : ℕ
ctype_tcp_sbit = 0x20

abbrev pub ctype_tcp_abit : ℕ
ctype_tcp_abit = 0x10

abbrev pub ctype_tcp_wbit : ℕ
ctype_tcp_wbit = 0x08

abbrev pub ctype_tcp_sbmask : ℕ
ctype_tcp_sbmask = 0x7

abbrev pub ctype_raw_fbit : ℕ
ctype_raw_fbit = 0x20

abbrev pub ctype_raw_mfbit : ℕ
ctype_raw_mfbit = 0x10

-- The low three bits of a TCP frame's `i`, CTYPE_TCP_URG, …, CTYPE_TCP_URGPSH.
abbrev pub ctype_tcp_urg : ℕ
ctype_tcp_urg = 0

abbrev pub ctype_tcp_syn : ℕ
ctype_tcp_syn = 1

abbrev pub ctype_tcp_fin : ℕ
ctype_tcp_fin = 2

abbrev pub ctype_tcp_rst : ℕ
ctype_tcp_rst = 3

abbrev pub ctype_tcp_psh : ℕ
ctype_tcp_psh = 4

abbrev pub ctype_tcp_urgsyn : ℕ
ctype_tcp_urgsyn = 5

abbrev pub ctype_tcp_urgfin : ℕ
ctype_tcp_urgfin = 6

abbrev pub ctype_tcp_urgpsh : ℕ
ctype_tcp_urgpsh = 7

-- `skey_t`, and the 16 bytes that are hashed.
pub record SKey : Type 0 where
  pub saddr : ℕ
  pub daddr : ℕ
  pub ipid : ℕ
  pub proto : ℕ
  pub resv : ℕ
  pub sport : ℕ
  pub dport : ℕ

abbrev pub skey_bytes : SKey → List ℕ
skey_bytes k =
    le32 k.saddr
    ++ (le32 k.daddr ++ (le16 k.ipid ++ (k.proto ∷ k.resv ∷ le16 k.sport ++ le16 k.dport)))

-- `!memcmp` of two keys: the struct has no padding.
unfoldable pub skey_same : SKey → SKey → Bool
skey_same a b =
    a.saddr == b.saddr
    && (a.daddr == b.daddr
        && (a.ipid == b.ipid
            && (a.proto == b.proto
                && (a.resv == b.resv && (a.sport == b.sport && a.dport == b.dport)))))

-- `rkey_t`.
pub record RKey : Type 0 where
  pub smac : ℕ
  pub id : ℕ

abbrev pub rkey_bytes : RKey → List ℕ
rkey_bytes k = k.smac ∷ k.id ∷ []

unfoldable pub rkey_same : RKey → RKey → Bool
rkey_same a b = a.smac == b.smac && a.id == b.id

-- `chdr_t`, which is packed: `i` has 6 bits, `t` the 2 above them.
pub record CHdr : Type 0 where
  pub i : ℕ
  pub t : ℕ
  pub smac : ℕ
  pub id : ℕ

abbrev pub chdr_len : ℕ
chdr_len = 3

abbrev pub read_chdr : List ℕ → CHdr
read_chdr b = record {
  i = get_or b 0 0 % 64;
  t = get_or b 0 0 / 64;
  smac = get_or b 1 0;
  id = get_or b 2 0;
}

abbrev pub chdr_bytes : CHdr → List ℕ
chdr_bytes h = (h.i + 64 * h.t) ∷ h.smac ∷ h.id ∷ []

-- `struct orig_hdr`; the union `t` is its 20 bytes.
pub record OrigHdr : Type 0 where
  pub ip : IpHdr
  pub t : List ℕ

pub data State : Type 0 where
  state_new state_pending state_established : State

-- `sflow_node_t` without its `node`.
pub record SFlow : Type 0 where
  pub state : State
  pub skey : SKey
  pub hdr : OrigHdr
  pub fid : ℕ
  pub soft_timeout : ℕ

-- `rflow_node_t` without its `node`.
pub record RFlow : Type 0 where
  pub rkey : RKey
  pub hdr : OrigHdr
  pub fid : ℕ
  pub soft_timeout : ℕ

-- What an operation finds around it: one reading of `ts_msec()`, and the bytes of fresh memory.
pub record Env : Type 0 where
  pub now : ℕ
  pub stale : List ℕ

-- A `soft_timeout` is an `int`, the low 32 bits of a time.
abbrev pub timeout_at : Env → ℕ
timeout_at env = (env.now + soft_timeout_interval) % 2 ^ 32

-- `now < soft_timeout`: the `int` is negative from 2 ^ 31 on.
unfoldable pub is_live : ℕ → ℕ → Bool
is_live now t = ltb t (2 ^ 31) && ltb now t

-- `memcpy` of `n` bytes at `off` of a buffer; past the end of it is a fault.
unfoldable pub copy : List ℕ → ℕ → ℕ → Option (List ℕ)
copy buf off n = if ltb (length buf) (off + n) then none else some (take n (drop off buf))

-- The `data` of a `pkt_t`, up to `len`; more than there is room for is a fault.
unfoldable pub fill_pkt : List ℕ → Option (List ℕ)
fill_pkt bytes = if ltb max_data_length (length bytes) then none else some bytes
