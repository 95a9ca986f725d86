-- ===== src/Packet/Layout.antt =====
-- `struct pkt` of common/packet_interface.h: a packed struct, read by the offsets of its fields on
-- a little-endian host, where the first bit-field of a byte takes its low bits.
use project_transport_protoc.Prelude.{ℕ, ◌+◌, ◌*◌, ◌/◌, ◌%◌, Bool, ◌||◌, ◌==◌, leb, if◌then◌else◌}
use project_transport_protoc.Prelude.Memory.{Mem, store, load16, store16, load32, store32}

abbrev pub Pkt : Type 0
Pkt = Mem

abbrev pub max_payload_size : ℕ
max_payload_size = 512

abbrev pub max_window_size : ℕ
max_window_size = 31

-- `offsetof` of the fields behind the first two bytes.
abbrev pub at_length : ℕ
at_length = 2

abbrev pub at_ts : ℕ
at_ts = 4

abbrev pub at_crc1 : ℕ
at_crc1 = 8

abbrev pub at_payload : ℕ
at_payload = 12

abbrev pub at_crc2 : ℕ
at_crc2 = 524

abbrev pub sizeof_pkt : ℕ
sizeof_pkt = 528

abbrev pub pkt_headerlen : ℕ
pkt_headerlen = at_payload

abbrev pub pkt_crc1len : ℕ
pkt_crc1len = 4

abbrev pub pkt_footerlen : ℕ
pkt_footerlen = 4

abbrev pub pkt_min_len : ℕ
pkt_min_len = pkt_headerlen

abbrev pub pkt_timestamp : ℕ
pkt_timestamp = 0xdeadbeef

abbrev pub ptype_data : ℕ
ptype_data = 1

abbrev pub ptype_ack : ℕ
ptype_ack = 2

abbrev pub ptype_nack : ℕ
ptype_nack = 3

-- The fields, as `pkt->f` reads them.
abbrev pub window : Pkt → ℕ
window p = p 0 % 32

abbrev pub tr : Pkt → ℕ
tr p = p 0 / 32 % 2

abbrev pub type : Pkt → ℕ
type p = p 0 / 64 % 4

abbrev pub seq : Pkt → ℕ
seq p = p 1

abbrev pub length : Pkt → ℕ
length p = load16 p at_length

abbrev pub ts : Pkt → ℕ
ts p = load32 p at_ts

abbrev pub crc1 : Pkt → ℕ
crc1 p = load32 p at_crc1

abbrev pub crc2 : Pkt → ℕ
crc2 p = load32 p at_crc2

-- `pkt->f = v`: a bit-field or an integer field keeps the low bits of `v`.
abbrev pub set_window : Pkt → ℕ → Pkt
set_window p v = store p 0 (v % 32 + 32 * tr p + 64 * type p)

abbrev pub set_tr : Pkt → ℕ → Pkt
set_tr p v = store p 0 (window p + 32 * (v % 2) + 64 * type p)

abbrev pub set_type : Pkt → ℕ → Pkt
set_type p v = store p 0 (window p + 32 * tr p + 64 * (v % 4))

abbrev pub set_seq : Pkt → ℕ → Pkt
set_seq p v = store p 1 (v % 256)

abbrev pub set_length : Pkt → ℕ → Pkt
set_length p v = store16 p at_length v

abbrev pub set_ts : Pkt → ℕ → Pkt
set_ts p v = store32 p at_ts v

abbrev pub set_crc1 : Pkt → ℕ → Pkt
set_crc1 p v = store32 p at_crc1 v

abbrev pub set_crc2 : Pkt → ℕ → Pkt
set_crc2 p v = store32 p at_crc2 v

-- `pkt_status_code`
pub data Status : Type 0 where
  pkt_ok e_type e_tr e_length e_crc e_window e_seqnum e_nomem e_noheader e_unconsistent : Status

abbrev pub valid_length : ℕ → Bool
valid_length l = leb l max_payload_size

abbrev pub valid_window : ℕ → Bool
valid_window w = leb w max_window_size

abbrev pub valid_type : ℕ → Bool
valid_type t = t == ptype_data || t == ptype_ack || t == ptype_nack

abbrev pub valid_tr : ℕ → ℕ → Bool
valid_tr t r = r == 0 || t == ptype_data

-- The length on the wire of a packet whose fields are in host order.
abbrev pub pkt_len : Pkt → ℕ
pkt_len p = if length p == 0 then pkt_headerlen else pkt_headerlen + pkt_footerlen + length p
