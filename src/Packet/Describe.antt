-- ===== src/Packet/Describe.antt =====
-- The texts of common/packet_implem.c for status codes and packet types, and the address of a payload.
use Prim.Native.String.{String}
use project_transport_protoc.Prelude.{ℕ, ◌+◌, ◌==◌, if◌then◌else◌, Option, none, some}
use project_transport_protoc.Packet.Layout.{
  Status, pkt_ok, e_type, e_tr, e_length, e_crc, e_window, e_seqnum, e_nomem, e_noheader,
  e_unconsistent, ptype_data, ptype_ack, ptype_nack, at_payload,
}

-- `none` stands for a number that is none of the constants.
abbrev pub pkt_err_code : Option Status → String
pkt_err_code (some pkt_ok) = "[OK] The packet has been processed successfully"
pkt_err_code (some e_type) = "[E_TYPE] Invalid packet type"
pkt_err_code (some e_tr) = "[E_TR] Invalid tr value"
pkt_err_code (some e_length) = "[E_LENGTH] Invalid packet length"
pkt_err_code (some e_crc) = "[E_CRC] Invalid packet crc"
pkt_err_code (some e_window) = "[E_WINDOW] Invalid packet window"
pkt_err_code (some e_seqnum) = "[E_SEQNUM] Invalid packet sequence number"
pkt_err_code (some e_nomem) = "[E_NOMEM] Not enough memory"
pkt_err_code (some e_noheader) = "[E_NOHEADER] Packet has no header"
pkt_err_code (some e_unconsistent) = "[E_UNCONSISTENT] Packet is unconsistent"
pkt_err_code none = "Unknown Error ..."

abbrev pub pkt_type_descr : ℕ → String
pkt_type_descr type =
    if type == ptype_data
    then "[PTYPE_DATA]"
    else if type == ptype_ack
    then "[PTYPE_ACK]"
    else if type == ptype_nack
    then "[PTYPE_NACK]"
    else "Unknown type"

-- The payload is an array, so the accessor answers where it begins; 0 is NULL.
abbrev pub pkt_get_payload : Option ℕ → ℕ
pkt_get_payload none = 0
pkt_get_payload (some address) = address + at_payload
