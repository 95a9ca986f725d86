-- ===== src/Packet/Codec/Bytes.antt =====
-- `pkt_decode_inline` leaves bytes in the packet, whatever it answers.
use project_transport_protoc.Prelude.{ℕ, arith}
use project_transport_protoc.Prelude.Memory.{IsBytes, htons}
use project_transport_protoc.Packet.Layout
use project_transport_protoc.Packet.Layout.{Pkt}
use project_transport_protoc.Packet.Codec.Wire.{accept_crc1-IsBytes}
use project_transport_protoc.Packet.Codec.{
  Zlib, check_crc2, check_payload, decode_body, accept_crc1, pkt_decode_inline,
}

module _ (z : Zlib) where
  body-IsBytes : (p : Pkt) (rlen plen : ℕ) → IsBytes p → IsBytes (decode_body z p rlen plen).1
  unfolding decode_body check_payload check_crc2
  body-IsBytes p rlen plen bytes i = ground (arith, bytes i)

  pub decode-IsBytes : (p : Pkt) (rlen : ℕ) → IsBytes p → IsBytes (pkt_decode_inline z p rlen).1
  unfolding pkt_decode_inline
  decode-IsBytes p rlen bytes i = ground (
    arith,
    bytes i,
    bytes 0,
    body-IsBytes (accept_crc1 p) rlen (htons (Layout.length p)) (accept_crc1-IsBytes z p bytes) i,
  )
