-- ===== src/Packet/Codec.antt =====
-- `pkt_decode`, `pkt_encode` and their in-place versions of common/packet_implem.c.
pub mod Wire
pub mod Fields
pub mod Encode
pub mod Transfer
pub mod RoundTrip
pub mod Bytes
use project_transport_protoc.Prelude.{
  ℕ, ◌+◌, ◌-◌, ◌%◌, ◌^◌, List, Bool, ◌&&◌, not, ◌==◌, ltb, leb, if◌then◌else◌, Option, none, some,
}
use project_transport_protoc.Prelude.Memory.{Mem, slice, copy, load32, store32, htons, htonl}
use project_transport_protoc.Packet.Layout
use project_transport_protoc.Packet.Layout.{
  Pkt, Status, pkt_ok, e_type, e_tr, e_length, e_crc, e_nomem, e_noheader, e_unconsistent,
  sizeof_pkt, pkt_headerlen, pkt_crc1len, pkt_footerlen, pkt_min_len, at_payload, ptype_data,
  valid_type, valid_tr, valid_length, pkt_len,
}

-- zlib's checksum: `crc32(0L, Z_NULL, 0)`, and `crc32(crc, buf, len)` over the bytes of `buf`.
pub record Zlib : Type 0 where
  pub initial : ℕ
  pub crc32 : ℕ → List ℕ → ℕ

-- `size_t` subtraction
abbrev pub sub_size : ℕ → ℕ → ℕ
sub_size a b = (a + 2 ^ 64 - b) % 2 ^ 64

-- Line 109, reached if no check has failed.
abbrev pub restore_length : ℕ → Status × Pkt → Status × Pkt
restore_length plen (pkt_ok, pkt) = (pkt_ok, Layout.set_length pkt plen)
restore_length plen (e, pkt) = (e, pkt)

-- Line 61: `ntohl` of the last word of the header.
abbrev pub wire_crc1 : Pkt → ℕ
wire_crc1 pkt = htonl (load32 pkt (pkt_headerlen - pkt_crc1len))

-- Lines 59, 60, 65 and 67: the checksum in host order, with the TR bit cleared meanwhile.
unfoldable pub accept_crc1 : Pkt → Pkt
accept_crc1 pkt =
    let cleared : Pkt = Layout.set_tr pkt 0 in
    Layout.set_tr (Layout.set_crc1 cleared (wire_crc1 cleared)) (Layout.tr pkt)

-- Lines 131 and 134: the length in network order, and the TR bit cleared.
unfoldable pub clear_header : Pkt → Pkt
clear_header pkt = Layout.set_tr (Layout.set_length pkt (htons (Layout.length pkt))) 0

module _ (z : Zlib) where
  -- The result is cut to a `uint32_t`.
  unfoldable pub crc_of : Mem → ℕ → ℕ → ℕ
  crc_of m from len = z.crc32 z.initial (slice m from len) % 2 ^ 32

  -- Lines 87 to 94: the checksum of a payload that is there.
  unfoldable pub check_crc2 : Pkt → ℕ → ℕ → Status × Pkt
  check_crc2 pkt rlen payload_len =
      let crc2 : ℕ = htonl (load32 pkt (rlen - pkt_footerlen)) in
      let computed_crc2 : ℕ = crc_of pkt at_payload payload_len in
      if payload_len == 0
      then (pkt_ok, pkt)
      else if crc2 == computed_crc2
      then (pkt_ok, Layout.set_crc2 pkt crc2)
      else (e_crc, pkt)

  -- Lines 74 to 107: the `switch` on the type.
  unfoldable pub check_payload : Pkt → ℕ → ℕ → ℕ → Status × Pkt
  check_payload pkt rlen plen payload_len =
      if Layout.type pkt == ptype_data
      then if Layout.tr pkt == 0
        then if plen == payload_len then check_crc2 pkt rlen payload_len else (e_unconsistent, pkt)
        else if payload_len == 0
        then check_crc2 pkt rlen payload_len
        else (e_unconsistent, pkt)
      else if payload_len == 0 && plen == 0
      then (pkt_ok, pkt)
      else (e_unconsistent, pkt)

  -- Lines 69 to 110: what follows the header checks.
  unfoldable pub decode_body : Pkt → ℕ → ℕ → Status × Pkt
  decode_body pkt rlen plen =
      let payload_crc2_len : ℕ = sub_size rlen pkt_headerlen in
      let payload_len : ℕ =
        if payload_crc2_len == 0 then 0 else sub_size payload_crc2_len pkt_footerlen in
      restore_length plen (check_payload pkt rlen plen payload_len)

  -- `rlen` bytes were received into `pkt`.
  unfoldable pub pkt_decode_inline : Pkt → ℕ → Status × Pkt
  pkt_decode_inline pkt rlen =
      let plen : ℕ = htons (Layout.length pkt) in
      let cleared : Pkt = Layout.set_tr pkt 0 in
      if ltb rlen pkt_min_len
      then (e_noheader, pkt)
      else if not (valid_type (Layout.type pkt))
      then (e_type, pkt)
      else if not (valid_tr (Layout.type pkt) (Layout.tr pkt))
      then (e_tr, pkt)
      else if not (valid_length plen)
      then (e_length, pkt)
      else if wire_crc1 cleared == crc_of cleared 0 (pkt_headerlen - pkt_crc1len)
      then decode_body (accept_crc1 pkt) rlen plen
      else (e_crc, cleared)

  -- `len` bytes of `data` into the object `pkt`.
  unfoldable pub pkt_decode : Mem → ℕ → Pkt → Status × Pkt
  pkt_decode data' len pkt =
      if leb len sizeof_pkt
      then pkt_decode_inline (copy pkt 0 data' 0 len) len
      else (e_unconsistent, pkt)

  -- Lines 135 to 137: the checksum of the header, and the TR bit put back.
  unfoldable pub write_crc1 : Pkt → ℕ → Pkt
  write_crc1 cleared tr =
      let offset1 : ℕ = pkt_headerlen - pkt_crc1len in
      Layout.set_tr (store32 cleared offset1 (htonl (crc_of cleared 0 offset1))) tr

  -- Lines 140 and 141, for a payload that is not empty.
  unfoldable pub write_crc2 : Pkt → ℕ → Pkt
  write_crc2 pkt plen = store32 pkt (pkt_headerlen + plen) (htonl (crc_of pkt at_payload plen))

  -- Always answers PKT_OK, so only the packet is returned.
  unfoldable pub pkt_encode_inline : Pkt → Pkt
  pkt_encode_inline pkt =
      let header : Pkt = write_crc1 (clear_header pkt) (Layout.tr pkt) in
      if Layout.length pkt == 0 then header else write_crc2 header (Layout.length pkt)

  -- `buf` and `len` may be NULL: the status, the buffer and `*len` afterwards.
  unfoldable pub pkt_encode : Pkt → Option Mem → Option ℕ → Status × Option Mem × Option ℕ
  pkt_encode pkt buf none = (e_nomem, buf, none)
  pkt_encode pkt none (some len) = (e_nomem, none, some len)
  pkt_encode pkt (some buf) (some len) =
      let target_len : ℕ = pkt_len pkt in
      if leb target_len len
      then (
        pkt_ok,
        some (pkt_encode_inline (copy buf 0 pkt 0 (target_len - pkt_footerlen))),
        some target_len,
      )
      else (e_nomem, some buf, some len)
