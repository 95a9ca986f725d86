-- ===== src/Packet/Codec/Fields.antt =====
-- What `pkt_decode_inline` leaves in the packet.
use project_transport_protoc.Prelude.{ℕ, ◌≤◌, ◌<◌, ◌≡◌, ◌≢◌, ◌∙◌, ◌⊎◌, inl, inr, arith}
use project_transport_protoc.Prelude.Memory.{IsBytes, htons}
use project_transport_protoc.Packet.Layout
use project_transport_protoc.Packet.Layout.{Pkt, Status, pkt_ok}
use project_transport_protoc.Packet.Codec.{
  Zlib, check_crc2, check_payload, decode_body, accept_crc1, pkt_decode_inline,
}
use project_transport_protoc.Packet.Codec.Wire.{
  wire_length, wire_word, htons-length, accept_crc1_outside, Header-of_ok,
}

-- The packet `q` in host order that the datagram `p` stands for.
pub record Decoded (p q : Pkt) : Type 0 where
  pub first : q 0 ≡ p 0
  pub seq : Layout.seq q ≡ Layout.seq p
  pub length : Layout.length q ≡ wire_length p
  pub ts : Layout.ts q ≡ Layout.ts p
  pub crc1 : Layout.crc1 q ≡ wire_word p 8
  pub payload : (i : ℕ) → 12 ≤ i → i < 524 → q i ≡ p i

module _ (z : Zlib) where
  body_outside :
      (p : Pkt) (rlen plen i : ℕ) → i < 524 → i ≢ 2 → i ≢ 3 → (decode_body z p rlen plen).1 i ≡ p i
  unfolding decode_body check_payload check_crc2
  body_outside p rlen plen i h h2 h3 = ground arith

  body_length :
      (p : Pkt) (rlen plen : ℕ)
      → plen ≤ 512
      → (decode_body z p rlen plen).0 ≡ pkt_ok
      → Layout.length (decode_body z p rlen plen).1 ≡ plen
  unfolding decode_body check_payload check_crc2
  body_length p rlen plen small ok = ground arith

  decode_through :
      (p : Pkt) (rlen : ℕ)
      → (pkt_decode_inline z p rlen).0 ≡ pkt_ok
      → pkt_decode_inline z p rlen ≡ decode_body z (accept_crc1 p) rlen (htons (Layout.length p))
  unfolding pkt_decode_inline
  decode_through p rlen ok = ground arith

  accept_crc1-crc1 : (p : Pkt) → IsBytes p → Layout.crc1 (accept_crc1 p) ≡ wire_word p 8
  unfolding accept_crc1
  accept_crc1-crc1 p bytes = omega (arith, bytes 8, bytes 9, bytes 10, bytes 11)

  module _ (p : Pkt) (rlen : ℕ) (bytes : IsBytes p)
      (ok : (pkt_decode_inline z p rlen).0 ≡ pkt_ok) where
    -- All but the length, the checksums and what follows the payload.
    pub decode_outside :
        (i : ℕ)
        → i < 524
        → i ≢ 2
        → i ≢ 3
        → (i < 8) ⊎ (12 ≤ i)
        → (pkt_decode_inline z p rlen).1 i ≡ p i
    decode_outside i h h2 h3 far = rw (decode_through p rlen ok) (
        body_outside (accept_crc1 p) rlen (htons (Layout.length p)) i h h2 h3
        ∙ accept_crc1_outside p i bytes far)

    decode_low : (i : ℕ) → i < 8 → i ≢ 2 → i ≢ 3 → (pkt_decode_inline z p rlen).1 i ≡ p i
    decode_low i h h2 h3 = decode_outside i (omega arith) h2 h3 (inl h)

    decode_crc1 : Layout.crc1 (pkt_decode_inline z p rlen).1 ≡ wire_word p 8
    decode_crc1 = rw (decode_through p rlen ok) (
        omega (
          arith,
          accept_crc1-crc1 p bytes,
          body_outside (accept_crc1 p) rlen (htons (Layout.length p)) 8,
          body_outside (accept_crc1 p) rlen (htons (Layout.length p)) 9,
          body_outside (accept_crc1 p) rlen (htons (Layout.length p)) 10,
          body_outside (accept_crc1 p) rlen (htons (Layout.length p)) 11,
        ))

    decode_length : Layout.length (pkt_decode_inline z p rlen).1 ≡ wire_length p
    decode_length =
        let h = Header-of_ok z p rlen ok in
        rw (decode_through p rlen ok) (
          body_length (accept_crc1 p) rlen (htons (Layout.length p)) h.small h.rest
          ∙ htons-length p bytes)

    -- When it answers PKT_OK, the first byte, the sequence number, the timestamp and the payload are
    -- those of the datagram, and `length` and `crc1` are its big-endian fields in host order.
    pub decode-Decoded : Decoded p (pkt_decode_inline z p rlen).1
    decode-Decoded = record {
      first = decode_low 0 (omega arith) (omega arith) (omega arith);
      seq = decode_low 1 (omega arith) (omega arith) (omega arith);
      length = decode_length;
      ts = omega (arith, decode_low 4, decode_low 5, decode_low 6, decode_low 7);
      crc1 = decode_crc1;
      payload = λ i lo hi. decode_outside i hi (omega arith) (omega arith) (inr lo);
    }
