-- ===== src/Packet/Codec/Encode.antt =====
-- What `pkt_encode_inline` writes.
use project_transport_protoc.Prelude.{
  ℕ, ◌+◌, ◌^◌, ◌≤◌, ◌<◌, ◌≡◌, ◌≢◌, sym, ◌∙◌, ◌⊎◌, inl, inr, arith,
}
use project_transport_protoc.Prelude.Memory.{IsBytes}
use project_transport_protoc.Packet.Layout
use project_transport_protoc.Packet.Layout.{Pkt, Status, pkt_ok, pkt_len}
use project_transport_protoc.Packet.Codec.{
  Zlib, crc_of, clear_header, write_crc1, write_crc2, pkt_encode_inline,
}
use project_transport_protoc.Packet.Codec.Wire.{wire_length, wire_word, crc_of_congr}

-- The datagram `q` that the packet `p` is sent as.
pub record Encoded (z : Zlib) (p q : Pkt) : Type 0 where
  pub first : q 0 ≡ p 0
  pub seq : Layout.seq q ≡ Layout.seq p
  pub length : wire_length q ≡ Layout.length p
  pub ts : Layout.ts q ≡ Layout.ts p
  pub crc1 : wire_word q 8 ≡ crc_of z (Layout.set_tr q 0) 0 8
  pub payload : (i : ℕ) → 12 ≤ i → i < 12 + Layout.length p → q i ≡ p i
  pub crc2 :
      0 < Layout.length p → wire_word q (12 + Layout.length p) ≡ crc_of z q 12 (Layout.length p)

module _ (z : Zlib) where
  pub crc_of-lt : (m : Pkt) (a n : ℕ) → crc_of z m a n < 2 ^ 32
  unfolding crc_of
  crc_of-lt m a n = omega arith

  -- No byte outside the datagram is written.
  pub encode_outside : (p : Pkt) (i : ℕ) → pkt_len p ≤ i → pkt_encode_inline z p i ≡ p i
  unfolding pkt_encode_inline write_crc1 write_crc2 clear_header
  encode_outside p i h = ground arith

  -- Bytes 1, 4 to 7 and the payload are not written.
  encode_kept :
      (p : Pkt) (i : ℕ)
      → i ≢ 0
      → i ≢ 2
      → i ≢ 3
      → (i < 8) ⊎ (12 ≤ i)
      → i < 12 + Layout.length p
      → pkt_encode_inline z p i ≡ p i
  unfolding pkt_encode_inline write_crc1 write_crc2 clear_header
  encode_kept p i h0 h2 h3 far h = ground arith

  pub encode-seq : (p : Pkt) → Layout.seq (pkt_encode_inline z p) ≡ Layout.seq p
  encode-seq p =
      encode_kept p 1 (omega arith) (omega arith) (omega arith) (inl (omega arith)) (omega arith)

  pub encode_first : (p : Pkt) → IsBytes p → pkt_encode_inline z p 0 ≡ p 0
  unfolding pkt_encode_inline write_crc1 write_crc2 clear_header
  encode_first p bytes = ground (arith, bytes 0)

  encode_length : (p : Pkt) → IsBytes p → wire_length (pkt_encode_inline z p) ≡ Layout.length p
  unfolding pkt_encode_inline write_crc1 write_crc2 clear_header
  encode_length p bytes = ground (arith, bytes 2, bytes 3)

  -- The header's checksum survives the checksum of the payload.
  encode_low :
      (p : Pkt) (i : ℕ)
      → i < 12
      → pkt_encode_inline z p i ≡ write_crc1 z (clear_header p) (Layout.tr p) i
  unfolding pkt_encode_inline write_crc2
  encode_low p i h = ground arith

  write_crc1-word : (p : Pkt) (t : ℕ) → wire_word (write_crc1 z p t) 8 ≡ crc_of z p 0 8
  unfolding write_crc1
  write_crc1-word p t = omega (arith, crc_of-lt p 0 8)

  clear_header-first : (p : Pkt) → Layout.tr (clear_header p) ≡ 0
  unfolding clear_header
  clear_header-first p = omega arith

  clear_header-IsBytes : (p : Pkt) → IsBytes p → IsBytes (clear_header p)
  unfolding clear_header
  clear_header-IsBytes p bytes i = ground (arith, bytes i)

  -- With the TR bit cleared again, the header is the one that was summed.
  write_crc1-cleared :
      (p : Pkt) (t i : ℕ)
      → IsBytes p
      → Layout.tr p ≡ 0
      → i < 8
      → Layout.set_tr (write_crc1 z p t) 0 i ≡ p i
  unfolding write_crc1
  write_crc1-cleared p t i bytes h lt = ground (arith, bytes 0)

  encode_crc1 :
      (p : Pkt)
      → IsBytes p
      → wire_word (pkt_encode_inline z p) 8 ≡ crc_of z (Layout.set_tr (pkt_encode_inline z p) 0) 0 8
  encode_crc1 p bytes =
      omega (
        arith,
        encode_low p 8,
        encode_low p 9,
        encode_low p 10,
        encode_low p 11,
        write_crc1-word (clear_header p) (Layout.tr p),
      )
      ∙ crc_of_congr z (clear_header p) (Layout.set_tr (pkt_encode_inline z p) 0) 0 8 (λ i _ lt.
        sym (
          ground (arith, encode_low p 0, encode_low p i)
          ∙ write_crc1-cleared (clear_header p) (Layout.tr p) i (clear_header-IsBytes p bytes)
              (clear_header-first p) (omega arith)))

  write_crc2-word : (p : Pkt) (n : ℕ) → wire_word (write_crc2 z p n) (12 + n) ≡ crc_of z p 12 n
  unfolding write_crc2
  write_crc2-word p n = ground (arith, crc_of-lt p 12 n)

  write_crc2-kept : (p : Pkt) (n i : ℕ) → i < 12 + n → write_crc2 z p n i ≡ p i
  unfolding write_crc2
  write_crc2-kept p n i h = ground arith

  encode-write_crc2 :
      (p : Pkt)
      → 0 < Layout.length p
      → pkt_encode_inline z p
        ≡ write_crc2 z (write_crc1 z (clear_header p) (Layout.tr p)) (Layout.length p)
  unfolding pkt_encode_inline
  encode-write_crc2 p h = ground arith

  encode_crc2 :
      (p : Pkt)
      → 0 < Layout.length p
      → wire_word (pkt_encode_inline z p) (12 + Layout.length p)
        ≡ crc_of z (pkt_encode_inline z p) 12 (Layout.length p)
  encode_crc2 p h = rw (encode-write_crc2 p h) (
      write_crc2-word _ (Layout.length p)
      ∙ crc_of_congr z _ _ 12 (Layout.length p) (λ i _ lt. sym (write_crc2-kept _ _ i lt)))

  -- The fields, big-endian where the protocol wants it, the payload and both checksums.
  pub encode-Encoded : (p : Pkt) → IsBytes p → Encoded z p (pkt_encode_inline z p)
  encode-Encoded p bytes = record {
    first = encode_first p bytes;
    seq = kept 1 (omega arith) (omega arith) (omega arith) (inl (omega arith)) (omega arith);
    length = encode_length p bytes;
    ts = omega (arith, low 4, low 5, low 6, low 7);
    crc1 = encode_crc1 p bytes;
    payload = λ i lo hi. kept i (omega arith) (omega arith) (omega arith) (inr lo) hi;
    crc2 = encode_crc2 p;
  }
    where
      kept :
          (i : ℕ)
          → i ≢ 0
          → i ≢ 2
          → i ≢ 3
          → (i < 8) ⊎ (12 ≤ i)
          → i < 12 + Layout.length p
          → pkt_encode_inline z p i ≡ p i
      kept = encode_kept p

      low : (i : ℕ) → i < 8 → i ≢ 0 → i ≢ 2 → i ≢ 3 → pkt_encode_inline z p i ≡ p i
      low i h h0 h2 h3 = kept i h0 h2 h3 (inl h) (omega arith)
