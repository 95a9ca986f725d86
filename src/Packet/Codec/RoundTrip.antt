-- ===== src/Packet/Codec/RoundTrip.antt =====
-- A packet that is encoded, sent and decoded, whole or cut by the network.
use project_transport_protoc.Prelude.{ℕ, ◌+◌, ◌-◌, ◌≤◌, ◌<◌, ◌≡◌, refl, ◌∙◌, inl, inr, some, arith}
use project_transport_protoc.Prelude.Memory.{Mem, IsBytes, copy}
use project_transport_protoc.Packet.Layout
use project_transport_protoc.Packet.Layout.{Pkt, Status, pkt_ok, pkt_len}
use project_transport_protoc.Packet.Codec.{
  Zlib, clear_header, write_crc1, write_crc2, pkt_encode_inline, pkt_encode, pkt_decode_inline,
  pkt_decode,
}
use project_transport_protoc.Packet.Codec.Wire.{IsWire, decode-iff-IsWire, wire_word}
use project_transport_protoc.Packet.Codec.Encode.{Encoded, encode-Encoded}
use project_transport_protoc.Packet.Codec.Fields.{Decoded, decode-Decoded}
use project_transport_protoc.Packet.Codec.Transfer.{
  Same, IsSendable, header_crc_moves, Encoded-IsWire, Decoded-Same,
}

module _ (z : Zlib) where
  pub encode-IsBytes : (p : Pkt) → IsBytes p → IsBytes (pkt_encode_inline z p)
  unfolding pkt_encode_inline write_crc1 write_crc2 clear_header
  encode-IsBytes p bytes i = ground (arith, bytes i)

  -- A packet is sent by its first eight bytes and its payload.
  Encoded-congr :
      {c q : Pkt} (p : Pkt)
      → ((i : ℕ) → i < 8 → c i ≡ p i)
      → ((i : ℕ) → 12 ≤ i → i < 12 + Layout.length p → c i ≡ p i)
      → Encoded z c q
      → Encoded z p q
  Encoded-congr {c} {q} p head tail e = record {
    first = e.first ∙ head 0 (omega arith);
    seq = e.seq ∙ head 1 (omega arith);
    length = e.length ∙ len;
    ts = e.ts ∙ omega (arith, head 4, head 5, head 6, head 7);
    crc1 = e.crc1;
    payload = λ i lo hi. e.payload i lo (omega (arith, len)) ∙ tail i lo hi;
    crc2 = rw len at e.crc2;
  }
    where
      len : Layout.length c ≡ Layout.length p
      len = omega (arith, head 2, head 3)

  copied : Mem → Pkt → Pkt
  copied buf p = copy buf 0 p 0 (pkt_len p - 4)

  -- The prefix that `pkt_encode` copies determines the datagram.
  Encoded-of_copied :
      (p buf : Mem) → IsBytes p → IsBytes buf → Encoded z p (pkt_encode_inline z (copied buf p))
  unfolding copied
  Encoded-of_copied p buf bytes old =
      Encoded-congr p (λ i h. ground arith) (λ i lo hi. ground arith)
        (encode-Encoded z (copied buf p) (λ i. ground (arith, bytes i, old i)))

  copied-IsBytes : (p buf : Mem) → IsBytes p → IsBytes buf → IsBytes (copied buf p)
  unfolding copied
  copied-IsBytes p buf bytes old i = ground (arith, bytes i, old i)

  encode-copied :
      (p buf : Mem) (len : ℕ)
      → pkt_len p ≤ len
      → pkt_encode z p (some buf) (some len)
        ≡ (pkt_ok, some (pkt_encode_inline z (copied buf p)), some (pkt_len p))
  unfolding pkt_encode copied
  encode-copied p buf len room = ground arith

  -- The outcome of `pkt_decode` on `n` bytes of `wire`.
  pub record Recovers (p : Pkt) (wire : Mem) (n : ℕ) (prev : Pkt) : Type 0 where
    pub status : (pkt_decode z wire n prev).0 ≡ pkt_ok
    pub same : Same p (pkt_decode z wire n prev).1

  decode_received :
      (wire prev : Mem) (n : ℕ)
      → n ≤ 528
      → pkt_decode z wire n prev ≡ pkt_decode_inline z (copy prev 0 wire 0 n) n
  unfolding pkt_decode
  decode_received wire prev n h = ground arith

  decode-Recovers :
      (p wire prev : Mem)
      → IsSendable p
      → IsBytes wire
      → IsBytes prev
      → Encoded z p wire
      → Recovers p wire (pkt_len p) prev
  decode-Recovers p wire prev s bytes old e = record {
    status = rw through ok;
    same = rw through (Decoded-Same z m s e same (decode-Decoded z m (pkt_len p) m-bytes ok));
  }
    where
      m : Mem
      m = copy prev 0 wire 0 (pkt_len p)

      m-bytes : IsBytes m
      m-bytes i = ground (arith, bytes i, old i)

      same : (i : ℕ) → i < pkt_len p → m i ≡ wire i
      same i h = ground arith

      through : pkt_decode z wire (pkt_len p) prev ≡ pkt_decode_inline z m (pkt_len p)
      through = decode_received wire prev (pkt_len p) (ground (arith, s.small))

      ok : (pkt_decode_inline z m (pkt_len p)).0 ≡ pkt_ok
      ok =
          (decode-iff-IsWire z m (pkt_len p) m-bytes (ground (arith, s.small))).1
            (Encoded-IsWire z m s e same)

  -- A sendable packet that is encoded into any buffer with room for it is decoded, into any packet
  -- object, with PKT_OK and the same fields and payload; `*len` becomes the datagram's length.
  pub decode-encode :
      (p buf prev : Mem) (len : ℕ)
      → IsSendable p
      → IsBytes buf
      → IsBytes prev
      → pkt_len p ≤ len
      → (wire : Mem) × (pkt_encode z p (some buf) (some len)
          ≡ (pkt_ok, some wire, some (pkt_len p)))
        × Recovers p wire (pkt_len p) prev
  decode-encode p buf prev len s old old' room = (
    pkt_encode_inline z (copied buf p),
    encode-copied p buf len room,
    decode-Recovers p _ prev s (encode-IsBytes _ (copied-IsBytes p buf s.bytes old)) old'
        (Encoded-of_copied p buf s.bytes old),
  )

  -- A data packet whose payload the network cuts off, setting the TR bit of the encoded header, is
  -- decoded with PKT_OK, the TR bit set, and the type, the window, the number, the length and the
  -- timestamp that it was sent with; its first checksum is the big-endian word at byte 8.
  pub decode_cut :
      (p m : Mem)
      → IsSendable p
      → Layout.type p ≡ 1
      → IsBytes m
      → m 0 ≡ p 0 + 32
      → ((i : ℕ) → 0 < i → i < 12 → m i ≡ pkt_encode_inline z p i)
      → let (s, r) = pkt_decode_inline z m 12 in
        (s ≡ pkt_ok)
        × (Layout.tr r ≡ 1)
        × (Layout.type r ≡ 1)
        × (Layout.window r ≡ Layout.window p)
        × (Layout.seq r ≡ Layout.seq p)
        × (Layout.length r ≡ Layout.length p)
        × (Layout.ts r ≡ Layout.ts p)
        × (Layout.crc1 r ≡ wire_word m 8)
  decode_cut p m s data' bytes flag same = (
    ok,
    rw d.first (omega (arith, s.whole, s.bytes 0)),
    rw d.first (omega (arith, s.whole, s.bytes 0)),
    rw d.first (omega (arith, s.whole, s.bytes 0)),
    d.seq ∙ same 1 (omega arith) (omega arith) ∙ e.seq,
    d.length ∙ omega (arith, same 2, same 3, e.length),
    d.ts ∙ omega (arith, same 4, same 5, same 6, same 7, e.ts),
    d.crc1,
  )
    where
      e : Encoded z p (pkt_encode_inline z p)
      e = encode-Encoded z p s.bytes

      kind : Layout.type m ≡ 1
      kind = omega (arith, s.whole, s.bytes 0)

      w : IsWire z m 12
      w = record {
        kind = inl kind;
        cut = inr kind;
        small = omega (arith, same 2, same 3, e.length, s.small);
        header_crc =
            header_crc_moves z m (pkt_encode_inline z p) same (omega (arith, s.bytes 0, e.first))
              (omega (arith, kind, e.first)) e.crc1;
        body = inl (inl (omega (arith, s.whole, s.bytes 0)), inl refl);
      }

      ok : (pkt_decode_inline z m 12).0 ≡ pkt_ok
      ok = (decode-iff-IsWire z m 12 bytes (omega arith)).1 w

      d : Decoded m (pkt_decode_inline z m 12).1
      d = decode-Decoded z m 12 bytes ok
