-- ===== src/Packet/Codec/Transfer.antt =====
-- The datagram of a packet, wherever its bytes lie.
use project_transport_protoc.Prelude.{ℕ, ◌+◌, ◌≤◌, ◌<◌, ◌≡◌, refl, sym, ◌∙◌, ◌⊎◌, inl, arith}
use project_transport_protoc.Prelude.Memory.{Mem, IsBytes}
use project_transport_protoc.Packet.Layout
use project_transport_protoc.Packet.Layout.{Pkt, Status, pkt_ok, pkt_len}
use project_transport_protoc.Packet.Codec.{Zlib, crc_of}
use project_transport_protoc.Packet.Codec.Wire.{wire_length, wire_word, crc_of_congr, Body, IsWire}
use project_transport_protoc.Packet.Codec.Encode.{Encoded}
use project_transport_protoc.Packet.Codec.Fields.{Decoded}

-- The fields and the payload are equal.
pub record Same (p r : Pkt) : Type 0 where
  pub window : Layout.window r ≡ Layout.window p
  pub tr : Layout.tr r ≡ Layout.tr p
  pub type : Layout.type r ≡ Layout.type p
  pub seq : Layout.seq r ≡ Layout.seq p
  pub length : Layout.length r ≡ Layout.length p
  pub ts : Layout.ts r ≡ Layout.ts p
  pub payload : (i : ℕ) → 12 ≤ i → i < 12 + Layout.length p → r i ≡ p i

-- What the setters allow, with the TR bit clear.
pub record IsSendable (p : Pkt) : Type 0 where
  pub bytes : IsBytes p
  pub kind : (Layout.type p ≡ 1) ⊎ ((Layout.type p ≡ 2) ⊎ (Layout.type p ≡ 3))
  pub whole : Layout.tr p ≡ 0
  pub small : Layout.length p ≤ 512
  -- Only data packets have a payload.
  pub empty : (Layout.type p ≡ 1) ⊎ (Layout.length p ≡ 0)

module _ (z : Zlib) where
  -- The header's checksum does not depend on the TR bit.
  pub header_crc_moves :
      (m q : Mem)
      → ((i : ℕ) → 0 < i → i < 12 → m i ≡ q i)
      → Layout.window m ≡ Layout.window q
      → Layout.type m ≡ Layout.type q
      → wire_word q 8 ≡ crc_of z (Layout.set_tr q 0) 0 8
      → wire_word m 8 ≡ crc_of z (Layout.set_tr m 0) 0 8
  header_crc_moves m q same win kind crc =
      omega (arith, same 8, same 9, same 10, same 11)
      ∙ crc_of_congr z (Layout.set_tr q 0) (Layout.set_tr m 0) 0 8
          (λ i _ lt. ground (arith, same i))

  -- The datagram that a sendable packet is encoded as is one of the protocol, wherever it lies.
  pub Encoded-IsWire :
      {p q : Pkt} (m : Mem)
      → IsSendable p
      → Encoded z p q
      → ((i : ℕ) → i < pkt_len p → m i ≡ q i)
      → IsWire z m (pkt_len p)
  Encoded-IsWire {p} {q} m s e same = record {
    kind = rw first s.kind;
    cut = inl (rw first s.whole);
    small = rw len s.small;
    header_crc =
        header_crc_moves m q (λ i _ lt. low i lt) (rw (low 0 (omega arith)) refl)
          (rw (low 0 (omega arith)) refl) e.crc1;
    body = rw len body;
  }
    where
      low : (i : ℕ) → i < 12 → m i ≡ q i
      low i h = same i (ground arith)

      first : m 0 ≡ p 0
      first = low 0 (omega arith) ∙ e.first

      len : wire_length m ≡ Layout.length p
      len = omega (arith, low 2, low 3, e.length)

      crc :
          0 < Layout.length p → wire_word m (12 + Layout.length p) ≡ crc_of z m 12 (Layout.length p)
      crc h = ground (
        arith,
        e.crc2 h,
        same (12 + Layout.length p),
        same (12 + Layout.length p + 1),
        same (12 + Layout.length p + 2),
        same (12 + Layout.length p + 3),
        crc_of_congr z q m 12 (Layout.length p) (λ i _ lt. sym (same i (ground arith))),
      )

      body : Body z m (pkt_len p) (Layout.length p)
      body = ground (arith, first, crc, s.empty, s.whole)

  -- What is decoded from the datagram has the fields of the packet that was sent.
  pub Decoded-Same :
      {p q r : Pkt} (m : Mem)
      → IsSendable p
      → Encoded z p q
      → ((i : ℕ) → i < pkt_len p → m i ≡ q i)
      → Decoded m r
      → Same p r
  Decoded-Same {p} {q} {r} m s e same d = record {
    window = rw first refl;
    tr = rw first refl;
    type = rw first refl;
    seq = d.seq ∙ low 1 (omega arith) ∙ e.seq;
    length = d.length ∙ omega (arith, low 2, low 3, e.length);
    ts = d.ts ∙ omega (arith, low 4, low 5, low 6, low 7, e.ts);
    payload = λ i lo hi.
        d.payload i lo (omega (arith, s.small)) ∙ same i (ground arith) ∙ e.payload i lo hi;
  }
    where
      low : (i : ℕ) → i < 12 → m i ≡ q i
      low i h = same i (ground arith)

      first : r 0 ≡ p 0
      first = d.first ∙ low 0 (omega arith) ∙ e.first
