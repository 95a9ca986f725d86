-- ===== src/Packet/Codec/Wire.antt =====
-- Which datagrams `pkt_decode_inline` accepts.
use project_transport_protoc.Prelude.{
  ℕ, ◌+◌, ◌-◌, ◌*◌, ◌%◌, ◌^◌, ◌≤◌, ◌<◌, ◌≡◌, sym, ap, ◌∙◌, ◌⊎◌, inl, inr, ◌↔◌, arith,
}
use project_transport_protoc.Prelude.Memory.{Mem, IsBytes, slice_congr, load32, htons, htonl}
use project_transport_protoc.Packet.Layout
use project_transport_protoc.Packet.Layout.{Pkt, Status, pkt_ok}
use project_transport_protoc.Packet.Codec.{
  Zlib, crc_of, check_crc2, check_payload, decode_body, wire_crc1, accept_crc1, pkt_decode_inline,
}

-- The length that the header announces, big-endian.
abbrev pub wire_length : Pkt → ℕ
wire_length p = 256 * p 2 + p 3

-- A big-endian word.
abbrev pub wire_word : Mem → ℕ → ℕ
wire_word m a = 16777216 * m a + 65536 * m (a + 1) + 256 * m (a + 2) + m (a + 3)

pub htonl-load32 : (m : Mem) (a : ℕ) → IsBytes m → htonl (load32 m a) ≡ wire_word m a
htonl-load32 m a bytes = omega (arith, bytes a, bytes (a + 1), bytes (a + 2), bytes (a + 3))

pub htons-length : (p : Pkt) → IsBytes p → htons (Layout.length p) ≡ wire_length p
htons-length p bytes = omega (arith, bytes 2, bytes 3)

pub wire_crc1-word : (p : Pkt) → IsBytes p → wire_crc1 (Layout.set_tr p 0) ≡ wire_word p 8
wire_crc1-word p bytes = omega (arith, bytes 8, bytes 9, bytes 10, bytes 11)

pub crc_of_congr :
    (z : Zlib) (m m' : Mem) (a n : ℕ)
    → ((i : ℕ) → a ≤ i → i < a + n → m i ≡ m' i)
    → crc_of z m a n ≡ crc_of z m' a n
unfolding crc_of
crc_of_congr z m m' a n same = ap (λ l. z.crc32 z.initial l % 2 ^ 32) (slice_congr m m' a n same)

-- `accept_crc1` reorders the four bytes of the checksum and changes no other.
pub accept_crc1_outside : (p : Pkt) (i : ℕ) → IsBytes p → (i < 8) ⊎ (12 ≤ i) → accept_crc1 p i ≡ p i
unfolding accept_crc1
accept_crc1_outside p i bytes h = ground (arith, bytes 0)

-- What a datagram of `rlen` bytes that announces `plen` holds behind its header: nothing that
-- counts, or a payload and its checksum.
abbrev pub Body : Zlib → Pkt → ℕ → ℕ → Type 0
Body z p rlen plen =
    ((Layout.tr p ≡ 1) ⊎ (plen ≡ 0)) × ((rlen ≡ 12) ⊎ (rlen ≡ 16))
    ⊎ (Layout.tr p ≡ 0)
      × (Layout.type p ≡ 1)
      × (0 < plen)
      × (rlen ≡ 16 + plen)
      × (wire_word p (12 + plen) ≡ crc_of z p 12 plen)

module _ (z : Zlib) where
  pub record IsWire (p : Pkt) (rlen : ℕ) : Type 0 where
    pub kind : (Layout.type p ≡ 1) ⊎ ((Layout.type p ≡ 2) ⊎ (Layout.type p ≡ 3))
    pub cut : (Layout.tr p ≡ 0) ⊎ (Layout.type p ≡ 1)
    pub small : wire_length p ≤ 512
    pub header_crc : wire_word p 8 ≡ crc_of z (Layout.set_tr p 0) 0 8
    pub body : Body z p rlen (wire_length p)

  pub record Header (p : Pkt) (rlen : ℕ) : Type 0 where
    pub long : 12 ≤ rlen
    pub kind : (Layout.type p ≡ 1) ⊎ ((Layout.type p ≡ 2) ⊎ (Layout.type p ≡ 3))
    pub cut : (Layout.tr p ≡ 0) ⊎ (Layout.type p ≡ 1)
    pub small : htons (Layout.length p) ≤ 512
    pub header_crc : wire_crc1 (Layout.set_tr p 0) ≡ crc_of z (Layout.set_tr p 0) 0 8
    pub rest : (decode_body z (accept_crc1 p) rlen (htons (Layout.length p))).0 ≡ pkt_ok

  pub Header-of_ok : (p : Pkt) (rlen : ℕ) → (pkt_decode_inline z p rlen).0 ≡ pkt_ok → Header p rlen
  unfolding pkt_decode_inline
  Header-of_ok p rlen ok = ground arith

  ok_of_Header : (p : Pkt) (rlen : ℕ) → Header p rlen → (pkt_decode_inline z p rlen).0 ≡ pkt_ok
  unfolding pkt_decode_inline
  ok_of_Header p rlen ok = ground arith

  Body-of_ok :
      (q : Pkt) (rlen plen : ℕ)
      → IsBytes q
      → 12 ≤ rlen
      → rlen < 2 ^ 64
      → plen ≤ 512
      → (Layout.tr q ≡ 0) ⊎ (Layout.type q ≡ 1)
      → (decode_body z q rlen plen).0 ≡ pkt_ok
      → Body z q rlen plen
  unfolding decode_body check_payload check_crc2
  Body-of_ok q rlen plen bytes lo hi small cut ok = ground (arith, htonl-load32 q (rlen - 4) bytes)

  ok_of_Body :
      (q : Pkt) (rlen plen : ℕ)
      → IsBytes q
      → 12 ≤ rlen
      → rlen < 2 ^ 64
      → plen ≤ 512
      → (Layout.tr q ≡ 0) ⊎ (Layout.type q ≡ 1)
      → Body z q rlen plen
      → (decode_body z q rlen plen).0 ≡ pkt_ok
  unfolding decode_body check_payload check_crc2
  ok_of_Body q rlen plen bytes lo hi small cut body =
      ground (arith, htonl-load32 q (rlen - 4) bytes)

  -- Only the first byte, and those behind the header, count.
  Body-congr :
      (p q : Pkt) (rlen plen : ℕ)
      → ((i : ℕ) → (i < 8) ⊎ (12 ≤ i) → p i ≡ q i)
      → Body z p rlen plen
      → Body z q rlen plen
  Body-congr p q rlen plen same body = ground (
    arith,
    same 0,
    same (12 + plen),
    same (12 + plen + 1),
    same (12 + plen + 2),
    same (12 + plen + 3),
    crc_of_congr z p q 12 plen (λ i lo hi. same i (inr lo)),
  )

  pub accept_crc1-IsBytes : (p : Pkt) → IsBytes p → IsBytes (accept_crc1 p)
  unfolding accept_crc1
  accept_crc1-IsBytes p bytes i = ground (arith, bytes i)

  same-Body :
      (p : Pkt) (rlen : ℕ)
      → IsBytes p
      → Body z (accept_crc1 p) rlen (htons (Layout.length p)) ↔ Body z p rlen (wire_length p)
  same-Body p rlen bytes = rw (htons-length p bytes) (
    Body-congr _ p rlen _ (λ i h. accept_crc1_outside p i bytes h),
    Body-congr p _ rlen _ (λ i h. sym (accept_crc1_outside p i bytes h)),
  )

  -- The two fields of the first byte are those of the datagram.
  kept_cut :
      (p : Pkt)
      → IsBytes p
      → (Layout.tr p ≡ 0) ⊎ (Layout.type p ≡ 1)
      → (Layout.tr (accept_crc1 p) ≡ 0) ⊎ (Layout.type (accept_crc1 p) ≡ 1)
  kept_cut p bytes h = rw (accept_crc1_outside p 0 bytes (inl (omega arith))) h

  IsWire-of_ok :
      (p : Pkt) (rlen : ℕ)
      → IsBytes p
      → rlen < 2 ^ 64
      → (pkt_decode_inline z p rlen).0 ≡ pkt_ok
      → IsWire p rlen
  IsWire-of_ok p rlen bytes small ok = record {
    kind = h.kind;
    cut = h.cut;
    small = rw (← htons-length p bytes) h.small;
    header_crc = sym (wire_crc1-word p bytes) ∙ h.header_crc;
    body = (same-Body p rlen bytes).0 (
        Body-of_ok (accept_crc1 p) rlen _ (accept_crc1-IsBytes p bytes) h.long small h.small
          (kept_cut p bytes h.cut) h.rest);
  }
    where
      h : Header p rlen
      h = Header-of_ok p rlen ok

  ok_of_IsWire :
      (p : Pkt) (rlen : ℕ)
      → IsBytes p
      → rlen < 2 ^ 64
      → IsWire p rlen
      → (pkt_decode_inline z p rlen).0 ≡ pkt_ok
  ok_of_IsWire p rlen bytes small w = ok_of_Header p rlen (record {
    long = long;
    kind = w.kind;
    cut = w.cut;
    small = announced;
    header_crc = wire_crc1-word p bytes ∙ w.header_crc;
    rest =
        ok_of_Body (accept_crc1 p) rlen _ (accept_crc1-IsBytes p bytes) long small announced
          (kept_cut p bytes w.cut) ((same-Body p rlen bytes).1 w.body);
  })
    where
      long : 12 ≤ rlen
      long = omega (arith, w.body)

      announced : htons (Layout.length p) ≤ 512
      announced = rw (htons-length p bytes) w.small

  -- `pkt_decode_inline` answers PKT_OK exactly on these datagrams: a valid type, the TR bit on data
  -- alone, an announced length of at most 512, a right header checksum with the TR bit cleared, and
  -- behind the header either the announced payload, not empty, with its checksum, on data with the TR
  -- bit clear; or, when the TR bit is set or the announced length is 0, nothing or any four bytes.
  pub decode-iff-IsWire :
      (p : Pkt) (rlen : ℕ)
      → IsBytes p
      → rlen < 2 ^ 64
      → ((pkt_decode_inline z p rlen).0 ≡ pkt_ok) ↔ IsWire p rlen
  decode-iff-IsWire p rlen bytes small =
      (IsWire-of_ok p rlen bytes small, ok_of_IsWire p rlen bytes small)
