-- ===== src/Packet/Tests.antt =====
-- The codec on a small data packet, and its theorems there.
use project_transport_protoc.Prelude.{
  ℕ, ◌+◌, ◌*◌, ◌%◌, ◌≡◌, refl, ◌↔◌, inl, List, [], ◌∷◌, some, ◌==◌, if◌then◌else◌, arith,
}
use project_transport_protoc.Prelude.Memory.{Mem, IsBytes, slice}
use project_transport_protoc.Packet.Layout
use project_transport_protoc.Packet.Layout.{
  Pkt, pkt_ok, e_type, e_crc, e_unconsistent, e_noheader, pkt_len,
}
use project_transport_protoc.Packet.Codec.{
  Zlib, pkt_encode_inline, pkt_encode, pkt_decode_inline, clear_header, write_crc1, write_crc2,
  crc_of, accept_crc1, check_crc2, check_payload, decode_body,
}
use project_transport_protoc.Packet.Codec.Wire.{IsWire, decode-iff-IsWire, wire_word}
use project_transport_protoc.Packet.Codec.Encode.{Encoded, encode-Encoded}
use project_transport_protoc.Packet.Codec.Transfer.{IsSendable}
use project_transport_protoc.Packet.Codec.RoundTrip.{
  Recovers, encode-IsBytes, decode-encode, decode_cut,
}

-- A checksum that depends on every byte.
abbrev mix : ℕ → List ℕ → ℕ
mix c [] = c
mix c (b ∷ bs) = mix ((c * 31 + b) % 65521) bs

abbrev pub zlib : Zlib
zlib = record { initial = 1; crc32 = mix }

-- Data packet 7 with window 3 and the payload 65, 66, 67.
abbrev sent : Pkt
sent i =
    if i == 0
    then 67
    else if i == 1
    then 7
    else if i == 2
    then 3
    else if i == 4
    then 239
    else if i == 12
    then 65
    else if i == 13
    then 66
    else if i == 14
    then 67
    else 0

abbrev pub blank : Mem
blank i = 0

sent-IsBytes : IsBytes sent
sent-IsBytes i = ground arith

sent-IsSendable : IsSendable sent
sent-IsSendable = record {
  bytes = sent-IsBytes;
  kind = inl refl;
  whole = refl;
  small = omega arith;
  empty = inl refl;
}

-- The datagram, its first byte with the TR bit set by the network.
abbrev pub cut : Pkt
cut i = if i == 0 then 99 else pkt_encode_inline zlib sent i

-- Names what a run computes with.
both : Pkt → Pkt
unfolding pkt_encode_inline clear_header write_crc1 write_crc2 crc_of pkt_decode_inline accept_crc1
    check_crc2 check_payload decode_body
both p = (pkt_decode_inline zlib (pkt_encode_inline zlib p) (pkt_len p)).1

encoded_header : slice (pkt_encode_inline zlib sent) 0 8 ≡ 67 ∷ 7 ∷ 0 ∷ 3 ∷ 239 ∷ 0 ∷ 0 ∷ 0 ∷ []
unfolding both
encoded_header = refl

decoded_whole : (pkt_decode_inline zlib (pkt_encode_inline zlib sent) 19).0 ≡ pkt_ok
unfolding both
decoded_whole = refl

corrupted :
    (pkt_decode_inline zlib (λ i. if i == 13 then 0 else pkt_encode_inline zlib sent i) 19).0
    ≡ e_crc
unfolding both
corrupted = refl

pub cut-IsBytes : IsBytes cut
cut-IsBytes i = ground (arith, encode-IsBytes zlib sent sent-IsBytes i)

decode-iff-IsWire_example : ((pkt_decode_inline zlib cut 12).0 ≡ pkt_ok) ↔ IsWire zlib cut 12
decode-iff-IsWire_example = decode-iff-IsWire zlib cut 12 cut-IsBytes (omega arith)

encode-Encoded_example : Encoded zlib sent (pkt_encode_inline zlib sent)
encode-Encoded_example = encode-Encoded zlib sent sent-IsBytes

decode-encode_example :
    (wire : Mem) × (pkt_encode zlib sent (some blank) (some 100) ≡ (pkt_ok, some wire, some 19))
    × Recovers zlib sent wire 19 blank
decode-encode_example =
    decode-encode zlib sent blank blank 100 sent-IsSendable (λ i. omega arith) (λ i. omega arith)
      (omega arith)

decode_cut_example :
    let (s, r) = pkt_decode_inline zlib cut 12 in
    (s ≡ pkt_ok)
    × (Layout.tr r ≡ 1)
    × (Layout.type r ≡ 1)
    × (Layout.window r ≡ 3)
    × (Layout.seq r ≡ 7)
    × (Layout.length r ≡ 3)
    × (Layout.ts r ≡ 239)
    × (Layout.crc1 r ≡ wire_word cut 8)
decode_cut_example =
    decode_cut zlib sent cut sent-IsSendable refl cut-IsBytes refl (λ i pos lt. ground arith)
