-- ===== src/Transfer/Arrives.antt =====
-- The packet of the next chunk, arrived whole, is let through.
use mathlib.Core.Path.{subst}
use project_transport_protoc.Prelude.{ℕ, ◌%◌, ◌^◌, ◌<◌, ◌≡◌, refl, ◌∙◌, false, ltb, arith, sym}
use project_transport_protoc.Prelude.Memory.{Mem, IsBytes}
use project_transport_protoc.Packet.Layout
use project_transport_protoc.Packet.Layout.{Pkt, Status, pkt_ok, pkt_len}
use project_transport_protoc.Packet.Codec.{Zlib, pkt_decode_inline}
use project_transport_protoc.Packet.Codec.Wire.{IsWire, decode-iff-IsWire}
use project_transport_protoc.Packet.Codec.Transfer.{Encoded-IsWire}
use project_transport_protoc.Pktbuf.{sub_u8}
use project_transport_protoc.Net.{
  net_ok, Received, datagram, net_recvfrom, net_recv_pkt, pkt_len_serial, status_of_decode,
}
use project_transport_protoc.Net.Window.{arrived}
use project_transport_protoc.Sender.Stream.{IsChunk}
use project_transport_protoc.Receiver.Deliver.{IsNext}
use project_transport_protoc.Transfer.{serial_len, chunk-Same, wide_open}

decoded_ok : (r : Status × Pkt) → r.0 ≡ pkt_ok → status_of_decode r ≡ (net_ok, r.1)
decoded_ok (s, p) e = rw e refl

module _ (z : Zlib) (file : ℕ → Mem × ℕ) (i : ℕ) (pkt : Pkt)
    (chunk : IsChunk z i (file i).0 (file i).1 pkt) where
  -- The decoder takes it.
  chunk_decoded :
      (junk : Pkt) (wire : Mem)
      → IsBytes wire
      → ((k : ℕ) → k < pkt_len_serial pkt → wire k ≡ pkt k)
      → IsBytes junk
      → (p : Pkt) × (net_recvfrom z junk (datagram wire (pkt_len_serial pkt)) ≡ (net_ok, p))
  unfolding net_recvfrom
  chunk_decoded junk wire bytes same old =
      let len : ℕ = pkt_len_serial pkt in
      let m : Mem = arrived junk wire len in
      let at : len ≡ pkt_len chunk.host = serial_len z file i pkt chunk in
      let good : IsWire z m (pkt_len chunk.host) =
        Encoded-IsWire z m chunk.sendable chunk.encoded (λ k h. ground (arith, at, same k)) in
      let all : IsBytes m = λ k. ground (arith, old k, bytes k) in
      let fits : len < 2 ^ 64 = ground (arith, at, chunk.sendable.small) in
      let ok : (pkt_decode_inline z m len).0 ≡ pkt_ok =
        (decode-iff-IsWire z m len all fits).1 (subst (IsWire z m) (sym at) good) in
      ((pkt_decode_inline z m len).1, decoded_ok (pkt_decode_inline z m len) ok)

  in_every_window :
      (junk p : Pkt) (r : Received) (expected_seq win : ℕ)
      → net_recvfrom z junk r ≡ (net_ok, p)
      → sub_u8 (Layout.seq p) expected_seq ≡ 0
      → net_recv_pkt z junk r expected_seq win ≡ (net_ok, p)
  unfolding net_recv_pkt
  in_every_window junk p r expected_seq win e at =
      let near : ltb win (sub_u8 (Layout.seq p) expected_seq) ≡ false = rw at (ground arith) in
      rw (e, near) refl

  pub chunk-IsNext :
      (win : ℕ) (wire : Mem)
      → IsBytes wire
      → ((k : ℕ) → k < pkt_len_serial pkt → wire k ≡ pkt k)
      → IsNext z i win (datagram wire (pkt_len_serial pkt))
  chunk-IsNext win wire bytes same junk old =
      let (p, ok) = chunk_decoded junk wire bytes same old in
      let (r, _) =
        chunk-Same z file i pkt chunk junk p wire 0 255 bytes same old
          (wide_open z file i pkt chunk junk p _ ok) in
      let number : Layout.seq p ≡ i % 256 = r.seq ∙ chunk.seq in
      let first : sub_u8 (Layout.seq p) (i % 256) ≡ 0 = omega (arith, number) in
      (
        p,
        in_every_window junk p _ (i % 256) win ok first,
        r.type ∙ chunk.type,
        r.tr ∙ chunk.sendable.whole,
        first,
      )
