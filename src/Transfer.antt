-- ===== src/Transfer.antt =====
-- sender/transmit.c and receiver/receive.c together: the sender's datagrams as the receiver gets them.
pub mod Arrives
pub mod Cut
pub mod Whole
mod Tests
use mathlib.Core.Path.{subst}
use project_transport_protoc.Prelude.{
  ℕ, ◌+◌, ◌%◌, ◌<◌, ◌≤◌, ◌≡◌, refl, sym, ap, ◌∙◌, false, ltb, arith,
}
use project_transport_protoc.Prelude.Memory.{Mem, IsBytes}
use project_transport_protoc.Packet.Layout
use project_transport_protoc.Packet.Layout.{Pkt, ptype_data, pkt_len}
use project_transport_protoc.Packet.Codec.{Zlib}
use project_transport_protoc.Packet.Codec.Transfer.{Same, Decoded-Same}
use project_transport_protoc.Pktbuf.{sub_u8}
use project_transport_protoc.Net.{
  net_ok, Received, IsReceived, datagram, net_recvfrom, net_recv_pkt, pkt_len_serial,
}
use project_transport_protoc.Net.Window.{Accepted, arrived, recv-Accepted}
use project_transport_protoc.Sender.Stream.{IsChunk}
use project_transport_protoc.Receiver.Deliver.{Carries, IsGenuine}

module _ (z : Zlib) (file : ℕ → Mem × ℕ) (i : ℕ) (pkt : Pkt)
    (chunk : IsChunk z i (file i).0 (file i).1 pkt) where
  pub serial_len : pkt_len_serial pkt ≡ pkt_len chunk.host
  unfolding pkt_len_serial
  serial_len = ground (arith, chunk.encoded.length, chunk.bytes 2, chunk.bytes 3)

  moved-Carries : (i' : ℕ) (p : Pkt) → i ≡ i' → Carries (file i) p → Carries (file i') p
  moved-Carries i' p same c = subst (λ j. Carries (file j) p) same c

  pub chunk-IsReceived :
      (wire : Mem) → IsBytes wire → IsReceived (datagram wire (pkt_len_serial pkt))
  chunk-IsReceived wire bytes = (bytes, ground (arith, serial_len, chunk.sendable.small))

  -- What is decoded from the whole packet.
  pub chunk-Same :
      (junk p : Pkt) (wire : Mem) (expected_seq win_size : ℕ)
      → IsBytes wire
      → ((k : ℕ) → k < pkt_len_serial pkt → wire k ≡ pkt k)
      → IsBytes junk
      → net_recv_pkt z junk (datagram wire (pkt_len_serial pkt)) expected_seq win_size ≡ (net_ok, p)
      → Same chunk.host p × (sub_u8 (Layout.seq p) expected_seq ≤ win_size)
  chunk-Same junk p wire expected_seq win_size bytes same old ok =
      let a =
        recv-Accepted z junk wire (pkt_len_serial pkt) expected_seq win_size p old
          (chunk-IsReceived wire bytes) ok in
      (
        Decoded-Same z (arrived junk wire (pkt_len_serial pkt)) chunk.sendable chunk.encoded
            (λ k h. ground (arith, serial_len, same k)) a.decoded,
        a.in_window,
      )

  pub wide_open :
      (junk p : Pkt) (r : Received)
      → net_recvfrom z junk r ≡ (net_ok, p)
      → net_recv_pkt z junk r 0 255 ≡ (net_ok, p)
  unfolding net_recv_pkt
  wide_open junk p r e =
      let near : ltb 255 (sub_u8 (Layout.seq p) 0) ≡ false = ground arith in rw (e, near) refl

  pub chunk-data :
      (junk p : Pkt) (wire : Mem)
      → IsBytes wire
      → ((k : ℕ) → k < pkt_len_serial pkt → wire k ≡ pkt k)
      → IsBytes junk
      → net_recvfrom z junk (datagram wire (pkt_len_serial pkt)) ≡ (net_ok, p)
      → Layout.type p ≡ ptype_data
  chunk-data junk p wire bytes same old ok =
      let (r, _) = chunk-Same junk p wire 0 255 bytes same old (wide_open junk p _ ok) in
      r.type ∙ chunk.type

  -- The packet of chunk `i`, arrived whole, is what the receiver takes for chunk `i`, as long as it
  -- has written between `i - 224` and `i + 224` chunks: the numbers wrap around at 256.
  pub chunk-IsGenuine :
      (n : ℕ) (wire : Mem)
      → IsBytes wire
      → ((k : ℕ) → k < pkt_len_serial pkt → wire k ≡ pkt k)
      → n ≤ i + 224
      → i ≤ n + 224
      → IsGenuine z file n (datagram wire (pkt_len_serial pkt))
  chunk-IsGenuine n wire bytes same old new junk p win junk_bytes small ok dat whole =
      let (r, near) = chunk-Same junk p wire (n % 256) win bytes same junk_bytes ok in
      let number : Layout.seq p ≡ i % 256 = r.seq ∙ chunk.seq in
      moved-Carries (n + sub_u8 (Layout.seq p) (n % 256)) p (omega (arith, number, near)) (record {
        length = r.length ∙ chunk.length;
        payload = λ k h.
            r.payload (12 + k) (omega arith) (omega (arith, chunk.length)) ∙ chunk.payload k h;
      })
