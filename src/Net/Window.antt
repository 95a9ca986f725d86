-- ===== src/Net/Window.antt =====
-- What `net_recv_pkt` lets through.
use project_transport_protoc.Prelude.{ℕ, ◌<◌, ◌≤◌, ◌≡◌, ◌≢◌, ap, arith}
use project_transport_protoc.Prelude.Memory.{Mem, IsBytes, copy}
use project_transport_protoc.Packet.Layout
use project_transport_protoc.Packet.Layout.{Pkt, Status, pkt_ok}
use project_transport_protoc.Packet.Codec.{Zlib, pkt_decode_inline}
use project_transport_protoc.Packet.Codec.Wire.{IsWire, decode-iff-IsWire}
use project_transport_protoc.Packet.Codec.Fields.{Decoded, decode-Decoded}
use project_transport_protoc.Pktbuf.{sub_u8}
use project_transport_protoc.Net.{net_ok, failed, datagram, IsReceived, net_recvfrom, net_recv_pkt}

-- The bytes of `rbuf` after `recvfrom` has stored `rlen` of them.
abbrev pub arrived : Pkt → Mem → ℕ → Mem
arrived rbuf wire rlen = copy rbuf 0 wire 0 rlen

-- What the caller may rely on when `net_recv_pkt` answers NET_OK.
pub record Accepted (z : Zlib) (m pkt : Pkt) (rlen expected_seq win_size : ℕ) : Type 0 where
  pub wire : IsWire z m rlen
  pub decoded : Decoded m pkt
  pub in_window : sub_u8 (Layout.seq pkt) expected_seq ≤ win_size
  pub seq_in : Layout.seq pkt < 256

module _ (z : Zlib) where
  recv_through :
      (rbuf wire : Mem) (rlen expected_seq win_size : ℕ) (pkt : Pkt)
      → net_recv_pkt z rbuf (datagram wire rlen) expected_seq win_size ≡ (net_ok, pkt)
      → (pkt_decode_inline z (arrived rbuf wire rlen) rlen ≡ (pkt_ok, pkt))
        × (sub_u8 (Layout.seq pkt) expected_seq ≤ win_size)
  unfolding net_recv_pkt net_recvfrom
  recv_through rbuf wire rlen expected_seq win_size pkt h = ground arith

  pub recv_failed :
      (rbuf : Pkt) (expected_seq win_size : ℕ) (pkt : Pkt)
      → net_recv_pkt z rbuf failed expected_seq win_size ≢ (net_ok, pkt)
  unfolding net_recv_pkt net_recvfrom
  recv_failed rbuf expected_seq win_size pkt h = ground arith

  -- `net_recv_pkt` answers NET_OK only for a datagram of the protocol whose sequence number is at
  -- most `win_size` ahead of the expected one; the packet is the decoded datagram.
  pub recv-Accepted :
      (rbuf wire : Mem) (rlen expected_seq win_size : ℕ) (pkt : Pkt)
      → IsBytes rbuf
      → IsReceived (datagram wire rlen)
      → net_recv_pkt z rbuf (datagram wire rlen) expected_seq win_size ≡ (net_ok, pkt)
      → Accepted z (arrived rbuf wire rlen) pkt rlen expected_seq win_size
  recv-Accepted rbuf wire rlen expected_seq win_size pkt old (bytes, short) h =
      let (dec, close) = recv_through rbuf wire rlen expected_seq win_size pkt h in
      let all : IsBytes (arrived rbuf wire rlen) = λ i. ground (arith, old i, bytes i) in
      let status : (pkt_decode_inline z (arrived rbuf wire rlen) rlen).0 ≡ pkt_ok =
        ap (λ p. p.0) dec in
      let d : Decoded (arrived rbuf wire rlen) pkt =
        rw (ap (λ p. p.1) dec) at (decode-Decoded z (arrived rbuf wire rlen) rlen all status) in
      record {
        wire = (decode-iff-IsWire z (arrived rbuf wire rlen) rlen all (omega arith)).0 status;
        decoded = d;
        in_window = close;
        seq_in = rw d.seq (all 1);
      }
