-- ===== src/Sender/Input.antt =====
-- `handle_input_read`: a chunk of the input becomes the newest packet of the buffer.
pub mod Chunk
use project_transport_protoc.Prelude.{
  ℕ, ◌+◌, ◌%◌, ◌<◌, ◌≡◌, refl, ◌∙◌, Bool, true, false, Option, none, some, arith,
}
use project_transport_protoc.Prelude.Memory.{Mem, copy}
use project_transport_protoc.Packet.Layout
use project_transport_protoc.Packet.Layout.{Pkt}
use project_transport_protoc.Packet.Codec.{Zlib}
use project_transport_protoc.Packet.Codec.Encode.{encode-seq}
use project_transport_protoc.Pktbuf.{pktbuf_used, set_slot, pktbuf_enqueue}
use project_transport_protoc.Pktbuf.Inv.{nth, slot}
use project_transport_protoc.Pktbuf.Reserve.{stored-Extends, Extends}
use project_transport_protoc.Net.{Link}
use project_transport_protoc.Sender.{Sender, add_u8, fill_header, fill_chunk, handle_input_read}
use project_transport_protoc.Prelude.Run.{ret}
use project_transport_protoc.Sender.Inv.{IsSender, flight}

module _ (z : Zlib) (link : Link) where
  fill_header-seq : (pkt : Pkt) (seq : ℕ) → Layout.seq (fill_header z link pkt seq) ≡ seq % 256
  unfolding fill_header
  fill_header-seq pkt seq = refl

  pub fill_chunk-seq :
      (pkt : Pkt) (chunk : Mem) (len : ℕ)
      → Layout.seq (fill_chunk z link pkt chunk len) ≡ Layout.seq pkt
  unfolding fill_chunk
  fill_chunk-seq pkt chunk len =
      encode-seq z (Layout.set_length (copy pkt Layout.at_payload chunk 0 len) len) ∙ ground arith

  abbrev pub pending : Sender → Pkt
  pending s =
      let (slot, buf) = pktbuf_enqueue s.send_buf in
      fill_header z link (buf.head slot) (add_u8 s.last_chunk_read 1)

  abbrev pub stored : Sender → Pkt → Option ℕ → Sender
  stored s pkt read =
      let (slot, buf) = pktbuf_enqueue s.send_buf in
      record s {
        send_buf = set_slot buf slot pkt;
        last_chunk_read = add_u8 s.last_chunk_read 1;
        last_in_read = read;
      }

  pub pending-seq :
      {s : Sender}
      → IsSender s
      → Layout.seq (pending s) ≡ (s.last_ack + pktbuf_used s.send_buf) % 256
  pending-seq v = fill_header-seq _ _ ∙ omega (arith, v.used, v.ack_in, v.chunk_in)

  pub stored-IsSender :
      {s : Sender} (pkt : Pkt)
      → IsSender s
      → pktbuf_used s.send_buf < s.send_buf.capacity
      → (read : Option ℕ)
      → Extends s.send_buf (stored s pkt read).send_buf s.last_ack (pktbuf_used s.send_buf + 1)
      → IsSender (stored s pkt read)
  stored-IsSender pkt v room read e = record {
    ring = e.ring;
    small = rw e.capacity v.small;
    ack_in = v.ack_in;
    sent_in = v.sent_in;
    chunk_in = omega arith;
    used = e.used ∙ omega (arith, v.used, v.small, v.ack_in, v.chunk_in);
    in_flight = rw e.used (omega (arith, v.in_flight));
    numbered = e.numbered;
  }
