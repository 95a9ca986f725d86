-- ===== src/Sender/Input/Chunk.antt =====
-- What `handle_input_read` does with the answer of `read`.
use project_transport_protoc.Prelude.{
  ℕ, ◌+◌, ◌%◌, ◌<◌, ◌≡◌, refl, ◌∙◌, true, false, Option, none, some,
}
use project_transport_protoc.Prelude.Memory.{Mem}
use project_transport_protoc.Prelude.Run.{Run, ret}
use project_transport_protoc.Packet.Layout.{Pkt}
use project_transport_protoc.Packet.Codec.{Zlib}
use project_transport_protoc.Pktbuf.{pktbuf_used, pktbuf_enqueue}
use project_transport_protoc.Pktbuf.Inv.{nth}
use project_transport_protoc.Pktbuf.Reserve.{stored-Extends, Extends}
use project_transport_protoc.Net.{Link}
use project_transport_protoc.Sender.{Sender, add_u8, fill_chunk, handle_input_read}
use project_transport_protoc.Sender.Inv.{IsSender, flight}
use project_transport_protoc.Sender.Input.{
  pending, stored, pending-seq, stored-IsSender, fill_chunk-seq,
}
use project_transport_protoc.Sender.Stream.{IsChunk}
use project_transport_protoc.Sender.Stream.Reads.{IsClean, IsRead, fill_chunk-IsChunk}

-- `s'` is `s` with one packet more behind the others.
pub record Newest (s s' : Sender) : Type 0 where
  pub state : IsSender s'
  pub in_flight : flight s' ≡ flight s
  pub used : pktbuf_used s'.send_buf ≡ pktbuf_used s.send_buf + 1
  pub kept : (j : ℕ) → j < pktbuf_used s.send_buf → nth s'.send_buf j ≡ nth s.send_buf j
  pub last_chunk_read : s'.last_chunk_read ≡ (s.last_chunk_read + 1) % 256
  pub sent : s'.sent ≡ s.sent

-- What becomes of the answer of `read`.
pub data Reads (z : Zlib) (s : Sender) : Option (Mem × ℕ) → Run Sender → Type 0 where
  chunk_read :
      (chunk : Mem) (len : ℕ) (s' : Sender)
      → Newest s s'
      → IsChunk z (s.last_chunk_read + 1) chunk len (nth s'.send_buf (pktbuf_used s.send_buf))
      → s'.last_in_read ≡ some len
      → Reads z s (some (chunk, len)) (ret false s')
  read_failed : (s' : Sender) → Newest s s' → s'.last_in_read ≡ none → Reads z s none (ret true s')

-- The answer is an error, or at most 512 bytes.
abbrev pub IsAnswer : Option (Mem × ℕ) → Type 0
IsAnswer none = Unit {0}
IsAnswer (some chunk) = IsRead chunk

module _ (z : Zlib) (link : Link) where
  stored-Newest :
      {s : Sender} (pkt : Pkt) (read : Option ℕ)
      → IsSender s
      → pktbuf_used s.send_buf < s.send_buf.capacity
      → Extends s.send_buf
          (stored z link s pkt read).send_buf
          s.last_ack
          (pktbuf_used s.send_buf + 1)
      → Newest s (stored z link s pkt read)
  stored-Newest pkt read v room e = record {
    state = stored-IsSender z link pkt v room read e;
    in_flight = refl;
    used = e.used;
    kept = e.kept;
    last_chunk_read = refl;
    sent = refl;
  }

  -- With the invariant, a free slot and the bytes of every slot with a clear TR bit, `handle_input_read`
  -- adds one packet behind the others, changes none of them and sends nothing. If `read` answers at
  -- most 512 bytes, it returns 0, and the new packet is the encoded data packet with the next number
  -- and these bytes as payload; if `read` fails, it returns -1 and `last_in_read` is -1.
  pub handle_input_read-Reads :
      {s : Sender} (input : Option (Mem × ℕ))
      → IsSender s
      → pktbuf_used s.send_buf < s.send_buf.capacity
      → ((i : ℕ) → IsClean (s.send_buf.head i))
      → IsAnswer input
      → Reads z s input (handle_input_read z link input s)
  unfolding handle_input_read pktbuf_enqueue
  handle_input_read-Reads {s} none v room clean good =
      let (e, _) =
        stored-Extends s.send_buf s.last_ack (pending z link s) v.ring room v.numbered
          (pending-seq z link v) in
      read_failed (stored z link s (pending z link s) none)
        (stored-Newest (pending z link s) none v room e) refl
  handle_input_read-Reads {s} (some (chunk, len)) v room clean good =
      let pkt : Pkt = fill_chunk z link (pending z link s) chunk len in
      let (e, at) =
        stored-Extends s.send_buf s.last_ack pkt v.ring room v.numbered
          (fill_chunk-seq z link (pending z link s) chunk len ∙ pending-seq z link v) in
      chunk_read chunk len (stored z link s pkt (some len)) (stored-Newest pkt (some len) v room e)
        (rw at (newest chunk len clean good)) refl
    where
      newest :
          (chunk : Mem) (len : ℕ)
          → ((i : ℕ) → IsClean (s.send_buf.head i))
          → IsRead (chunk, len)
          → IsChunk z
              (s.last_chunk_read + 1)
              chunk
              len
              (fill_chunk z link (pending z link s) chunk len)
      newest chunk len clean good =
          (fill_chunk-IsChunk z link (s.last_chunk_read + 1)
            (s.send_buf.head (pktbuf_enqueue s.send_buf).0) (add_u8 s.last_chunk_read 1) chunk len
            (clean _) good refl).0
