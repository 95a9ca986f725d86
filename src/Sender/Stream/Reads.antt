-- ===== src/Sender/Stream/Reads.antt =====
-- The next chunk of the file becomes the next packet of the stream.
use native.Mathlib.Decide.{dec_lt}
use native.Mathlib.Nat.{mod-eq_of_lt}
use project_transport_protoc.Prelude.{
  ℕ, suc, ◌+◌, ◌-◌, ◌/◌, ◌%◌, ◌<◌, ◌≤◌, ◌≡◌, ◌≢◌, refl, sym, ap, ◌∙◌, inl, inr, false, ◌==◌,
  if◌then◌else◌, List, [], ◌∷◌, All, some, Bool-cases, ==_iff, arith, true,
}
use project_transport_protoc.Prelude.Memory.{Mem, IsBytes, copy}
use project_transport_protoc.Prelude.Run.{ret}
use project_transport_protoc.Packet.Layout
use project_transport_protoc.Packet.Layout.{Pkt}
use project_transport_protoc.Packet.Codec.{Zlib}
use project_transport_protoc.Packet.Codec.Encode.{encode-Encoded, encode_first}
use project_transport_protoc.Packet.Codec.Transfer.{IsSendable}
use project_transport_protoc.Packet.Codec.RoundTrip.{encode-IsBytes}
use project_transport_protoc.Pktbuf.{pktbuf_used, mask_index, pktbuf_enqueue}
use project_transport_protoc.Pktbuf.Inv.{mask_index-mod, wrap-mod, nth}
use project_transport_protoc.Pktbuf.Reserve.{stored-Extends, Extends}
use project_transport_protoc.Net.{Link, Datagram}
use project_transport_protoc.Sender.{Sender, add_u8, fill_header, fill_chunk, handle_input_read}
use project_transport_protoc.Sender.Send.{on_wire}
use project_transport_protoc.Sender.Input.{
  pending, stored, pending-seq, stored-IsSender, fill_chunk-seq,
}
use project_transport_protoc.Sender.Stream.{IsChunk, Streams, OneOf, Follows}

-- A slot that the sender may use: bytes, and a clear TR bit, which no handler writes.
abbrev pub IsClean : Pkt → Type 0
IsClean pkt = IsBytes pkt × (Layout.tr pkt ≡ 0)

-- What `read` may answer for a packet's payload.
abbrev pub IsRead : Mem × ℕ → Type 0
IsRead (chunk, len) = IsBytes chunk × (len ≤ 512)

module _ (z : Zlib) (link : Link) where
  -- The packet before it is encoded.
  abbrev host : Pkt → ℕ → Mem → ℕ → Pkt
  host old seq chunk len =
      Layout.set_length (copy (fill_header z link old seq) Layout.at_payload chunk 0 len) len

  host-IsSendable :
      (old : Pkt) (seq : ℕ) (chunk : Mem) (len : ℕ)
      → IsClean old
      → IsRead (chunk, len)
      → IsSendable (host old seq chunk len)
  unfolding fill_header
  host-IsSendable old seq chunk len (bytes, clear) (data', short) = record {
    bytes = λ i. ground (arith, bytes i, bytes 0, data' (0 + (i - 12)));
    kind = inl (ground arith);
    whole = ground arith;
    small = ground arith;
    empty = inl (ground arith);
  }

  pub fill_chunk-IsChunk :
      (i : ℕ) (old : Pkt) (seq : ℕ) (chunk : Mem) (len : ℕ)
      → IsClean old
      → IsRead (chunk, len)
      → seq ≡ i % 256
      → IsChunk z i chunk len (fill_chunk z link (fill_header z link old seq) chunk len)
        × IsClean (fill_chunk z link (fill_header z link old seq) chunk len)
  unfolding fill_header fill_chunk
  fill_chunk-IsChunk i old seq chunk len clean good e =
      let s = host-IsSendable old seq chunk len clean good in
      let same = encode_first z (host old seq chunk len) s.bytes in
      (
        record {
          host = host old seq chunk len;
          sendable = s;
          encoded = encode-Encoded z (host old seq chunk len) s.bytes;
          bytes = encode-IsBytes z (host old seq chunk len) s.bytes;
          type = ground arith;
          seq = ground (arith, e);
          length = ground (arith, good.1);
          payload = λ k lt. ground arith;
        },
        (encode-IsBytes z (host old seq chunk len) s.bytes, ap (λ b. b / 32 % 2) same ∙ s.whole),
      )

  module _ (file : ℕ → Mem × ℕ) (total : ℕ) {s : Sender} (h : Streams z file total s)
      (room : pktbuf_used s.send_buf < s.send_buf.capacity) (unread : s.last_in_read ≢ some 0)
      (good : IsRead (file total)) where
    pub next_pkt : Pkt
    next_pkt = fill_chunk z link (pending z link s) (file total).0 (file total).1

    packets : ℕ → Pkt
    packets i = if i == total then next_pkt else h.packets i

    before : (i : ℕ) → i < total → packets i ≡ h.packets i
    unfolding packets
    before i lt = ground arith

    here : packets total ≡ next_pkt
    unfolding packets
    here = ground arith

    next-Extends :
        let b' = (stored z link s next_pkt (some (file total).1)).send_buf in
        Extends s.send_buf b' s.last_ack (pktbuf_used s.send_buf + 1)
        × (nth b' (pktbuf_used s.send_buf) ≡ next_pkt)
    unfolding next_pkt
    next-Extends =
        stored-Extends s.send_buf s.last_ack next_pkt h.state.ring room h.state.numbered (
          fill_chunk-seq z link (pending z link s) (file total).0 (file total).1
          ∙ pending-seq z link h.state)

    slot : ℕ
    slot = mask_index s.send_buf.last s.send_buf

    slot_lem : slot ≡ total % s.send_buf.capacity
    unfolding slot
    slot_lem =
        mask_index-mod h.state.ring s.send_buf.last
        ∙ ap (λ l. l % s.send_buf.capacity) h.last
        ∙ wrap-mod h.state.ring total

    number : add_u8 s.last_chunk_read 1 ≡ total % 256
    number = omega (arith, h.state.used, h.state.ack_in, h.state.chunk_in, h.used, h.ack)

    next-IsChunk : IsChunk z total (file total).0 (file total).1 next_pkt × IsClean next_pkt
    unfolding next_pkt pktbuf_enqueue
    next-IsChunk =
        fill_chunk-IsChunk total (s.send_buf.head (mask_index s.send_buf.last s.send_buf))
          (add_u8 s.last_chunk_read 1) (file total).0 (file total).1
          (h.clean (mask_index s.send_buf.last s.send_buf)) good number

    OneOf-more :
        (ws : List Datagram) → All (OneOf h.packets total) ws → All (OneOf packets (suc total)) ws
    OneOf-more [] all = tt
    OneOf-more (d ∷ ws) ((i, lt, e), all) =
        ((i, omega arith, e ∙ ap on_wire (sym (before i lt))), OneOf-more ws all)

    -- Another slot than the one that is filled now was filled before.
    old_slot : (j : ℕ) → j < suc total → j < s.send_buf.capacity → (j == slot) ≡ false → j < total
    old_slot j lt inside off = elim (dec_lt j total) [
      | yes older ↦ older
      | no new ↦
          let e : total % s.send_buf.capacity ≡ total = mod-eq_of_lt (omega arith) in
          ground (arith, slot_lem, e)
    ]

    -- The chunk is read, and the stream grows by its packet.
    pub stored-Streams : Streams z file (suc total) (stored z link s next_pkt (some (file total).1))
    unfolding pktbuf_enqueue slot
    stored-Streams = record {
      packets = packets;
      acked = h.acked;
      state = stored-IsSender z link next_pkt h.state room (some (file total).1) next-Extends.0;
      used = omega (arith, next-Extends.0.used, h.used);
      ack = h.ack;
      last = omega (arith, h.last);
      made = λ i lt. elim (Bool-cases (i == total)) [
        | inl at ↦ let e : i ≡ total = (==_iff _ _).0 at in rw (e, here) next-IsChunk.0
        | inr off ↦ let lt' : i < total = ground arith in rw (before i lt') (h.made i lt')
      ];
      kept = λ j lt. elim (dec_lt j (pktbuf_used s.send_buf)) [
        | yes old ↦
            next-Extends.0.kept j old
            ∙ h.kept j old
            ∙ sym (before (h.acked + j) (omega (arith, h.used)))
        | no new ↦
            let e : j ≡ pktbuf_used s.send_buf = omega (arith, next-Extends.0.used) in
            rw e (next-Extends.1 ∙ sym here ∙ ap packets (omega (arith, h.used)))
      ];
      filled = λ j lt inside. elim (Bool-cases (j == slot)) [
        | inl at ↦ (total, omega arith, rw at (sym here))
        | inr off ↦
            let (i, below, e) = h.filled j (old_slot j lt inside off) inside in
            (i, omega arith, rw off (e ∙ sym (before i below)))
      ];
      clean = λ j. elim (Bool-cases (j == slot)) [
        | inl at ↦ rw at next-IsChunk.1
        | inr off ↦ rw off (h.clean j)
      ];
      trace = OneOf-more s.sent h.trace;
      fresh = λ e. absurd (omega arith);
      read = λ i e. let same : total ≡ i = omega arith in ap (λ k. some (file k).1) same;
      more = λ i lt end. elim (dec_lt (suc i) total) [
        | yes older ↦ h.more i older end
        | no last ↦ unread (h.read i (omega arith) ∙ ap some end)
      ];
    }

    pub stored-Follows :
        {may : ℕ → Type 0} {s0 : Sender} {h0 : Streams z file total s0}
        → Follows may h0 h
        → Follows may h0 stored-Streams
    unfolding stored-Streams pktbuf_enqueue slot
    stored-Follows f = record {
      agree = λ i lt. before i lt ∙ f.agree i lt;
      newest = λ lt.
          let at : (slot == total % s.send_buf.capacity) ≡ true = (==_iff _ _).1 slot_lem in
          here ∙ ground (arith, at);
      bound = f.bound;
    }

    pub handle_input_read-stored :
        handle_input_read z link (some (file total)) s
        ≡ ret false (stored z link s next_pkt (some (file total).1))
    unfolding handle_input_read next_pkt
    handle_input_read-stored = refl
