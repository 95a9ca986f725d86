-- ===== src/Sender/Inv.antt =====
-- The sender's invariant: the buffer holds the chunks from `last_ack` to `last_chunk_read`, those up
-- to `last_sent` are in flight, and all carry consecutive sequence numbers modulo 256.
use project_transport_protoc.Prelude.{
  ℕ, suc, ◌+◌, ◌<◌, ◌≤◌, ◌≡◌, refl, ap, ◌∙◌, Option, List, arith,
}
use project_transport_protoc.Packet.Layout
use project_transport_protoc.Pktbuf.{Pktbuf, sub_u8, pktbuf_used, pktbuf_dequeue}
use project_transport_protoc.Pktbuf.Inv.{IsRing}
use project_transport_protoc.Pktbuf.Queue.{dequeue-IsRing, dequeue-nth, dequeue-used}
use project_transport_protoc.Pktbuf.Reserve.{IsNumbered}
use project_transport_protoc.Net.{Datagram}
use project_transport_protoc.Sender.{Sender, add_u8}

-- The number of packets that are sent and not acknowledged.
abbrev pub flight : Sender → ℕ
flight s = sub_u8 (s.last_sent + 1) s.last_ack

-- A buffer of 256 slots or more would not be told from an empty one by the sequence numbers.
pub record IsSender (s : Sender) : Type 0 where
  pub ring : IsRing s.send_buf
  pub small : s.send_buf.capacity < 256
  pub ack_in : s.last_ack < 256
  pub sent_in : s.last_sent < 256
  pub chunk_in : s.last_chunk_read < 256
  pub used : pktbuf_used s.send_buf ≡ sub_u8 (s.last_chunk_read + 1) s.last_ack
  pub in_flight : flight s ≤ pktbuf_used s.send_buf
  pub numbered : IsNumbered s.send_buf s.last_ack

-- The other variables do not count.
pub IsSender-others :
    {s : Sender} (win dup retry : ℕ) (read : Option ℕ) (sent : List Datagram)
    → IsSender s
    → IsSender (record s {
      last_win = win;
      dup_ack = dup;
      retry_count = retry;
      last_in_read = read;
      sent = sent;
    })
IsSender-others win dup retry read sent v = record {
  ring = v.ring;
  small = v.small;
  ack_in = v.ack_in;
  sent_in = v.sent_in;
  chunk_in = v.chunk_in;
  used = v.used;
  in_flight = v.in_flight;
  numbered = v.numbered;
}

abbrev pub acked : Sender → Sender
acked s = record s { send_buf = (pktbuf_dequeue s.send_buf).1; last_ack = add_u8 s.last_ack 1 }

pub capacity-dequeue : (b : Pktbuf) → (pktbuf_dequeue b).1.capacity ≡ b.capacity
unfolding pktbuf_dequeue
capacity-dequeue b = refl

-- One acknowledged packet is dropped.
pub acked-IsSender : {s : Sender} → IsSender s → 0 < flight s → IsSender (acked s)
acked-IsSender {s} v pos = record {
  ring = dequeue-IsRing v.ring left;
  small = rw capacity-dequeue v.small;
  ack_in = omega arith;
  sent_in = v.sent_in;
  chunk_in = v.chunk_in;
  used = omega (arith, one_less, v.used, v.ack_in, v.chunk_in);
  in_flight = omega (arith, one_less, v.in_flight, v.ack_in, v.sent_in);
  numbered = λ j h.
      ap Layout.seq (dequeue-nth j v.ring)
      ∙ v.numbered (suc j) (omega (arith, one_less))
      ∙ omega arith;
}
  where
    left : 0 < pktbuf_used s.send_buf
    left = omega (arith, v.in_flight)

    one_less : pktbuf_used s.send_buf ≡ suc (pktbuf_used (pktbuf_dequeue s.send_buf).1)
    one_less = dequeue-used v.ring left

-- `pktbuf_dequeue` moves `first` alone.
pub dequeue_keeps :
    (b : Pktbuf)
    → let b' = (pktbuf_dequeue b).1 in
      (b'.head ≡ b.head) × (b'.last ≡ b.last) × (b'.capacity ≡ b.capacity)
unfolding pktbuf_dequeue
dequeue_keeps b = (refl, refl, refl)
