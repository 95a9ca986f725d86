-- ===== src/Sender/Ack.antt =====
-- `process_ack` and `process_dup_ack`: a cumulative acknowledgement, and fast retransmission.
use project_transport_protoc.Prelude.{
  ℕ, zero, suc, ◌+◌, ◌<◌, ◌≤◌, ◌≡◌, refl, ap, ◌∙◌, false, ◌==◌, arith,
}
use project_transport_protoc.Packet.Codec.{Zlib}
use project_transport_protoc.Pktbuf.{sub_u8, pktbuf_used}
use project_transport_protoc.Pktbuf.Inv.{nth}
use project_transport_protoc.Pktbuf.Queue.{dequeue-nth, dequeue-used}
use project_transport_protoc.Net.{Link}
use project_transport_protoc.Sender.{Sender, ack_loop, process_ack}
use project_transport_protoc.Prelude.Run.{ret}
use project_transport_protoc.Sender.Inv.{
  IsSender, IsSender-others, flight, acked, acked-IsSender, dequeue_keeps,
}

-- `s'` is `s` with its `n` oldest packets acknowledged.
pub record Acked (n : ℕ) (s s' : Sender) : Type 0 where
  pub state : IsSender s'
  pub used : pktbuf_used s.send_buf ≡ n + pktbuf_used s'.send_buf
  pub in_flight : flight s ≡ n + flight s'
  pub kept : (j : ℕ) → nth s'.send_buf j ≡ nth s.send_buf (n + j)
  pub last_sent : s'.last_sent ≡ s.last_sent
  pub last_chunk_read : s'.last_chunk_read ≡ s.last_chunk_read
  pub sent : s'.sent ≡ s.sent
  pub last_in_read : s'.last_in_read ≡ s.last_in_read
  pub head : s'.send_buf.head ≡ s.send_buf.head
  pub last : s'.send_buf.last ≡ s.send_buf.last
  pub capacity : s'.send_buf.capacity ≡ s.send_buf.capacity

module _ (z : Zlib) (link : Link) where
  ack_loop-Acked :
      (n fuel ack : ℕ) (s : Sender)
      → IsSender s
      → ack < 256
      → sub_u8 ack s.last_ack ≡ n
      → n ≤ flight s
      → n < fuel
      → (s' : Sender) × (ack_loop z link fuel ack s ≡ ret false s')
        × Acked n s s'
        × (s'.last_ack ≡ ack)
        × (s'.dup_ack ≡ 0)
  unfolding ack_loop
  ack_loop-Acked n zero ack s v small e le enough = absurd (omega arith)
  ack_loop-Acked zero (suc fuel) ack s v small e le enough =
      let same : s.last_ack ≡ ack = omega (arith, v.ack_in) in
      (
        record s { dup_ack = 0 },
        ground arith,
        record {
          state = IsSender-others s.last_win 0 s.retry_count s.last_in_read s.sent v;
          used = omega arith;
          in_flight = omega arith;
          kept = λ j. ap (nth s.send_buf) (omega arith);
          last_sent = refl;
          last_chunk_read = refl;
          sent = refl;
          last_in_read = refl;
          head = refl;
          last = refl;
          capacity = refl;
        },
        same,
        refl,
      )
  ack_loop-Acked (suc n) (suc fuel) ack s v small e le enough =
      let v' : IsSender (acked s) = acked-IsSender v (omega arith) in
      let (s', run, a, last, dup) =
        ack_loop-Acked n fuel ack (acked s) v' small (omega (arith, v.ack_in))
          (omega (arith, v.ack_in, v.sent_in)) (omega arith) in
      let keeps = dequeue_keeps s.send_buf in
      let one_less = dequeue-used v.ring (omega (arith, v.in_flight)) in
      let differ : (s.last_ack == ack) ≡ false = ground arith in
      (
        s',
        rw differ run,
        record {
          state = a.state;
          used = omega (arith, one_less, a.used);
          in_flight = omega (arith, a.in_flight, v.ack_in, v.sent_in);
          kept = λ j. a.kept j ∙ dequeue-nth (n + j) v.ring ∙ ap (nth s.send_buf) (omega arith);
          last_sent = a.last_sent;
          last_chunk_read = a.last_chunk_read;
          sent = a.sent;
          last_in_read = a.last_in_read;
          head = a.head ∙ keeps.0;
          last = a.last ∙ keeps.1;
          capacity = a.capacity ∙ keeps.2;
        },
        last,
        dup,
      )

  -- An acknowledgement of at most the packets in flight always returns 0: it drops exactly those
  -- before `ack`, keeps the others in order and the invariant, and resets the duplicate count.
  pub process_ack-Acked :
      (ack : ℕ) (s : Sender)
      → IsSender s
      → ack < 256
      → sub_u8 ack s.last_ack ≤ flight s
      → (s' : Sender) × (process_ack z link ack s ≡ ret false s')
        × Acked (sub_u8 ack s.last_ack) s s'
        × (s'.last_ack ≡ ack)
        × (s'.dup_ack ≡ 0)
  unfolding process_ack
  process_ack-Acked ack s v small le =
      ack_loop-Acked (sub_u8 ack s.last_ack) 256 ack s v small refl le (omega arith)
