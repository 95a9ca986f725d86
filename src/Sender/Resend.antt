-- ===== src/Sender/Resend.antt =====
-- `handle_retransmission`: go-back-n when the retransmission timer expires.
pub mod Endless
use project_transport_protoc.Prelude.{
  ℕ, zero, suc, ◌+◌, ◌<◌, ◌≤◌, ◌≡◌, ◌≢◌, refl, ap, ◌∙◌, Bool, true, false, ◌==◌, ltb, arith,
  Bool-cases, Option-cases, inl, inr,
}
use project_transport_protoc.Packet.Layout.{Pkt}
use project_transport_protoc.Packet.Codec.{Zlib}
use project_transport_protoc.Pktbuf.{sub_u8, pktbuf_slotfor_seq}
use project_transport_protoc.Pktbuf.Inv.{nth, slot}
use project_transport_protoc.Net.{Link}
use project_transport_protoc.Sender.{
  Sender, add_u8, max_retransmission, send, send_seq, resend_loop, handle_retransmission,
}
use project_transport_protoc.Prelude.Run.{Run, ret, exit_failure, undefined, out_of_fuel, and_then}
use project_transport_protoc.Sender.Inv.{IsSender, IsSender-others, flight}
use project_transport_protoc.Sender.Send.{
  burst, fails, Attempts, no_more, refused, in_full, sending, send_lem, send_seq_lem,
  sending-IsSender,
}

-- `s'` is `s` after the first `k` packets of the buffer, from place `i` on, were sent again.
pub record Resent (i k : ℕ) (s s' : Sender) : Type 0 where
  pub state : IsSender s'
  pub send_buf : s'.send_buf ≡ s.send_buf
  pub last_ack : s'.last_ack ≡ s.last_ack
  pub last_sent : s'.last_sent ≡ s.last_sent
  pub last_chunk_read : s'.last_chunk_read ≡ s.last_chunk_read
  pub last_in_read : s'.last_in_read ≡ s.last_in_read
  pub retry_count : s'.retry_count ≡ s.retry_count
  pub trace : s'.sent ≡ burst s.send_buf i k s.sent

module _ (z : Zlib) (link : Link) where
  -- The test of the loop at place `i`, where `last_sent + 1` is no more than 255.
  at_end :
      (s : Sender) (i sseq : ℕ)
      → IsSender s
      → s.last_sent < 255
      → sseq < 256
      → sub_u8 sseq s.last_ack ≡ i
      → i ≡ flight s
      → (sseq == s.last_sent + 1) ≡ true
  at_end s i sseq v lt small e at = ground (arith, v.ack_in)

  before_end :
      (s : Sender) (i sseq : ℕ)
      → IsSender s
      → s.last_sent < 255
      → sseq < 256
      → sub_u8 sseq s.last_ack ≡ i
      → i < flight s
      → (sseq == s.last_sent + 1) ≡ false
  before_end s i sseq v lt small e at = ground (arith, v.ack_in)

  ended :
      (fuel sseq : ℕ) (s : Sender)
      → (sseq == s.last_sent + 1) ≡ true
      → resend_loop z link (suc fuel) sseq s ≡ ret false (record s { dup_ack = 0 })
  unfolding resend_loop
  ended fuel sseq s e = rw e

  failed :
      (fuel sseq : ℕ) (s s' : Sender)
      → (sseq == s.last_sent + 1) ≡ false
      → send_seq z link sseq s ≡ ret true s'
      → resend_loop z link (suc fuel) sseq s ≡ ret true s'
  unfolding resend_loop
  failed fuel sseq s s' e f = rw (e, f)

  went_on :
      (fuel sseq : ℕ) (s s' : Sender)
      → (sseq == s.last_sent + 1) ≡ false
      → send_seq z link sseq s ≡ ret false s'
      → resend_loop z link (suc fuel) sseq s ≡ resend_loop z link fuel (add_u8 sseq 1) s'
  unfolding resend_loop
  went_on fuel sseq s s' e f = rw (e, f)

  found :
      (s : Sender) (i sseq : ℕ)
      → IsSender s
      → sub_u8 sseq s.last_ack ≡ i
      → i < flight s
      → let pkt = nth s.send_buf i in
        send_seq z link sseq s ≡ ret (fails link pkt s) (sending pkt s)
  found s i sseq v e lt =
      send_seq_lem z link sseq s v (omega (arith, v.in_flight))
      ∙ ap (λ j. ret (fails link (nth s.send_buf j) s) (sending (nth s.send_buf j) s)) e

  Resent-none : (i d : ℕ) (s : Sender) → IsSender s → Resent i 0 s (record s { dup_ack = d })
  Resent-none i d s v = record {
    state = IsSender-others s.last_win d s.retry_count s.last_in_read s.sent v;
    send_buf = refl;
    last_ack = refl;
    last_sent = refl;
    last_chunk_read = refl;
    last_in_read = refl;
    retry_count = refl;
    trace = refl;
  }

  Resent-more :
      {i k : ℕ} {s s' : Sender}
      → Resent (i + 1) k (sending (nth s.send_buf i) s) s'
      → Resent i (suc k) s s'
  Resent-more r = record {
    state = r.state;
    send_buf = r.send_buf;
    last_ack = r.last_ack;
    last_sent = r.last_sent;
    last_chunk_read = r.last_chunk_read;
    last_in_read = r.last_in_read;
    retry_count = r.retry_count;
    trace = r.trace;
  }

  resend_loop-Resent :
      (left i fuel sseq : ℕ) (s : Sender)
      → IsSender s
      → s.last_sent < 255
      → sseq < 256
      → sub_u8 sseq s.last_ack ≡ i
      → i + left ≡ flight s
      → left < fuel
      → (bad : Bool) × (k : ℕ) × (s' : Sender) × (resend_loop z link fuel sseq s ≡ ret bad s')
        × Resent i k s s'
        × Attempts link s.send_buf i k s.sent bad
        × (k ≤ left)
        × (bad ≡ false → (k ≡ left) × (s'.dup_ack ≡ 0))
  resend_loop-Resent left i zero sseq s v lt small e end enough = absurd (omega arith)
  resend_loop-Resent zero i (suc fuel) sseq s v lt small e end enough = (
    false,
    0,
    record s { dup_ack = 0 },
    ended fuel sseq s (at_end s i sseq v lt small e (omega arith)),
    Resent-none i 0 s v,
    no_more,
    omega arith,
    λ _. (refl, refl),
  )
  resend_loop-Resent (suc left) i (suc fuel) sseq s v lt small e end enough =
      let pkt : Pkt = nth s.send_buf i in
      let more = before_end s i sseq v lt small e (omega arith) in
      let run = found s i sseq v e (omega arith) in
      let v' = sending-IsSender z link pkt v in
      elim (Bool-cases (fails link pkt s)) [
        | inl broken ↦ (
          true,
          1,
          sending pkt s,
          failed fuel sseq s _ more (run ∙ ap (λ b. ret b (sending pkt s)) broken),
          Resent-more (Resent-none (i + 1) s.dup_ack (sending pkt s) v'),
          refused broken,
          omega arith,
          λ e. cc,
        )
        | inr written ↦
            let (bad, k, s', rest, r, a, le, d) =
              resend_loop-Resent left (i + 1) fuel (add_u8 sseq 1) (sending pkt s) v' lt
                (omega arith) (omega (arith, v.ack_in)) (omega arith) (omega arith) in
            (
              bad,
              suc k,
              s',
              went_on fuel sseq s _ more (run ∙ ap (λ b. ret b (sending pkt s)) written) ∙ rest,
              Resent-more r,
              in_full written a,
              omega arith,
              λ ok. (ap suc (d ok).0, (d ok).1),
            )
      ]

  -- Unless `last_sent` is 255, `handle_retransmission` returns within 257 rounds when fewer than five
  -- timeouts came before: it sends the packets in flight again, each once and in order, and changes no
  -- packet. If every write is answered by the datagram's length, it sends all of them, resets the
  -- duplicate count and returns 0; else it stops at the first write that is answered otherwise.
  pub retransmission-Resent :
      (s : Sender)
      → IsSender s
      → s.last_sent < 255
      → s.retry_count < max_retransmission
      → (bad : Bool) × (k : ℕ) × (s' : Sender) × (handle_retransmission z link 257 s ≡ ret bad s')
        × Resent 0 k (record s { retry_count = s.retry_count + 1 }) s'
        × Attempts link s.send_buf 0 k s.sent bad
        × (k ≤ flight s)
        × (bad ≡ false → (k ≡ flight s) × (s'.dup_ack ≡ 0))
  unfolding handle_retransmission
  retransmission-Resent s v lt few =
      let s1 : Sender = record s { retry_count = s.retry_count + 1 } in
      let within : ltb max_retransmission (s.retry_count + 1) ≡ false = ground arith in
      rw within (
        resend_loop-Resent (flight s) 0 257 s.last_ack s1
          (IsSender-others s.last_win s.dup_ack (s.retry_count + 1) s.last_in_read s.sent v) lt
          v.ack_in (omega (arith, v.ack_in)) (omega arith) (omega arith))

  -- After five consecutive timeouts it gives up and sends nothing.
  pub gives_up :
      (fuel : ℕ) (s : Sender)
      → max_retransmission ≤ s.retry_count
      → handle_retransmission z link fuel s
        ≡ ret true (record s { retry_count = s.retry_count + 1 })
  unfolding handle_retransmission
  gives_up fuel s many = ground arith
