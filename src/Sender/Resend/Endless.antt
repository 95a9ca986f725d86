-- ===== src/Sender/Resend/Endless.antt =====
-- `handle_retransmission` when `last_sent` is 255: its loop does not stop.
use project_transport_protoc.Prelude.{
  ℕ, zero, suc, ◌+◌, ◌<◌, ◌≡◌, ◌≢◌, refl, ◌∙◌, Bool, true, false, ◌==◌, ltb, arith, Bool-cases,
  Option-cases, inl, inr,
}
use project_transport_protoc.Packet.Layout.{Pkt}
use project_transport_protoc.Packet.Codec.{Zlib}
use project_transport_protoc.Pktbuf.{pktbuf_slotfor_seq}
use project_transport_protoc.Pktbuf.Inv.{slot}
use project_transport_protoc.Net.{Link}
use project_transport_protoc.Sender.{
  Sender, add_u8, max_retransmission, send, send_seq, resend_loop, handle_retransmission,
}
use project_transport_protoc.Prelude.Run.{Run, ret, exit_failure, undefined, out_of_fuel, and_then}
use project_transport_protoc.Sender.Send.{send_lem}

module _ (z : Zlib) (link : Link) where
  -- `last_sent` is not written while packets are sent again.
  send-last_sent :
      (pkt : Pkt) (s s' : Sender) (bad : Bool)
      → send z link pkt s ≡ ret bad s'
      → s'.last_sent ≡ s.last_sent
  send-last_sent pkt s s' bad h = ground (arith, send_lem z link pkt s)

  send_seq-last_sent :
      (seqnum : ℕ) (s s' : Sender) (bad : Bool)
      → send_seq z link seqnum s ≡ ret bad s'
      → s'.last_sent ≡ s.last_sent
  unfolding send_seq
  send_seq-last_sent seqnum s s' bad h =
      elim (Option-cases (pktbuf_slotfor_seq s.send_buf seqnum)) [
        | inl e ↦ cc (rw (e, send_seq) at h)
        | inr ((slot, buf), e) ↦
            send-last_sent (buf.head slot) (record s { send_buf = buf }) s' bad
              (rw (e, send_seq) at h)
      ]

  continue-ne-ok :
      (r : Run Sender) (k : Sender → Run Sender) (s' : Sender)
      → ((s1 : Sender) → r ≡ ret false s1 → k s1 ≢ ret false s')
      → and_then r k ≢ ret false s'
  continue-ne-ok (ret true s1) k s' never e = cc
  continue-ne-ok (ret false s1) k s' never e = never s1 refl e
  continue-ne-ok exit_failure k s' never e = cc
  continue-ne-ok undefined k s' never e = cc
  continue-ne-ok out_of_fuel k s' never e = cc

  resend_loop-ne-ok :
      (fuel sseq : ℕ) (s s' : Sender)
      → s.last_sent ≡ 255
      → sseq < 256
      → resend_loop z link fuel sseq s ≢ ret false s'
  unfolding resend_loop
  resend_loop-ne-ok zero sseq s s' e small run = cc
  resend_loop-ne-ok (suc fuel) sseq s s' e small run =
      let more : (sseq == s.last_sent + 1) ≡ false = ground arith in
      continue-ne-ok (send_seq z link sseq s) (λ s1. resend_loop z link fuel (add_u8 sseq 1) s1) s'
        (λ s1 step.
          resend_loop-ne-ok fuel (add_u8 sseq 1) s1 s' (send_seq-last_sent sseq s s1 false step ∙ e)
            (omega arith))
        (rw more at run)

  -- When `last_sent` is 255, `handle_retransmission` never returns 0, however many rounds it is
  -- given: `sseq` is a `uint8_t` and does not reach `last_sent + 1`, which is 256.
  pub retransmission-ne-ok :
      (fuel : ℕ) (s s' : Sender)
      → s.last_sent ≡ 255
      → s.last_ack < 256
      → handle_retransmission z link fuel s ≢ ret false s'
  unfolding handle_retransmission
  retransmission-ne-ok fuel s s' e small run =
      elim (Bool-cases (ltb max_retransmission (s.retry_count + 1))) [
        | inl many ↦ cc (rw many at run)
        | inr few ↦
            resend_loop-ne-ok fuel s.last_ack (record s { retry_count = s.retry_count + 1 }) s' e
              small (rw few at run)
      ]
