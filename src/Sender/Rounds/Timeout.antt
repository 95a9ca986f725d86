-- ===== src/Sender/Rounds/Timeout.antt =====
-- A round in which `poll` times out.
use native.Mathlib.Decide.{dec_lt}
use project_transport_protoc.Prelude.{ℕ, ◌≡◌, ◌≢◌, refl, sym, ◌∙◌, Bool, true, false, arith, All}
use project_transport_protoc.Prelude.Memory.{Mem}
use project_transport_protoc.Prelude.Run.{Run, ret, exit_failure, undefined, out_of_fuel}
use project_transport_protoc.Packet.Codec.{Zlib}
use project_transport_protoc.Net.{Link}
use project_transport_protoc.Sender.{Sender, max_retransmission, handle_retransmission}
use project_transport_protoc.Sender.Resend.{retransmission-Resent, gives_up}
use project_transport_protoc.Sender.Resend.Endless.{retransmission-ne-ok}
use project_transport_protoc.Sender.Stream.{
  Streams, Streams-same, burst-OneOf, Follows, Follows-refl, same-Follows, OneOf,
}
use project_transport_protoc.Sender.Transmit.{Poll, timeout, Loop, next}
use project_transport_protoc.Sender.Rounds.{IsLoop, Outcome, gave_up, wrapped, next-Outcome}

module _ (z : Zlib) (link : Link) (file : ℕ → Mem × ℕ) where
  -- A handler that does not return 0 ends the loop.
  refused-Outcome :
      (total : ℕ) (p : Poll) (l : Loop) (v : IsLoop z file total l) (poll_file : Bool)
      (r : Run Sender)
      → ((s : Sender) → r ≢ ret false s)
      → p ≡ timeout
      → l.sender.last_sent ≡ 255
      → Outcome z file total p l v (next poll_file r)
  unfolding next
  refused-Outcome total p l v poll_file (ret true s) never e w = gave_up s
  refused-Outcome total p l v poll_file (ret false s) never e w = absurd (never s refl)
  refused-Outcome total p l v poll_file exit_failure never e w = wrapped exit_failure e w
  refused-Outcome total p l v poll_file undefined never e w = wrapped undefined e w
  refused-Outcome total p l v poll_file out_of_fuel never e w = wrapped out_of_fuel e w

  resent-Outcome :
      (total : ℕ) (l : Loop) (bad : Bool) (s' : Sender) (v : IsLoop z file total l)
      (h : Streams z file total s')
      → Follows (λ top. Unit {0}) v.stream h
      → s'.send_buf ≡ l.sender.send_buf
      → s'.last_in_read ≡ l.sender.last_in_read
      → Outcome z file total timeout l v (next l.poll_file (ret bad s'))
  resent-Outcome total l true s' v h f buf read = unfold next in gave_up s'
  resent-Outcome total l false s' v h f buf read =
      next-Outcome z file total timeout l v l.poll_file s' h f (λ e. rw buf (v.room e))
        (λ e end. v.unread e (sym read ∙ end))

  pub timeout-Outcome :
      (total : ℕ) (l : Loop) (v : IsLoop z file total l)
      → Outcome z file total timeout l v
          (next l.poll_file (handle_retransmission z link 257 l.sender))
  timeout-Outcome total l v = elim (dec_lt l.sender.last_sent 255) [
    | no top ↦
        let wrap : l.sender.last_sent ≡ 255 = omega (arith, v.stream.state.sent_in) in
        refused-Outcome total timeout l v l.poll_file (handle_retransmission z link 257 l.sender)
          (λ s'. retransmission-ne-ok z link 257 l.sender s' wrap v.stream.state.ack_in) refl wrap
    | yes below ↦ elim (dec_lt l.sender.retry_count max_retransmission) [
      | no many ↦ rw (gives_up z link 257 l.sender (omega arith)) (unfold next in gave_up _)
      | yes few ↦
          let (bad, k, s', run, r, _, within, _) =
            retransmission-Resent z link l.sender v.stream.state below few in
          let sent : All (OneOf v.stream.packets total) s'.sent =
            rw r.trace
              (burst-OneOf v.stream 0 k (omega (arith, within, v.stream.state.in_flight))) in
          rw run (
            resent-Outcome total l bad s' v
              (Streams-same s' v.stream r.state r.send_buf r.last_ack r.last_in_read sent)
              (same-Follows r.state r.send_buf r.last_ack r.last_in_read sent
                (Follows-refl v.stream))
              r.send_buf r.last_in_read)
    ]
  ]
