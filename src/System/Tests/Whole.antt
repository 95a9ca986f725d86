-- ===== src/System/Tests/Whole.antt =====
-- The states of the transfer, and what is stated of them.
use mathlib.Core.Path.{subst}
use project_transport_protoc.Prelude.{
  ℕ, suc, ◌+◌, ◌≤◌, ◌≡◌, refl, sym, true, false, [], ◌∷◌, none, some, arith, ◌⊎◌,
}
use project_transport_protoc.Prelude.Memory.{IsBytes}
use project_transport_protoc.Packet.Tests.{zlib, blank}
use project_transport_protoc.Pktbuf.{pktbuf_used}
use project_transport_protoc.Net.{datagram, pkt_len_serial}
use project_transport_protoc.Sender.Transmit
use project_transport_protoc.Sender.Transmit.{handle_ready}
use project_transport_protoc.Receiver.Deliver.{output}
use project_transport_protoc.Receiver.Loop
use project_transport_protoc.Receiver.Loop.{read_ready, write_ready, answer}
use project_transport_protoc.System.{
  output_of, whole, reply, at_head, sends, starts, receives, later, SenderGoes, ReceiverGoes, Among,
}
use project_transport_protoc.System.Network.{reply_pkt, All-Among, Told}
use project_transport_protoc.System.Safety.{
  Reach-Inv, output_in_order, freed_written, transmit_delivers, receive_delivers,
}
use project_transport_protoc.System.Tests.{
  link, out, never_blocks, no_data, sending, after_sent, packet, heard, loop_of, sender_of,
  after_heard, acknowledged, after_written, the_reply, ack_heard, over, after_ack, run,
  blank-IsBytes, Reached, sending_running, heard_running, acknowledged_completed, over_completed,
  sent-Reached, packet-IsBytes,
}

heard-Reached : Reached after_heard
heard-Reached = later after_heard sent-Reached (
    starts (some 0) (some 0) true (datagram packet (pkt_len_serial packet) ∷ []) (loop_of heard)
      refl (whole 0 packet (omega arith) packet-IsBytes (λ k h. refl) (omega arith), tt)
      heard_running)

written-Reached : Reached after_written
written-Reached = later after_written heard-Reached (
    receives (Loop.ready none false) (loop_of heard) refl tt
      (subst ReceiverGoes (sym acknowledged_completed) tt))

left : after_written.receiver ≡ Loop.completed (loop_of acknowledged).receiver
unfolding run
left = refl

nothing_written : output_of after_written.receiver ≡ some []
unfolding run
nothing_written = refl

one_reply : after_written.replies ≡ (1, the_reply.1) ∷ []
unfolding run
one_reply = refl

still_sending : after_written.sender ≡ Transmit.running (sender_of sending)
unfolding run
still_sending = sending_running

all_read : after_written.total ≡ 1
unfolding run
all_read = refl

reply_here : Among (1, the_reply.1) after_written.replies
reply_here = subst (Among (1, the_reply.1)) (sym one_reply) at_head

reply-IsBytes : IsBytes the_reply.1.pkt
reply-IsBytes =
    let v =
      Reach-Inv zlib no_data link link out never_blocks (omega arith) (omega arith) (omega arith)
        (omega arith) written-Reached in
    let (_, r) = All-Among (Told zlib after_written.written) reply_here v.told in
    subst IsBytes (sym (reply_pkt zlib 1 the_reply.1 r)) r.bytes

ack-Reached : Reached after_ack
ack-Reached = later after_ack written-Reached (
    sends blank ack_heard (sender_of sending) still_sending blank-IsBytes
      (
        reply 1 the_reply.1 the_reply.1.pkt reply_here reply-IsBytes (λ k h. refl)
            (omega (arith, all_read)),
        tt,
      )
      (subst SenderGoes (sym over_completed) tt))

output_in_order_example :
    ([] ≡ output no_data after_written.written)
    × (after_written.written ≤ after_written.total)
    × (after_written.total ≤ after_written.written + 128)
output_in_order_example =
    output_in_order zlib no_data link link out never_blocks (omega arith) (omega arith)
      (omega arith) (omega arith) [] written-Reached nothing_written

freed_written_example :
    (after_sent.total ≤ after_sent.written + pktbuf_used (sender_of sending).sender.send_buf)
    × ((after_sent.written ≡ 0)
        ⊎ (output_of after_sent.receiver ≡ some (output no_data after_sent.written)))
freed_written_example =
    freed_written zlib no_data link link out never_blocks (omega arith) (omega arith) (omega arith)
      (omega arith) (sender_of sending) sent-Reached sending_running

transmit_delivers_example :
    (n : ℕ) × (after_ack.total ≡ suc n)
    × ((no_data n).1 ≡ 0)
    × (output_of after_ack.receiver ≡ some (output no_data (suc n)))
transmit_delivers_example =
    transmit_delivers zlib no_data link link out never_blocks (omega arith) (omega arith)
      (omega arith) (omega arith) (sender_of over).sender ack-Reached over_completed

receive_delivers_example :
    (n : ℕ) × (after_written.total ≡ suc n)
    × ((no_data n).1 ≡ 0)
    × ((loop_of acknowledged).receiver.written ≡ output no_data after_written.total)
receive_delivers_example =
    receive_delivers zlib no_data link link out never_blocks (omega arith) (omega arith)
      (omega arith) (omega arith) (loop_of acknowledged).receiver written-Reached left
