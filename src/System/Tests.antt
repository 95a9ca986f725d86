-- ===== src/System/Tests.antt =====
-- The transfer of an empty file, step by step.
mod Next
mod Whole
use mathlib.Core.Path.{subst}
use project_transport_protoc.Prelude.{
  ℕ, suc, ◌+◌, ◌≤◌, ◌≡◌, ◌≢◌, refl, sym, true, false, List, [], ◌∷◌, none, some, arith,
}
use project_transport_protoc.Prelude.Memory.{Mem, IsBytes}
use project_transport_protoc.Packet.Layout.{Pkt}
use project_transport_protoc.Packet.Codec.{
  pkt_encode_inline, pkt_decode_inline, accept_crc1, check_crc2, check_payload, decode_body,
  clear_header, write_crc1, write_crc2, crc_of,
}
use project_transport_protoc.Packet.Tests.{zlib, blank}
use project_transport_protoc.Pktbuf.{
  pktbuf_used, pktbuf_enqueue, pktbuf_dequeue, pktbuf_first, pktbuf_slotfor_seq, mask_index,
  slot_from_first, reserve, popcount,
}
use project_transport_protoc.Net.{
  Link, Datagram, datagram, net_send, pkt_len_serial, net_recv_pkt, net_recvfrom, wait_loop,
  net_wait_and_connect,
}
use project_transport_protoc.Sender.{
  handle_input_read, fill_header, fill_chunk, do_send_sbuf, send_loop, can_send, send_seq, send,
  handle_socket_read, after_recv, handle_pkt, process_ack, ack_loop,
}
use project_transport_protoc.Sender.Transmit
use project_transport_protoc.Sender.Transmit.{handle_ready}
use project_transport_protoc.Sender.Rounds.{chunks_after}
use project_transport_protoc.Sender.Rounds.Complete.{first_loop}
use project_transport_protoc.Receiver.{
  initial, Output, count, would_block, process_incoming_pkt, distance, window_size, in_seq_count,
  write_chunk, empty_loop, do_empty_rbuf, send_ack, send_nack,
}
use project_transport_protoc.Receiver.Deliver.{output}
use project_transport_protoc.Receiver.Loop
use project_transport_protoc.Receiver.Loop.{read_ready, write_ready, answer}
use project_transport_protoc.Receiver.Rounds.First.{new_buffer}
use project_transport_protoc.System.{
  System, first_system, note, after_round, output_of, whole, reply, at_head, sends, starts,
  receives, Reach, begin, later, SenderGoes, ReceiverGoes, Among,
}
use project_transport_protoc.System.Network.{reply_pkt, All-Among, Told}
use project_transport_protoc.System.Safety.{
  Reach-Inv, output_in_order, freed_written, transmit_delivers, receive_delivers,
}

-- Every write succeeds.
abbrev link : Link
link = record { write = λ sent d. some d.plen }

abbrev out : Output
out = record { write = λ ws bytes. count 512 }

never_blocks : (ws : List (List ℕ)) (bytes : List ℕ) → out.write ws bytes ≢ would_block
never_blocks ws bytes e = cc

abbrev no_data : ℕ → Mem × ℕ
no_data i = (blank, 0)

abbrev end_read : Transmit.Poll
end_read = Transmit.ready none (some (some (blank, 0)))

-- The sender reads the file's end and sends packet 0.
abbrev sending : Transmit.Transfer
sending = Transmit.round zlib link 257 blank end_read (first_loop 4)

abbrev after_sent : System
after_sent = record (first_system 2) {
  sender = sending;
  total = 1;
  packets = note 0 (λ i j. 0) sending;
}

abbrev packet : Pkt
packet = after_sent.packets 0

-- The receiver hears it.
abbrev heard : Loop.Transfer
heard =
    Loop.start zlib (some 0) (some 0) true (datagram packet (pkt_len_serial packet) ∷ []) 3
      (new_buffer 4)

abbrev loop_of : Loop.Transfer → Loop.Loop
loop_of (Loop.running l) = l
loop_of (Loop.completed s) = record { receiver = s; poll_file = false }
loop_of Loop.connecting = record { receiver = initial 3 (new_buffer 4); poll_file = false }
loop_of Loop.aborted = record { receiver = initial 3 (new_buffer 4); poll_file = false }
loop_of (Loop.ended r) = record { receiver = initial 3 (new_buffer 4); poll_file = false }

abbrev sender_of : Transmit.Transfer → Transmit.Loop
sender_of (Transmit.running l) = l
sender_of (Transmit.completed s) = record { sender = s; poll_file = false }
sender_of (Transmit.aborted s) = first_loop 4
sender_of (Transmit.ended r) = first_loop 4

abbrev after_heard : System
after_heard = record after_sent { receiver = Loop.running (loop_of heard) }

-- The receiver acknowledges it, and leaves its loop.
abbrev acknowledged : Loop.Transfer
acknowledged = Loop.round zlib link out (Loop.ready none false) (loop_of heard)

abbrev after_written : System
after_written = after_round (loop_of heard).receiver acknowledged after_heard

abbrev the_reply : ℕ × Datagram
the_reply = first_of after_written.replies
  where
    first_of : List (ℕ × Datagram) → ℕ × Datagram
    first_of [] = (0, record { pkt = blank; plen = 0 })
    first_of (r ∷ rs) = r

abbrev ack_heard : Transmit.Poll
ack_heard = Transmit.ready (some (datagram the_reply.1.pkt the_reply.1.plen)) none

-- And the sender returns.
abbrev over : Transmit.Transfer
over = Transmit.round zlib link 257 blank ack_heard (sender_of sending)

abbrev after_ack : System
after_ack = record after_written {
  sender = over;
  total = chunks_after ack_heard (sender_of sending).poll_file after_written.total;
  packets = note after_written.total after_written.packets over;
}

-- Names what a run computes with.
run : Transmit.Poll → Loop.Poll → Transmit.Loop → Loop.Loop → Transmit.Transfer × Loop.Transfer
unfolding Transmit.round Transmit.next handle_ready handle_input_read pktbuf_enqueue fill_header
    fill_chunk pkt_encode_inline clear_header write_crc1 write_crc2 crc_of do_send_sbuf send_loop
    can_send send_seq pktbuf_slotfor_seq mask_index send net_send pkt_len_serial handle_socket_read
    after_recv handle_pkt process_ack ack_loop pktbuf_dequeue net_recv_pkt net_recvfrom
    pkt_decode_inline accept_crc1 check_crc2 check_payload decode_body slot_from_first reserve
    Loop.start Loop.round pktbuf_first popcount wait_loop net_wait_and_connect process_incoming_pkt
    distance window_size in_seq_count write_chunk empty_loop do_empty_rbuf send_ack send_nack
    read_ready write_ready answer
run p q l m = (Transmit.round zlib link 257 blank p l, Loop.round zlib link out q m)

blank-IsBytes : IsBytes blank
blank-IsBytes i = omega arith

abbrev Reached : System → Type 0
Reached sys = Reach zlib no_data link link out 2 2 3 sys

sending_running : sending ≡ Transmit.running (sender_of sending)
unfolding run
sending_running = refl

heard_running : heard ≡ Loop.running (loop_of heard)
unfolding run
heard_running = refl

acknowledged_completed : acknowledged ≡ Loop.completed (loop_of acknowledged).receiver
unfolding run
acknowledged_completed = refl

over_completed : over ≡ Transmit.completed (sender_of over).sender
unfolding run
over_completed = refl

sent-Reached : Reached after_sent
sent-Reached = later after_sent begin (
    sends blank end_read (first_loop 4) refl blank-IsBytes (refl, (blank-IsBytes, omega arith))
      (subst SenderGoes (sym sending_running) tt))

packet-IsBytes : IsBytes packet
packet-IsBytes =
    ((Reach-Inv zlib no_data link link out never_blocks (omega arith) (omega arith) (omega arith)
        (omega arith) sent-Reached).made
      0 (omega arith)).bytes
