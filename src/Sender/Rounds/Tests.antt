-- ===== src/Sender/Rounds/Tests.antt =====
-- Short transfers, and the theorems on rounds there.
use project_transport_protoc.Prelude.{
  ℕ, suc, ◌+◌, ◌<◌, ◌≡◌, refl, false, none, some, if◌then◌else◌, ◌==◌, arith,
}
use project_transport_protoc.Prelude.Memory.{Mem, IsBytes}
use project_transport_protoc.Packet.Layout.{Pkt}
use project_transport_protoc.Packet.Codec.{
  pkt_encode_inline, pkt_decode_inline, accept_crc1, check_crc2, check_payload, decode_body,
  clear_header, write_crc1, write_crc2, crc_of,
}
use project_transport_protoc.Packet.Codec.RoundTrip.{encode-IsBytes}
use project_transport_protoc.Packet.Tests.{zlib, blank}
use project_transport_protoc.Pktbuf.{
  pktbuf_used, pktbuf_enqueue, pktbuf_dequeue, pktbuf_slotfor_seq, mask_index, slot_from_first,
  reserve,
}
use project_transport_protoc.Net.{
  Link, Received, datagram, net_send, pkt_len_serial, net_recv_pkt, net_recvfrom,
}
use project_transport_protoc.Sender.{
  Sender, handle_input_read, fill_header, fill_chunk, do_send_sbuf, send_loop, can_send, send_seq,
  send, handle_socket_read, after_recv, handle_pkt, process_ack, ack_loop,
}
use project_transport_protoc.Sender.Inv.{IsSender}
use project_transport_protoc.Sender.Stream.{Streams}
use project_transport_protoc.Sender.Transmit.{
  Poll, ready, Loop, Transfer, running, completed, aborted, ended, next, handle_ready, round,
  transmit_from,
}
use project_transport_protoc.Sender.Rounds.{IsLoop, Answers, Outcome}
use project_transport_protoc.Sender.Rounds.Runs.{Rounds, here, step, round-Outcome, Rounds-IsLoop}
use project_transport_protoc.Sender.Rounds.Complete.{
  first_loop, first_loop-IsLoop, transmit_completed,
}
use project_transport_protoc.Sender.Rounds.Silence.{silence, silence_aborts, GivesUp}

-- Every write succeeds.
abbrev link : Link
link = record { write = λ sent d. some d.plen }

-- The empty file.
abbrev no_data : ℕ → Mem × ℕ
no_data i = (blank, 0)

-- The file's end is read.
abbrev end_read : Poll
end_read = ready none (some (some (blank, 0)))

-- Acknowledgement 1, with window 5.
abbrev ack_pkt : Pkt
ack_pkt i = if i == 0 then 133 else if i == 1 then 1 else 0

abbrev ack_datagram : Received
ack_datagram = datagram (pkt_encode_inline zlib ack_pkt) 12

abbrev ack_read : Poll
ack_read = ready (some ack_datagram) none

abbrev loop_of : Transfer → Loop
loop_of (running l) = l
loop_of (completed s) = record { sender = s; poll_file = false }
loop_of (aborted s) = first_loop 4
loop_of (ended r) = first_loop 4

abbrev waiting : Loop
waiting = loop_of (round zlib link 257 blank end_read (first_loop 4))

-- Names what a run computes with.
run : Poll → Loop → Transfer
unfolding round next handle_ready handle_input_read pktbuf_enqueue fill_header fill_chunk
    pkt_encode_inline clear_header write_crc1 write_crc2 crc_of do_send_sbuf send_loop can_send
    send_seq pktbuf_slotfor_seq mask_index send net_send pkt_len_serial handle_socket_read
    after_recv handle_pkt process_ack ack_loop pktbuf_dequeue net_recv_pkt net_recvfrom
    pkt_decode_inline accept_crc1 check_crc2 check_payload decode_body slot_from_first reserve
run p l = round zlib link 257 blank p l

went_on : round zlib link 257 blank end_read (first_loop 4) ≡ running waiting
unfolding run
went_on = refl

abbrev over : Sender
over = (loop_of (round zlib link 257 blank ack_read waiting)).sender

left : round zlib link 257 blank ack_read waiting ≡ completed over
unfolding run
left = refl

blank-IsBytes : IsBytes blank
blank-IsBytes i = omega arith

-- The read of the file's end.
end_read-Answers : Answers no_data 0 end_read
end_read-Answers = (tt, (refl, (blank-IsBytes, omega arith)))

ack_read-Answers : Answers no_data 1 ack_read
ack_read-Answers = ((encode-IsBytes zlib ack_pkt (λ i. ground arith), omega arith), tt)

one_round : Rounds zlib link no_data 0 (first_loop 4) 1 waiting
one_round = step blank end_read waiting here blank-IsBytes end_read-Answers went_on

round-Outcome_example :
    Outcome zlib no_data 0 end_read
      (first_loop 4)
      (first_loop-IsLoop zlib link no_data 2 (omega arith) (omega arith))
      (round zlib link 257 blank end_read (first_loop 4))
round-Outcome_example =
    round-Outcome zlib link no_data 0 (first_loop 4) blank end_read
      (first_loop-IsLoop zlib link no_data 2 (omega arith) (omega arith)) blank-IsBytes
      end_read-Answers

Rounds-IsLoop_example : IsLoop zlib no_data 1 waiting
Rounds-IsLoop_example =
    Rounds-IsLoop zlib link no_data
      (first_loop-IsLoop zlib link no_data 2 (omega arith) (omega arith)) one_round

transmit_completed_example :
    (n : ℕ) × Streams zlib no_data (suc n) over
    × ((no_data n).1 ≡ 0)
    × (pktbuf_used over.send_buf ≡ 0)
transmit_completed_example =
    transmit_completed zlib link no_data 2 blank ack_read over (omega arith) (omega arith) one_round
      blank-IsBytes ack_read-Answers left

waiting_count : waiting.sender.retry_count + 5 ≡ 5
unfolding run
waiting_count = refl

waiting_sent : waiting.sender.last_sent < 255
unfolding run
waiting_sent = omega arith

waiting_used : 0 < pktbuf_used waiting.sender.send_buf
unfolding run
waiting_used = omega arith

waiting-IsSender : IsSender waiting.sender
waiting-IsSender =
    let v : IsLoop zlib no_data 1 waiting =
      Rounds-IsLoop zlib link no_data
        (first_loop-IsLoop zlib link no_data 2 (omega arith) (omega arith)) one_round in
    v.stream.state

silence_aborts_example :
    (s' : Sender) × (transmit_from zlib link 257 blank (silence 6) waiting ≡ aborted s')
    × GivesUp link 5 waiting.sender s'
silence_aborts_example =
    silence_aborts zlib link blank 5 waiting waiting_count waiting-IsSender waiting_sent
      waiting_used
