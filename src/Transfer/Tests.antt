-- ===== src/Transfer/Tests.antt =====
-- The transfer of an empty file.
use project_transport_protoc.Receiver.Linger.{Lingered, linger-Lingered}
use project_transport_protoc.Prelude.{
  ℕ, ◌<◌, ◌≡◌, ◌≢◌, refl, inl, true, false, [], ◌∷◌, none, some, if◌then◌else◌, ◌==◌, List, arith,
}
use project_transport_protoc.Prelude.Memory.{Mem, IsBytes}
use project_transport_protoc.Packet.Layout
use project_transport_protoc.Packet.Layout.{Pkt}
use project_transport_protoc.Packet.Codec.{
  pkt_encode_inline, pkt_decode_inline, accept_crc1, check_crc2, check_payload, decode_body,
  clear_header, write_crc1, write_crc2, crc_of,
}
use project_transport_protoc.Packet.Codec.Encode.{encode-Encoded}
use project_transport_protoc.Packet.Codec.RoundTrip.{encode-IsBytes}
use project_transport_protoc.Packet.Tests.{zlib, blank}
use project_transport_protoc.Pktbuf.{
  pktbuf_enqueue, pktbuf_dequeue, pktbuf_first, mask_index, pktbuf_slotfor_seq, slot_from_first,
  reserve, popcount,
}
use project_transport_protoc.Net.{
  Link, Received, datagram, net_send, pkt_len_serial, net_recv_pkt, net_recvfrom, wait_loop,
  net_wait_and_connect,
}
use project_transport_protoc.Sender.{Sender}
use project_transport_protoc.Sender.Stream.{IsChunk, Streams}
use project_transport_protoc.Receiver.{
  initial, Output, count, would_block, process_incoming_pkt, distance, window_size, in_seq_count,
  write_chunk, empty_loop, do_empty_rbuf, send_ack, send_nack,
}
use project_transport_protoc.Receiver.Deliver.{Delivers, IsGenuine}
use project_transport_protoc.Receiver.Loop.{
  Poll, ready, Loop, Transfer, connecting, aborted, running, completed, ended, start, round,
  read_ready, write_ready, answer, linger,
}
use project_transport_protoc.Receiver.Rounds.First.{new_buffer}
use project_transport_protoc.Receiver.Rounds.Start.{Begins, start-Begins, Begins-Delivers}
use project_transport_protoc.Transfer.Whole.{Network, whole, All-IsFirst}
use project_transport_protoc.Transfer.{chunk-IsGenuine}
use project_transport_protoc.Receiver.Rounds.{Outcome}
use project_transport_protoc.Receiver.Rounds.Finish.{receive_round-Outcome}

abbrev no_data : ℕ → Mem × ℕ
no_data i = (blank, 0)

-- The data packet 0, without payload.
abbrev end_host : Pkt
end_host i = if i == 0 then 64 else 0

abbrev end_pkt : Pkt
end_pkt = pkt_encode_inline zlib end_host

end_host-IsBytes : IsBytes end_host
end_host-IsBytes i = ground arith

end_pkt-IsBytes : IsBytes end_pkt
end_pkt-IsBytes = encode-IsBytes zlib end_host end_host-IsBytes

end_pkt-tr : Layout.tr end_pkt ≡ 0
unfolding pkt_encode_inline write_crc1 write_crc2 clear_header crc_of
end_pkt-tr = refl

end_pkt-IsChunk : (i : ℕ) → i < 1 → IsChunk zlib i blank 0 end_pkt
end_pkt-IsChunk i lt = record {
  host = end_host;
  sendable = record {
    bytes = end_host-IsBytes;
    kind = inl refl;
    whole = refl;
    small = omega arith;
    empty = inl refl;
  };
  encoded = encode-Encoded zlib end_host end_host-IsBytes;
  bytes = end_pkt-IsBytes;
  type = refl;
  seq = omega arith;
  length = refl;
  payload = λ k h. absurd (omega arith);
}

-- The sender when packet 0 is acknowledged.
abbrev over : Sender
over = record {
  send_buf = record { first = 1; last = 1; capacity = 4; head = λ j. end_pkt };
  last_ack = 1;
  last_win = 5;
  last_sent = 0;
  last_chunk_read = 0;
  dup_ack = 0;
  retry_count = 0;
  last_in_read = some 0;
  sent = [];
}

abbrev over-Streams : Streams zlib no_data 1 over
over-Streams = record {
  packets = λ i. end_pkt;
  acked = 1;
  state = record {
    ring = record {
      power = 2;
      is_power = refl;
      small = omega arith;
      first_in = omega arith;
      last_in = omega arith;
      fits = omega arith;
    };
    small = omega arith;
    ack_in = omega arith;
    sent_in = omega arith;
    chunk_in = omega arith;
    used = refl;
    in_flight = omega arith;
    numbered = λ j lt. absurd (omega arith);
  };
  used = refl;
  ack = refl;
  last = refl;
  made = end_pkt-IsChunk;
  kept = λ j lt. refl;
  filled = λ j lt inside. (0, omega arith, refl);
  clean = λ j. (end_pkt-IsBytes, end_pkt-tr);
  trace = tt;
  fresh = λ e. absurd (omega arith);
  read = λ i e. refl;
  more = λ i lt. absurd (omega arith);
}

-- Every write succeeds.
abbrev link : Link
link = record { write = λ sent d. some d.plen }

abbrev out : Output
out = record { write = λ ws bytes. count 512 }

never_blocks : (ws : List (List ℕ)) (bytes : List ℕ) → out.write ws bytes ≢ would_block
never_blocks ws bytes e = cc

abbrev arrivals : List Received
arrivals = datagram end_pkt (pkt_len_serial end_pkt) ∷ []

abbrev loop_of : Transfer → Loop
loop_of (running l) = l
loop_of (completed s) = record { receiver = s; poll_file = false }
loop_of connecting = record { receiver = initial 3 (new_buffer 4); poll_file = false }
loop_of aborted = record { receiver = initial 3 (new_buffer 4); poll_file = false }
loop_of (ended r) = record { receiver = initial 3 (new_buffer 4); poll_file = false }

abbrev begun : Transfer
begun = start zlib (some 0) (some 0) true arrivals 3 (new_buffer 4)

-- Names what a run computes with.
run : Poll → Loop → Transfer
unfolding start round pkt_encode_inline pkt_decode_inline accept_crc1 check_crc2 check_payload
    decode_body clear_header write_crc1 write_crc2 crc_of pktbuf_enqueue pktbuf_dequeue pktbuf_first
    mask_index pktbuf_slotfor_seq slot_from_first reserve popcount net_send pkt_len_serial
    net_recv_pkt net_recvfrom wait_loop net_wait_and_connect process_incoming_pkt distance
    window_size in_seq_count write_chunk empty_loop do_empty_rbuf send_ack send_nack read_ready
    write_ready answer
run p l = round zlib link out p l

begun_running : begun ≡ running (loop_of begun)
unfolding run
begun_running = refl

whole_packet : Network zlib (λ i. end_pkt) 1 0 (datagram end_pkt (pkt_len_serial end_pkt))
whole_packet =
    whole 0 end_pkt (omega arith) end_pkt-IsBytes (λ k h. refl) (omega arith) (omega arith)

start-Begins_example : Begins zlib no_data true arrivals begun
start-Begins_example =
    start-Begins zlib no_data 2 3 (omega arith) (omega arith) (some 0) (some 0) true arrivals
      (All-IsFirst zlib over-Streams.packets over-Streams.made arrivals (whole_packet, tt))

begun-Delivers : (c : ℕ) × Delivers no_data 0 c (loop_of begun).receiver
begun-Delivers =
    Begins-Delivers
      (start-Begins zlib no_data 2 3 (omega arith) (omega arith) (some 0) (some 0) true arrivals
        (All-IsFirst zlib over-Streams.packets over-Streams.made arrivals (whole_packet, tt)))
      begun_running

receive_round-Outcome_example :
    Outcome zlib no_data 0
      (loop_of begun).receiver
      (round zlib link out (ready none false) (loop_of begun))
receive_round-Outcome_example =
    receive_round-Outcome zlib no_data link out 0 begun-Delivers.0 (loop_of begun)
      (ready none false) never_blocks begun-Delivers.1 tt

chunk-IsGenuine_example : IsGenuine zlib no_data 3 (datagram end_pkt (pkt_len_serial end_pkt))
chunk-IsGenuine_example =
    chunk-IsGenuine zlib no_data 0 end_pkt (end_pkt-IsChunk 0 (omega arith)) 3 end_pkt
      end_pkt-IsBytes (λ k h. refl) (omega arith) (omega arith)

linger-Lingered_example :
    Lingered zlib link 0 1
      (initial 3 (new_buffer 4))
      (linger zlib link out 1 (ready none false ∷ ready none false ∷ []) (initial 3 (new_buffer 4)))
linger-Lingered_example =
    linger-Lingered zlib link 0 out 1 (ready none false ∷ ready none false ∷ [])
      (initial 3 (new_buffer 4)) (omega arith)
      (record { bytes = λ i. ground arith; type = refl; whole = refl; empty = refl }) refl
