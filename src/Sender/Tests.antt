-- ===== src/Sender/Tests.antt =====
-- A sender with one packet in flight, and the sender's theorems there.
use project_transport_protoc.Prelude.{
  ℕ, ◌+◌, ◌≤◌, ◌<◌, ◌≡◌, ◌≢◌, refl, Bool, false, [], some, if◌then◌else◌, ◌==◌, arith, Bool-cases,
  inl, inr,
}
use project_transport_protoc.Packet.Layout
use project_transport_protoc.Packet.Layout.{Pkt}
use project_transport_protoc.Packet.Codec.{pkt_encode_inline}
use project_transport_protoc.Packet.Codec.RoundTrip.{encode-IsBytes}
use project_transport_protoc.Packet.Tests.{zlib, blank}
use project_transport_protoc.Pktbuf.{Pktbuf, pktbuf_used}
use project_transport_protoc.Pktbuf.Inv.{IsRing, nth}
use project_transport_protoc.Net.{Link, Received, datagram}
use project_transport_protoc.Sender.{
  Sender, process_ack, process_nack, process_dup_ack, handle_socket_read, handle_input_read,
  handle_retransmission, do_send_sbuf,
}
use project_transport_protoc.Prelude.Run.{ret, undefined}
use project_transport_protoc.Sender.Inv.{IsSender}
use project_transport_protoc.Sender.Ack.{Acked, process_ack-Acked}
use project_transport_protoc.Sender.Send.{fails, sending, Burst, Done, do_send_sbuf-Burst, Attempts}
use project_transport_protoc.Sender.Resend.{Resent, retransmission-Resent}
use project_transport_protoc.Sender.Resend.Endless.{retransmission-ne-ok}
use project_transport_protoc.Sender.Nack.{nack_ignored, nack_resent, dup_ack_third}
use project_transport_protoc.Sender.Input.Chunk.{Reads, handle_input_read-Reads}
use project_transport_protoc.Sender.Stream.Reads.{IsClean}
use project_transport_protoc.Sender.Events.{Safe, handle_socket_read-Safe}

-- Every write succeeds.
abbrev link : Link
link = record { write = λ sent d. some d.plen }

abbrev packet : ℕ → Pkt
packet s i = if i == 1 then s else 0

-- One packet of number `s`, in slot `i` of four.
abbrev one_packet : ℕ → ℕ → Pktbuf
one_packet i s = record {
  first = i;
  last = i + 1;
  capacity = 4;
  head = λ j. if j == i then packet s else packet 9;
}

abbrev one : ℕ → ℕ → ℕ → Sender
one i s sent = record {
  send_buf = one_packet i s;
  last_ack = s;
  last_win = 2;
  last_sent = sent;
  last_chunk_read = s;
  dup_ack = 2;
  retry_count = 0;
  last_in_read = some 10;
  sent = [];
}

one-IsRing : (i s : ℕ) → i < 4 → IsRing (one_packet i s)
one-IsRing i s h = record {
  power = 2;
  is_power = refl;
  small = omega arith;
  first_in = omega arith;
  last_in = omega arith;
  fits = omega arith;
}

one-IsSender : (i s : ℕ) → i < 4 → s < 256 → IsSender (one i s s)
one-IsSender i s h small = record {
  ring = one-IsRing i s h;
  small = omega arith;
  ack_in = small;
  sent_in = small;
  chunk_in = small;
  used = omega arith;
  in_flight = omega arith;
  numbered = λ j lt. ground arith;
}

-- Packet 2 was read and not sent.
unsent-IsSender : IsSender (one 2 2 1)
unsent-IsSender = record {
  ring = one-IsRing 2 2 (omega arith);
  small = omega arith;
  ack_in = omega arith;
  sent_in = omega arith;
  chunk_in = omega arith;
  used = omega arith;
  in_flight = omega arith;
  numbered = λ j lt. ground arith;
}

process_ack-Acked_example :
    (s' : Sender) × (process_ack zlib link 3 (one 2 2 2) ≡ ret false s')
    × Acked 1 (one 2 2 2) s'
    × (s'.last_ack ≡ 3)
    × (s'.dup_ack ≡ 0)
process_ack-Acked_example =
    process_ack-Acked zlib link 3 (one 2 2 2) (one-IsSender 2 2 (omega arith) (omega arith))
      (omega arith) (omega arith)

do_send_sbuf-Burst_example :
    (bad : Bool) × (k : ℕ) × (s' : Sender) × (do_send_sbuf zlib link (one 2 2 1) ≡ ret bad s')
    × Burst k (one 2 2 1) s'
    × Attempts link (one 2 2 1).send_buf 0 k [] bad
    × (bad ≡ false → Done s')
do_send_sbuf-Burst_example = do_send_sbuf-Burst zlib link (one 2 2 1) unsent-IsSender

retransmission-Resent_example :
    (bad : Bool) × (k : ℕ) × (s' : Sender) × (handle_retransmission zlib link 257 (one 2 2 2)
      ≡ ret bad s')
    × Resent 0 k (record (one 2 2 2) { retry_count = 1 }) s'
    × Attempts link (one 2 2 2).send_buf 0 k [] bad
    × (k ≤ 1)
    × (bad ≡ false → (k ≡ 1) × (s'.dup_ack ≡ 0))
retransmission-Resent_example =
    retransmission-Resent zlib link (one 2 2 2) (one-IsSender 2 2 (omega arith) (omega arith))
      (omega arith) (omega arith)

retransmission-ne-ok_example :
    handle_retransmission zlib link 257 (one 2 255 255) ≢ ret false (one 2 255 255)
retransmission-ne-ok_example =
    retransmission-ne-ok zlib link 257 (one 2 255 255) (one 2 255 255) refl (omega arith)

nack_ignored_example : process_nack zlib link 2 (one 2 2 2) ≡ ret false (one 2 2 2)
nack_ignored_example =
    nack_ignored zlib link 2 (one 2 2 2) (one-IsSender 2 2 (omega arith) (omega arith))
      (omega arith) (λ j h. ground arith)

nack_resent_example :
    (process_nack zlib link 2 (one 0 2 2)
      ≡ ret
          (fails link (nth (one_packet 0 2) 0) (one 0 2 2))
          (sending (nth (one_packet 0 2) 0) (one 0 2 2)))
    × (Layout.seq (nth (one_packet 0 2) 0) ≡ 2)
nack_resent_example =
    nack_resent zlib link 2 (one 0 2 2) (one-IsSender 0 2 (omega arith) (omega arith)) (omega arith)
      (omega arith) (omega arith)

-- An empty buffer.
abbrev idle : Sender
idle = record (one 2 2 2) { send_buf = record (one_packet 2 2) { last = 2 }; last_ack = 3 }

idle-IsSender : IsSender idle
idle-IsSender = record {
  ring = record {
    power = 2;
    is_power = refl;
    small = omega arith;
    first_in = omega arith;
    last_in = omega arith;
    fits = omega arith;
  };
  small = omega arith;
  ack_in = omega arith;
  sent_in = omega arith;
  chunk_in = omega arith;
  used = omega arith;
  in_flight = omega arith;
  numbered = λ j lt. absurd (omega arith);
}

dup_ack_third_example : process_dup_ack zlib link 3 idle ≡ undefined
dup_ack_third_example = dup_ack_third zlib link 3 idle idle-IsSender refl

packet-IsClean : (s : ℕ) → s < 256 → IsClean (packet s)
packet-IsClean s small = (λ i. ground arith, refl)

one-IsClean : (j : ℕ) → IsClean ((one_packet 2 2).head j)
one-IsClean j = elim (Bool-cases (j == 2)) [
  | inl here ↦ rw here (packet-IsClean 2 (omega arith))
  | inr other ↦ rw other (packet-IsClean 9 (omega arith))
]

handle_input_read-Reads_example :
    Reads zlib
      (one 2 2 2)
      (some (blank, 3))
      (handle_input_read zlib link (some (blank, 3)) (one 2 2 2))
handle_input_read-Reads_example =
    handle_input_read-Reads zlib link (some (blank, 3))
      (one-IsSender 2 2 (omega arith) (omega arith)) (omega arith) one-IsClean
      (λ i. omega arith, omega arith)

-- Acknowledgement 3, with window 5.
abbrev ack_pkt : Pkt
ack_pkt i = if i == 0 then 133 else if i == 1 then 3 else 0

abbrev ack_datagram : Received
ack_datagram = datagram (pkt_encode_inline zlib ack_pkt) 12

handle_socket_read-Safe_example :
    Safe
      (pktbuf_used (one_packet 2 2) ≡ 0)
      (handle_socket_read zlib link blank ack_datagram (one 2 2 2))
handle_socket_read-Safe_example =
    handle_socket_read-Safe zlib link blank ack_datagram (one 2 2 2)
      (one-IsSender 2 2 (omega arith) (omega arith)) (λ i. omega arith)
      (encode-IsBytes zlib ack_pkt (λ i. ground arith), omega arith)
