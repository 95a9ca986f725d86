-- ===== src/Receiver/Tests.antt =====
-- A receiver that waits for packet 7 and holds packet 8, and the receiver's theorems there.
use project_transport_protoc.Prelude.{
  ℕ, ◌≤◌, ◌<◌, ◌≡◌, refl, Bool, false, if◌then◌else◌, ◌==◌, suc, zero, arith,
}
use project_transport_protoc.Prelude.Bits.{bit, bit-zero}
use project_transport_protoc.Prelude.Run.{ret}
use project_transport_protoc.Packet.Layout.{Pkt}
use project_transport_protoc.Packet.Tests.{zlib, cut, cut-IsBytes}
use project_transport_protoc.Pktbuf.{Pktbuf}
use project_transport_protoc.Pktbuf.Inv.{IsRing}
use project_transport_protoc.Net.{datagram}
use project_transport_protoc.Receiver.{
  Receiver, initial, Output, count, window_size, do_receive_data, do_empty_rbuf,
  process_incoming_pkt,
}
use project_transport_protoc.Receiver.Inv.{IsReceiver, window_size-ones}
use project_transport_protoc.Receiver.Empty.{Emptied, Stops}
use project_transport_protoc.Receiver.Empty.Loop.{do_empty_rbuf-Emptied}
use project_transport_protoc.Receiver.Skip.{in_sequence_skipped}
use project_transport_protoc.Receiver.Receive.{Receipt, do_receive_data-Receipt}

-- Data packet `s`, with two bytes.
abbrev packet : ℕ → Pkt
packet s i = if i == 0 then 64 else if i == 1 then s else if i == 2 then 2 else 0

-- The slots 0 and 1 of four are used, for the packets 7 and 8.
abbrev two_packets : Pktbuf
two_packets = record {
  first = 0;
  last = 2;
  capacity = 4;
  head = λ i. packet (if i == 0 then 7 else if i == 1 then 8 else 0);
}

two_packets-IsRing : IsRing two_packets
two_packets-IsRing = record {
  power = 2;
  is_power = refl;
  small = omega arith;
  first_in = omega arith;
  last_in = omega arith;
  fits = omega arith;
}

abbrev waiting : Receiver
waiting = record (initial 3 two_packets) { oos_mask = 2; expected_seq = 7 }

-- Both packets have come.
abbrev in_sequence : Receiver
in_sequence = record (initial 3 two_packets) { oos_mask = 3; expected_seq = 9 }

waiting-IsReceiver : IsReceiver 7 0 waiting
waiting-IsReceiver = record {
  ring = two_packets-IsRing;
  small = omega arith;
  wide = omega arith;
  base_in = omega arith;
  expected = refl;
  numbered = λ j h. ground arith;
  held = omega arith;
  ones = λ j h. absurd (omega arith);
  gap = refl;
  marks = behind;
}
  where
    behind : (j : ℕ) → 2 ≤ j → bit j 2 ≡ 0
    behind zero h = absurd (omega arith)
    behind (suc zero) h = absurd (omega arith)
    behind (suc (suc j)) h = bit-zero j

in_sequence-IsReceiver : IsReceiver 7 2 in_sequence
in_sequence-IsReceiver = record {
  ring = two_packets-IsRing;
  small = omega arith;
  wide = omega arith;
  base_in = omega arith;
  expected = refl;
  numbered = λ j h. ground arith;
  held = omega arith;
  ones = in_front;
  gap = refl;
  marks = behind;
}
  where
    in_front : (j : ℕ) → j < 2 → bit j 3 ≡ 1
    in_front zero h = refl
    in_front (suc zero) h = refl
    in_front (suc (suc j)) h = absurd (omega arith)

    behind : (j : ℕ) → 2 ≤ j → bit j 3 ≡ 0
    behind zero h = absurd (omega arith)
    behind (suc zero) h = absurd (omega arith)
    behind (suc (suc j)) h = bit-zero j

-- Every write is done in full.
abbrev out : Output
out = record { write = λ ws bytes. count 2 }

window_size-ones_example : window_size in_sequence ≡ 1
window_size-ones_example = window_size-ones in_sequence-IsReceiver (omega arith)

do_empty_rbuf-Emptied_example :
    (bad : Bool) × (k : ℕ) × (s1 : Receiver) × (s' : Receiver) × (do_empty_rbuf out in_sequence
      ≡ ret bad s')
    × Emptied 7 2 k in_sequence s1
    × Stops out 2 k s1 bad s'
do_empty_rbuf-Emptied_example = do_empty_rbuf-Emptied out 7 2 in_sequence in_sequence-IsReceiver

do_receive_data-Receipt_example :
    Receipt zlib 7 (datagram cut 12) waiting (do_receive_data zlib (datagram cut 12) waiting)
do_receive_data-Receipt_example =
    do_receive_data-Receipt zlib waiting-IsReceiver (datagram cut 12) (λ i k. ground arith)
      (cut-IsBytes, omega arith)

-- Packet 7 waits to be written when packet 8 comes.
abbrev one_waits : Receiver
one_waits = record (initial 3 two_packets) { oos_mask = 1; expected_seq = 8 }

one_waits-IsReceiver : IsReceiver 7 1 one_waits
one_waits-IsReceiver = record {
  ring = two_packets-IsRing;
  small = omega arith;
  wide = omega arith;
  base_in = omega arith;
  expected = refl;
  numbered = λ j h. ground arith;
  held = omega arith;
  ones = λ j h. let first : j ≡ 0 = omega arith in rw first refl;
  gap = refl;
  marks = behind;
}
  where
    behind : (j : ℕ) → 2 ≤ j → bit j 1 ≡ 0
    behind zero h = absurd (omega arith)
    behind (suc zero) h = absurd (omega arith)
    behind (suc (suc j)) h = bit-zero j

in_sequence_skipped_example :
    (s' : Receiver) × (process_incoming_pkt 1 one_waits ≡ ret false s')
    × ((j : ℕ) → bit j s'.oos_mask ≡ bit j 1)
    × (s'.recv_buf ≡ two_packets)
    × (s'.expected_seq ≡ 9)
in_sequence_skipped_example =
    in_sequence_skipped one_waits-IsReceiver (omega arith) (omega arith) refl
