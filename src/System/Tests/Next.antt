-- ===== src/System/Tests/Next.antt =====
-- The receiver hears the first packet cut, and then whole.
use project_transport_protoc.Prelude.{◌<◌, ◌≡◌, refl, true, false, [], ◌∷◌, some, arith}
use project_transport_protoc.Prelude.Memory.{IsBytes}
use project_transport_protoc.Packet.Layout
use project_transport_protoc.Packet.Layout.{Pkt, ptype_data}
use project_transport_protoc.Packet.Tests.{zlib}
use project_transport_protoc.Net.{net_ok, datagram, net_recvfrom, net_recv_pkt}
use project_transport_protoc.Net.Window.{recv-Accepted}
use project_transport_protoc.Receiver.{can_empty_rbuf, rbuf_full, do_read_sock, do_receive_data}
use project_transport_protoc.Receiver.Deliver.{output}
use project_transport_protoc.Receiver.Loop
use project_transport_protoc.Receiver.Rounds.First.{new_buffer}
use project_transport_protoc.Transfer.{wide_open}
use project_transport_protoc.System.{
  System, spoiled, ReceiverGoes, after_round, Step, starts, later, output_of,
}
use project_transport_protoc.System.Progress.{next_arrives, next_chunk_written}
use project_transport_protoc.System.Safety.{Reach-Inv}
use project_transport_protoc.System.Tests.{
  link, out, never_blocks, no_data, after_sent, packet, loop_of, Reached, run, sent-Reached,
  packet-IsBytes,
}

abbrev cut_packet : Pkt
cut_packet = Layout.set_tr packet 1

cut-IsBytes : IsBytes cut_packet
cut-IsBytes i = ground (arith, packet-IsBytes 0, packet-IsBytes i)

abbrev cut_heard : Loop.Transfer
cut_heard = Loop.start zlib (some 0) (some 0) true (datagram cut_packet 12 ∷ []) 3 (new_buffer 4)

abbrev after_cut : System
after_cut = record after_sent { receiver = Loop.running (loop_of cut_heard) }

cut_running : cut_heard ≡ Loop.running (loop_of cut_heard)
unfolding run
cut_running = refl

idle : can_empty_rbuf (loop_of cut_heard).receiver ≡ false
unfolding run
idle = refl

room : rbuf_full (loop_of cut_heard).receiver ≡ false
unfolding run
room = refl

wide :
    (junk p : Pkt)
    → net_recvfrom zlib junk (datagram cut_packet 12) ≡ (net_ok, p)
    → net_recv_pkt zlib junk (datagram cut_packet 12) 0 255 ≡ (net_ok, p)
wide junk p e =
    wide_open zlib no_data 0 packet
      ((Reach-Inv zlib no_data link link out never_blocks (omega arith) (omega arith) (omega arith)
          (omega arith) sent-Reached).made
        0 (omega arith))
      junk p (datagram cut_packet 12) e

cut_type : Layout.type cut_packet ≡ 1
unfolding run
cut_type = refl

cut_tr : Layout.tr cut_packet ≡ 1
unfolding run
cut_tr = refl

is_cut :
    (junk p : Pkt)
    → IsBytes junk
    → net_recvfrom zlib junk (datagram cut_packet 12) ≡ (net_ok, p)
    → (Layout.type p ≡ ptype_data) × (0 < Layout.tr p)
is_cut junk p old e =
    let a =
      recv-Accepted zlib junk cut_packet 12 0 255 p old (cut-IsBytes, omega arith)
        (wide junk p e) in
    (ground (arith, a.decoded.first, cut_type), ground (arith, a.decoded.first, cut_tr))

cut-Reached : Reached after_cut
cut-Reached = later after_cut sent-Reached (
    starts (some 0) (some 0) true (datagram cut_packet 12 ∷ []) (loop_of cut_heard) refl
      (spoiled (datagram cut_packet 12) (cut-IsBytes, omega arith) is_cut, tt) cut_running)

abbrev next_heard : Loop.Transfer
next_heard = Loop.round zlib link out (next_arrives after_cut packet false) (loop_of cut_heard)

goes : ReceiverGoes next_heard
unfolding run do_read_sock do_receive_data
goes = tt

next_chunk_written_example :
    Step zlib no_data link link out 2 3 after_cut
      (after_round (loop_of cut_heard).receiver next_heard after_cut)
    × (0 < (after_round (loop_of cut_heard).receiver next_heard after_cut).written)
    × (output_of after_cut.receiver ≡ some (output no_data 0))
    × (output_of (after_round (loop_of cut_heard).receiver next_heard after_cut).receiver
        ≡ some (
            output no_data (after_round (loop_of cut_heard).receiver next_heard after_cut).written))
next_chunk_written_example =
    next_chunk_written zlib no_data link link out never_blocks (omega arith) (omega arith)
      (omega arith) (omega arith) (loop_of cut_heard) packet false cut-Reached refl idle room
      (omega arith) packet-IsBytes (λ i h. refl) goes
