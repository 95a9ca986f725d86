-- ===== src/Programs/Tests.antt =====
-- Both programs with one file and a socket, and the theorems there.
use project_transport_protoc.Prelude.{◌≡◌, ◌≢◌, refl, ◌⊎◌, true, List, [], ◌∷◌, none, some, arith}
use project_transport_protoc.Packet.Tests.{zlib, blank}
use project_transport_protoc.Pktbuf.{null, pktbuf_new, popcount}
use project_transport_protoc.Net.{net_ok, Link, Address, net_open_socket, open_loop}
use project_transport_protoc.Sender.Transmit
use project_transport_protoc.Receiver.{Output, count}
use project_transport_protoc.Programs.{
  Options, Answer, opt_f, opt_b, sender_main, receiver_main, returns, success, econnaborted,
  parse_options,
}
use project_transport_protoc.Programs.Ends.{nothing, Ends}
use project_transport_protoc.Programs.Laws.{
  Transmitted, Finished, sender_main-Ends, receiver_main-Ends,
}

abbrev link : Link
link = record { write = λ sent d. some d.plen }

abbrev out : Output
out = record { write = λ ws bytes. count 512 }

abbrev answers : List Answer
answers = opt_b 8 ∷ (opt_f 5 ∷ [])

abbrev addresses : List Address
addresses = record { socket = some 3; reuse = true; only_ipv6 = true; test_addr = true } ∷ []

-- `poll` fails at once.
aborted_at_once :
    sender_main zlib link 257 blank (Transmit.error ∷ []) answers true (some addresses)
    ≡ returns econnaborted nothing
unfolding sender_main pktbuf_new popcount net_open_socket open_loop parse_options
    Transmit.transmit_from Transmit.round
aborted_at_once = refl

-- The receiver returns 0 when it has no socket.
no_socket :
    receiver_main zlib link out (some 0) (some 0) true [] [] answers true none
    ≡ returns success nothing
unfolding receiver_main pktbuf_new popcount net_open_socket open_loop parse_options
no_socket = refl

sender_main-Ends_example :
    Ends
      (((o : Options) × (pktbuf_new true o.size ≡ null))
        ⊎ Transmitted zlib link 257 blank (Transmit.error ∷ []) answers true (some addresses))
      (sender_main zlib link 257 blank (Transmit.error ∷ []) answers true (some addresses))
sender_main-Ends_example =
    sender_main-Ends zlib link 257 blank (Transmit.error ∷ []) answers true (some addresses)
      (omega arith)

receiver_main-Ends_example :
    Ends
      ((pktbuf_new true 32 ≡ null)
        ⊎ ((net_open_socket none none).0 ≢ net_ok)
        ⊎ Finished zlib link out (some 0) (some 0) true [] [] answers true none)
      (receiver_main zlib link out (some 0) (some 0) true [] [] answers true none)
receiver_main-Ends_example =
    receiver_main-Ends zlib link out (some 0) (some 0) true [] [] answers true none (omega arith)
