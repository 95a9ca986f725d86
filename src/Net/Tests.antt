-- ===== src/Net/Tests.antt =====
-- A datagram that the network has cut, as `net_recv_pkt` receives it.
use project_transport_protoc.Prelude.{
  ℕ, ◌≡◌, refl, ◌↔◌, true, false, List, [], ◌∷◌, none, some, arith,
}
use project_transport_protoc.Packet.Layout.{Pkt}
use project_transport_protoc.Packet.Codec.{
  pkt_decode_inline, accept_crc1, check_crc2, check_payload, decode_body, pkt_encode_inline,
  clear_header, write_crc1, write_crc2, crc_of,
}
use project_transport_protoc.Packet.Tests.{zlib, cut, blank, cut-IsBytes}
use project_transport_protoc.Net.{
  Received, Address, answered, open_loop, net_open_socket, net_wait_and_connect, net_ok, net_drop,
  datagram, net_recvfrom, net_recv_pkt,
}
use project_transport_protoc.Net.Window.{Accepted, arrived, recv-Accepted}
use project_transport_protoc.Net.Connect.{Hears, connect-iff-Hears}
use project_transport_protoc.Net.Open.{Opens, open_socket-Opens}

abbrev received : Pkt
received = (net_recv_pkt zlib blank (datagram cut 12) 5 3).1

-- Names what a run computes with.
run : ℕ → ℕ → Pkt
unfolding net_recv_pkt net_recvfrom pkt_decode_inline accept_crc1 check_crc2 check_payload
    decode_body pkt_encode_inline clear_header write_crc1 write_crc2 crc_of
run expected_seq win_size = (net_recv_pkt zlib blank (datagram cut 12) expected_seq win_size).1

outside : (net_recv_pkt zlib blank (datagram cut 12) 5 1).0 ≡ net_drop
unfolding run
outside = refl

received_ok : net_recv_pkt zlib blank (datagram cut 12) 5 3 ≡ (net_ok, received)
unfolding run
received_ok = refl

recv-Accepted_example : Accepted zlib (arrived blank cut 12) received 12 5 3
recv-Accepted_example =
    recv-Accepted zlib blank cut 12 5 3 received (λ i. omega arith) (cut-IsBytes, omega arith)
      received_ok

-- Packet 7 is waited for, and arrives behind a datagram that is dropped.
abbrev arrivals : List Received
arrivals = datagram blank 12 ∷ (datagram cut 12 ∷ [])

connect-iff-Hears_example :
    (net_wait_and_connect zlib true blank arrivals 7 ≡ answered net_ok received [])
    ↔ ((true ≡ true) × Hears zlib 7 received [] 5 blank arrivals)
connect-iff-Hears_example = connect-iff-Hears zlib true 7 blank received arrivals []

-- The first address cannot be bound.
abbrev addresses : List Address
addresses =
    record { socket = some 3; reuse = true; only_ipv6 = true; test_addr = false }
    ∷ (record { socket = some 4; reuse = true; only_ipv6 = true; test_addr = true } ∷ [])

second_bound : net_open_socket (some addresses) none ≡ (net_ok, some 4, 3 ∷ [])
unfolding net_open_socket open_loop
second_bound = refl

open_socket-Opens_example : Opens addresses none (net_open_socket (some addresses) none)
open_socket-Opens_example = open_socket-Opens addresses none
