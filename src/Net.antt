-- ===== src/Net.antt =====
-- common/net.h and common/net.c: receiving and sending packets over the UDP socket. What a system
-- call answers is an argument; the datagrams that are written to the socket are kept as a trace.
pub mod Window
pub mod Connect
pub mod Open
mod Tests
use project_transport_protoc.Prelude.{
  ℕ, zero, suc, ◌+◌, ◌-◌, ◌%◌, ◌^◌, ◌<◌, ◌≤◌, List, [], ◌∷◌, Bool, true, false, not, ◌==◌, ltb, leb,
  if◌then◌else◌, Option, none, some,
}
use project_transport_protoc.Prelude.Memory.{Mem, IsBytes, copy, htons}
use project_transport_protoc.Packet.Layout
use project_transport_protoc.Packet.Layout.{
  Pkt, Status, pkt_ok, sizeof_pkt, pkt_headerlen, pkt_footerlen,
}
use project_transport_protoc.Packet.Codec.{Zlib, pkt_decode_inline}
use project_transport_protoc.Pktbuf.{sub_u8}

-- `fds` without `fd`
abbrev pub remove : ℕ → List ℕ → List ℕ
remove fd [] = []
remove fd (a ∷ fds) = if a == fd then fds else a ∷ remove fd fds

-- `net_status_t`
pub data NetStatus : Type 0 where
  net_ok net_error net_drop : NetStatus

-- What `recvfrom` answers: -1, or the number of bytes that it has stored and these bytes.
pub data Received : Type 0 where
  failed : Received
  datagram : Mem → ℕ → Received

-- It stores bytes, and never more than the buffer holds.
abbrev pub IsReceived : Received → Type 0
IsReceived failed = Unit {0}
IsReceived (datagram wire rlen) = IsBytes wire × (rlen ≤ sizeof_pkt)

abbrev pub max_retries : ℕ
max_retries = 5

-- A datagram as it is handed to `write`: the packet and the number of bytes.
pub record Datagram : Type 0 where
  pub pkt : Pkt
  pub plen : ℕ

-- What `write` on the socket answers after the writes so far: -1 as `none`, or a count of bytes.
pub record Link : Type 0 where
  pub write : List Datagram → Datagram → Option ℕ

-- The length on the wire of a packet that is in network order.
unfoldable pub pkt_len_serial : Pkt → ℕ
pkt_len_serial pkt =
    if not (Layout.length pkt == 0)
    then pkt_headerlen + pkt_footerlen + htons (Layout.length pkt)
    else pkt_headerlen

abbrev pub is_count : Option ℕ → ℕ → Bool
is_count none n = false
is_count (some k) n = k == n

-- The trace, newest first, and whether the whole packet was written.
unfoldable pub net_send : Link → List Datagram → Pkt → NetStatus × List Datagram
net_send link sent pkt =
    let d : Datagram = record { pkt = pkt; plen = pkt_len_serial pkt } in
    if is_count (link.write sent d) d.plen then (net_ok, d ∷ sent) else (net_error, d ∷ sent)

abbrev pub status_of_decode : Status × Pkt → NetStatus × Pkt
status_of_decode (pkt_ok, pkt) = (net_ok, pkt)
status_of_decode (e, pkt) = (net_drop, pkt)

unfoldable pub net_recvfrom : Zlib → Pkt → Received → NetStatus × Pkt
net_recvfrom z rbuf failed = (net_error, rbuf)
net_recvfrom z rbuf (datagram wire rlen) =
    status_of_decode (pkt_decode_inline z (copy rbuf 0 wire 0 rlen) rlen)

abbrev pub check_window : ℕ → ℕ → NetStatus × Pkt → NetStatus × Pkt
check_window expected_seq win_size (net_ok, rbuf) =
    if ltb win_size (sub_u8 (Layout.seq rbuf) expected_seq)
    then (net_drop, rbuf)
    else (net_ok, rbuf)
check_window expected_seq win_size (err, rbuf) = (err, rbuf)

unfoldable pub net_recv_pkt : Zlib → Pkt → Received → ℕ → ℕ → NetStatus × Pkt
net_recv_pkt z rbuf received expected_seq win_size =
    check_window expected_seq win_size (net_recvfrom z rbuf received)

-- What waiting for the first packet ends in; `waiting` is blocked in `recvfrom`.
pub data Connected : Type 0 where
  waiting : Connected
  answered : NetStatus → Pkt → List Received → Connected

-- Lines 111 to 133, on what `net_recvfrom` has answered.
abbrev pub first_packet : Bool → ℕ → List Received → (Pkt → Connected) → NetStatus × Pkt → Connected
first_packet connects expect_seq rs retry (net_drop, rbuf) = retry rbuf
first_packet connects expect_seq rs retry (net_error, rbuf) = answered net_error rbuf rs
first_packet connects expect_seq rs retry (net_ok, rbuf) =
    if not (Layout.seq rbuf == expect_seq)
    then retry rbuf
    else if connects
    then answered net_ok rbuf rs
    else answered net_error rbuf rs

-- The answers of `recvfrom` in order, and whether `connect` succeeds. The first argument counts the
-- retries that are left. The call of `getnameinfo` only logs.
unfoldable pub wait_loop : Zlib → Bool → ℕ → ℕ → Pkt → List Received → Connected
wait_loop z connects zero expect_seq rbuf rs = answered net_error rbuf rs
wait_loop z connects (suc left) expect_seq rbuf [] = waiting
wait_loop z connects (suc left) expect_seq rbuf (r ∷ rs) =
    first_packet connects expect_seq rs (λ rbuf'. wait_loop z connects left expect_seq rbuf' rs)
      (net_recvfrom z rbuf r)

unfoldable pub net_wait_and_connect : Zlib → Bool → Pkt → List Received → ℕ → Connected
unfolding wait_loop
net_wait_and_connect z connects rbuf rs expect_seq =
    wait_loop z connects max_retries expect_seq rbuf rs

-- `net_open_socket`: what the system answers for one address of the list.
pub record Address : Type 0 where
  pub socket : Option ℕ
  pub reuse : Bool
  pub only_ipv6 : Bool
  pub test_addr : Bool

-- The descriptors that the loop has closed and the one that it stops with.
unfoldable pub open_loop : List Address → List ℕ → List ℕ × Option ℕ
open_loop [] closed = (closed, none)
open_loop (a ∷ others) closed = elim a.socket [
  | none ↦ open_loop others closed
  | some fd ↦
      if not a.reuse
      then open_loop others (fd ∷ closed)
      else if not a.only_ipv6
      then open_loop others (fd ∷ closed)
      else if a.test_addr
      then (closed, some fd)
      else open_loop others (fd ∷ closed)
]

-- `none` stands for a failure of `getaddrinfo`; the second component is the new `net_fd`.
unfoldable pub net_open_socket : Option (List Address) → Option ℕ → NetStatus × Option ℕ × List ℕ
net_open_socket none net_fd = (net_error, net_fd, [])
net_open_socket (some addrlist) net_fd =
    let (closed, found) = open_loop addrlist [] in
    elim found [ none ↦ (net_error, net_fd, closed) | some fd ↦ (net_ok, some fd, closed) ]

-- `net_fd`, which is none for -1, stays as it is: the descriptors that are open afterwards.
abbrev pub net_close_socket : Option ℕ → List ℕ → List ℕ
net_close_socket none fds = fds
net_close_socket (some fd) fds = remove fd fds
