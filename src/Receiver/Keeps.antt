-- ===== src/Receiver/Keeps.antt =====
-- What `do_receive_data` keeps whatever arrives: the slots hold bytes, and the rest of the state.
use project_transport_protoc.Receiver.Replies.{aside, Aside}
use project_transport_protoc.Prelude.{
  ℕ, ◌+◌, ◌%◌, ◌^◌, ◌≡◌, refl, not, ◌==◌, ltb, true, false, Bool, if◌then◌else◌, Option, none, some,
  bit_or, arith,
}
use project_transport_protoc.Prelude.Memory.{IsBytes, copy}
use project_transport_protoc.Prelude.Run.{Run, ret, exit_failure, undefined, out_of_fuel}
use project_transport_protoc.Packet.Layout
use project_transport_protoc.Packet.Layout.{Pkt, Status, ptype_data}
use project_transport_protoc.Packet.Codec.{Zlib, pkt_decode_inline}
use project_transport_protoc.Packet.Codec.Bytes.{decode-IsBytes}
use project_transport_protoc.Pktbuf.{Pktbuf, set_slot, sub_u8, pktbuf_slotfor_seq}
use project_transport_protoc.Net.{
  NetStatus, net_ok, net_error, net_drop, Received, failed, datagram, IsReceived, net_recvfrom,
  net_recv_pkt, status_of_decode, check_window,
}
use project_transport_protoc.Receiver.{
  Receiver, restore_seq, copy_ahead, place_packet, process_incoming_pkt, distance, after_recv,
  receive_into, window_size, do_receive_data,
}
use project_transport_protoc.Receiver.Bytes.{AllBytes, slotfor_seq-IsBytes}

-- Where the call returns, the slots hold bytes and the rest of the state is `kept`.
abbrev pub Keeps : Aside → Run Receiver → Type 0
Keeps kept (ret bad s) = AllBytes s.recv_buf × (aside s ≡ kept)
Keeps kept exit_failure = Unit {0}
Keeps kept undefined = Unit {0}
Keeps kept out_of_fuel = Unit {0}

Keeps-if :
    (kept : Aside) (t : Bool) (a b : Run Receiver)
    → Keeps kept a
    → Keeps kept b
    → Keeps kept (if t then a else b)
Keeps-if kept true a b ha hb = ha
Keeps-if kept false a b ha hb = hb

AllBytes-if : (t : Bool) (a b : Pktbuf) → AllBytes a → AllBytes b → AllBytes (if t then a else b)
AllBytes-if true a b ha hb = ha
AllBytes-if false a b ha hb = hb

restore-AllBytes : (b : Pktbuf) (slot seq : ℕ) → AllBytes b → AllBytes (restore_seq b slot seq)
restore-AllBytes b slot seq bytes i k = ground (arith, bytes i k, bytes slot k)

copy_ahead-Keeps :
    (b : Pktbuf) (slot seq : ℕ) (s : Receiver)
    → AllBytes b
    → Keeps (aside s) (copy_ahead (pktbuf_slotfor_seq b seq) slot seq s)
copy_ahead-Keeps b slot seq s bytes = by_slot (pktbuf_slotfor_seq b seq) refl
  where
    by_slot :
        (o : Option (ℕ × Pktbuf))
        → pktbuf_slotfor_seq b seq ≡ o
        → Keeps (aside s) (copy_ahead o slot seq s)
    by_slot none e = tt
    by_slot (some (i, b')) e =
        let bytes' = slotfor_seq-IsBytes b b' seq i bytes e in
        (λ j k. ground (arith, bytes' j k, bytes' slot k), refl)

place-Keeps :
    (s : Receiver) (d : Option ℕ) (slot : ℕ)
    → AllBytes s.recv_buf
    → Keeps (aside s) (place_packet d slot s)
place-Keeps s none slot bytes = tt
place-Keeps s (some d) slot bytes =
    let pkt : Pkt = s.recv_buf.head slot in
    let gap : ℕ = sub_u8 (Layout.seq pkt) s.expected_seq in
    Keeps-if _ (not (Layout.tr pkt == 0)) _ _
      (
        AllBytes-if (ltb 0 gap) _ _ (restore-AllBytes s.recv_buf slot s.expected_seq bytes) bytes,
        refl,
      )
      (Keeps-if _ (not (ltb (d + gap) 32)) _ _ tt (
        Keeps-if _ (ltb 0 gap) _ _
          (copy_ahead-Keeps (restore_seq s.recv_buf slot s.expected_seq) slot (Layout.seq pkt)
            (record s { oos_mask = bit_or s.oos_mask (2 ^ (d + gap)) })
            (restore-AllBytes s.recv_buf slot s.expected_seq bytes))
          (bytes, refl)))

pub process-Keeps :
    (slot : ℕ) (s : Receiver) → AllBytes s.recv_buf → Keeps (aside s) (process_incoming_pkt slot s)
unfolding process_incoming_pkt
process-Keeps slot s bytes =
    let s' : Receiver = record s { last_ts = Layout.ts (s.recv_buf.head slot) } in
    place-Keeps s' (distance s') slot bytes

pub put-AllBytes :
    (b : Pktbuf) (slot : ℕ) (pkt : Pkt) → AllBytes b → IsBytes pkt → AllBytes (set_slot b slot pkt)
put-AllBytes b slot pkt bytes fresh i k = ground (arith, bytes i k, fresh k)

after-Keeps :
    (slot : ℕ) (r : NetStatus × Pkt) (s : Receiver)
    → AllBytes s.recv_buf
    → IsBytes r.1
    → Keeps (aside s) (after_recv slot r s)
after-Keeps slot (net_error, pkt) s bytes fresh = (
  restore-AllBytes (set_slot s.recv_buf slot pkt) slot s.expected_seq
      (put-AllBytes s.recv_buf slot pkt bytes fresh),
  refl,
)
after-Keeps slot (net_drop, pkt) s bytes fresh = (
  restore-AllBytes (set_slot s.recv_buf slot pkt) slot s.expected_seq
      (put-AllBytes s.recv_buf slot pkt bytes fresh),
  refl,
)
after-Keeps slot (net_ok, pkt) s bytes fresh =
    let all = put-AllBytes s.recv_buf slot pkt bytes fresh in
    Keeps-if _ (not (Layout.type pkt == ptype_data)) _ _
      (restore-AllBytes (set_slot s.recv_buf slot pkt) slot s.expected_seq all, refl)
      (process-Keeps slot (record s { recv_buf = set_slot s.recv_buf slot pkt }) all)

status_keeps : (r : Status × Pkt) → (status_of_decode r).1 ≡ r.1
status_keeps (e, pkt) = ground arith

window_keeps :
    (expected_seq win_size : ℕ) (r : NetStatus × Pkt)
    → (check_window expected_seq win_size r).1 ≡ r.1
window_keeps expected_seq win_size (net_ok, pkt) = ground arith
window_keeps expected_seq win_size (net_error, pkt) = refl
window_keeps expected_seq win_size (net_drop, pkt) = refl

module _ (z : Zlib) where
  pub recvfrom-IsBytes :
      (rbuf : Pkt) (received : Received)
      → IsBytes rbuf
      → IsReceived received
      → IsBytes (net_recvfrom z rbuf received).1
  unfolding net_recvfrom
  recvfrom-IsBytes rbuf failed bytes good = bytes
  recvfrom-IsBytes rbuf (datagram wire rlen) bytes good =
      let m : Pkt = copy rbuf 0 wire 0 rlen in
      let arrived : IsBytes m = λ i. ground (arith, bytes i, good.0 i) in
      rw (status_keeps (pkt_decode_inline z m rlen)) (decode-IsBytes z m rlen arrived)

  recv-IsBytes :
      (rbuf : Pkt) (received : Received) (expected_seq win_size : ℕ)
      → IsBytes rbuf
      → IsReceived received
      → IsBytes (net_recv_pkt z rbuf received expected_seq win_size).1
  unfolding net_recv_pkt
  recv-IsBytes rbuf received expected_seq win_size bytes good =
      rw (window_keeps expected_seq win_size (net_recvfrom z rbuf received))
        (recvfrom-IsBytes rbuf received bytes good)

  into-Keeps :
      (b : Pktbuf) (win seq : ℕ) (received : Received) (s : Receiver)
      → AllBytes b
      → IsReceived received
      → Keeps (aside s) (receive_into z (pktbuf_slotfor_seq b seq) win received s)
  into-Keeps b win seq received s bytes good = by_slot (pktbuf_slotfor_seq b seq) refl
    where
      by_slot :
          (o : Option (ℕ × Pktbuf))
          → pktbuf_slotfor_seq b seq ≡ o
          → Keeps (aside s) (receive_into z o win received s)
      by_slot none e = tt
      by_slot (some (i, b')) e =
          let bytes' = slotfor_seq-IsBytes b b' seq i bytes e in
          after-Keeps i _ (record s { recv_buf = b' }) bytes'
            (recv-IsBytes (b'.head i) received s.expected_seq (win % 256) (bytes' i) good)

  pub receive-Keeps :
      (received : Received) (s : Receiver)
      → AllBytes s.recv_buf
      → IsReceived received
      → Keeps (aside s) (do_receive_data z received s)
  unfolding do_receive_data
  receive-Keeps received s bytes good =
      into-Keeps s.recv_buf (window_size s) s.expected_seq received s bytes good
