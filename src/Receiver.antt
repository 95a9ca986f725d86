-- ===== src/Receiver.antt =====
-- receiver/receive.c: the receiver's state and its operations. An operation answers the new state
-- and whether the source's function returns a value other than 0.
pub mod Inv
pub mod Empty
pub mod Put
pub mod Holds
pub mod Replies
pub mod Store
pub mod Bytes
pub mod Keeps
pub mod Skip
pub mod Deliver
pub mod Receive
pub mod Loop
pub mod Linger
pub mod Rounds
mod Tests
use project_transport_protoc.Prelude.{
  ℕ, zero, suc, ◌+◌, ◌/◌, ◌%◌, ◌^◌, List, [], ◌∷◌, Bool, true, false, not, ◌==◌, ◌&&◌, ltb, leb,
  if◌then◌else◌, Option, none, some, bit_or, take,
}
use project_transport_protoc.Prelude.Memory.{Mem, slice}
use project_transport_protoc.Prelude.Run.{Run, ret, exit_failure, undefined, out_of_fuel}
use project_transport_protoc.Packet.Layout
use project_transport_protoc.Packet.Layout.{
  Pkt, ptype_data, ptype_ack, ptype_nack, max_window_size, at_payload,
}
use project_transport_protoc.Packet.Codec.{Zlib, pkt_encode_inline}
use project_transport_protoc.Pktbuf.{
  Pktbuf, sub_u8, sub_u32, set_slot, popcount, pktbuf_empty, pktbuf_first, pktbuf_dequeue,
  pktbuf_slotfor_seq,
}
use project_transport_protoc.Net.{
  NetStatus, net_ok, net_error, net_drop, Received, failed, datagram, Datagram, Link, net_send,
  net_recv_pkt,
}

-- The file's static variables and those of its functions, with the trace of the socket and of the
-- output file, both newest first. `none` is -1 in `last_written_len`.
pub record Receiver : Type 0 where
  pub max_window : ℕ
  pub recv_buf : Pktbuf
  pub oos_mask : ℕ
  pub expected_seq : ℕ
  pub last_ts : ℕ
  pub need_ack : Bool
  pub need_nack : Bool
  pub nack_seq : ℕ
  pub last_written_len : Option ℕ
  pub ack_pkt : Pkt
  pub nack_pkt : Pkt
  pub sent : List Datagram
  pub written : List (List ℕ)

abbrev pub zeroed : Pkt
zeroed i = 0

abbrev pub initial : ℕ → Pktbuf → Receiver
initial max_window recv_buf = record {
  max_window = max_window;
  recv_buf = recv_buf;
  oos_mask = 0;
  expected_seq = 0;
  last_ts = 0;
  need_ack = false;
  need_nack = false;
  nack_seq = 0;
  last_written_len = none;
  ack_pkt = Layout.set_type zeroed ptype_ack;
  nack_pkt = Layout.set_type zeroed ptype_nack;
  sent = [];
  written = [];
}

-- What `write` on the output answers after the writes so far: EWOULDBLOCK or EAGAIN, another error,
-- or a count of bytes.
pub data Written : Type 0 where
  would_block broken : Written
  count : ℕ → Written

pub record Output : Type 0 where
  pub write : List (List ℕ) → List ℕ → Written

abbrev pub rbuf_full : Receiver → Bool
rbuf_full s = leb s.max_window (popcount 32 s.oos_mask)

abbrev pub can_empty_rbuf : Receiver → Bool
can_empty_rbuf s = not (pktbuf_empty s.recv_buf) && (s.oos_mask % 2 == 1)

-- The loop of `window_size`, on fuel: a `uint32_t` has 32 bits.
unfoldable pub in_seq_count : ℕ → ℕ → ℕ
in_seq_count zero mask = 0
in_seq_count (suc fuel) mask =
    let rest = in_seq_count fuel (mask / 2) in if mask % 2 == 1 then suc rest else 0

unfoldable pub window_size : Receiver → ℕ
window_size s = sub_u32 s.max_window (in_seq_count 32 s.oos_mask)

-- What the two answers have in common: lines 74 to 76 and 89 to 91.
abbrev pub fill_answer : Pkt → ℕ → Receiver → Pkt
fill_answer pkt seq s =
    Layout.set_window (Layout.set_ts (Layout.set_seq pkt seq) s.last_ts) (window_size s)

abbrev pub not_ok : NetStatus → Bool
not_ok net_ok = false
not_ok net_error = true
not_ok net_drop = true

-- `distance`, or `none` if a NULL pointer is read for it.
unfoldable pub distance : Receiver → Option ℕ
distance s =
    if s.oos_mask % 2 == 1
    then elim (pktbuf_first s.recv_buf) [
      | none ↦ none
      | some slot ↦ some (sub_u8 s.expected_seq (Layout.seq (s.recv_buf.head slot) + 1))
    ]
    else some 0

-- `slot->seq = seq`
abbrev pub restore_seq : Pktbuf → ℕ → ℕ → Pktbuf
restore_seq buf slot seq = set_slot buf slot (Layout.set_seq (buf.head slot) seq)

-- Lines 121 to 128, for a truncated packet.
abbrev pub note_truncated : ℕ → ℕ → Receiver → Receiver
note_truncated slot gap s =
    let seq = Layout.seq (s.recv_buf.head slot) in
    record s {
      need_nack = true;
      nack_seq = seq;
      recv_buf = if ltb 0 gap then restore_seq s.recv_buf slot s.expected_seq else s.recv_buf;
    }

-- Lines 140 and 141, on the slot that `pktbuf_slotfor_seq` has found.
abbrev pub copy_ahead : Option (ℕ × Pktbuf) → ℕ → ℕ → Receiver → Run Receiver
copy_ahead none slot received_seq s = exit_failure
copy_ahead (some (stored, buf)) slot received_seq s =
    ret false
      (record s { recv_buf = set_slot buf stored (Layout.set_seq (buf.head slot) received_seq) })

-- Lines 134 to 141: the packet moves to the slot of its number.
abbrev pub store_ahead : ℕ → Receiver → Run Receiver
store_ahead slot s =
    let received_seq = Layout.seq (s.recv_buf.head slot) in
    copy_ahead (pktbuf_slotfor_seq (restore_seq s.recv_buf slot s.expected_seq) received_seq) slot
      received_seq s

-- Line 146
abbrev pub advance : Receiver → Receiver
advance s = record s {
  expected_seq = (s.expected_seq + sub_u32 s.max_window (window_size s)) % 256;
}

-- Lines 130 to 149, for a whole packet.
abbrev pub store_packet : ℕ → ℕ → ℕ → Receiver → Run Receiver
store_packet slot gap distance s =
    let marked : Receiver = record s { oos_mask = bit_or s.oos_mask (2 ^ (distance + gap)) } in
    if not (ltb (distance + gap) 32)
    then undefined
    else if ltb 0 gap
    then store_ahead slot marked
    else ret false (advance marked)

-- Lines 118 to 149, where `distance` is known.
abbrev pub place_packet : Option ℕ → ℕ → Receiver → Run Receiver
place_packet none slot s = undefined
place_packet (some distance) slot s =
    let pkt : Pkt = s.recv_buf.head slot in
    let gap : ℕ = sub_u8 (Layout.seq pkt) s.expected_seq in
    if not (Layout.tr pkt == 0)
    then ret false (note_truncated slot gap s)
    else store_packet slot gap distance s

-- `pkt` is the slot's packet.
unfoldable pub process_incoming_pkt : ℕ → Receiver → Run Receiver
unfolding distance
process_incoming_pkt slot s =
    let s' : Receiver = record s { last_ts = Layout.ts (s.recv_buf.head slot) } in
    place_packet (distance s') slot s'

-- Line 100, which reads from the socket.
abbrev pub discard_incoming_data : Received → Receiver → Run Receiver
discard_incoming_data failed s = ret true s
discard_incoming_data (datagram wire rlen) s = ret false s

-- Lines 160 to 174, on what `net_recv_pkt` has answered.
abbrev pub after_recv : ℕ → NetStatus × Pkt → Receiver → Run Receiver
after_recv slot (net_error, pkt) s =
    ret true
      (record s { recv_buf = restore_seq (set_slot s.recv_buf slot pkt) slot s.expected_seq })
after_recv slot (net_drop, pkt) s =
    ret false
      (record s { recv_buf = restore_seq (set_slot s.recv_buf slot pkt) slot s.expected_seq })
after_recv slot (net_ok, pkt) s =
    let s' : Receiver = record s { recv_buf = set_slot s.recv_buf slot pkt } in
    if not (Layout.type pkt == ptype_data)
    then ret false (record s' { recv_buf = restore_seq s'.recv_buf slot s.expected_seq })
    else process_incoming_pkt slot s'

module _ (z : Zlib) where
  -- Line 160, on the slot that `pktbuf_slotfor_seq` has found. The window is passed as a `uint8_t`.
  abbrev pub receive_into : Option (ℕ × Pktbuf) → ℕ → Received → Receiver → Run Receiver
  receive_into none win received s = exit_failure
  receive_into (some (slot, buf)) win received s =
      after_recv slot (net_recv_pkt z (buf.head slot) received s.expected_seq (win % 256))
        (record s { recv_buf = buf })

  unfoldable pub do_receive_data : Received → Receiver → Run Receiver
  do_receive_data received s =
      receive_into (pktbuf_slotfor_seq s.recv_buf s.expected_seq) (window_size s) received s

  unfoldable pub do_read_sock : Received → Receiver → Run Receiver
  do_read_sock received s =
      if not (rbuf_full s) then do_receive_data received s else discard_incoming_data received s

module _ (z : Zlib) (link : Link) where
  unfoldable pub send_ack : Receiver → Run Receiver
  send_ack s =
      let pkt : Pkt = pkt_encode_inline z (fill_answer s.ack_pkt s.expected_seq s) in
      let (status, sent) = net_send link s.sent pkt in
      ret (not_ok status) (record s { ack_pkt = pkt; sent = sent })

  unfoldable pub send_nack : ℕ → Receiver → Run Receiver
  send_nack seq s =
      let pkt : Pkt = pkt_encode_inline z (fill_answer s.nack_pkt seq s) in
      let (status, sent) = net_send link s.sent pkt in
      ret (not_ok status) (record s { nack_pkt = pkt; sent = sent })

-- How a round of `do_empty_rbuf` goes on: to line 204, or the function returns.
pub data Chunk : Type 0 where
  proceed : Receiver → Chunk
  stop : Bool → Receiver → Chunk

-- Lines 204 and 205
abbrev pub drop_first : Receiver → Receiver
drop_first s = record s { recv_buf = (pktbuf_dequeue s.recv_buf).1; oos_mask = s.oos_mask / 2 }

module _ (out : Output) where
  -- Lines 189 to 203. The trace holds the bytes that each write accepts.
  unfoldable pub write_chunk : Pkt → Receiver → Chunk
  write_chunk pkt s =
      let len : ℕ = Layout.length pkt in
      let bytes : List ℕ = slice pkt at_payload len in
      let s' : Receiver = record s { last_written_len = some len } in
      if len == 0 then proceed s' else elim (out.write s.written bytes) [
        | would_block ↦ stop false s'
        | broken ↦ stop true s'
        | count n ↦
            let s'' : Receiver = record s' { written = take n bytes ∷ s.written } in
            if n == len then proceed s'' else stop true s''
      ]

  -- The loop, on fuel: each round shifts the mask of 32 bits.
  unfoldable pub empty_loop : ℕ → Receiver → Run Receiver
  empty_loop zero s = out_of_fuel
  empty_loop (suc fuel) s =
      if s.oos_mask % 2 == 1
      then elim (pktbuf_first s.recv_buf) [
        | none ↦ undefined
        | some slot ↦ elim (write_chunk (s.recv_buf.head slot) s) [
          | proceed s' ↦ empty_loop fuel (drop_first s')
          | stop bad s' ↦ ret bad s'
        ]
      ]
      else ret false s

  unfoldable pub do_empty_rbuf : Receiver → Run Receiver
  do_empty_rbuf s = empty_loop 33 s
